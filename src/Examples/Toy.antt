-- ===== src/Examples/Toy.antt =====
-- A concrete platform for the runs of internal/: a checksum for the hash, signatures that carry the
-- digest and the key, payloads of plain numbers, and a generator that counts.
use crossfault.Prelude.{
  append_inj, take-append_le, take_all, same→eq, sym, ℕ, zero, suc, ◌+◌, ◌*◌, ◌%◌, ◌^◌, ◌≡◌, ◌∙◌,
  Bool, true, false, Option, none, some, List, [], ◌∷◌, ◌++◌, Bytes, NodeId, length, take,
  replicate, big_endian, length-big_endian, same, same_self, arith, length-append, length-take,
}
use crossfault.Messages.{Entry, AppendReq, AppendResp, VoteReq, VoteResp}
use crossfault.Platform.{Platform, PlatformLaws}
use crossfault.Crypt.Identity.{Identity, Keyring}
use crossfault.Crypt.Tampering.{OnlySigns}

abbrev checksum : ℕ → Bytes → ℕ
checksum h [] = h
checksum h (b ∷ bs) = checksum ((h * 257 + b + 1) % 2 ^ 61) bs

abbrev fit : Bytes → Bytes
fit b = take 32 (b ++ replicate 32 0)

abbrev of_bool : Bool → ℕ
of_bool true = 1
of_bool false = 0

abbrev to_bool : ℕ → Bool
to_bool zero = false
to_bool (suc n) = true

-- Entries with a command of one byte.
abbrev put_entries : List Entry → Bytes
put_entries [] = []
put_entries (e ∷ es) = e.term ∷ e.index ∷ e.command ++ put_entries es

abbrev get_entries : Bytes → List Entry
get_entries (t ∷ i ∷ c ∷ rest) =
    record { term = t; index = i; command = c ∷ []; prev_hash = []; hash = [] } ∷ get_entries rest
get_entries _ = []

abbrev get_append_req : Bytes → Option AppendReq
get_append_req (t ∷ i ∷ p ∷ c ∷ l ∷ rest) = some (record {
  term = t;
  leader = l ∷ [];
  prev_index = i;
  prev_term = p;
  entries = get_entries rest;
  leader_commit = c;
})
get_append_req _ = none

abbrev get_append_resp : Bytes → Option AppendResp
get_append_resp (t ∷ s ∷ m ∷ c ∷ []) =
    some (record { term = t; success = to_bool s; match_index = m; conflict_index = c })
get_append_resp _ = none

abbrev get_vote_req : Bytes → Option VoteReq
get_vote_req (t ∷ i ∷ p ∷ v ∷ c) =
    some (record { term = t; candidate = c; last_index = i; last_term = p; pre_vote = to_bool v })
get_vote_req _ = none

abbrev get_vote_resp : Bytes → Option VoteResp
get_vote_resp (t ∷ g ∷ v ∷ []) =
    some (record { term = t; granted = to_bool g; pre_vote = to_bool v })
get_vote_resp _ = none

abbrev pub toy : Platform
toy = record {
  sha256 = λ b. big_endian 32 (checksum 7 b);
  new_key_from_seed = λ seed. seed;
  public_of = λ key. key;
  sign_with = λ key digest. fit digest ++ fit key;
  verify_with = λ key digest sig. same sig (fit digest ++ fit key);
  encode_to_string = λ b. b;
  marshal_append_req = λ m.
      some
        (m.term ∷ m.prev_index ∷ m.prev_term ∷ m.leader_commit ∷ m.leader ++ put_entries m.entries);
  marshal_append_resp =
      λ m. some (m.term ∷ of_bool m.success ∷ m.match_index ∷ m.conflict_index ∷ []);
  marshal_vote_req =
      λ m. some (m.term ∷ m.last_index ∷ m.last_term ∷ of_bool m.pre_vote ∷ m.candidate);
  marshal_vote_resp = λ m. some (m.term ∷ of_bool m.granted ∷ of_bool m.pre_vote ∷ []);
  marshal_probe_req = λ m. some (m.term ∷ m.from);
  marshal_probe_resp = λ m. some (m.term ∷ m.from);
  unmarshal_append_req = get_append_req;
  unmarshal_append_resp = get_append_resp;
  unmarshal_vote_req = get_vote_req;
  unmarshal_vote_resp = get_vote_resp;
  unmarshal_probe_req = λ b. none;
  unmarshal_probe_resp = λ b. none;
  Rng = ℕ;
  new_rng = λ seed. seed;
  intn = λ r n. (r % n, r + 1);
}

length-fit : (b : Bytes) → length (fit b) ≡ 32
length-fit b =
    length-take 32 (b ++ replicate 32 0) (omega (arith, length-append b (replicate 32 0)))

pub toy-laws : PlatformLaws toy
toy-laws = record {
  length-sha256 = λ b. length-big_endian 32 (checksum 7 b);
  length-sign = λ key digest.
      length-append (fit digest) (fit key) ∙ omega (arith, length-fit digest, length-fit key);
  verify-sign = λ key digest. same_self (fit digest ++ fit key);
  intn-lt = λ r n positive. omega arith;
}

abbrev pub a : NodeId
a = b'a' ∷ []

abbrev pub b : NodeId
b = b'b' ∷ []

abbrev pub c : NodeId
c = b'c' ∷ []

abbrev pub trio : List NodeId
trio = a ∷ b ∷ c ∷ []

abbrev pub key_pair : NodeId → Identity
key_pair id = record { id = id; priv = id; public_key = id }

abbrev pub ring : Keyring
ring = record { key_of = (a, a) ∷ (b, b) ∷ (c, c) ∷ [] }

fit-id : (d : Bytes) → length d ≡ 32 → fit d ≡ d
fit-id d h = take-append_le 32 d (replicate 32 0) (omega arith) ∙ take_all 32 d (omega arith)

-- The toy signature carries the digest, so it verifies on no other one.
pub OnlySigns-toy : (key d : Bytes) → length d ≡ 32 → OnlySigns toy (fit d ++ fit key) d
OnlySigns-toy key d size key' d' size' verified =
    let one =
      append_inj (fit d) (fit d') (fit key) (fit key') (length-fit d ∙ sym (length-fit d'))
        (same→eq _ _ verified) in
    sym (fit-id d' size') ∙ sym one.0 ∙ fit-id d size
