-- ===== src/Crypt/Envelope.antt =====
-- internal/crypt/envelope.go: message kinds, the signed digest, sealing and opening; and `verify` of
-- internal/crypt/chain.go. A Kind is a uint8.
use crossfault.Prelude.{
  ℕ, ◌==◌, Bool, false, [], ◌∷◌, ◌++◌, Bytes, NodeId, length, if◌then◌else◌, put_uint32, put_uint64,
  u32,
}
use crossfault.Platform.{Platform}
use crossfault.Crypt.Identity.{
  Identity, Keyring, Result, ok, err, bad_signature, lookup_key, sign, ◌>>=◌,
}

abbrev pub kind_append_entries : ℕ
kind_append_entries = 1

abbrev pub kind_append_resp : ℕ
kind_append_resp = 2

abbrev pub kind_request_vote : ℕ
kind_request_vote = 3

abbrev pub kind_vote_resp : ℕ
kind_vote_resp = 4

abbrev pub kind_pre_vote : ℕ
kind_pre_vote = 5

abbrev pub kind_pre_vote_resp : ℕ
kind_pre_vote_resp = 6

abbrev pub kind_probe : ℕ
kind_probe = 7

abbrev pub kind_probe_resp : ℕ
kind_probe_resp = 8

pub record Envelope : Type 0 where
  pub from : NodeId
  pub to : NodeId
  pub kind : ℕ
  pub term : ℕ
  pub seq : ℕ
  pub prev_hash : Bytes
  pub payload : Bytes
  pub sig : Bytes

-- "crossfault/v1/envelope" and a zero byte
abbrev pub envelope_domain : Bytes
envelope_domain =
    b'c' ∷ b'r' ∷ b'o' ∷ b's' ∷ b's' ∷ b'f' ∷ b'a' ∷ b'u' ∷ b'l' ∷ b't' ∷ b'/' ∷ b'v' ∷ b'1' ∷ b'/'
    ∷ b'e' ∷ b'n' ∷ b'v' ∷ b'e' ∷ b'l' ∷ b'o' ∷ b'p' ∷ b'e' ∷ 0 ∷ []

abbrev pub signature_size : ℕ
signature_size = 64

unfoldable pub len_prefixed : Bytes → Bytes
len_prefixed b = put_uint32 (u32 (length b)) ++ b

-- The bytes that `digest` writes into the hash.
unfoldable pub preimage : Envelope → Bytes
preimage e =
    envelope_domain
    ++ (len_prefixed e.from
        ++ (len_prefixed e.to
            ++ (e.kind
                ∷ (put_uint64 e.term
                    ++ (put_uint64 e.seq ++ (e.prev_hash ++ len_prefixed e.payload))))))

-- A hostile transit path: the payload changes and the signature stays.
unfoldable pub tamper : (Bytes → Bytes) → Envelope → Envelope
tamper mutate e = record e { payload = mutate e.payload }

module _ (P : Platform) where
  unfoldable pub digest : Envelope → Bytes
  digest e = P.sha256 (preimage e)

  unfoldable pub envelope_hash : Envelope → Bytes
  unfolding digest
  envelope_hash e = digest e

  unfoldable pub verify : Bytes → Bytes → Bytes → Bool
  verify key dig sig = if length sig == signature_size then P.verify_with key dig sig else false

  unfoldable pub seal : Identity → Envelope → Envelope
  unfolding sign digest
  seal id e =
      let named = record e { from = id.id } in record named { sig = sign P id (digest named) }

  unfoldable pub open_envelope : Keyring → Envelope → Result (Unit {0})
  unfolding verify digest lookup_key
  open_envelope k e = do
    key ← lookup_key k e.from
    if verify key (digest e) e.sig then ok tt else err bad_signature
