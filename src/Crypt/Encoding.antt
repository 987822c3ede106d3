-- ===== src/Crypt/Encoding.antt =====
-- The canonical encoding of internal/crypt/envelope.go: the signed bytes determine the envelope.
use crossfault.Prelude.{
  ℕ, ◌<◌, ◌^◌, ◌≡◌, sym, ◌∙◌, ap, [], ◌∷◌, ◌++◌, Bytes, length, u32, put_uint32, put_uint64,
  length-big_endian, big_endian_inj, append_inj, append_assoc, refl, arith,
}
use crossfault.Crypt.Envelope.{Envelope, len_prefixed, preimage, envelope_domain}

-- The sizes that an envelope has in memory.
pub record IsWire (e : Envelope) : Type 0 where
  pub from_fits : length e.from < 2 ^ 32
  pub to_fits : length e.to < 2 ^ 32
  pub payload_fits : length e.payload < 2 ^ 32
  pub term_fits : e.term < 2 ^ 64
  pub seq_fits : e.seq < 2 ^ 64
  pub hash_fits : length e.prev_hash ≡ 32

-- Equal in everything but the signature.
pub record SameSigned (e e' : Envelope) : Type 0 where
  pub from : e.from ≡ e'.from
  pub to : e.to ≡ e'.to
  pub kind : e.kind ≡ e'.kind
  pub term : e.term ≡ e'.term
  pub seq : e.seq ≡ e'.seq
  pub prev_hash : e.prev_hash ≡ e'.prev_hash
  pub payload : e.payload ≡ e'.payload

len_prefixed_inj :
    (b b' r r' : Bytes)
    → length b < 2 ^ 32
    → length b' < 2 ^ 32
    → len_prefixed b ++ r ≡ len_prefixed b' ++ r'
    → (b ≡ b') × (r ≡ r')
unfolding len_prefixed
len_prefixed_inj b b' r r' h h' e =
    let head = put_uint32 (u32 (length b)) in
    let head' = put_uint32 (u32 (length b')) in
    let regrouped : head ++ (b ++ r) ≡ head' ++ (b' ++ r') =
      sym (append_assoc head b r) ∙ e ∙ append_assoc head' b' r' in
    let same_head =
      length-big_endian 4 (u32 (length b)) ∙ sym (length-big_endian 4 (u32 (length b'))) in
    let parts = append_inj head head' (b ++ r) (b' ++ r') same_head regrouped in
    let counted =
      big_endian_inj 4 (u32 (length b)) (u32 (length b')) (omega arith) (omega arith) parts.0 in
    append_inj b b' r r' (omega arith) parts.1

pub word_inj :
    (a b : ℕ) (r r' : Bytes)
    → a < 2 ^ 64
    → b < 2 ^ 64
    → put_uint64 a ++ r ≡ put_uint64 b ++ r'
    → (a ≡ b) × (r ≡ r')
word_inj a b r r' h h' e =
    let parts =
      append_inj (put_uint64 a) (put_uint64 b) r r'
        (length-big_endian 8 a ∙ sym (length-big_endian 8 b)) e in
    (big_endian_inj 8 a b h h' parts.0, parts.1)

-- Two envelopes with the same signed bytes differ at most in their signature, when their strings are
-- shorter than 2^32 bytes, their numbers fit in 64 bits and their hashes have 32 bytes: no byte can
-- move from one field into the next.
pub preimage_inj :
    (e e' : Envelope) → IsWire e → IsWire e' → preimage e ≡ preimage e' → SameSigned e e'
unfolding preimage
preimage_inj e e' w w' q =
    let body = (append_inj envelope_domain envelope_domain _ _ refl q).1 in
    let from = len_prefixed_inj e.from e'.from _ _ w.from_fits w'.from_fits body in
    let to = len_prefixed_inj e.to e'.to _ _ w.to_fits w'.to_fits from.1 in
    let kind = append_inj (e.kind ∷ []) (e'.kind ∷ []) _ _ refl to.1 in
    let term = word_inj e.term e'.term _ _ w.term_fits w'.term_fits kind.1 in
    let seq = word_inj e.seq e'.seq _ _ w.seq_fits w'.seq_fits term.1 in
    let hash = append_inj e.prev_hash e'.prev_hash _ _ (w.hash_fits ∙ sym w'.hash_fits) seq.1 in
    let payload =
      len_prefixed_inj e.payload e'.payload [] [] w.payload_fits w'.payload_fits
        (ap (λ t. t ++ []) hash.1) in
    record {
      from = from.0;
      to = to.0;
      kind = cc kind.0;
      term = term.0;
      seq = seq.0;
      prev_hash = hash.0;
      payload = payload.0;
    }
