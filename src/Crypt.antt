-- ===== src/Crypt.antt =====
-- internal/crypt: identities and the keyring, signed envelopes, and per-peer transcripts.
pub mod Identity
pub mod Envelope
pub mod Kind
pub mod Transcript
pub mod Encoding
pub mod Tampering
pub mod Stream
pub mod Channel
