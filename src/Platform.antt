-- ===== src/Platform.antt =====
-- What the program calls and does not implement: crypto/sha256, crypto/ed25519, encoding/json, encoding/hex and
-- math/rand. Keys, digests and signatures are byte slices. `PlatformLaws` is the documented
-- behaviour of them that some theorems name as a hypothesis.
use crossfault.Prelude.{ℕ, ◌<◌, ◌≡◌, Bool, true, Option, Bytes, length}
use crossfault.Messages.{AppendReq, AppendResp, VoteReq, VoteResp, ProbeReq, ProbeResp}

pub record Platform : Type 1 where
  pub sha256 : Bytes → Bytes
  -- ed25519: NewKeyFromSeed, PrivateKey.Public, Sign, Verify
  pub new_key_from_seed : Bytes → Bytes
  pub public_of : Bytes → Bytes
  pub sign_with : Bytes → Bytes → Bytes
  pub verify_with : Bytes → Bytes → Bytes → Bool
  -- hex.EncodeToString
  pub encode_to_string : Bytes → Bytes
  -- json.Marshal and json.Unmarshal at each payload
  pub marshal_append_req : AppendReq → Option Bytes
  pub marshal_append_resp : AppendResp → Option Bytes
  pub marshal_vote_req : VoteReq → Option Bytes
  pub marshal_vote_resp : VoteResp → Option Bytes
  pub marshal_probe_req : ProbeReq → Option Bytes
  pub marshal_probe_resp : ProbeResp → Option Bytes
  pub unmarshal_append_req : Bytes → Option AppendReq
  pub unmarshal_append_resp : Bytes → Option AppendResp
  pub unmarshal_vote_req : Bytes → Option VoteReq
  pub unmarshal_vote_resp : Bytes → Option VoteResp
  pub unmarshal_probe_req : Bytes → Option ProbeReq
  pub unmarshal_probe_resp : Bytes → Option ProbeResp
  -- a rand.Rand, from its seed, and Intn, which also advances it
  pub Rng : Type 0
  pub new_rng : ℕ → Rng
  pub intn : Rng → ℕ → ℕ × Rng

pub record PlatformLaws (P : Platform) : Type 0 where
  pub length-sha256 : (b : Bytes) → length (P.sha256 b) ≡ 32
  pub length-sign : (key digest : Bytes) → length (P.sign_with key digest) ≡ 64
  pub verify-sign :
      (key digest : Bytes) → P.verify_with (P.public_of key) digest (P.sign_with key digest) ≡ true
  pub intn-lt : (r : P.Rng) (n : ℕ) → 0 < n → (P.intn r n).0 < n

-- Two different inputs with one SHA-256 digest.
abbrev pub Collision : Platform → Type 0
Collision P = (x : Bytes) × (y : Bytes) × (¬ (x ≡ y)) × (P.sha256 x ≡ P.sha256 y)
