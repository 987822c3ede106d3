-- ===== src/Crypt/Identity.antt =====
-- internal/crypt/identity.go: key pairs, and the keyring that verifies their signatures.
use crossfault.Prelude.{
  ℕ, ◌-◌, ◌≡◌, ◌⊎◌, inl, inr, refl, Option, none, some, List, [], ◌++◌, Bytes, NodeId, Map, lookup,
  insert, NodeId-Key, keys, length, ltb, if◌then◌else◌, bytes_lt, take, replicate,
}
use crossfault.Prelude.Sorting.{sort}
use crossfault.Platform.{Platform}

pub record Identity : Type 0 where
  pub id : NodeId
  pub priv : Bytes
  pub public_key : Bytes

pub record Keyring : Type 0 where
  pub key_of : Map NodeId Bytes

-- The copy that a caller gets.
unfoldable pub public : Identity → Bytes
public i = i.public_key

-- A public key of fewer than six bytes, which would be a panic, cannot come from ed25519.
unfoldable pub fingerprint : Platform → Identity → Bytes
fingerprint P i = P.encode_to_string (take 6 i.public_key)

pub data Error : Type 0 where
  unknown_sender bad_signature replay : Error

-- What a method with an error result gives back.
pub data Result {i} (X : Type i) : Type i where
  ok : (value : X) → Result X
  err : (why : Error) → Result X

-- The early return on an error.
infixl 5 ◌>>=◌ ◌>>◌
abbrev pub ◌>>=◌ {i j} : {X : Type i} → {Y : Type j} → (r : Result X) → (X → Result Y) → Result Y
r >>= continue = elim r [ err why ↦ err why | ok value ↦ continue value ]

abbrev pub ◌>>◌ {i} : {Y : Type i} → Result (Unit {0}) → (rest : Result Y) → Result Y
checked >> rest = checked >>= λ u. rest

pub Result-cases {i} :
    {X : Type i} (r : Result X) → ((value : X) × (r ≡ ok value)) ⊎ ((why : Error) × (r ≡ err why))
Result-cases (ok value) = inl (value, refl)
Result-cases (err why) = inr (why, refl)

abbrev pub seed_size : ℕ
seed_size = 32

-- A seed that is too short is padded with zeros; one that is too long is cut.
unfoldable pub fit_seed : Bytes → Bytes
fit_seed seed =
    take seed_size
      (if ltb (length seed) seed_size then seed ++ replicate (seed_size - length seed) 0 else seed)

unfoldable pub new_keyring : Keyring
new_keyring = record { key_of = [] }

unfoldable pub add_key : Keyring → NodeId → Bytes → Keyring
add_key k id key = record { key_of = insert id key k.key_of }

unfoldable pub lookup_key : Keyring → NodeId → Result Bytes
lookup_key k id = elim (lookup id k.key_of) [ none ↦ err unknown_sender | some key ↦ ok key ]

unfoldable pub keyring_members : Keyring → List NodeId
keyring_members k = sort bytes_lt (keys k.key_of)

abbrev pub keyring_size : Keyring → ℕ
keyring_size k = length k.key_of

module _ (P : Platform) where
  -- ed25519.GenerateKey on the system's random source is the first argument: `none` is its error.
  unfoldable pub new_identity : Option (Bytes × Bytes) → NodeId → Option Identity
  new_identity generated id = elim generated [
    | none ↦ none
    | some (public_key, priv) ↦ some (record { id = id; priv = priv; public_key = public_key })
  ]

  unfoldable pub new_identity_from_seed : NodeId → Bytes → Identity
  unfolding fit_seed
  new_identity_from_seed id seed =
      let priv = P.new_key_from_seed (fit_seed seed) in
      record { id = id; priv = priv; public_key = P.public_of priv }

  unfoldable pub sign : Identity → Bytes → Bytes
  sign i digest = P.sign_with i.priv digest
