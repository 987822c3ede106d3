-- ===== src/Prelude/Words.antt =====
-- uint64 and uint32 arithmetic, and the fixed-width big-endian encodings of encoding/binary.
use Prim.Native.Nat.{ℕ, zero, suc, ◌+◌, ◌-◌, ◌/◌, ◌%◌, ◌^◌, ◌<◌}
use mathlib.Core.Path.{◌≡◌, refl, sym, ◌∙◌}
use mathlib.Core.List.{List, [], ◌∷◌, ◌++◌}
use native.Mathlib.Omega.{arith}
use native.Mathlib.Nat.{pow-suc}
use crossfault.Prelude.Lists.{length, length-append}

-- A string or a byte slice: the numbers of its bytes.
abbrev pub Bytes : Type 0
Bytes = List ℕ

abbrev pub u64 : ℕ → ℕ
u64 n = n % 2 ^ 64

abbrev pub u32 : ℕ → ℕ
u32 n = n % 2 ^ 32

-- a - b on uint64
abbrev pub sub64 : ℕ → ℕ → ℕ
sub64 a b = (a + 2 ^ 64 - b) % 2 ^ 64

-- The last `w` bytes of `n`, the most significant first.
unfoldable pub big_endian : ℕ → ℕ → Bytes
big_endian zero n = []
big_endian (suc w) n = big_endian w (n / 256) ++ n % 256 ∷ []

abbrev pub put_uint64 : ℕ → Bytes
put_uint64 n = big_endian 8 n

abbrev pub put_uint32 : ℕ → Bytes
put_uint32 n = big_endian 4 n

pub length-big_endian : (w n : ℕ) → length (big_endian w n) ≡ w
unfolding big_endian
length-big_endian zero n = refl
length-big_endian (suc w) n = omega (
  arith,
  length-append {0} (big_endian w (n / 256)) (n % 256 ∷ []),
  length-big_endian w (n / 256),
)

module _ {ℓ} {A : Type ℓ} where
  pub append_inj :
      (xs xs' ys ys' : List A)
      → length xs ≡ length xs'
      → xs ++ ys ≡ xs' ++ ys'
      → (xs ≡ xs') × (ys ≡ ys')
  append_inj [] [] ys ys' h e = (refl, e)
  append_inj [] (x ∷ xs') ys ys' h e = absurd (omega arith)
  append_inj (x ∷ xs) [] ys ys' h e = absurd (omega arith)
  append_inj (x ∷ xs) (x' ∷ xs') ys ys' h e =
      let rest = append_inj xs xs' ys ys' (omega arith) (cc) in
      let front : xs ≡ xs' = rest.0 in (cc, rest.1)

-- A number that fits in `w` bytes is read back from them.
pub big_endian_inj :
    (w a b : ℕ) → a < 256 ^ w → b < 256 ^ w → big_endian w a ≡ big_endian w b → a ≡ b
unfolding big_endian
big_endian_inj zero a b ha hb e = omega arith
big_endian_inj (suc w) a b ha hb e =
    let same_length = length-big_endian w (a / 256) ∙ sym (length-big_endian w (b / 256)) in
    let parts = append_inj _ _ _ _ same_length e in
    let high =
      big_endian_inj w (a / 256) (b / 256) (omega (arith, pow-suc 256 w))
        (omega (arith, pow-suc 256 w)) parts.0 in
    let low : a % 256 ≡ b % 256 = ground (arith, parts.1) in omega arith
