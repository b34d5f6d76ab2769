-- ===== src/Server/Headers/Hex.antt =====
-- crates/yb-server/src/lib.rs: the hexadecimal text of bytes says which bytes they are.
use sovereign_gateway.Base.{
  ℕ, zero, suc, ◌+◌, ◌-◌, ◌*◌, ◌%◌, ◌<◌, String, ◌≡◌, refl, sym, ap, ◌∙◌, Bool, true, List, [], ◌∷◌,
  arith, leb, eqb, if◌then◌else◌, All, ◌/◌, false, ◌≤◌, Bool-cases, inl, inr,
}
use Prim.Native.String.{[], ◌∷◌}
use Prim.Native.Char.{Char, code}
use sovereign_gateway.Server.Headers.{hex_digit, to_hex}
use mathlib.Core.Path.{ap₂}

-- A test that succeeds for so many numbers from one on.
passes : (ℕ → Bool) → ℕ → ℕ → Bool
passes test start zero = true
passes test start (suc count) = if test start then passes test (suc start) count else false

passes-at :
    (test : ℕ → Bool) (start count n : ℕ)
    → passes test start count ≡ true
    → start ≤ n
    → n < start + count
    → test n ≡ true
unfolding passes
passes-at test start zero n e low high = absurd (omega arith)
passes-at test start (suc count) n e low high = elim (Bool-cases (test start)) [
  | inl here ↦ elim (Bool-cases (eqb start n)) [
    | inl q ↦ let same : start ≡ n = ground arith in ap test (sym same) ∙ here
    | inr q ↦
        passes-at test (suc start) count n
          (ap (λ b. if b then passes test (suc start) count else false) (sym here) ∙ e)
          (ground arith) (omega arith)
  ]
  | inr fails ↦
      absurd (
        ground
          (arith, sym (ap (λ b. if b then passes test (suc start) count else false) fails) ∙ e))
]

digit_value : Char → ℕ
digit_value c = if leb (code c) 57 then code c - 48 else code c - 87

-- The bytes of hexadecimal text.
from_hex : String → List ℕ
unfolding digit_value
from_hex [] = List.[]
from_hex (c ∷ []) = List.[]
from_hex (c ∷ d ∷ t) = List.◌∷◌ (digit_value c * 16 + digit_value d) (from_hex t)

digits_table : passes (λ n. eqb (digit_value (hex_digit n)) n) 0 16 ≡ true
unfolding passes digit_value hex_digit
digits_table = refl

digit_value-hex_digit : (n : ℕ) → n < 16 → digit_value (hex_digit n) ≡ n
digit_value-hex_digit n h = ground (
  arith,
  passes-at (λ n. eqb (digit_value (hex_digit n)) n) 0 16 n digits_table (omega arith)
      (omega arith),
)

from_hex-to_hex : (bytes : List ℕ) → All (λ b. b < 256) bytes → from_hex (to_hex bytes) ≡ bytes
unfolding from_hex to_hex
from_hex-to_hex List.[] h = refl
from_hex-to_hex (List.◌∷◌ b bytes) (lt, h) =
    ap₂ (List.◌∷◌)
      (omega (
        arith,
        digit_value-hex_digit (b / 16) (omega arith),
        digit_value-hex_digit (b % 16) (omega arith),
      ))
      (from_hex-to_hex bytes h)

-- Two sequences of bytes with the same hexadecimal text are one.
pub to_hex-injective :
    (xs ys : List ℕ)
    → All (λ b. b < 256) xs
    → All (λ b. b < 256) ys
    → to_hex xs ≡ to_hex ys
    → xs ≡ ys
to_hex-injective xs ys h k e = sym (from_hex-to_hex xs h) ∙ ap from_hex e ∙ from_hex-to_hex ys k
