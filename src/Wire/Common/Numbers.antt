-- ===== src/Wire/Common/Numbers.antt =====
-- crates/yb-wire/src/common.rs: a count that is written in a JSON object is read back.
use Prim.Native.String.{◌∷◌}
use Prim.Native.Char.{Char, code}
use text.Mathlib.Text.{◌==◌}
use text.Mathlib.TextLemmas.{cons≢nil}
use text.Mathlib.TextEquality.{eq_iff}
use sovereign_gateway.Base.{
  ℕ, zero, suc, ◌+◌, ◌-◌, ◌*◌, ◌/◌, ◌%◌, ◌^◌, ◌<◌, String, ◌≡◌, refl, ap, ◌∙◌, true, false,
  Bool-cases, inl, inr, some, leb, ltb, eqb, arith,
}
use sovereign_gateway.Base.Text.{show, show_from, digit}
use sovereign_gateway.Core.Json.{number}
use sovereign_gateway.Wire.Common.{digits_value, as_u64}

code-digit : (n : ℕ) → code (digit n) ≡ 48 + n % 10
unfolding digit
code-digit n = refl

digits_value-digit :
    (m n : ℕ) (t : String) → digits_value m (digit n ∷ t) ≡ digits_value (m * 10 + n % 10) t
unfolding digits_value digit
digits_value-digit m n t =
    let low : leb 48 (48 + n % 10) ≡ true = ground arith in
    let high : leb (48 + n % 10) 57 ≡ true = ground arith in
    let value : 48 + n % 10 - 48 ≡ n % 10 = omega arith in rw (digits_value, low, high, value) refl

digits_value-show_from :
    (rounds n : ℕ) (acc : String)
    → n < rounds
    → digits_value 0 (show_from rounds n acc) ≡ digits_value n acc
unfolding show_from
digits_value-show_from zero n acc h = let no : ⊥ = omega (arith, h) in elim no [ ]
digits_value-show_from (suc rounds) n acc h = elim (Bool-cases (eqb (n / 10) 0)) [
  | inl q ↦ rw (q, digits_value-digit 0 n acc) (ap (λ k. digits_value k acc) (ground (arith, q)))
  | inr q ↦ rw q (
      digits_value-show_from rounds (n / 10) (digit n ∷ acc) (ground (arith, q, h))
      ∙ digits_value-digit (n / 10) n acc
      ∙ ap (λ k. digits_value k acc) (omega arith))
]

cons-filled : (c : Char) (t : String) → ((c ∷ t) == "") ≡ false
cons-filled c t = elim (Bool-cases ((c ∷ t) == "")) [
  | inl q ↦ elim (cons≢nil ((eq_iff (c ∷ t) "").0 q)) [ ]
  | inr q ↦ q
]

show_from-filled :
    (rounds n : ℕ) (c : Char) (acc : String) → (show_from rounds n (c ∷ acc) == "") ≡ false
unfolding show_from
show_from-filled zero n c acc = cons-filled c acc
show_from-filled (suc rounds) n c acc = elim (Bool-cases (eqb (n / 10) 0)) [
  | inl q ↦ rw q (cons-filled (digit n) (c ∷ acc))
  | inr q ↦ rw q (show_from-filled rounds (n / 10) (digit n) (c ∷ acc))
]

show-filled : (n : ℕ) → (show n == "") ≡ false
unfolding show show_from
show-filled n = elim (Bool-cases (eqb (n / 10) 0)) [
  | inl q ↦ rw q (cons-filled (digit n) "")
  | inr q ↦ rw q (show_from-filled n (n / 10) (digit n) "")
]

pub digits_value-show : (n : ℕ) → digits_value 0 (show n) ≡ some n
unfolding show digits_value
digits_value-show n = digits_value-show_from (suc n) n "" (omega arith)

pub as_u64-show : (n : ℕ) → n < 2 ^ 32 → as_u64 (number (show n)) ≡ some n
unfolding as_u64 show
as_u64-show n h =
    let small : ltb n (2 ^ 64) ≡ true = ground (arith, h) in
    rw (as_u64, digits_value-show n, show-filled n, small) refl
