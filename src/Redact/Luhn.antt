-- ===== src/Redact/Luhn.antt =====
-- crates/yb-redact/src/lib.rs, `luhn`: the check digit of a card number. A text is its UTF-8 bytes.
use sovereign_gateway.Base.{
  ℕ, ◌+◌, ◌-◌, ◌*◌, ◌%◌, ◌<◌, ◌≡◌, refl, Bool, true, false, not, ◌&&◌, List, [], ◌∷◌, ◌++◌, arith,
  ltb, leb, eqb, if◌then◌else◌, length, Bool-cases, inl, ap, inr, ◌∙◌, ◌≤◌, sym,
}
use mathlib.Core.List.{reverse, reverse-append, reverse-cons, append_assoc}

unfoldable pub is_ascii_digit : ℕ → Bool
is_ascii_digit b = leb 48 b && leb b 57

-- `to_digit(10)` of the characters, as `filter_map` keeps it.
unfoldable pub digits_of : List ℕ → List ℕ
unfolding is_ascii_digit
digits_of [] = []
digits_of (b ∷ bs) = let rest = digits_of bs in if is_ascii_digit b then (b - 48) ∷ rest else rest

-- Every second digit from the right is doubled.
unfoldable pub weigh : Bool → ℕ → ℕ
weigh doubled d = if doubled then (if ltb 9 (d * 2) then d * 2 - 9 else d * 2) else d

-- The sum of digits that are given from the right.
unfoldable pub luhn_sum : Bool → List ℕ → ℕ
unfolding weigh
luhn_sum doubled [] = 0
luhn_sum doubled (d ∷ ds) = weigh doubled d + luhn_sum (not doubled) ds

unfoldable pub luhn : List ℕ → Bool
unfolding digits_of luhn_sum
luhn candidate =
    let digits = digits_of candidate in
    if not (leb 13 (length digits) && leb (length digits) 19)
    then false
    else eqb (luhn_sum false (reverse digits) % 10) 0

luhn_test :
    luhn (52 ∷ 53 ∷ 51 ∷ 57 ∷ 49 ∷ 52 ∷ 56 ∷ 56 ∷ 48 ∷ 51 ∷ 52 ∷ 51 ∷ 54 ∷ 52 ∷ 54 ∷ 55 ∷ []) ≡ true
unfolding luhn
luhn_test = refl

weigh-injective :
    (doubled : Bool) (c d rest : ℕ)
    → c < 10
    → d < 10
    → (weigh doubled c + rest) % 10 ≡ 0
    → (weigh doubled d + rest) % 10 ≡ 0
    → c ≡ d
unfolding weigh
weigh-injective false c d rest h k e f = omega arith
weigh-injective true c d rest h k e f = ground arith

-- The parity of the digit after some.
after_digits : List ℕ → Bool → Bool
after_digits [] doubled = doubled
after_digits (d ∷ ds) doubled = after_digits ds (not doubled)

rest_sum : Bool → List ℕ → List ℕ → ℕ
unfolding luhn_sum
rest_sum doubled [] vs = luhn_sum (not doubled) vs
rest_sum doubled (u ∷ us) vs = weigh doubled u + rest_sum (not doubled) us vs

luhn_sum-middle :
    (doubled : Bool) (us : List ℕ) (d : ℕ) (vs : List ℕ)
    → luhn_sum doubled (us ++ d ∷ vs) ≡ weigh (after_digits us doubled) d + rest_sum doubled us vs
unfolding luhn_sum rest_sum after_digits
luhn_sum-middle doubled [] d vs = refl
luhn_sum-middle doubled (u ∷ us) d vs = omega (arith, luhn_sum-middle (not doubled) us d vs)

-- Two sequences of digits of a card that differ in one digit cannot both have a right check digit.
luhn_sum-single :
    (us vs : List ℕ) (c d : ℕ)
    → c < 10
    → d < 10
    → luhn_sum false (us ++ c ∷ vs) % 10 ≡ 0
    → luhn_sum false (us ++ d ∷ vs) % 10 ≡ 0
    → c ≡ d
luhn_sum-single us vs c d h k e f =
    weigh-injective (after_digits us false) c d (rest_sum false us vs) h k
      (omega (arith, luhn_sum-middle false us c vs)) (omega (arith, luhn_sum-middle false us d vs))

digits_of-append : (pre post : List ℕ) → digits_of (pre ++ post) ≡ digits_of pre ++ digits_of post
unfolding digits_of
digits_of-append [] post = refl
digits_of-append (b ∷ pre) post = elim (Bool-cases (is_ascii_digit b)) [
  | inl q ↦ rw q (ap (◌∷◌ (b - 48)) (digits_of-append pre post))
  | inr q ↦ rw q (digits_of-append pre post)
]

digits_of-digit :
    (b : ℕ) (bs : List ℕ) → is_ascii_digit b ≡ true → digits_of (b ∷ bs) ≡ (b - 48) ∷ digits_of bs
unfolding digits_of
digits_of-digit b bs q = rw q refl

luhn-sum : (bs : List ℕ) → luhn bs ≡ true → luhn_sum false (reverse (digits_of bs)) % 10 ≡ 0
unfolding luhn
luhn-sum bs h = ground arith

reverse_digits :
    (pre post : List ℕ) (b : ℕ)
    → is_ascii_digit b ≡ true
    → reverse (digits_of (pre ++ b ∷ post))
      ≡ reverse (digits_of post) ++ (b - 48) ∷ reverse (digits_of pre)
reverse_digits pre post b q =
    ap reverse
      (digits_of-append pre (b ∷ post) ∙ ap (λ l. digits_of pre ++ l) (digits_of-digit b post q))
    ∙ reverse-append (digits_of pre) ((b - 48) ∷ digits_of post)
    ∙ ap (λ l. l ++ reverse (digits_of pre)) (reverse-cons (b - 48) (digits_of post))
    ∙ append_assoc (reverse (digits_of post)) ((b - 48) ∷ []) (reverse (digits_of pre))

is_ascii_digit-bounds : (b : ℕ) → is_ascii_digit b ≡ true → (48 ≤ b) × (b < 58)
unfolding is_ascii_digit
is_ascii_digit-bounds b q = ground arith

sum_at :
    (pre post : List ℕ) (b : ℕ)
    → is_ascii_digit b ≡ true
    → luhn (pre ++ b ∷ post) ≡ true
    → luhn_sum false (reverse (digits_of post) ++ (b - 48) ∷ reverse (digits_of pre)) % 10 ≡ 0
sum_at pre post b q h =
    ap (λ l. luhn_sum false l % 10) (sym (reverse_digits pre post b q))
    ∙ luhn-sum (pre ++ b ∷ post) h

-- Where one digit of a number that passes the test is replaced by another digit, the number that
-- results does not pass.
pub luhn-single :
    (pre post : List ℕ) (b c : ℕ)
    → is_ascii_digit b ≡ true
    → is_ascii_digit c ≡ true
    → luhn (pre ++ b ∷ post) ≡ true
    → luhn (pre ++ c ∷ post) ≡ true
    → b ≡ c
luhn-single pre post b c q r h k =
    let (low, high) = is_ascii_digit-bounds b q in
    let (low', high') = is_ascii_digit-bounds c r in
    let same =
      luhn_sum-single (reverse (digits_of post)) (reverse (digits_of pre)) (b - 48) (c - 48)
        (omega arith) (omega arith) (sum_at pre post b q h) (sum_at pre post c r k) in
    omega arith
