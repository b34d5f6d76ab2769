-- ===== src/Examples/Redactions.antt =====
-- A card number in a text and in a JSON body.
use sovereign_gateway.Base.{
  ℕ, String, ◌≡◌, ◌≢◌, refl, none, some, List, [], ◌∷◌, ◌++◌, ◌==◌, eq_iff, arith, if◌then◌else◌,
  Bool-cases, inl, inr,
}
use sovereign_gateway.Core.Json.{string, object, end, field}
use sovereign_gateway.Redact.Cards.{Phone, groups_from, card, is_shaped}
use sovereign_gateway.Redact.Luhn.{luhn-single, is_ascii_digit, luhn, digits_of, luhn_sum, weigh}
use sovereign_gateway.Redact.Cards.Covering.{card-IsCovered}
use sovereign_gateway.Redact.Cards.Cuts.{IsCut, card-IsCut}
use sovereign_gateway.Redact.Bodies.{Serde, is_container, redact_body}
use sovereign_gateway.Redact.Values.{Redactor, owned, borrowed}
use sovereign_gateway.Redact.Values.Clean.{IsRedactor, text_of}
use sovereign_gateway.Redact.Bodies.Kept.{IsKept, redact_body-IsKept}
use sovereign_gateway.Redact.Cards.Spans.{IsCovered}

-- 4539 1488 0343 6467, with a number before it.
abbrev digits : List ℕ
digits =
    52 ∷ 53 ∷ 51 ∷ 57 ∷ 32 ∷ 49 ∷ 52 ∷ 56 ∷ 56 ∷ 32 ∷ 48 ∷ 51 ∷ 52 ∷ 51 ∷ 32 ∷ 54 ∷ 52 ∷ 54 ∷ []

abbrev found : List ℕ
found = 55 ∷ 32 ∷ digits ++ 55 ∷ []

abbrev no_phone : Phone
no_phone = record { find_at = λ text at. none; find_iter = λ text. [] }

luhn-single_example : ◌≡◌ {A = ℕ} 55 55
unfolding is_ascii_digit luhn digits_of luhn_sum weigh
luhn-single_example = luhn-single digits [] 55 55 refl refl refl refl

card-IsCovered_example : IsCovered (2, 21) (card no_phone found)
unfolding groups_from is_ascii_digit is_shaped luhn digits_of luhn_sum weigh
card-IsCovered_example =
    card-IsCovered no_phone found ((0, 1) ∷ []) (2, 6) ((7, 11) ∷ (12, 16) ∷ (17, 21) ∷ []) [] refl
      (refl, omega arith, omega arith, refl)

card-IsCut_example : IsCut 0 21 (card no_phone found)
card-IsCut_example = card-IsCut no_phone found (λ at start end h. ground arith, tt)

abbrev serde : Serde
serde = record {
  from_slice = λ body. some (object (field "card" (string "4539148803436467") end));
  visited = λ body. some (object (field "card" (string "4539148803436467") end));
  to_vec = λ v. some (123 ∷ 125 ∷ []);
  from_utf8 = λ body. none;
  from_utf8_lossy = λ body. "";
  as_bytes = λ t. [];
}

abbrev redactor : Redactor
redactor t = if t == "4539148803436467" then owned "[CARD]" else borrowed t

IsRedactor-redactor : IsRedactor redactor
IsRedactor-redactor s t h = ground (arith, eq_iff s "4539148803436467")

redactor-clean : (t : String) → text_of (redactor t) ≢ "4539148803436467"
redactor-clean t = elim (Bool-cases (t == "4539148803436467")) [
  | inl q ↦ rw q (λ e. ground (arith, (eq_iff "[CARD]" "4539148803436467").1 e))
  | inr q ↦ rw q (λ e. ground (arith, q, (eq_iff t "4539148803436467").1 e))
]

redact_body-IsKept_example :
    IsKept (λ t. t ≢ "4539148803436467") serde [] (redact_body serde redactor [])
unfolding is_container
redact_body-IsKept_example =
    redact_body-IsKept (λ t. t ≢ "4539148803436467") serde redactor IsRedactor-redactor
      redactor-clean (λ v. (123 ∷ 125 ∷ [], refl)) []
      (object (field "card" (string "4539148803436467") end)) refl refl
