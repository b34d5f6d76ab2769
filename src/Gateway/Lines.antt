-- ===== src/Gateway/Lines.antt =====
-- crates/yb-gateway/src/service.rs, the buffer of `aggregate_stream` and `translate_stream`: bytes are
-- kept until a line feed ends their line.
use sovereign_gateway.Base.{
  ℕ, ◌≡◌, refl, ap, ◌∙◌, inl, inr, List, [], ◌∷◌, ◌++◌, eqb, if◌then◌else◌, Bool-cases, All, false,
}

abbrev pub Lines : Type 0
Lines = List (List ℕ) × List ℕ

abbrev push_byte : ℕ → Lines → Lines
push_byte b ([], rest) = ([], b ∷ rest)
push_byte b (l ∷ ls, rest) = ((b ∷ l) ∷ ls, rest)

-- The complete lines of a buffer, each with its line feed, and the bytes that stay in it.
unfoldable pub split_lines : List ℕ → Lines
split_lines [] = ([], [])
split_lines (b ∷ bs) =
    let (lines, rest) = split_lines bs in
    if eqb b 10 then ((b ∷ []) ∷ lines, rest) else push_byte b (lines, rest)

-- The chunks of a body, in order.
abbrev pub concat : List (List ℕ) → List ℕ
concat [] = []
concat (c ∷ cs) = c ++ concat cs

-- Lines that were complete before come first.
abbrev pub after_lines : List (List ℕ) → Lines → Lines
after_lines ls (more, rest) = (ls ++ more, rest)

push_byte-after_lines :
    (b : ℕ) (p : Lines) (ys : List ℕ)
    → eqb b 10 ≡ false
    → push_byte b (after_lines p.0 (split_lines (p.1 ++ ys)))
      ≡ after_lines (push_byte b p).0 (split_lines ((push_byte b p).1 ++ ys))
unfolding split_lines
push_byte-after_lines b ([], rest) ys q = rw q refl
push_byte-after_lines b (l ∷ ls, rest) ys q = refl

-- A buffer that is split when more bytes come gives the lines that it gives all at once.
pub split_lines-append :
    (xs ys : List ℕ)
    → split_lines (xs ++ ys)
      ≡ after_lines (split_lines xs).0 (split_lines ((split_lines xs).1 ++ ys))
unfolding split_lines
split_lines-append [] ys = refl
split_lines-append (b ∷ xs) ys = elim (Bool-cases (eqb b 10)) [
  | inl q ↦ rw (q, split_lines-append xs ys) refl
  | inr q ↦ rw (q, split_lines-append xs ys) (push_byte-after_lines b (split_lines xs) ys q)
]

-- No byte of the rest is a line feed.
abbrev pub IsPartial : List ℕ → Type 0
IsPartial bs = All (λ b. eqb b 10 ≡ false) bs

push_byte-IsPartial :
    (b : ℕ) (p : Lines) → eqb b 10 ≡ false → IsPartial p.1 → IsPartial (push_byte b p).1
push_byte-IsPartial b ([], rest) q h = (q, h)
push_byte-IsPartial b (l ∷ ls, rest) q h = h

pub split_lines-IsPartial : (bs : List ℕ) → IsPartial (split_lines bs).1
unfolding split_lines
split_lines-IsPartial [] = tt
split_lines-IsPartial (b ∷ bs) = elim (Bool-cases (eqb b 10)) [
  | inl q ↦ rw q (split_lines-IsPartial bs)
  | inr q ↦ rw q (push_byte-IsPartial b (split_lines bs) q (split_lines-IsPartial bs))
]

push_byte-concat :
    (b : ℕ) (p : Lines) → concat (push_byte b p).0 ++ (push_byte b p).1 ≡ b ∷ (concat p.0 ++ p.1)
push_byte-concat b ([], rest) = refl
push_byte-concat b (l ∷ ls, rest) = refl

-- The lines and the rest are the bytes of the buffer, in order.
pub split_lines-concat : (bs : List ℕ) → concat (split_lines bs).0 ++ (split_lines bs).1 ≡ bs
unfolding split_lines
split_lines-concat [] = refl
split_lines-concat (b ∷ bs) = elim (Bool-cases (eqb b 10)) [
  | inl q ↦ rw q (ap (◌∷◌ b) (split_lines-concat bs))
  | inr q ↦ rw q (push_byte-concat b (split_lines bs) ∙ ap (◌∷◌ b) (split_lines-concat bs))
]

pub split_lines_partial : (bs : List ℕ) → IsPartial bs → split_lines bs ≡ ([], bs)
unfolding split_lines
split_lines_partial [] h = refl
split_lines_partial (b ∷ bs) (q, h) = rw (q, split_lines_partial bs h) refl
