-- ===== src/Redact/Cards/Cuts.antt =====
-- crates/yb-redact/src/lib.rs, `card` and the replacement of a match: a text is cut at the spans in order.
use sovereign_gateway.Base.{
  ℕ, suc, ◌+◌, ◌-◌, ◌≤◌, ◌≡◌, refl, inl, inr, Bool, true, false, ◌&&◌, Option, none, some, List, [],
  ◌∷◌, ◌++◌, map, arith, ltb, leb, eqb, if◌then◌else◌, Bool-cases, All, length, max,
}
use sovereign_gateway.Redact.Cards.{
  Span, groups_from, push_span, grow, sweep, insert_span, sort_spans, join_spans, Phone, extend_end,
  extend_start, precedes, is_card, extend_by, dedup_spans, card,
}
use sovereign_gateway.Redact.Luhn.{is_ascii_digit}
use sovereign_gateway.Redact.Cards.Spans.{IsAscending, IsAscending-mono}
use sovereign_gateway.Redact.Cards.Covering.{groups_from-IsAscending}

abbrev pub IsInside : ℕ → Span → Type 0
IsInside hi (a, b) = (a ≤ b) × (b ≤ hi)

-- Each span begins where the one before it ends, or later, and the last ends inside of the text.
abbrev pub IsCut : ℕ → ℕ → List Span → Type 0
IsCut kept hi [] = kept ≤ hi
IsCut kept hi ((a, b) ∷ spans) = (kept ≤ a) × (a ≤ b) × IsCut b hi spans

groups_from-IsInside :
    (i : ℕ) (bs : List ℕ) (hi : ℕ)
    → i + length bs ≤ hi
    → All (IsInside hi) (groups_from i none bs)
      × ((from : ℕ) → from ≤ i → All (IsInside hi) (groups_from i (some from) bs))
unfolding groups_from
groups_from-IsInside i [] hi l = (tt, λ from h. ((h, omega arith), tt))
groups_from-IsInside i (b ∷ bs) hi l =
    let (closed, open_) = groups_from-IsInside (suc i) bs hi (omega arith) in
    elim (Bool-cases (is_ascii_digit b)) [
      | inl q ↦ (rw q (open_ i (omega arith)), λ from h. rw q (open_ from (omega arith)))
      | inr q ↦ (rw q closed, λ from h. rw q ((h, omega arith), closed))
    ]

push_span-IsInside :
    (hi : ℕ) (v : Span) (spans : List Span)
    → IsInside hi v
    → All (IsInside hi) spans
    → All (IsInside hi) (push_span v spans)
unfolding push_span
push_span-IsInside hi v [] i h = (i, tt)
push_span-IsInside hi (from, to) ((a, b) ∷ []) i h = elim (Bool-cases (leb from b)) [
  | inl q ↦ rw q (omega (arith, i, h.0), tt)
  | inr q ↦ rw q (h.0, (i, tt))
]
push_span-IsInside hi v (s ∷ t ∷ spans) i h = (h.0, push_span-IsInside hi v (t ∷ spans) i h.1)

grow-IsInside :
    (hi : ℕ) (found : List ℕ) (from : ℕ) (lengths : List ℕ) (digits : ℕ) (groups spans : List Span)
    → IsAscending from groups
    → All (IsInside hi) groups
    → All (IsInside hi) spans
    → All (IsInside hi) (grow found from lengths digits groups spans)
unfolding grow
grow-IsInside hi found from lengths digits [] spans asc g h = h
grow-IsInside hi found from lengths digits ((a, b) ∷ groups) spans asc g h =
    elim (Bool-cases (ltb 19 (digits + (b - a)))) [
      | inl q ↦ rw q h
      | inr q ↦ rw q (
          grow-IsInside hi found from (lengths ++ (b - a) ∷ []) (digits + (b - a)) groups _
            (IsAscending-mono from a groups asc.0 asc.1) g.1
            (pushed (is_card found (lengths ++ (b - a) ∷ []) (digits + (b - a)) from b)))
    ]
  where
    pushed : (c : Bool) → All (IsInside hi) (if c then push_span (from, b) spans else spans)
    pushed true = push_span-IsInside hi (from, b) spans (omega (arith, asc.0, g.0)) h
    pushed false = h

sweep-IsInside :
    (hi n : ℕ) (found : List ℕ) (groups spans : List Span)
    → IsAscending n groups
    → All (IsInside hi) groups
    → All (IsInside hi) spans
    → All (IsInside hi) (sweep found groups spans)
unfolding sweep
sweep-IsInside hi n found [] spans asc g h = h
sweep-IsInside hi n found ((a, b) ∷ groups) spans asc g h =
    sweep-IsInside hi a found groups _ asc.1 g.1
      (grow-IsInside hi found a [] 0 ((a, b) ∷ groups) spans (omega arith, asc.1) g h)

insert_span-All :
    (P : Span → Type 0) (s : Span) (spans : List Span)
    → P s
    → All P spans
    → All P (insert_span s spans)
unfolding insert_span
insert_span-All P s [] p h = (p, tt)
insert_span-All P s (t ∷ spans) p h = elim (Bool-cases (precedes s t)) [
  | inl q ↦ rw q (p, h)
  | inr q ↦ rw q (h.0, insert_span-All P s spans p h.1)
]

sort_spans-All : (P : Span → Type 0) (spans : List Span) → All P spans → All P (sort_spans spans)
unfolding sort_spans
sort_spans-All P [] h = tt
sort_spans-All P (s ∷ spans) h =
    insert_span-All P s (sort_spans spans) h.0 (sort_spans-All P spans h.1)

join_spans-IsCut :
    (hi kept a b : ℕ) (spans : List Span)
    → kept ≤ a
    → IsInside hi (a, b)
    → All (IsInside hi) spans
    → IsCut kept hi (join_spans (a, b) spans)
unfolding join_spans
join_spans-IsCut hi kept a b [] k i h = (k, i.0, i.1)
join_spans-IsCut hi kept a b ((c, d) ∷ spans) k i h = elim (Bool-cases (leb c b)) [
  | inl q ↦ rw q (join_spans-IsCut hi kept a (max b d) spans k (omega (arith, i, h.0)) h.1)
  | inr q ↦ rw q (k, i.0, join_spans-IsCut hi b c d spans (ground (arith, q)) h.0 h.1)
]

-- The phone pattern's matches lie inside of the text that is searched.
abbrev pub IsSearch : Phone → List ℕ → Type 0
IsSearch phone found =
    ((at start end : ℕ)
      → phone.find_at found at ≡ some (start, end)
      → IsInside (length found) (start, end))
    × All (IsInside (length found)) (phone.find_iter found)

extend_by-IsInside :
    (hi group : ℕ) (o : Option Span) (s : Span)
    → ((start end : ℕ) → o ≡ some (start, end) → IsInside hi (start, end))
    → IsInside hi s
    → IsInside hi (extend_by group o s)
unfolding extend_by
extend_by-IsInside hi group none s p h = h
extend_by-IsInside hi group (some (start, end)) (a, b) p h = elim (Bool-cases (eqb start group)) [
  | inl q ↦ rw q (omega (arith, h, p start end refl))
  | inr q ↦ rw q h
]

extend_end-IsInside :
    (phone : Phone) (found : List ℕ) (groups : List Span) (s : Span)
    → IsSearch phone found
    → IsInside (length found) s
    → IsInside (length found) (extend_end phone found groups s)
unfolding extend_end
extend_end-IsInside phone found [] s p h = h
extend_end-IsInside phone found ((group, to) ∷ groups) (a, b) p h =
    extend_end-IsInside phone found groups _ p (elim (Bool-cases (ltb a group && ltb group b)) [
      | inl q ↦ rw q (
          extend_by-IsInside (length found) group (phone.find_at found group) (a, b)
            (λ start end e. p.0 group start end e) h)
      | inr q ↦ rw q h
    ])

extend_start-IsInside :
    (hi : ℕ) (phones : List Span) (s : Span) → IsInside hi s → IsInside hi (extend_start phones s)
unfolding extend_start
extend_start-IsInside hi [] s h = h
extend_start-IsInside hi ((start, end) ∷ phones) (a, b) h =
    extend_start-IsInside hi phones _ (elim (Bool-cases (ltb start a && ltb a end)) [
      | inl q ↦ rw q (ground (arith, q, h))
      | inr q ↦ rw q h
    ])

map-All :
    (P : Span → Type 0) (f : Span → Span) (spans : List Span)
    → ((s : Span) → P s → P (f s))
    → All P spans
    → All P (map f spans)
map-All P f [] k h = tt
map-All P f (s ∷ spans) k h = (k s h.0, map-All P f spans k h.1)

dedup_spans-IsCut :
    (hi : ℕ) (spans : List Span) → All (IsInside hi) spans → IsCut 0 hi (dedup_spans spans)
unfolding dedup_spans
dedup_spans-IsCut hi [] h = omega arith
dedup_spans-IsCut hi ((a, b) ∷ spans) h = join_spans-IsCut hi 0 a b spans (omega arith) h.0 h.1

-- Where the phone pattern's matches lie inside of the text, the spans of the cards are in order, apart
-- and inside of the text: no slice of it between two markers is out of range.
pub card-IsCut :
    (phone : Phone) (found : List ℕ)
    → IsSearch phone found
    → IsCut 0 (length found) (card phone found)
unfolding card
card-IsCut phone found p =
    let hi = length found in
    let groups = groups_from 0 none found in
    let widen : Span → Span =
      λ span. extend_start (phone.find_iter found) (extend_end phone found groups span) in
    let inside = (groups_from-IsInside 0 found hi (omega arith)).0 in
    let swept = sweep-IsInside hi 0 found groups [] (groups_from-IsAscending 0 found).0 inside tt in
    let widened =
      map-All (IsInside hi) widen (sweep found groups [])
        (λ s i.
          extend_start-IsInside hi (phone.find_iter found) (extend_end phone found groups s)
            (extend_end-IsInside phone found groups s p i))
        swept in
    dedup_spans-IsCut hi (sort_spans (map widen (sweep found groups [])))
      (sort_spans-All (IsInside hi) (map widen (sweep found groups [])) widened)
