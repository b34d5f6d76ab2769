-- ===== src/Redact/Cards/Spans.antt =====
-- crates/yb-redact/src/lib.rs, `card`: what the steps on spans keep of what they cover.
use sovereign_gateway.Base.{
  ℕ, ◌≤◌, ◌⊎◌, inl, inr, ◌&&◌, ◌||◌, Option, none, some, List, [], ◌∷◌, arith, ltb, leb, eqb,
  Bool-cases, max,
}
use sovereign_gateway.Redact.Cards.{
  Span, push_span, extend_end, extend_start, insert_span, sort_spans, join_spans, dedup_spans,
  Phone, precedes, extend_by,
}

abbrev pub IsWithin : Span → Span → Type 0
IsWithin (from, to) (a, b) = (a ≤ from) × (to ≤ b)

-- A span lies within one of those listed.
abbrev pub IsCovered : Span → List Span → Type 0
IsCovered w [] = ⊥
IsCovered w (s ∷ spans) = IsWithin w s ⊎ IsCovered w spans

-- The starts do not fall, from a number on.
abbrev pub IsAscending : ℕ → List Span → Type 0
IsAscending n [] = Unit
IsAscending n ((a, b) ∷ spans) = (n ≤ a) × IsAscending a spans

-- No span starts after a position.
abbrev pub IsUpTo : ℕ → List Span → Type 0
IsUpTo n [] = Unit
IsUpTo n ((a, b) ∷ spans) = (a ≤ n) × IsUpTo n spans

pub IsUpTo-mono : (m n : ℕ) (spans : List Span) → m ≤ n → IsUpTo m spans → IsUpTo n spans
IsUpTo-mono m n [] h u = tt
IsUpTo-mono m n ((a, b) ∷ spans) h (l, u) = (omega arith, IsUpTo-mono m n spans h u)

pub IsAscending-mono :
    (m n : ℕ) (spans : List Span) → m ≤ n → IsAscending n spans → IsAscending m spans
IsAscending-mono m n [] h u = tt
IsAscending-mono m n ((a, b) ∷ spans) h (l, u) = (omega arith, u)

pub push_span-keeps :
    (w v : Span) (spans : List Span) → IsCovered w spans → IsCovered w (push_span v spans)
unfolding push_span
push_span-keeps w v [] h = absurd h
push_span-keeps w (from, to) ((a, b) ∷ []) (inl h) = elim (Bool-cases (leb from b)) [
  | inl q ↦ rw q (inl (h.0, omega (arith, h.1)))
  | inr q ↦ rw q (inl h)
]
push_span-keeps w (from, to) ((a, b) ∷ []) (inr h) = absurd h
push_span-keeps w v (s ∷ t ∷ spans) (inl h) = inl h
push_span-keeps w v (s ∷ t ∷ spans) (inr h) = inr (push_span-keeps w v (t ∷ spans) h)

pub push_span-IsCovered :
    (from to : ℕ) (spans : List Span)
    → IsUpTo from spans
    → IsCovered (from, to) (push_span (from, to) spans)
unfolding push_span
push_span-IsCovered from to [] h = inl (omega arith)
push_span-IsCovered from to ((a, b) ∷ []) h = elim (Bool-cases (leb from b)) [
  | inl q ↦ rw q (inl (h.0, omega arith))
  | inr q ↦ rw q (inr (inl (omega arith)))
]
push_span-IsCovered from to (s ∷ t ∷ spans) h = inr (push_span-IsCovered from to (t ∷ spans) h.1)

pub push_span-IsUpTo :
    (from to : ℕ) (spans : List Span) → IsUpTo from spans → IsUpTo from (push_span (from, to) spans)
unfolding push_span
push_span-IsUpTo from to [] h = (omega arith, tt)
push_span-IsUpTo from to ((a, b) ∷ []) h = elim (Bool-cases (leb from b)) [
  | inl q ↦ rw q h
  | inr q ↦ rw q (h.0, (omega arith, tt))
]
push_span-IsUpTo from to (s ∷ t ∷ spans) h = (h.0, push_span-IsUpTo from to (t ∷ spans) h.1)

extend_by-IsWithin :
    (group : ℕ) (o : Option Span) (w s : Span) → IsWithin w s → IsWithin w (extend_by group o s)
unfolding extend_by
extend_by-IsWithin group none w s h = h
extend_by-IsWithin group (some (start, end)) w (a, b) h = elim (Bool-cases (eqb start group)) [
  | inl q ↦ rw q (h.0, omega (arith, h.1))
  | inr q ↦ rw q h
]

pub extend_end-IsWithin :
    (phone : Phone) (found : List ℕ) (groups : List Span) (w s : Span)
    → IsWithin w s
    → IsWithin w (extend_end phone found groups s)
unfolding extend_end
extend_end-IsWithin phone found [] w s h = h
extend_end-IsWithin phone found ((group, to) ∷ groups) w (a, b) h =
    extend_end-IsWithin phone found groups w _ (elim (Bool-cases (ltb a group && ltb group b)) [
      | inl q ↦ rw q (extend_by-IsWithin group (phone.find_at found group) w (a, b) h)
      | inr q ↦ rw q h
    ])

pub extend_start-IsWithin :
    (phones : List Span) (w s : Span) → IsWithin w s → IsWithin w (extend_start phones s)
unfolding extend_start
extend_start-IsWithin [] w s h = h
extend_start-IsWithin ((start, end) ∷ phones) w (a, b) h =
    extend_start-IsWithin phones w _ (elim (Bool-cases (ltb start a && ltb a end)) [
      | inl q ↦ rw q (ground (arith, q, h))
      | inr q ↦ rw q h
    ])

pub insert_span-IsCovered :
    (w s : Span) (spans : List Span) → IsCovered w (s ∷ spans) → IsCovered w (insert_span s spans)
unfolding insert_span
insert_span-IsCovered w s [] h = h
insert_span-IsCovered w s (t ∷ spans) h = elim (Bool-cases (precedes s t)) [
  | inl q ↦ rw q h
  | inr q ↦ rw q (elim h [
    | inl within ↦ inr (insert_span-IsCovered w s spans (inl within))
    | inr (inl within) ↦ inl within
    | inr (inr covered) ↦ inr (insert_span-IsCovered w s spans (inr covered))
  ])
]

pub sort_spans-IsCovered :
    (w : Span) (spans : List Span) → IsCovered w spans → IsCovered w (sort_spans spans)
unfolding sort_spans
sort_spans-IsCovered w [] h = h
sort_spans-IsCovered w (s ∷ spans) (inl h) = insert_span-IsCovered w s (sort_spans spans) (inl h)
sort_spans-IsCovered w (s ∷ spans) (inr h) =
    insert_span-IsCovered w s (sort_spans spans) (inr (sort_spans-IsCovered w spans h))

insert_span-IsAscending :
    (n : ℕ) (s : Span) (spans : List Span)
    → n ≤ s.0
    → IsAscending n spans
    → IsAscending n (insert_span s spans)
unfolding insert_span precedes
insert_span-IsAscending n s [] l h = (l, tt)
insert_span-IsAscending n (a, b) ((c, d) ∷ spans) l h =
    elim (Bool-cases (ltb a c || (eqb a c && leb b d))) [
      | inl q ↦ rw q (l, (ground (arith, q), h.1))
      | inr q ↦ rw q (h.0, insert_span-IsAscending c (a, b) spans (ground (arith, q)) h.1)
    ]

pub sort_spans-IsAscending : (spans : List Span) → IsAscending 0 (sort_spans spans)
unfolding sort_spans
sort_spans-IsAscending [] = tt
sort_spans-IsAscending (s ∷ spans) =
    insert_span-IsAscending 0 s (sort_spans spans) (omega arith) (sort_spans-IsAscending spans)

join_spans-IsCovered :
    (w : Span) (a b : ℕ) (spans : List Span)
    → IsAscending a spans
    → IsCovered w ((a, b) ∷ spans)
    → IsCovered w (join_spans (a, b) spans)
unfolding join_spans
join_spans-IsCovered w a b [] s h = h
join_spans-IsCovered w a b ((c, d) ∷ spans) (l, s) h = elim (Bool-cases (leb c b)) [
  | inl q ↦ rw q (
      join_spans-IsCovered w a (max b d) spans (IsAscending-mono a c spans l s) (elim h [
        | inl within ↦ inl (within.0, omega (arith, within.1))
        | inr (inl within) ↦ inl (omega (arith, within))
        | inr (inr covered) ↦ inr covered
      ]))
  | inr q ↦ rw q (elim h [
    | inl within ↦ inl within
    | inr rest ↦ inr (join_spans-IsCovered w c d spans s rest)
  ])
]

pub dedup_spans-IsCovered :
    (w : Span) (n : ℕ) (spans : List Span)
    → IsAscending n spans
    → IsCovered w spans
    → IsCovered w (dedup_spans spans)
unfolding dedup_spans
dedup_spans-IsCovered w n [] s h = h
dedup_spans-IsCovered w n ((a, b) ∷ spans) s h = join_spans-IsCovered w a b spans s.1 h
