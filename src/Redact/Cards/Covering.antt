-- ===== src/Redact/Cards/Covering.antt =====
-- crates/yb-redact/src/lib.rs, `card`: every card number that a run of groups holds is found.
use sovereign_gateway.Base.{
  ℕ, suc, ◌+◌, ◌-◌, ◌≤◌, ◌≡◌, refl, sym, inl, inr, Bool, true, false, none, some, List, [], ◌∷◌,
  ◌++◌, map, arith, ltb, if◌then◌else◌, Bool-cases,
}
use sovereign_gateway.Redact.Cards.{
  Span, groups_from, grow, is_card, is_shaped, push_span, slice, sweep, card, Phone, extend_start,
  extend_end, sort_spans,
}
use sovereign_gateway.Redact.Cards.Spans.{
  IsAscending, IsCovered, IsUpTo, IsAscending-mono, push_span-keeps, push_span-IsUpTo,
  push_span-IsCovered, IsWithin, IsUpTo-mono, extend_start-IsWithin, extend_end-IsWithin,
  dedup_spans-IsCovered, sort_spans-IsAscending, sort_spans-IsCovered,
}
use sovereign_gateway.Redact.Luhn.{is_ascii_digit, luhn}
use mathlib.Core.Path.{subst}
use mathlib.Core.List.{append_assoc}

abbrev pub width : Span → ℕ
width (a, b) = b - a

abbrev pub total_width : List Span → ℕ
total_width [] = 0
total_width (s ∷ spans) = width s + total_width spans

-- The end of the last of some groups.
abbrev pub end_of : Span → List Span → ℕ
end_of s [] = s.1
end_of s (t ∷ spans) = end_of t spans

pub groups_from-IsAscending :
    (i : ℕ) (bs : List ℕ)
    → IsAscending i (groups_from i none bs)
      × ((from : ℕ) → from ≤ i → IsAscending from (groups_from i (some from) bs))
unfolding groups_from
groups_from-IsAscending i [] = (tt, λ from h. (omega arith, tt))
groups_from-IsAscending i (b ∷ bs) =
    let (closed, open_) = groups_from-IsAscending (suc i) bs in
    elim (Bool-cases (is_ascii_digit b)) [
      | inl q ↦ (rw q (open_ i (omega arith)), λ from h. rw q (open_ from (omega arith)))
      | inr q ↦ (
        rw q (IsAscending-mono i (suc i) (groups_from (suc i) none bs) (omega arith) closed),
        λ from h. rw q (
          omega arith,
          IsAscending-mono from (suc i) (groups_from (suc i) none bs) (omega arith) closed,
        ),
      )
    ]

grow-keeps :
    (w : Span) (found : List ℕ) (from : ℕ) (lengths : List ℕ) (digits : ℕ)
    (groups spans : List Span)
    → IsCovered w spans
    → IsCovered w (grow found from lengths digits groups spans)
unfolding grow
grow-keeps w found from lengths digits [] spans h = h
grow-keeps w found from lengths digits ((a, b) ∷ groups) spans h =
    elim (Bool-cases (ltb 19 (digits + (b - a)))) [
      | inl q ↦ rw q h
      | inr q ↦ rw q (
          grow-keeps w found from (lengths ++ (b - a) ∷ []) (digits + (b - a)) groups _
            (pushed (is_card found (lengths ++ (b - a) ∷ []) (digits + (b - a)) from b)))
    ]
  where
    pushed : (c : Bool) → IsCovered w (if c then push_span (from, b) spans else spans)
    pushed true = push_span-keeps w (from, b) spans h
    pushed false = h

grow-IsUpTo :
    (found : List ℕ) (from : ℕ) (lengths : List ℕ) (digits : ℕ) (groups spans : List Span)
    → IsUpTo from spans
    → IsUpTo from (grow found from lengths digits groups spans)
unfolding grow
grow-IsUpTo found from lengths digits [] spans h = h
grow-IsUpTo found from lengths digits ((a, b) ∷ groups) spans h =
    elim (Bool-cases (ltb 19 (digits + (b - a)))) [
      | inl q ↦ rw q h
      | inr q ↦ rw q (
          grow-IsUpTo found from (lengths ++ (b - a) ∷ []) (digits + (b - a)) groups _
            (pushed (is_card found (lengths ++ (b - a) ∷ []) (digits + (b - a)) from b)))
    ]
  where
    pushed : (c : Bool) → IsUpTo from (if c then push_span (from, b) spans else spans)
    pushed true = push_span-IsUpTo from b spans h
    pushed false = h

-- The windows that `card` takes: a shape of groups, the number of digits, and the Luhn test.
abbrev pub IsCard : List ℕ → List ℕ → ℕ → ℕ → ℕ → Type 0
IsCard found lengths digits from to =
    (is_shaped lengths ≡ true) × (13 ≤ digits) × (digits ≤ 19) × (luhn (slice found from to) ≡ true)

is_card-true :
    (found lengths : List ℕ) (digits from to : ℕ)
    → IsCard found lengths digits from to
    → is_card found lengths digits from to ≡ true
unfolding is_card
is_card-true found lengths digits from to h = ground (arith, h)

at_most :
    (found lengths : List ℕ) (digits from to : ℕ)
    → IsCard found lengths digits from to
    → digits ≤ 19
at_most found lengths digits from to h = h.2

pushed-IsUpTo :
    (from b : ℕ) (c : Bool) (spans : List Span)
    → IsUpTo from spans
    → IsUpTo from (if c then push_span (from, b) spans else spans)
pushed-IsUpTo from b true spans h = push_span-IsUpTo from b spans h
pushed-IsUpTo from b false spans h = h

grow_step :
    (found : List ℕ) (from : ℕ) (lengths : List ℕ) (digits a b : ℕ) (groups spans : List Span)
    → digits + (b - a) ≤ 19
    → grow found from lengths digits ((a, b) ∷ groups) spans
      ≡ grow found from (lengths ++ (b - a) ∷ []) (digits + (b - a)) groups (
          if is_card found (lengths ++ (b - a) ∷ []) (digits + (b - a)) from b
          then push_span (from, b) spans
          else spans)
unfolding grow
grow_step found from lengths digits a b groups spans h =
    let e : ltb 19 (digits + (b - a)) ≡ false = ground arith in rw e refl

grow-IsCovered :
    (found : List ℕ) (from : ℕ) (lengths : List ℕ) (digits : ℕ) (s : Span)
    (run after spans : List Span)
    → IsUpTo from spans
    → IsCard found
        (lengths ++ map width (s ∷ run))
        (digits + total_width (s ∷ run))
        from
        (end_of s run)
    → IsCovered (from, end_of s run) (grow found from lengths digits (s ∷ run ++ after) spans)
grow-IsCovered found from lengths digits (a, b) [] after spans u h =
    let sum : digits + (width (a, b) + 0) ≡ digits + (b - a) = omega arith in
    let is = subst (λ n. IsCard found (lengths ++ (b - a) ∷ []) n from b) sum h in
    rw
      (grow_step found from lengths digits a b after spans
        (at_most found (lengths ++ (b - a) ∷ []) (digits + (b - a)) from b is))
      (grow-keeps (from, b) found from (lengths ++ (b - a) ∷ []) (digits + (b - a)) after _
        (rw (is_card-true found (lengths ++ (b - a) ∷ []) (digits + (b - a)) from b is)
          (push_span-IsCovered from b spans u)))
grow-IsCovered found from lengths digits (a, b) (t ∷ run) after spans u h =
    let lengths' = lengths ++ (b - a) ∷ [] in
    let digits' = digits + (b - a) in
    let sum : digits + total_width ((a, b) ∷ t ∷ run) ≡ digits' + total_width (t ∷ run) =
      omega arith in
    let is =
      subst (λ n. IsCard found (lengths' ++ map width (t ∷ run)) n from (end_of t run)) sum
        (subst (λ l. IsCard found l (digits + total_width ((a, b) ∷ t ∷ run)) from (end_of t run))
          (sym (append_assoc lengths ((b - a) ∷ []) (map width (t ∷ run)))) h) in
    rw
      (grow_step found from lengths digits a b (t ∷ run ++ after) spans (
        omega (
          arith,
          at_most found (lengths' ++ map width (t ∷ run)) (digits' + total_width (t ∷ run)) from
              (end_of t run) is,
        )))
      (grow-IsCovered found from lengths' digits' t run after _
        (pushed-IsUpTo from b (is_card found lengths' digits' from b) spans u) is)

sweep-keeps :
    (w : Span) (found : List ℕ) (groups spans : List Span)
    → IsCovered w spans
    → IsCovered w (sweep found groups spans)
unfolding sweep
sweep-keeps w found [] spans h = h
sweep-keeps w found ((a, b) ∷ groups) spans h =
    sweep-keeps w found groups _ (grow-keeps w found a [] 0 ((a, b) ∷ groups) spans h)

sweep-IsCovered :
    (found : List ℕ) (n : ℕ) (before : List Span) (s : Span) (run after spans : List Span)
    → IsAscending n (before ++ (s ∷ run ++ after))
    → IsUpTo n spans
    → IsCard found (map width (s ∷ run)) (total_width (s ∷ run)) s.0 (end_of s run)
    → IsCovered (s.0, end_of s run) (sweep found (before ++ (s ∷ run ++ after)) spans)
unfolding sweep
sweep-IsCovered found n [] (a, b) run after spans (l, asc) u h =
    sweep-keeps (a, end_of (a, b) run) found (run ++ after) _
      (grow-IsCovered found a [] 0 (a, b) run after spans (IsUpTo-mono n a spans l u)
        (subst (λ k. IsCard found (map width ((a, b) ∷ run)) k a (end_of (a, b) run)) (omega arith)
          h))
sweep-IsCovered found n ((a, b) ∷ before) s run after spans (l, asc) u h =
    let groups = before ++ (s ∷ run ++ after) in
    sweep-IsCovered found a before s run after (grow found a [] 0 ((a, b) ∷ groups) spans) asc
      (grow-IsUpTo found a [] 0 ((a, b) ∷ groups) spans (IsUpTo-mono n a spans l u)) h

map-IsCovered :
    (f : Span → Span) (w : Span) (spans : List Span)
    → ((s : Span) → IsWithin w s → IsWithin w (f s))
    → IsCovered w spans
    → IsCovered w (map f spans)
map-IsCovered f w [] wider h = h
map-IsCovered f w (s ∷ spans) wider (inl h) = inl (wider s h)
map-IsCovered f w (s ∷ spans) wider (inr h) = inr (map-IsCovered f w spans wider h)

-- Every card number is redacted: where consecutive groups of digits have the lengths of a card, 13 to 19
-- digits in all, and pass the Luhn test, one of the spans covers them from the first digit to the last,
-- whatever the groups before and after them and the phone numbers are.
pub card-IsCovered :
    (phone : Phone) (found : List ℕ) (before : List Span) (s : Span) (run after : List Span)
    → groups_from 0 none found ≡ before ++ (s ∷ run ++ after)
    → IsCard found (map width (s ∷ run)) (total_width (s ∷ run)) s.0 (end_of s run)
    → IsCovered (s.0, end_of s run) (card phone found)
unfolding card
card-IsCovered phone found before s run after e h =
    let w : Span = (s.0, end_of s run) in
    let groups = groups_from 0 none found in
    let widen : Span → Span =
      λ span. extend_start (phone.find_iter found) (extend_end phone found groups span) in
    let swept = sweep found groups [] in
    let found_in : IsCovered w swept =
      subst (λ g. IsCovered w (sweep found g [])) (sym e)
        (sweep-IsCovered found 0 before s run after []
          (subst (IsAscending 0) e (groups_from-IsAscending 0 found).0) tt h) in
    let widened =
      map-IsCovered widen w swept
        (λ t within.
          extend_start-IsWithin (phone.find_iter found) w (extend_end phone found groups t)
            (extend_end-IsWithin phone found groups w t within))
        found_in in
    dedup_spans-IsCovered w 0 (sort_spans (map widen swept))
      (sort_spans-IsAscending (map widen swept)) (sort_spans-IsCovered w (map widen swept) widened)
