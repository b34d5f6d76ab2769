-- ===== src/Redact/Cards.antt =====
-- crates/yb-redact/src/lib.rs, `card`: the card numbers in a run of digit groups. A text is its UTF-8
-- bytes, and a span is its two ends. The search for the phone pattern (regex) is a parameter.
pub mod Spans
pub mod Covering
pub mod Cuts
use sovereign_gateway.Base.{
  ℕ, suc, ◌+◌, ◌-◌, Bool, false, ◌&&◌, ◌||◌, Option, none, some, List, [], ◌∷◌, ◌++◌, map, ltb, leb,
  eqb, if◌then◌else◌, take, max, drop,
}
use sovereign_gateway.Redact.Luhn.{is_ascii_digit, luhn}

abbrev pub Span : Type 0
Span = ℕ × ℕ

-- The phone pattern: `find_at` from a position, and `find_iter`.
pub record Phone : Type 0 where
  pub find_at : List ℕ → ℕ → Option Span
  pub find_iter : List ℕ → List Span

-- The groups of digits from a position on, where one may have started.
unfoldable pub groups_from : ℕ → Option ℕ → List ℕ → List Span
unfolding is_ascii_digit
groups_from i none [] = []
groups_from i (some from) [] = (from, i) ∷ []
groups_from i none (b ∷ bs) =
    let started = groups_from (suc i) (some i) bs in
    let rest = groups_from (suc i) none bs in if is_ascii_digit b then started else rest
groups_from i (some from) (b ∷ bs) =
    let going = groups_from (suc i) (some from) bs in
    let rest = groups_from (suc i) none bs in if is_ascii_digit b then going else (from, i) ∷ rest

unfoldable pub is_shaped : List ℕ → Bool
is_shaped [] = false
is_shaped (a ∷ []) = leb 13 a && leb a 19
is_shaped (a ∷ b ∷ []) = false
is_shaped (a ∷ b ∷ c ∷ []) = eqb a 4 && eqb b 6 && (eqb c 4 || eqb c 5)
is_shaped (a ∷ b ∷ c ∷ d ∷ []) = eqb a 4 && eqb b 4 && eqb c 4 && (leb 1 d && leb d 4)
is_shaped (a ∷ b ∷ c ∷ d ∷ e ∷ []) =
    eqb a 4 && eqb b 4 && eqb c 4 && eqb d 4 && (leb 1 e && leb e 4)
is_shaped (a ∷ b ∷ c ∷ d ∷ e ∷ f ∷ rest) = false

-- `found[from..to]`.
abbrev pub slice : List ℕ → ℕ → ℕ → List ℕ
slice found from to = take (to - from) (drop from found)

-- A span that begins in the last one, or at its end, is joined to it.
unfoldable pub push_span : Span → List Span → List Span
push_span w [] = w ∷ []
push_span (from, to) ((a, b) ∷ []) =
    if leb from b then (a, max b to) ∷ [] else (a, b) ∷ (from, to) ∷ []
push_span w (s ∷ t ∷ spans) = s ∷ push_span w (t ∷ spans)

unfoldable pub is_card : List ℕ → List ℕ → ℕ → ℕ → ℕ → Bool
unfolding is_shaped luhn
is_card found lengths digits from to =
    is_shaped lengths && leb 13 digits && luhn (slice found from to)

-- The windows that begin with a group: their lengths and digits so far, and the groups that follow.
unfoldable pub grow : List ℕ → ℕ → List ℕ → ℕ → List Span → List Span → List Span
unfolding is_card push_span
grow found from lengths digits [] spans = spans
grow found from lengths digits ((a, b) ∷ groups) spans =
    let lengths' = lengths ++ (b - a) ∷ [] in
    let digits' = digits + (b - a) in
    let spans' =
      if is_card found lengths' digits' from b then push_span (from, b) spans else spans in
    let rest = grow found from lengths' digits' groups spans' in
    if ltb 19 digits' then spans else rest

unfoldable pub sweep : List ℕ → List Span → List Span → List Span
unfolding grow
sweep found [] spans = spans
sweep found ((a, b) ∷ groups) spans = sweep found groups (grow found a [] 0 ((a, b) ∷ groups) spans)

-- A phone number that begins with a group inside of a span goes with it.
unfoldable pub extend_by : ℕ → Option Span → Span → Span
extend_by group none span = span
extend_by group (some (start, end)) (a, b) = if eqb start group then (a, max b end) else (a, b)

unfoldable pub extend_end : Phone → List ℕ → List Span → Span → Span
unfolding extend_by
extend_end phone found [] span = span
extend_end phone found ((group, to) ∷ groups) (a, b) = extend_end phone found groups (
    if ltb a group && ltb group b
    then extend_by group (phone.find_at found group) (a, b)
    else (a, b))

-- So does one before the span that reaches into it.
unfoldable pub extend_start : List Span → Span → Span
extend_start [] span = span
extend_start ((start, end) ∷ phones) (a, b) =
    extend_start phones (if ltb start a && ltb a end then (start, b) else (a, b))

-- `sort_unstable` on pairs, whose equal values are the same.
unfoldable pub precedes : Span → Span → Bool
precedes (a, b) (c, d) = ltb a c || (eqb a c && leb b d)

unfoldable pub insert_span : Span → List Span → List Span
unfolding precedes
insert_span s [] = s ∷ []
insert_span s (t ∷ spans) =
    let rest = insert_span s spans in if precedes s t then s ∷ t ∷ spans else t ∷ rest

unfoldable pub sort_spans : List Span → List Span
unfolding insert_span
sort_spans [] = []
sort_spans (s ∷ spans) = insert_span s (sort_spans spans)

-- `dedup_by`, with the span that is kept last.
unfoldable pub join_spans : Span → List Span → List Span
join_spans (a, b) [] = (a, b) ∷ []
join_spans (a, b) ((c, d) ∷ spans) =
    let joined = join_spans (a, max b d) spans in
    let apart = join_spans (c, d) spans in if leb c b then joined else (a, b) ∷ apart

unfoldable pub dedup_spans : List Span → List Span
unfolding join_spans
dedup_spans [] = []
dedup_spans (s ∷ spans) = join_spans s spans

unfoldable pub card : Phone → List ℕ → List Span
unfolding groups_from sweep extend_end extend_start sort_spans dedup_spans
card phone found =
    let groups = groups_from 0 none found in
    let widen : Span → Span =
      λ span. extend_start (phone.find_iter found) (extend_end phone found groups span) in
    dedup_spans (sort_spans (map widen (sweep found groups [])))
