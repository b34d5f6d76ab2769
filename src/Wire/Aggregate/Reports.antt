-- ===== src/Wire/Aggregate/Reports.antt =====
-- The usage that crates/yb-wire/src/aggregate.rs adds up from the reports of a stream.
use sovereign_gateway.Base.{◌≡◌, refl, sym, ap, ◌∙◌, List, [], ◌∷◌, arith}
use mathlib.Core.List.{Permᴰ}
use sovereign_gateway.Wire.Response.{
  Usage, merge_usage, StreamEvent, usage_delta, message_start, text_delta, thinking_delta,
  tool_use_start, tool_use_delta, done,
}
use sovereign_gateway.Wire.Aggregate.{Aggregator, push, push_all}

merge_usage_comm : (u v : Usage) → merge_usage u v ≡ merge_usage v u
unfolding merge_usage
merge_usage_comm u v = ground arith

merge_usage_assoc :
    (u v w : Usage) → merge_usage (merge_usage u v) w ≡ merge_usage u (merge_usage v w)
unfolding merge_usage
merge_usage_assoc u v w = ground arith

merge_usage_same : (u v : Usage) → merge_usage (merge_usage u v) v ≡ merge_usage u v
unfolding merge_usage
merge_usage_same u v = ground arith

-- The usage after an event.
reported : StreamEvent → Usage → Usage
reported (usage_delta v) u = merge_usage u v
reported (message_start m) u = u
reported (text_delta t) u = u
reported (thinking_delta t) u = u
reported (tool_use_start id name) u = u
reported (tool_use_delta partial) u = u
reported (done r) u = u

total : List StreamEvent → Usage → Usage
unfolding reported
total [] u = u
total (e ∷ es) u = total es (reported e u)

usage-push : (e : StreamEvent) (a : Aggregator) → (push e a).usage ≡ reported e a.usage
unfolding push reported
usage-push (message_start m) a = ground arith
usage-push (text_delta t) a = refl
usage-push (thinking_delta t) a = refl
usage-push (tool_use_start id name) a = refl
usage-push (tool_use_delta partial) a = refl
usage-push (usage_delta u) a = refl
usage-push (done r) a = refl

usage-push_all : (es : List StreamEvent) (a : Aggregator) → (push_all es a).usage ≡ total es a.usage
unfolding push_all total
usage-push_all [] a = refl
usage-push_all (e ∷ es) a = rw (usage-push_all es (push e a), usage-push e a)

reported_swap :
    (e f : StreamEvent) (u : Usage) → reported e (reported f u) ≡ reported f (reported e u)
unfolding reported
reported_swap (usage_delta v) (usage_delta w) u =
    rw (merge_usage_assoc u w v, merge_usage_assoc u v w, merge_usage_comm w v)
reported_swap (usage_delta v) (message_start m) u = refl
reported_swap (usage_delta v) (text_delta t) u = refl
reported_swap (usage_delta v) (thinking_delta t) u = refl
reported_swap (usage_delta v) (tool_use_start id name) u = refl
reported_swap (usage_delta v) (tool_use_delta partial) u = refl
reported_swap (usage_delta v) (done r) u = refl
reported_swap (message_start m) f u = refl
reported_swap (text_delta t) f u = refl
reported_swap (thinking_delta t) f u = refl
reported_swap (tool_use_start id name) f u = refl
reported_swap (tool_use_delta partial) f u = refl
reported_swap (done r) f u = refl

total-perm : {es fs : List StreamEvent} → Permᴰ es fs → (u : Usage) → total es u ≡ total fs u
unfolding total
total-perm Permᴰ.nil u = refl
total-perm (Permᴰ.cons e p) u = rw e (total-perm p _)
total-perm (Permᴰ.swap {a' = x} {b' = y} {l = l} e e') u =
    rw (e, e') (ap (total l) (reported_swap x y u))
total-perm (Permᴰ.trans p q) u = total-perm p u ∙ total-perm q u

-- The usage of the aggregated response does not depend on the order of the events.
pub usage-perm :
    (es fs : List StreamEvent) (a : Aggregator)
    → Permᴰ es fs
    → (push_all es a).usage ≡ (push_all fs a).usage
usage-perm es fs a p = usage-push_all es a ∙ total-perm p a.usage ∙ sym (usage-push_all fs a)

total_repeated :
    (u : Usage) (es : List StreamEvent) (v : Usage)
    → total (usage_delta u ∷ usage_delta u ∷ es) v ≡ total (usage_delta u ∷ es) v
unfolding total reported
total_repeated u es v = ap (total es) (merge_usage_same v u)

-- A report that comes a second time, right after the first, changes nothing.
pub usage_repeated :
    (u : Usage) (es : List StreamEvent) (a : Aggregator)
    → (push_all (usage_delta u ∷ usage_delta u ∷ es) a).usage
      ≡ (push_all (usage_delta u ∷ es) a).usage
usage_repeated u es a =
    usage-push_all (usage_delta u ∷ usage_delta u ∷ es) a
    ∙ total_repeated u es a.usage
    ∙ sym (usage-push_all (usage_delta u ∷ es) a)
