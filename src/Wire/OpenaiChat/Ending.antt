-- ===== src/Wire/OpenaiChat/Ending.antt =====
-- crates/yb-wire/src/openai_chat.rs: the mark that ends a stream.
use sovereign_gateway.Base.{
  ◌≡◌, refl, sym, ap, ◌∙◌, inl, inr, Bool, true, false, Option, none, some, List, [], ◌∷◌, ◌++◌,
  if◌then◌else◌, Bool-cases, All,
}
use sovereign_gateway.Wire.OpenaiChat.Encode.{
  Chunk, Written, ensure_started, write_chunk, relay_usage, encode_event, encode_events,
  usage_chunks, finish, end_mark, choice_chunk, EmitState, usage_chunk, chunk, merge_in, write_end,
  stop_to_finish,
}
use sovereign_gateway.Wire.Response.{
  StreamEvent, done, usage_delta, Usage, message_start, text_delta, thinking_delta, tool_use_start,
  tool_use_delta, StopReason,
}
use mathlib.Core.List.{append_assoc, append-nil}
use sovereign_gateway.Core.Json.{Value, null, string, object, end}
use mathlib.Core.Path.{subst}

-- No chunk is the mark.
abbrev pub IsUnmarked : List Chunk → Type 0
IsUnmarked [] = Unit
IsUnmarked (chunk v ∷ chunks) = IsUnmarked chunks
IsUnmarked (end_mark ∷ chunks) = ⊥

-- The mark is the last chunk, and no other.
abbrev pub IsEnded : List Chunk → Type 0
IsEnded chunks = (xs : List Chunk) × (chunks ≡ xs ++ end_mark ∷ []) × IsUnmarked xs

abbrev pub IsBeforeEnd : StreamEvent → Type 0
IsBeforeEnd (done reason) = ⊥
IsBeforeEnd (message_start m) = Unit
IsBeforeEnd (text_delta t) = Unit
IsBeforeEnd (thinking_delta t) = Unit
IsBeforeEnd (tool_use_start id name) = Unit
IsBeforeEnd (tool_use_delta partial) = Unit
IsBeforeEnd (usage_delta u) = Unit

abbrev pub IsUsage : StreamEvent → Type 0
IsUsage (usage_delta u) = Unit
IsUsage (done reason) = ⊥
IsUsage (message_start m) = ⊥
IsUsage (text_delta t) = ⊥
IsUsage (thinking_delta t) = ⊥
IsUsage (tool_use_start id name) = ⊥
IsUsage (tool_use_delta partial) = ⊥

append-IsUnmarked : (xs ys : List Chunk) → IsUnmarked xs → IsUnmarked ys → IsUnmarked (xs ++ ys)
append-IsUnmarked [] ys h k = k
append-IsUnmarked (chunk v ∷ xs) ys h k = append-IsUnmarked xs ys h k
append-IsUnmarked (end_mark ∷ xs) ys h k = absurd h

append-IsEnded : (xs ys : List Chunk) → IsUnmarked xs → IsEnded ys → IsEnded (xs ++ ys)
append-IsEnded xs ys h (zs, e, k) = (
  xs ++ zs,
  ap (λ l. xs ++ l) e ∙ sym (append_assoc xs zs (end_mark ∷ [])),
  append-IsUnmarked xs zs h k,
)

-- Chunks without the mark, from a state that owes none to one that owes none.
abbrev IsQuiet : Written → Type 0
IsQuiet (st, chunks) = IsUnmarked chunks × (st.pending_done ≡ false)

ensure_started-IsQuiet : (st : EmitState) → st.pending_done ≡ false → IsQuiet (ensure_started st)
unfolding ensure_started choice_chunk
ensure_started-IsQuiet st h = elim (Bool-cases st.started) [
  | inl q ↦ simp q (tt, h)
  | inr q ↦ simp q (tt, h)
]

write_chunk-IsQuiet :
    (st : EmitState) (delta reason : Value)
    → st.pending_done ≡ false
    → IsQuiet (write_chunk st delta reason)
unfolding write_chunk choice_chunk
write_chunk-IsQuiet st delta reason h =
    let (unmarked, p) = ensure_started-IsQuiet st h in
    (append-IsUnmarked (ensure_started st).1 _ unmarked tt, p)

relay_usage-quiet : (st : EmitState) → st.pending_done ≡ false → relay_usage st ≡ (st, [])
unfolding relay_usage
relay_usage-quiet st h =
    ap
      (λ b.
        if b
        then (record st { pending_done = false }, usage_chunks st st.usage ++ end_mark ∷ [])
        else (st, []))
      h

encode_event-IsQuiet :
    (e : StreamEvent) (st : EmitState)
    → IsBeforeEnd e
    → st.pending_done ≡ false
    → IsQuiet (encode_event e st)
unfolding encode_event choice_chunk
encode_event-IsQuiet (done reason) st b h = absurd b
encode_event-IsQuiet (message_start m) st b h = (tt, h)
encode_event-IsQuiet (text_delta t) st b h = write_chunk-IsQuiet st _ null h
encode_event-IsQuiet (thinking_delta t) st b h = write_chunk-IsQuiet st _ null h
encode_event-IsQuiet (tool_use_start id name) st b h =
    let (unmarked, p) = ensure_started-IsQuiet st h in
    (append-IsUnmarked (ensure_started st).1 _ unmarked tt, p)
encode_event-IsQuiet (tool_use_delta partial) st b h = write_chunk-IsQuiet st _ null h
encode_event-IsQuiet (usage_delta u) st b h =
    subst IsQuiet (sym (relay_usage-quiet (record st { usage = some (merge_in st.usage u) }) h))
      (tt, h)

encode_events-IsQuiet :
    (es : List StreamEvent) (st : EmitState)
    → All IsBeforeEnd es
    → st.pending_done ≡ false
    → IsQuiet (encode_events es st)
unfolding encode_events
encode_events-IsQuiet [] st b h = (tt, h)
encode_events-IsQuiet (e ∷ es) st b h =
    let (first, p) = encode_event-IsQuiet e st b.0 h in
    let (more, q) = encode_events-IsQuiet es (encode_event e st).0 b.1 p in
    (
      append-IsUnmarked (encode_event e st).1 (encode_events es (encode_event e st).0).1 first more,
      q,
    )

-- The chunks of events, and what `finish` adds.
abbrev pub all_chunks : List StreamEvent → EmitState → List Chunk
all_chunks es st = let (st1, chunks) = encode_events es st in chunks ++ (finish st1).1

usage_chunks-IsUnmarked : (st : EmitState) (o : Option Usage) → IsUnmarked (usage_chunks st o)
unfolding usage_chunks usage_chunk
usage_chunks-IsUnmarked st none = tt
usage_chunks-IsUnmarked st (some u) = tt

finish-quiet : (st : EmitState) → st.pending_done ≡ false → (finish st).1 ≡ []
unfolding finish
finish-quiet st h = simp h refl

finish-IsEnded : (st : EmitState) → st.pending_done ≡ true → IsEnded (finish st).1
unfolding finish
finish-IsEnded st h =
    let u = record st { pending_done = false } in
    simp h (usage_chunks u st.usage, refl, usage_chunks-IsUnmarked u st.usage)

-- Where nothing is owed, usage that comes late writes nothing.
late_quiet :
    (es : List StreamEvent) (st : EmitState)
    → All IsUsage es
    → st.pending_done ≡ false
    → all_chunks es st ≡ []
unfolding encode_events encode_event
late_quiet [] st a h = finish-quiet st h
late_quiet (usage_delta u ∷ es) st a h =
    let st1 = record st { usage = some (merge_in st.usage u) } in
    ap (λ w. w.1 ++ (encode_events es w.0).1 ++ (finish (encode_events es w.0).0).1)
      (relay_usage-quiet st1 h)
    ∙ late_quiet es st1 a.1 h
late_quiet (done reason ∷ es) st a h = absurd a.0
late_quiet (message_start m ∷ es) st a h = absurd a.0
late_quiet (text_delta t ∷ es) st a h = absurd a.0
late_quiet (thinking_delta t ∷ es) st a h = absurd a.0
late_quiet (tool_use_start id name ∷ es) st a h = absurd a.0
late_quiet (tool_use_delta partial ∷ es) st a h = absurd a.0

relay_usage-owed :
    (st : EmitState)
    → st.pending_done ≡ true
    → relay_usage st
      ≡ (record st { pending_done = false }, usage_chunks st st.usage ++ end_mark ∷ [])
unfolding relay_usage
relay_usage-owed st h =
    ap
      (λ b.
        if b
        then (record st { pending_done = false }, usage_chunks st st.usage ++ end_mark ∷ [])
        else (st, []))
      h

all_chunks-cons :
    (e : StreamEvent) (es : List StreamEvent) (st : EmitState)
    → all_chunks (e ∷ es) st ≡ (encode_event e st).1 ++ all_chunks es (encode_event e st).0
unfolding encode_events
all_chunks-cons e es st =
    let st1 = (encode_event e st).0 in
    append_assoc (encode_event e st).1 (encode_events es st1).1 (finish (encode_events es st1).0).1

late-IsEnded :
    (es : List StreamEvent) (st : EmitState)
    → All IsUsage es
    → st.pending_done ≡ true
    → IsEnded (all_chunks es st)
unfolding encode_events encode_event
late-IsEnded [] st a h = finish-IsEnded st h
late-IsEnded (usage_delta u ∷ es) st a h =
    let st1 = record st { usage = some (merge_in st.usage u) } in
    let st2 = record st1 { pending_done = false } in
    let ending = usage_chunks st1 st1.usage ++ end_mark ∷ [] in
    let same : all_chunks (usage_delta u ∷ es) st ≡ ending =
      all_chunks-cons (usage_delta u) es st
      ∙ ap (λ w. w.1 ++ all_chunks es w.0) (relay_usage-owed st1 h)
      ∙ ap (λ l. ending ++ l) (late_quiet es st2 a.1 refl)
      ∙ append-nil ending in
    (usage_chunks st1 st1.usage, same, usage_chunks-IsUnmarked st1 st1.usage)
late-IsEnded (done reason ∷ es) st a h = absurd a.0
late-IsEnded (message_start m ∷ es) st a h = absurd a.0
late-IsEnded (text_delta t ∷ es) st a h = absurd a.0
late-IsEnded (thinking_delta t ∷ es) st a h = absurd a.0
late-IsEnded (tool_use_start id name ∷ es) st a h = absurd a.0
late-IsEnded (tool_use_delta partial ∷ es) st a h = absurd a.0

write_end-IsEnded :
    (after : List StreamEvent) (st : EmitState)
    → All IsUsage after
    → st.pending_done ≡ false
    → IsEnded ((write_end st).1 ++ all_chunks after (write_end st).0)
unfolding write_end usage_chunk
write_end-IsEnded after st a h = by_wish st.include_usage st.usage
  where
    over :
        (xs : List Chunk) → IsUnmarked xs → IsEnded ((xs ++ end_mark ∷ []) ++ all_chunks after st)
    over xs k = (
      xs,
      ap (λ l. (xs ++ end_mark ∷ []) ++ l) (late_quiet after st a h)
          ∙ append-nil (xs ++ end_mark ∷ []),
      k,
    )

    by_wish :
        (wanted : Bool) (o : Option Usage)
        → let w = elim wanted as (λ _. Written) [
          | false ↦ (st, end_mark ∷ [])
          | true ↦ elim o as (λ _. Written) [
            | some u ↦ (st, usage_chunk st u ∷ end_mark ∷ [])
            | none ↦ (record st { pending_done = true }, [])
          ]
        ] in
          IsEnded (w.1 ++ all_chunks after w.0)
    by_wish false o = over [] tt
    by_wish true (some u) = over (usage_chunk st u ∷ []) tt
    by_wish true none = late-IsEnded after (record st { pending_done = true }) a refl

done-IsEnded :
    (reason : StopReason) (after : List StreamEvent) (st : EmitState)
    → All IsUsage after
    → st.pending_done ≡ false
    → IsEnded (all_chunks (done reason ∷ after) st)
unfolding encode_event
done-IsEnded reason after st a h =
    let finished = string (stop_to_finish reason) in
    let (unmarked, p) = write_chunk-IsQuiet st (object end) finished h in
    let (st1, chunks) = write_chunk st (object end) finished in
    let (st2, ending) = write_end st1 in
    subst IsEnded
      (sym (
        all_chunks-cons (done reason) after st ∙ append_assoc chunks ending (all_chunks after st2)))
      (append-IsEnded chunks (ending ++ all_chunks after st2) unmarked
        (write_end-IsEnded after st1 a p))

-- Where an encoder owes no mark, and the events have one end after which only usage comes, everything
-- that is written, with what `finish` adds, has the mark that ends a stream once and as its last chunk, whether
-- the client asked for the usage or not, and whether the usage comes before the end, after it or never.
pub all_chunks-IsEnded :
    (before : List StreamEvent) (reason : StopReason) (after : List StreamEvent) (st : EmitState)
    → All IsBeforeEnd before
    → All IsUsage after
    → st.pending_done ≡ false
    → IsEnded (all_chunks (before ++ done reason ∷ after) st)
all_chunks-IsEnded [] reason after st b a h = done-IsEnded reason after st a h
all_chunks-IsEnded (e ∷ before) reason after st b a h =
    let (unmarked, p) = encode_event-IsQuiet e st b.0 h in
    let st1 = (encode_event e st).0 in
    subst IsEnded (sym (all_chunks-cons e (before ++ done reason ∷ after) st)) (
      append-IsEnded (encode_event e st).1 (all_chunks (before ++ done reason ∷ after) st1) unmarked
        (all_chunks-IsEnded before reason after st1 b.1 a p))
