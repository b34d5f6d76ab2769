-- ===== src/Wire/Aggregate/RoundTrip.antt =====
-- A response that is expanded into events and aggregated again (crates/yb-wire/src/aggregate.rs).
use sovereign_gateway.Base.{
  String, ◌≡◌, refl, sym, ap, inl, inr, false, not, none, some, List, [], ◌∷◌, ◌++◌, map, ◌==◌,
  eq_iff, arith, if◌then◌else◌, Bool-cases, All, is_nil, ◌⊎◌, ◌≢◌, true,
}
use sovereign_gateway.Base.Text.{trim}
use sovereign_gateway.Core.Json.{Value}
use sovereign_gateway.Wire.Response.{
  StopReason, Usage, no_usage, merge_usage, ContentBlock, text, thinking, tool_call, ChatResponse,
  StreamEvent, usage_delta, done, end_turn, other, max_tokens, stop_sequence, tool_use,
}
use sovereign_gateway.Wire.Aggregate.{
  Json, Aggregator, PartialTool, new_aggregator, push, push_all, extend_last, tool_block,
  final_reason, into_response, content_events, block_events, events_from_response, push_str,
}
use mathlib.Core.List.{append_assoc, append-nil}
use package.text.Mathlib.TextLemmas.{nil-append, append-nil as text_append-nil}

-- A call of a tool: its id, its name and its arguments.
abbrev pub Call : Type 0
Call = String × (String × Value)

abbrev pub call_block : Call → ContentBlock
call_block (id, (name, input)) = tool_call id name input

-- A response in the order that the aggregator writes: reasoning and text, each only where it is not
-- empty, and then the calls of tools.
abbrev pub response :
    String → String → String → String → List Call → StopReason → Usage → ChatResponse
response id model reasoning answer calls reason usage = record {
  id = id;
  model = model;
  content =
      (if reasoning == "" then [] else thinking reasoning none ∷ [])
      ++ (if answer == "" then [] else text answer ∷ [])
      ++ map call_block calls;
  stop_reason = reason;
  usage = usage;
  prompt_cache_key = none;
  prompt_cache_retention = none;
}

-- An answer with calls of tools does not stop as a plain end of turn.
abbrev pub IsConsistent : List Call → StopReason → Type 0
IsConsistent calls reason = (calls ≡ []) ⊎ (reason ≢ end_turn)

final_reason-called :
    (reason : StopReason) → reason ≢ end_turn → final_reason true (some reason) ≡ reason
unfolding final_reason
final_reason-called end_turn h = absurd (h refl)
final_reason-called max_tokens h = refl
final_reason-called stop_sequence h = refl
final_reason-called tool_use h = refl
final_reason-called (other s) h = refl

final_reason-IsConsistent :
    (calls : List Call) (reason : StopReason)
    → IsConsistent calls reason
    → final_reason (not (is_nil calls)) (some reason) ≡ reason
unfolding final_reason
final_reason-IsConsistent [] reason h = refl
final_reason-IsConsistent (call ∷ calls) reason (inl e) = cc
final_reason-IsConsistent (call ∷ calls) reason (inr n) = final_reason-called reason n

push_all-append :
    (es fs : List StreamEvent) (a : Aggregator)
    → push_all (es ++ fs) a ≡ push_all fs (push_all es a)
unfolding push_all
push_all-append [] fs a = refl
push_all-append (e ∷ es) fs a = push_all-append es fs (push e a)

extend_last-append :
    (more : String) (ts : List PartialTool) (t : PartialTool)
    → extend_last more (ts ++ t ∷ []) ≡ ts ++ record t { json = push_str t.json more } ∷ []
unfolding extend_last
extend_last-append more [] t = refl
extend_last-append more (u ∷ []) t = refl
extend_last-append more (u ∷ v ∷ ts) t = ap (λ l. u ∷ l) (extend_last-append more (v ∷ ts) t)

content_events-append :
    (json : Json) (bs cs : List ContentBlock)
    → content_events json (bs ++ cs) ≡ content_events json bs ++ content_events json cs
unfolding content_events
content_events-append json [] cs = refl
content_events-append json (b ∷ bs) cs = rw (
  content_events-append json bs cs,
  append_assoc (block_events json b) (content_events json bs) (content_events json cs),
)

merge_no_usage : (u : Usage) → merge_usage no_usage u ≡ u
unfolding merge_usage
merge_no_usage u = ground arith

module _ (json : Json) where
  abbrev started : Call → PartialTool
  started (id, (name, input)) = record {
    id = id;
    name = name;
    json = push_str "" (json.to_string input);
  }

  is_nil-map : (calls : List Call) → is_nil (map started calls) ≡ is_nil calls
  is_nil-map [] = refl
  is_nil-map (call ∷ calls) = refl

  calls-push_all :
      (calls : List Call) (a : Aggregator)
      → push_all (content_events json (map call_block calls)) a
        ≡ record a { tools = a.tools ++ map started calls }
  unfolding push_all push content_events block_events
  calls-push_all [] a = ap (λ l. record a { tools = l }) (sym (append-nil a.tools))
  calls-push_all ((id, (name, input)) ∷ calls) a = rw (
    extend_last-append (json.to_string input) a.tools (record { id = id; name = name; json = "" }),
    calls-push_all calls (record a { tools = a.tools ++ started (id, (name, input)) ∷ [] }),
    append_assoc a.tools (started (id, (name, input)) ∷ []) (map started calls),
  )

  reasoning-push_all :
      (reasoning : String) (a : Aggregator)
      → push_all
          (content_events json (if reasoning == "" then [] else thinking reasoning none ∷ []))
          a
        ≡ record a { thinking = push_str a.thinking reasoning }
  unfolding push_all push content_events block_events
  reasoning-push_all reasoning a = elim (Bool-cases (reasoning == "")) [
    | inl e ↦
        let nothing : reasoning ≡ "" = (eq_iff reasoning "").0 e in
        rw (e, nothing) (ap (λ t. record a { thinking = t }) (sym (text_append-nil a.thinking)))
    | inr e ↦ rw e
  ]

  answer-push_all :
      (answer : String) (a : Aggregator)
      → push_all (content_events json (if answer == "" then [] else text answer ∷ [])) a
        ≡ record a { text = push_str a.text answer }
  unfolding push_all push content_events block_events
  answer-push_all answer a = elim (Bool-cases (answer == "")) [
    | inl e ↦
        let nothing : answer ≡ "" = (eq_iff answer "").0 e in
        rw (e, nothing) (ap (λ t. record a { text = t }) (sym (text_append-nil a.text)))
    | inr e ↦ rw e
  ]

  -- The arguments of a call are read back as they were written, and not written as blank text.
  abbrev pub IsReadable : Call → Type 0
  IsReadable (id, (name, input)) =
      (json.from_str (json.to_string input) ≡ some input)
      × ((trim (json.to_string input) == "") ≡ false)

  tools-started :
      (calls : List Call)
      → All IsReadable calls
      → map (tool_block json) (map started calls) ≡ map call_block calls
  unfolding tool_block
  tools-started [] h = refl
  tools-started ((id, (name, input)) ∷ calls) ((readable, visible), hs) =
      rw (nil-append (json.to_string input), visible, readable, tools-started calls hs)

  content-push_all :
      (reasoning answer : String) (calls : List Call) (a : Aggregator)
      → push_all
          (content_events json (
            (if reasoning == "" then [] else thinking reasoning none ∷ [])
            ++ (if answer == "" then [] else text answer ∷ [])
            ++ map call_block calls))
          a
        ≡ record a {
          thinking = push_str a.thinking reasoning;
          text = push_str a.text answer;
          tools = a.tools ++ map started calls;
        }
  content-push_all reasoning answer calls a =
      let A = if reasoning == "" then [] else thinking reasoning none ∷ [] in
      let B = if answer == "" then [] else text answer ∷ [] in
      let a₁ = record a { thinking = push_str a.thinking reasoning } in
      let C = map call_block calls in
      let events = content_events json in
      rw
        (
          content_events-append json (A ++ B) C,
          content_events-append json A B,
          push_all-append (events A ++ events B) (events C) a,
          push_all-append (events A) (events B) a,
          reasoning-push_all reasoning a,
          answer-push_all answer a₁,
        )
        (calls-push_all calls (record a₁ { text = push_str a.text answer }))

  -- Where the arguments of the calls are read back as they were written, and not written as blank
  -- text, a response in the aggregator's order that is expanded into events and aggregated is that
  -- response again, with its stop reason, which is not the end of a turn where tools are called.
  pub into_response-events :
      (id model reasoning answer : String) (calls : List Call) (reason : StopReason) (usage : Usage)
      → All IsReadable calls
      → IsConsistent calls reason
      → into_response json id (
          push_all
            (events_from_response json (response id model reasoning answer calls reason usage))
            new_aggregator)
        ≡ response id model reasoning answer calls reason usage
  unfolding events_from_response into_response push_all push merge_usage
  into_response-events id model reasoning answer calls reason usage readable h =
      let A = if reasoning == "" then [] else thinking reasoning none ∷ [] in
      let B = if answer == "" then [] else text answer ∷ [] in
      rw
        (
          push_all-append (content_events json (A ++ B ++ map call_block calls))
              (usage_delta usage ∷ done reason ∷ []) (record new_aggregator { model = model }),
          content-push_all reasoning answer calls (record new_aggregator { model = model }),
        )
        (rw (
          nil-append reasoning,
          nil-append answer,
          tools-started calls readable,
          is_nil-map calls,
          final_reason-IsConsistent calls reason h,
          merge_no_usage usage,
        ))
