-- ===== src/Gateway/Timing.antt =====
-- crates/yb-gateway/src/service.rs: how fast a turn was served, which events are output, and the echo of
-- the prompt cache. Milliseconds and token counts are far below 2^63, so `i64` sums are integers.
use sovereign_gateway.Base.{
  ℕ, ◌*◌, String, inl, inr, Bool, true, false, not, ◌&&◌, Option, none, some, ◌==◌, arith, ltb,
  if◌then◌else◌, Bool-cases, or_else,
}
use Prim.Native.Nat.{◌/◌}
use sovereign_gateway.Base.Int.{ℤ, pos, ◌-ℤ◌, ◌≤ℤ◌, ltb_ℤ, pos_part}
use sovereign_gateway.Wire.Response.{
  StreamEvent, message_start, text_delta, thinking_delta, tool_use_start, tool_use_delta,
  usage_delta, done, Usage, ChatResponse,
}

unfoldable pub is_output : StreamEvent → Bool
is_output (text_delta t) = not (t == "")
is_output (thinking_delta t) = not (t == "")
is_output (tool_use_start id name) = true
is_output (tool_use_delta partial) = true
is_output (message_start model) = false
is_output (usage_delta usage) = false
is_output (done reason) = false

pub record Speed : Type 0 where
  pub first_token_ms : Option ℤ
  pub generation_ms : Option ℤ
  pub queue_ms : Option ℤ

-- `(a - b).max(0)`.
abbrev pub sub_max : ℤ → ℤ → ℤ
sub_max a b = pos (pos_part (a -ℤ b))

unfoldable pub engine_ms : ℕ → Option ℤ
engine_ms ms = if ltb 0 ms then some (pos ms) else none

-- The time of the answer from its first token on, stretched by one token.
unfoldable pub stretched : ℤ → ℤ → Option ℤ
unfolding ◌-ℤ◌
stretched streamed output =
    if ltb_ℤ (pos 1) output && ltb_ℤ (pos 0) streamed
    then some (pos (pos_part streamed * pos_part output / pos_part (output -ℤ pos 1)))
    else none

unfoldable pub speed : Usage → ℤ → Option ℤ → ℤ → Option ℤ → Speed
unfolding engine_ms stretched ◌-ℤ◌
speed usage latency first_token output waited =
    let engine = engine_ms usage.generation_ms in
    let first =
      or_else first_token (elim engine [ none ↦ none | some ms ↦ some (sub_max latency ms) ]) in
    record {
      first_token_ms = first;
      generation_ms =
          or_else engine (elim first [ none ↦ none | some f ↦ stretched (latency -ℤ f) output ]);
      queue_ms = or_else waited (
          if ltb 0 usage.prompt_ms
          then (elim first [ none ↦ none | some f ↦ some (sub_max f (pos usage.prompt_ms)) ])
          else none);
    }

unfoldable pub apply_cache_echo : ChatResponse → Option String → Option String → ChatResponse
apply_cache_echo r key retention = record r {
  prompt_cache_key = or_else r.prompt_cache_key key;
  prompt_cache_retention = or_else r.prompt_cache_retention retention;
}

-- A time that is known is not negative.
abbrev pub IsTime : Option ℤ → Type 0
IsTime none = Unit
IsTime (some t) = pos 0 ≤ℤ t

engine_ms-IsTime : (ms : ℕ) → IsTime (engine_ms ms)
unfolding engine_ms
engine_ms-IsTime ms = elim (Bool-cases (ltb 0 ms)) [ inl q ↦ rw q (omega arith) | inr q ↦ rw q tt ]

stretched-IsTime : (streamed output : ℤ) → IsTime (stretched streamed output)
unfolding stretched
stretched-IsTime streamed output =
    elim (Bool-cases (ltb_ℤ (pos 1) output && ltb_ℤ (pos 0) streamed)) [
      | inl q ↦ rw q (omega arith)
      | inr q ↦ rw q tt
    ]

or_else-IsTime : (a b : Option ℤ) → IsTime a → IsTime b → IsTime (or_else a b)
or_else-IsTime none b h k = k
or_else-IsTime (some t) b h k = h

first-IsTime :
    (engine : Option ℤ) (latency : ℤ)
    → IsTime (elim engine [ none ↦ none | some ms ↦ some (sub_max latency ms) ])
first-IsTime none latency = tt
first-IsTime (some ms) latency = omega arith

rest-IsTime :
    (first : Option ℤ) (latency output : ℤ)
    → IsTime (elim first [ none ↦ none | some f ↦ stretched (latency -ℤ f) output ])
rest-IsTime none latency output = tt
rest-IsTime (some f) latency output = stretched-IsTime (latency -ℤ f) output

queue-IsTime :
    (first : Option ℤ) (ms : ℕ)
    → IsTime (
        if ltb 0 ms
        then (elim first [ none ↦ none | some f ↦ some (sub_max f (pos ms)) ])
        else none)
queue-IsTime first ms = elim (Bool-cases (ltb 0 ms)) [
  | inl q ↦ rw q (known first)
  | inr q ↦ rw q tt
]
  where
    known :
        (first : Option ℤ)
        → IsTime (elim first [ none ↦ none | some f ↦ some (sub_max f (pos ms)) ])
    known none = tt
    known (some f) = omega arith

-- Where the first token and the wait that were seen are not negative, no time of a turn's speed is
-- negative, whatever the latency, the token count and the engine's report are.
pub speed-IsTime :
    (usage : Usage) (latency : ℤ) (first_token : Option ℤ) (output : ℤ) (waited : Option ℤ)
    → IsTime first_token
    → IsTime waited
    → IsTime (speed usage latency first_token output waited).first_token_ms
      × IsTime (speed usage latency first_token output waited).generation_ms
      × IsTime (speed usage latency first_token output waited).queue_ms
unfolding speed
speed-IsTime usage latency first_token output waited h k =
    let engine = engine_ms usage.generation_ms in
    let first =
      or_else first_token (elim engine [ none ↦ none | some ms ↦ some (sub_max latency ms) ]) in
    (
      or_else-IsTime first_token _ h (first-IsTime engine latency),
      or_else-IsTime engine _ (engine_ms-IsTime usage.generation_ms)
          (rest-IsTime first latency output),
      or_else-IsTime waited _ k (queue-IsTime first usage.prompt_ms),
    )
