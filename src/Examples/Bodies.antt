-- ===== src/Examples/Bodies.antt =====
-- An answer of a text, a call with a result, and a thought, as a body of the Anthropic format.
use sovereign_gateway.Base.{
  ℕ, Option, String, ◌≡◌, refl, true, false, none, some, [], ◌∷◌, arith, if◌then◌else◌, ◌==◌,
}
use sovereign_gateway.Core.Json.{Value, number, object, field, string, end}
use sovereign_gateway.Wire.Anthropic.Answers.{
  response_value, parse_response, emit_response, of_list,
}
use sovereign_gateway.Wire.Anthropic.Answers.RoundTrip.{carried, parse_response-emit_response}
use sovereign_gateway.Wire.Anthropic.Blocks.RoundTrip.{AreWritable}
use sovereign_gateway.Base.Text.{show}
use sovereign_gateway.Wire.Common.{digits_value}
use sovereign_gateway.Wire.Request.{ChatRequest, default_request, user, assistant, tool, named}
use sovereign_gateway.Wire.Anthropic.Requests.{EmitOptions}
use sovereign_gateway.Wire.Errors.{WireResult, accepted, rejected, json}
use sovereign_gateway.Wire.Response.{
  ChatResponse, no_usage, text, image, tool_call, tool_result, thinking, blocks, no_blocks, other,
}

abbrev answer : ChatResponse
answer = record {
  id = "msg_1";
  model = "claude";
  content =
      thinking "so" (some "signed")
      ∷ text "hello"
      ∷ tool_call "t1" "find" (object (field "q" (string "x") end))
      ∷ tool_result "t1"
          (blocks (text "seen") (blocks (image none none (some "http://x")) no_blocks)) true
      ∷ [];
  stop_reason = other "refusal";
  usage = record no_usage { input_tokens = 12; output_tokens = 3; reasoning_tokens = 2 };
  prompt_cache_key = some "k";
  prompt_cache_retention = none;
}

-- A writer and a reader of JSON that know this one body.
abbrev from_slice : String → WireResult Value
from_slice t = if t == "answer" then accepted (response_value answer) else rejected (json "eof")

abbrev to_vec : Value → WireResult String
to_vec v = accepted "answer"

parse_response-emit_response_example :
    parse_response from_slice to_vec "answer" ≡ accepted (carried answer)
unfolding AreWritable of_list emit_response
parse_response-emit_response_example =
    parse_response-emit_response from_slice to_vec answer "answer" (λ e. refl)
      (tt, (tt, (tt, ((refl, (tt, ((refl, refl), tt))), tt))))
      ((λ e. cc), (λ e. cc), (λ e. cc), λ e. cc)
      (omega arith, omega arith, omega arith, omega arith) refl

abbrev request : ChatRequest
request = record default_request {
  model = "fast";
  system = some (text "be brief" ∷ []);
  messages =
      record { role = user; content = text "hello" ∷ [] }
      ∷ record { role = assistant; content = tool_call "t1" "find" (object end) ∷ [] }
      ∷ record {
        role = tool;
        content = tool_result "t1" (blocks (text "seen") no_blocks) false ∷ [];
      }
      ∷ [];
  tools =
      record {
        name = "find";
        description = none;
        input_schema = object end;
        strict = some true;
        anthropic_cache_control = none;
      }
      ∷ [];
  tool_choice = some (named "find");
  reasoning = some (record { effort = some "low"; budget_tokens = none });
  temperature = some 7;
}

abbrev options : EmitOptions
options = record { target_model = "claude"; force_reasoning_effort = some "high"; stream = true }

abbrev f32_value : ℕ → Value
f32_value n = number (show n)

abbrev as_f32 : Value → Option ℕ
as_f32 v = elim v [ number t ↦ digits_value 0 t | _ ↦ none ]
