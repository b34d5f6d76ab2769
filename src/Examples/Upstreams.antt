-- ===== src/Examples/Upstreams.antt =====
-- URLs, headers and responses at concrete values.
use sovereign_gateway.Base.{String, ◌≡◌, refl, some, List, [], ◌∷◌, inr}
use sovereign_gateway.Base.Text.{trim, trim_start, trim_end, is_whitespace}
use sovereign_gateway.Core.Json.{null}
use sovereign_gateway.Wire.Response.{Usage, no_usage, tool_use}
use sovereign_gateway.Wire.Aggregate.{
  Json, push_all, new_aggregator, events_from_response, into_response,
}
use sovereign_gateway.Wire.Aggregate.RoundTrip.{into_response-events, response}

abbrev auth : List (String × String)
auth = ("authorization", "Bearer s") ∷ []

abbrev row : List (String × String)
row = ("Authorization", "forged") ∷ ("x-team", "t") ∷ []

-- A reader and a writer that know one value.
abbrev nulls : Json
nulls = record { from_str = λ t. some null; to_string = λ v. "null" }

abbrev usage : Usage
usage = record no_usage { input_tokens = 3; output_tokens = 5 }

into_response-events_example :
    into_response nulls "r" (
      push_all
        (events_from_response nulls
          (response "r" "m" "" "hi" (("t", ("f", null)) ∷ []) tool_use usage))
        new_aggregator)
    ≡ response "r" "m" "" "hi" (("t", ("f", null)) ∷ []) tool_use usage
unfolding trim trim_start trim_end is_whitespace
into_response-events_example =
    into_response-events nulls "r" "m" "" "hi" (("t", ("f", null)) ∷ []) tool_use usage
      ((refl, refl), tt) (inr (λ e. cc))
