-- ===== src/Gateway/Turns.antt =====
-- crates/yb-gateway/src/embed.rs and media.rs: what the turns of embeddings and of media share. A row is
-- left by the guard of a turn (service.rs, `TurnGuard`), or by `RecordCtx::finish`.
pub mod Records
use sovereign_gateway.Base.{
  ℕ, String, Bool, true, false, List, [], ◌∷◌, none, some, is_nil, if◌then◌else◌, Option,
}
use sovereign_gateway.Core.Access.{union}
use sovereign_gateway.Core.Deployments.{Deployment, RouteRequest, Decision}
use sovereign_gateway.Core.Errors.{Error, http_status, no_eligible_provider, Result, ok, err}
use sovereign_gateway.Gateway.Dispatch.{Turn, RequestCtx, filter_access}

-- What the caller is told.
pub data Answer : Type 0 where
  failed : Error → Answer
  answered_full : (status : ℕ) (headers : List (String × String)) (body : String) → Answer

-- A row of the telemetry: the turn, with its tokens and the bytes of its answer, and the answer that the
-- request log is given.
pub record Recorded : Type 0 where
  pub turn : Turn
  pub input_tokens : ℕ
  pub response_bytes : ℕ
  pub logged : String

-- `tried` are the candidates of the right format, up to the one that ended the turn.
pub record TurnReport : Type 0 where
  pub answer : Answer
  pub recorded : List Recorded
  pub tried : List Deployment

-- What one round of the loop over the candidates does.
pub data Round : Type 0 where
  skipped : Round
  next : Error → Round
  ended : Answer → Recorded → Round

-- `TurnGuard::record`
unfoldable pub guard_record : String → ℕ → Recorded
guard_record model status = record {
  turn = record {
    decision_model = model;
    decision_provider = "none";
    status = status;
    is_error = true;
  };
  input_tokens = 0;
  response_bytes = 0;
  logged = "";
}

-- `RecordCtx::finish` of a turn that a deployment answered.
unfoldable pub turn_record : Deployment → ℕ → Bool → ℕ → ℕ → String → Recorded
turn_record d status is_error input_tokens response_bytes logged = record {
  turn = record {
    decision_model = d.model_name;
    decision_provider = d.provider;
    status = status;
    is_error = is_error;
  };
  input_tokens = input_tokens;
  response_bytes = response_bytes;
  logged = logged;
}

unfoldable pub failed_turn : String → Error → TurnReport
unfolding guard_record http_status
failed_turn model e = record {
  answer = failed e;
  recorded = guard_record model (http_status e) ∷ [];
  tried = [];
}

abbrev pub tried_first : Deployment → TurnReport → TurnReport
tried_first d r = record r { tried = d ∷ r.tried }

-- The caller's policy as a request of routing: a model with its size and whether it carries images.
unfoldable pub policy_request : String → ℕ → Bool → RequestCtx → RouteRequest
unfolding union
policy_request model tokens has_images ctx = record {
  requested_model = model;
  estimated_input_tokens = tokens;
  has_tools = false;
  has_images = has_images;
  excluded_model_ids = union ctx.excluded_model_ids ctx.access.denied_model_ids;
  enabled_provider_ids =
      if is_nil ctx.access.allowed_provider_ids then none else some ctx.access.allowed_provider_ids;
  denied_provider_ids = union ctx.excluded_provider_ids ctx.access.denied_provider_ids;
  preferred_models = [];
}

-- The loop over the candidates and what precedes it, for what a round does and the error at the end.
module _ {W : Type 0} (model : String) (round : Deployment → W → W × Round)
    (exhausted : Bool → Option Error → Error) where
  unfoldable pub try_candidates : List Deployment → Bool → Option Error → W → W × TurnReport
  unfolding failed_turn
  try_candidates [] saw_other_only last_err w =
      (w, failed_turn model (exhausted saw_other_only last_err))
  try_candidates (d ∷ ds) saw_other_only last_err w =
      let (w1, done) = round d w in
      elim done [
        | skipped ↦ try_candidates ds saw_other_only last_err w1
        | next e ↦ let (w2, r) = try_candidates ds false (some e) w1 in (w2, tried_first d r)
        | ended answer rec ↦ (w1, record { answer = answer; recorded = rec ∷ []; tried = d ∷ [] })
      ]

  unfoldable pub try_decided : RequestCtx → Result Decision → W → W × TurnReport
  unfolding failed_turn filter_access try_candidates
  try_decided ctx (err e) w = (w, failed_turn model e)
  try_decided ctx (ok decision) w =
      let candidates = filter_access decision.candidates ctx in
      if is_nil candidates
      then (w, failed_turn model (no_eligible_provider model))
      else try_candidates candidates true none w
