-- ===== src/Gateway/Ledger.antt =====
-- crates/yb-gateway/src/service.rs, `RecordCtx`: what a turn that is over leaves in the telemetry, in the
-- spend of its subjects and in the request log. What is booked are the calls of the store, the
-- observer, the meter and the logger, in order: a failure of the store is only logged.
pub mod Accounts
use sovereign_gateway.Base.{
  ℕ, zero, suc, ◌+◌, ◌-◌, ◌*◌, ◌%◌, ◌≤◌, ◌<◌, String, ◌≡◌, ◌≢◌, refl, sym, ap, ◌∙◌, ◌↔◌, ◌⊎◌, inl,
  inr, Bool, true, false, not, ◌&&◌, ◌||◌, Option, none, some, List, [], ◌∷◌, ◌++◌, map, ◌==◌,
  eq_iff, eq_refl, arith, ltb, leb, eqb, if◌then◌else◌, Bool-cases, Option-cases, All, All-append,
  length, is_nil, select, contains, any, unwrap_or, or_else,
}
use sovereign_gateway.Core.Catalog.{Arithmetic, builtin_price, cost_micros, new_price}
use sovereign_gateway.Core.Reqlog.{RequestLogRecord}
use sovereign_gateway.Core.Deployments.{Deployment, ModelPrice}
use sovereign_gateway.Base.Int.{ℤ, pos}
use sovereign_gateway.Core.Spend.{SubjectType, key, user, team, Period, day}
use sovereign_gateway.Wire.Response.{ChatResponse, is_empty_usage}
use sovereign_gateway.Gateway.Stream.{Filing}
use sovereign_gateway.Gateway.Timing.{speed}

-- Prices, the calendar and the clock are parameters: `bucket_start` is `Period::bucket_start`, and
-- `to_vec` writes a response as JSON.
pub record Books : Type 0 where
  pub arithmetic : Arithmetic
  pub bucket_start : Period → ℕ → ℕ
  pub to_vec : ChatResponse → List ℕ

pub record RecordCtx : Type 0 where
  pub api_key_id : Option String
  pub user_id : Option String
  pub team_id : Option String
  pub trace_id : Option String
  pub parent_span_id : Option String
  pub request_id : String
  pub surface : String
  pub requested_model : String
  pub deployment : Deployment
  pub request_body : List ℕ
  pub created_at : ℕ
  pub has_meter : Bool
  pub tags : Option String
  pub reports_usage : Bool
  pub waited_ms : Option ℤ

pub record TelemetryRecord : Type 0 where
  pub id : String
  pub request_id : String
  pub trace_id : Option String
  pub parent_span_id : Option String
  pub api_key_id : Option String
  pub user_id : Option String
  pub team_id : Option String
  pub surface : String
  pub requested_model : String
  pub decision_model : String
  pub decision_provider : String
  pub input_tokens : ℤ
  pub output_tokens : ℤ
  pub cache_read_tokens : ℤ
  pub cache_write_tokens : ℤ
  pub cost_micros : ℤ
  pub status : ℕ
  pub is_error : Bool
  pub latency_ms : ℤ
  pub first_token_ms : Option ℤ
  pub generation_ms : Option ℤ
  pub queue_ms : Option ℤ
  pub created_at : ℕ

pub record RollupDelta : Type 0 where
  pub subject_type : SubjectType
  pub subject_id : String
  pub period : Period
  pub period_start : ℕ
  pub spend_micros : ℤ
  pub request_count : ℤ
  pub input_tokens : ℤ
  pub output_tokens : ℤ

-- The charges of the token meter, the turns, which are observed and then inserted, the rollups, the
-- log, and the requests that a warning names as unbilled.
pub record Ledger : Type 0 where
  pub charges : List ℤ
  pub turns : List TelemetryRecord
  pub rollups : List RollupDelta
  pub logged : List RequestLogRecord
  pub warned : List String

unfoldable pub price_of : Deployment → ModelPrice
unfolding builtin_price new_price
price_of d =
    unwrap_or
      (or_else (or_else d.pricing (builtin_price d.upstream_model)) (builtin_price d.model_name))
      (new_price 0 0)

unfoldable pub is_unbilled : RecordCtx → Filing → Bool
unfolding is_empty_usage
is_unbilled ctx f =
    ctx.reports_usage
    && not f.is_error
    && (leb 200 f.status && ltb f.status 300)
    && is_empty_usage f.usage

-- The subjects that a turn belongs to.
abbrev pub subject : SubjectType → Option String → List (SubjectType × String)
subject type none = []
subject type (some id) = (type, id) ∷ []

unfoldable pub subjects_of : RecordCtx → List (SubjectType × String)
subjects_of ctx = subject key ctx.api_key_id ++ subject user ctx.user_id ++ subject team ctx.team_id

-- `RecordCtx::finish`, with the row's new id and the latency.
abbrev milliseconds : Option ℕ → Option ℤ
milliseconds none = none
milliseconds (some at) = some (pos at)

unfoldable pub telemetry : Books → RecordCtx → String → ℤ → Filing → TelemetryRecord
unfolding price_of cost_micros speed
telemetry b ctx id latency f =
    let u = f.usage in
    let s = speed u latency (milliseconds f.first_token) (pos u.output_tokens) ctx.waited_ms in
    record {
      id = id;
      request_id = ctx.request_id;
      trace_id = ctx.trace_id;
      parent_span_id = ctx.parent_span_id;
      api_key_id = ctx.api_key_id;
      user_id = ctx.user_id;
      team_id = ctx.team_id;
      surface = ctx.surface;
      requested_model = ctx.requested_model;
      decision_model = ctx.deployment.model_name;
      decision_provider = ctx.deployment.provider;
      input_tokens = pos u.input_tokens;
      output_tokens = pos u.output_tokens;
      cache_read_tokens = pos u.cache_read_tokens;
      cache_write_tokens = pos u.cache_write_tokens;
      cost_micros =
          cost_micros b.arithmetic (price_of ctx.deployment) (pos u.input_tokens)
            (pos u.output_tokens) (pos u.cache_read_tokens) (pos u.cache_write_tokens);
      status = f.status;
      is_error = f.is_error;
      latency_ms = latency;
      first_token_ms = s.first_token_ms;
      generation_ms = s.generation_ms;
      queue_ms = s.queue_ms;
      created_at = ctx.created_at;
    }

unfoldable pub rollup : Books → TelemetryRecord → SubjectType × String → RollupDelta
rollup b t (type, id) = record {
  subject_type = type;
  subject_id = id;
  period = day;
  period_start = b.bucket_start day t.created_at;
  spend_micros = t.cost_micros;
  request_count = pos 1;
  input_tokens = t.input_tokens;
  output_tokens = t.output_tokens;
}

unfoldable pub log_record : Books → RecordCtx → Filing → RequestLogRecord
log_record b ctx f = record {
  ts = ctx.created_at;
  request_id = ctx.request_id;
  trace_id = ctx.trace_id;
  installation_id = "";
  surface = ctx.surface;
  requested_model = ctx.requested_model;
  decision_model = ctx.deployment.model_name;
  decision_provider = ctx.deployment.provider;
  upstream_status = f.status;
  is_error = f.is_error;
  request_bytes = length ctx.request_body;
  response_bytes = f.response_bytes;
  response_truncated = false;
  request_body = ctx.request_body;
  response_body = elim f.response_body [ none ↦ [] | some r ↦ b.to_vec r ];
  api_key_id = ctx.api_key_id;
  user_id = ctx.user_id;
  tags = ctx.tags;
  redaction = "";
}

unfoldable pub finish : Books → RecordCtx → String → ℤ → Filing → Ledger → Ledger
unfolding is_unbilled telemetry subjects_of rollup log_record
finish b ctx id latency f l =
    let t = telemetry b ctx id latency f in
    let tokens = f.usage.input_tokens + f.usage.output_tokens in
    record {
      charges = l.charges ++ (if ctx.has_meter && ltb 0 tokens then pos tokens ∷ [] else []);
      turns = l.turns ++ t ∷ [];
      rollups = l.rollups ++ map (rollup b t) (subjects_of ctx);
      logged = l.logged ++ log_record b ctx f ∷ [];
      warned = l.warned ++ (if is_unbilled ctx f then ctx.request_id ∷ [] else []);
    }
