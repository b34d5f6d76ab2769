-- ===== src/Server/Admission.antt =====
-- crates/yb-server/src/lib.rs: the limits of a key, the budgets, and the checks of `run_call` before
-- a turn is dispatched. The store is a parameter; its answers are results.
pub mod Budgets
pub mod Laws
use sovereign_gateway.Base.{
  ℕ, zero, suc, ◌+◌, ◌-◌, ◌*◌, ◌%◌, ◌≤◌, ◌<◌, String, ◌≡◌, ◌≢◌, refl, sym, ap, ◌∙◌, ◌↔◌, ◌⊎◌, inl,
  inr, Bool, true, false, not, ◌&&◌, ◌||◌, Option, none, some, List, [], ◌∷◌, ◌++◌, map, ◌==◌,
  eq_iff, eq_refl, arith, ltb, leb, eqb, if◌then◌else◌, Bool-cases, Option-cases, All, All-append,
  length, is_nil, select, contains, any, unwrap_or, or_else,
}
use sovereign_gateway.Base.Int.{ℤ, pos, ltb_ℤ, leb_ℤ}
use sovereign_gateway.Core.Errors.{
  Error, Result, ok, err, ◌>>=◌, budget_exceeded, unauthorized, forbidden, rate_limited,
}
use sovereign_gateway.Core.Scopes.{KeyScope, has_scope, inference}
use sovereign_gateway.Core.Spend.{
  SubjectType, key, user, team, Period, Budget, BudgetAction, block, alert, period_str, subject_str,
}
use sovereign_gateway.Core.RateLimit.{
  Limits, Clock, Scope, ConcurrencyGuard, RateDecision, check, tpm_exhausted, drop_guard, noop,
}
use sovereign_gateway.Base.Text.{join}

-- The fields of a key and of its owner that admission reads.
pub record ApiKey : Type 0 where
  pub id : String
  pub owner_user_id : String
  pub team_id : Option String
  pub scopes : List KeyScope
  pub rpm_limit : Option ℤ
  pub tpm_limit : Option ℤ
  pub max_concurrent : Option ℤ

pub record User : Type 0 where
  pub rpm_limit : Option ℤ
  pub tpm_limit : Option ℤ
  pub max_concurrent : Option ℤ

pub record KeyAuth : Type 0 where
  pub api_key : ApiKey
  pub user : User

unfoldable pub resolve_limits : KeyAuth → Limits
resolve_limits auth = record {
  rpm = unwrap_or (or_else auth.api_key.rpm_limit auth.user.rpm_limit) (pos 0);
  tpm = unwrap_or (or_else auth.api_key.tpm_limit auth.user.tpm_limit) (pos 0);
  max_concurrent = unwrap_or (or_else auth.api_key.max_concurrent auth.user.max_concurrent) (pos 0);
}

-- What the checks use of the store, of the calendar (`bucket_start`) and of the writer of integers.
pub record Store : Type 0 where
  pub verify_api_key : String → Result (Option KeyAuth)
  pub list_budgets : SubjectType → String → Result (List Budget)
  pub period_spend : SubjectType → String → Period → ℤ → Result ℤ
  pub bucket_start : Period → ℤ → ℤ
  pub show_int : ℤ → String

abbrev pub blocks_on : Budget → Bool
blocks_on b = b.enabled && (elim b.action [ block ↦ true | alert ↦ false ])

unfoldable pub exceeded : Store → Budget → ℤ → Error
unfolding period_str subject_str join
exceeded s b spent = budget_exceeded (
    join "" (
      period_str b.period
      ∷ " budget for "
      ∷ subject_str b.subject_type
      ∷ " exhausted ("
      ∷ s.show_int spent
      ∷ " / "
      ∷ s.show_int b.hard_limit_micros
      ∷ " micros)"
      ∷ []))

-- The loop over the budgets.
unfoldable pub check_budgets : Store → ℤ → List Budget → Result {0} Unit
unfolding exceeded
check_budgets s at [] = ok tt
check_budgets s at (b ∷ bs) =
    let rest = check_budgets s at bs in
    if not (blocks_on b)
    then rest
    else s.period_spend b.subject_type b.subject_id b.period (s.bucket_start b.period at)
      >>= λ spent. if leb_ℤ b.hard_limit_micros spent then err (exceeded s b spent) else rest

unfoldable pub budgets_of : Store → KeyAuth → Result (List Budget)
budgets_of s auth = s.list_budgets key auth.api_key.id >>= λ of_key.
    s.list_budgets user auth.api_key.owner_user_id >>= λ of_user. elim auth.api_key.team_id [
      | none ↦ ok (of_key ++ of_user)
      | some team_id ↦ s.list_budgets team team_id >>= λ of_team. ok (of_key ++ of_user ++ of_team)
    ]

unfoldable pub enforce_budgets : Store → KeyAuth → ℤ → Result {0} Unit
unfolding budgets_of check_budgets
enforce_budgets s auth at = budgets_of s auth >>= λ budgets. check_budgets s at budgets

-- What the server is configured with, and the hash of a token.
pub record Config : Type 1 where
  pub clock : Clock
  pub window : clock.Duration
  pub nanos : clock.Duration → ℕ
  pub ratelimit_enabled : Bool
  pub budgets_enabled : Bool
  pub hex_sha256 : String → String

-- The call of `verify_api_key` and the test of the scope.
unfoldable pub authenticate : Store → Config → Option String → Result KeyAuth
unfolding has_scope
authenticate s cfg none = err (unauthorized "missing bearer credential")
authenticate s cfg (some token) = s.verify_api_key (cfg.hex_sha256 token) >>= λ found. elim found [
  | none ↦ err (unauthorized "invalid api key")
  | some auth ↦
      if has_scope inference auth.api_key.scopes
      then ok auth
      else err (forbidden "this key lacks the inference scope")
]

module _ (cfg : Config) where
  abbrev pub Scopes : Type 0
  Scopes = List (String × Scope cfg.clock)

  -- The limiter's two checks. A guard that is not given back is dropped.
  unfoldable pub limit : KeyAuth → ℤ → Scopes → Result (ConcurrencyGuard cfg.clock) × Scopes
  unfolding check tpm_exhausted drop_guard resolve_limits
  limit auth at m =
      let (decision, (guard, m')) =
        check cfg.clock cfg.window auth.api_key.id (resolve_limits auth) at m in
      if not decision.allowed
      then (
        err (rate_limited (cfg.nanos decision.retry_after) decision.reason),
        drop_guard cfg.clock guard m',
      )
      else (let ((exhausted, retry), m'') =
            tpm_exhausted cfg.clock cfg.window auth.api_key.id (resolve_limits auth) at m' in
          if exhausted
          then (err (rate_limited (cfg.nanos retry) "tpm"), drop_guard cfg.clock guard m'')
          else (ok guard, m''))

  -- The budgets hold back a turn, and not a question about a video.
  unfoldable pub budget : Store → KeyAuth → ℤ → Bool → Result {0} Unit
  unfolding enforce_budgets
  budget s auth at is_turn =
      if cfg.budgets_enabled && is_turn then enforce_budgets s auth at else ok tt

  unfoldable pub drop_result :
      ConcurrencyGuard cfg.clock
      → Scopes
      → KeyAuth
      → Result {0} Unit
      → Result (KeyAuth × ConcurrencyGuard cfg.clock) × Scopes
  unfolding drop_guard
  drop_result guard m auth (err e) = (err e, drop_guard cfg.clock guard m)
  drop_result guard m auth (ok u) = (ok (auth, guard), m)

  -- The checks of `run_call`: the key and the guard that is held while the turn is served, or the
  -- error that is answered.
  unfoldable pub admission :
      Store
      → Option String
      → Bool
      → ℤ
      → Scopes
      → Result (KeyAuth × ConcurrencyGuard cfg.clock) × Scopes
  unfolding authenticate limit budget
  admission s token is_turn at m = elim (authenticate s cfg token) [
    | err e ↦ (err e, m)
    | ok auth ↦
        if cfg.ratelimit_enabled
        then (let (answer, m') = limit auth at m in
            elim answer [
              | err e ↦ (err e, m')
              | ok guard ↦ drop_result guard m' auth (budget s auth at is_turn)
            ])
        else drop_result (noop cfg.clock) m auth (budget s auth at is_turn)
  ]
