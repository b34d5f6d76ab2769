-- ===== src/Core/Spend.antt =====
-- crates/yb-core/src/spend.rs: what a budget limits. A `Micros` is an `i64` amount.
use sovereign_gateway.Base.{
  ◌==◌, if◌then◌else◌, ◌≡◌, refl, ◌↔◌, arith, eq_iff, ℕ, String, Bool, Option,
}
use Prim.Native.String
use sovereign_gateway.Core.Errors.{Result, ok, err, bad_request}
use sovereign_gateway.Base.Int.{ℤ}

pub data SubjectType : Type 0 where
  key user team : SubjectType

unfoldable pub subject_str : SubjectType → String
subject_str key = "key"
subject_str user = "user"
subject_str team = "team"

pub data Period : Type 0 where
  day week month total : Period

unfoldable pub period_str : Period → String
period_str day = "day"
period_str week = "week"
period_str month = "month"
period_str total = "total"

pub data BudgetAction : Type 0 where
  block alert : BudgetAction

pub record Budget : Type 0 where
  pub id : String
  pub subject_type : SubjectType
  pub subject_id : String
  pub period : Period
  pub hard_limit_micros : ℤ
  pub soft_limit_micros : Option ℤ
  pub action : BudgetAction
  pub enabled : Bool
  pub created_at : ℕ
  pub updated_at : ℕ
  pub deleted_at : Option ℕ

unfoldable pub parse_subject : String → Result SubjectType
parse_subject s =
    if s == "key"
    then ok key
    else if s == "user"
    then ok user
    else if s == "team"
    then ok team
    else err (bad_request (String.◌++◌ "bad subject type: " s))

unfoldable pub parse_period : String → Result Period
parse_period s =
    if s == "day"
    then ok day
    else if s == "week"
    then ok week
    else if s == "month"
    then ok month
    else if s == "total"
    then ok total
    else err (bad_request (String.◌++◌ "bad period: " s))

-- A subject's kind and a period that are written are read back, and no other text is read as a period.
pub parse_period_iff :
    (s : String) (p : Period) (t : SubjectType)
    → (parse_subject (subject_str t) ≡ ok t) × ((parse_period s ≡ ok p) ↔ (s ≡ period_str p))
unfolding parse_period parse_subject period_str subject_str
parse_period_iff s p t = (subject_back t, (read s p, λ h. rw h (period_back p)))
  where
    subject_back : (t : SubjectType) → parse_subject (subject_str t) ≡ ok t
    subject_back key = refl
    subject_back user = refl
    subject_back team = refl

    period_back : (p : Period) → parse_period (period_str p) ≡ ok p
    period_back day = refl
    period_back week = refl
    period_back month = refl
    period_back total = refl

    read : (s : String) (p : Period) → parse_period s ≡ ok p → s ≡ period_str p
    read s day h =
        ground (arith, h, eq_iff s "day", eq_iff s "week", eq_iff s "month", eq_iff s "total")
    read s week h =
        ground (arith, h, eq_iff s "day", eq_iff s "week", eq_iff s "month", eq_iff s "total")
    read s month h =
        ground (arith, h, eq_iff s "day", eq_iff s "week", eq_iff s "month", eq_iff s "total")
    read s total h =
        ground (arith, h, eq_iff s "day", eq_iff s "week", eq_iff s "month", eq_iff s "total")
