-- ===== src/Examples/Limits.antt =====
-- The limiter and the admission of requests at concrete values. Floats are integers here.
use sovereign_gateway.Base.{
  ◌*◌, ◌≡◌, refl, ◌↔◌, true, none, some, List, [], ◌∷◌, if◌then◌else◌, All,
}
use sovereign_gateway.Base.Int.{ℤ, pos, ◌+ℤ◌, ◌-ℤ◌, ltb_ℤ, leb_ℤ, pos_part, ◌≤ℤ◌}
use sovereign_gateway.Base.Assoc.{lookup, upsert, modify}
use sovereign_gateway.Core.RateLimit.{
  admit, is_unlimited, entry, store_entry, drop_guard, Clock, Limits, check,
}
use sovereign_gateway.Core.RateLimit.Slots.{
  Event, checked, dropped, run, step, live, in_flight_of, release, guard_at, remove_at,
}
use sovereign_gateway.Core.RateLimit.Slots.Balance.{run-IsBalanced, check-capped}
use sovereign_gateway.Core.Errors.{ok}
use sovereign_gateway.Core.Scopes.{inference}
use sovereign_gateway.Core.Spend.{key, day, Budget, block}
use sovereign_gateway.Server.Admission.{KeyAuth, Store, Config, admission, check_budgets}
use sovereign_gateway.Server.Admission.Budgets.{check_budgets_iff, IsOpen}
use sovereign_gateway.Server.Admission.Laws.{admission-IsHeld, IsHeld}

abbrev integers : Clock
integers = record {
  Float = ℤ;
  Duration = ℤ;
  of_int = λ i. i;
  add = λ a b. a +ℤ b;
  sub = λ a b. a -ℤ b;
  mul = λ a b. pos (pos_part a * pos_part b);
  div = λ a b. a;
  fmax = λ a b. if leb_ℤ a b then b else a;
  fmin = λ a b. if leb_ℤ a b then a else b;
  le = leb_ℤ;
  lt = ltb_ℤ;
  thousandth = pos 1;
  thousand = pos 1;
  billionth = pos 1;
  as_secs_f64 = λ d. d;
  from_secs_f64 = λ f. f;
  from_secs = λ n. pos n;
  dmax = λ a b. if leb_ℤ a b then b else a;
}

abbrev two_at_once : Limits
two_at_once = record { rpm = pos 0; tpm = pos 0; max_concurrent = pos 2 }

abbrev events : List (Event integers)
events =
    checked "k" two_at_once (pos 0)
    ∷ checked "k" two_at_once (pos 5)
    ∷ checked "k" two_at_once (pos 6)
    ∷ dropped 1
    ∷ []

run-IsBalanced_example :
    in_flight_of integers "k" (run integers (pos 60) events ([], [])).0
    ≡ pos (live integers "k" (run integers (pos 60) events ([], [])).1)
run-IsBalanced_example = run-IsBalanced integers (pos 60) events "k"

admitted_again :
    (check integers
      (pos 60)
      "k"
      two_at_once
      (pos 9)
      (run integers (pos 60) events ([], [])).0).0.allowed
    ≡ true
unfolding check run step is_unlimited release guard_at remove_at drop_guard admit entry store_entry
    lookup upsert modify ◌+ℤ◌ ◌-ℤ◌
admitted_again = refl

check-capped_example :
    pos (
      live integers "k"
        (step integers
          (pos 60)
          (checked "k" two_at_once (pos 9))
          (run integers (pos 60) events ([], []))).1)
    ≤ℤ pos 2
check-capped_example =
    check-capped integers (pos 60) events "k" two_at_once (pos 9) refl admitted_again

abbrev caller : KeyAuth
caller = record {
  api_key = record {
    id = "k";
    owner_user_id = "u";
    team_id = none;
    scopes = inference ∷ [];
    rpm_limit = none;
    tpm_limit = none;
    max_concurrent = some (pos 2);
  };
  user = record { rpm_limit = none; tpm_limit = none; max_concurrent = none };
}

abbrev daily : Budget
daily = record {
  id = "b";
  subject_type = key;
  subject_id = "k";
  period = day;
  hard_limit_micros = pos 100;
  soft_limit_micros = none;
  action = block;
  enabled = true;
  created_at = 0;
  updated_at = 0;
  deleted_at = none;
}

abbrev store : Store
store = record {
  verify_api_key = λ h. ok (some caller);
  list_budgets = λ t i. ok (daily ∷ []);
  period_spend = λ t i p s. ok (pos 40);
  bucket_start = λ p at. at;
  show_int = λ i. "?";
}

abbrev config : Config
config = record {
  clock = integers;
  window = pos 60;
  nanos = pos_part;
  ratelimit_enabled = true;
  budgets_enabled = true;
  hex_sha256 = λ t. t;
}

check_budgets_iff_example :
    (check_budgets store (pos 0) (daily ∷ []) ≡ ok tt) ↔ All (IsOpen store (pos 0)) (daily ∷ [])
check_budgets_iff_example = check_budgets_iff store (pos 0) (daily ∷ [])

admission-IsHeld_example :
    IsHeld config "k" 0 (admission config store (some "token") true (pos 0) [])
unfolding in_flight_of lookup entry
admission-IsHeld_example = admission-IsHeld config store (some "token") true (pos 0) [] "k" 0 refl
