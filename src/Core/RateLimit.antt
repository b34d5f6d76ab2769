-- ===== src/Core/RateLimit.antt =====
-- crates/yb-core/src/ratelimit.rs: the limits of a subject, the token bucket and the limiter. The
-- arithmetic of `f64` and of durations is a parameter, a `Clock`; a time is its milliseconds since
-- 1970. The map behind the mutex is passed to each operation and given back by it. A slot in flight
-- is a guard in memory, of which there are fewer than 2^63, so `in_flight` is an integer.
pub mod Slots
use sovereign_gateway.Base.{
  ℕ, zero, suc, ◌+◌, ◌-◌, ◌*◌, ◌%◌, ◌≤◌, ◌<◌, String, ◌≡◌, ◌≢◌, refl, sym, ap, ◌∙◌, ◌↔◌, ◌⊎◌, inl,
  inr, Bool, true, false, not, ◌&&◌, ◌||◌, Option, none, some, List, [], ◌∷◌, ◌++◌, map, ◌==◌,
  eq_iff, eq_refl, arith, ltb, leb, eqb, if◌then◌else◌, Bool-cases, Option-cases, All, All-append,
  length, is_nil, select, contains, any, unwrap_or, or_else,
}
use sovereign_gateway.Base.Int.{ℤ, pos, negsuc, ◌+ℤ◌, ◌-ℤ◌, ltb_ℤ, leb_ℤ, pos_part}
use sovereign_gateway.Base.Assoc.{lookup, upsert, modify}

pub record Limits : Type 0 where
  pub rpm : ℤ
  pub tpm : ℤ
  pub max_concurrent : ℤ

abbrev pub is_zero : ℤ → Bool
is_zero (pos zero) = true
is_zero (pos (suc n)) = false
is_zero (negsuc n) = false

unfoldable pub is_unlimited : Limits → Bool
is_unlimited l = is_zero l.rpm && is_zero l.tpm && is_zero l.max_concurrent

-- The operations on `f64` and on durations that the limiter uses.
pub record Clock : Type 1 where
  pub Float : Type 0
  pub Duration : Type 0
  pub of_int : ℤ → Float
  pub add : Float → Float → Float
  pub sub : Float → Float → Float
  pub mul : Float → Float → Float
  pub div : Float → Float → Float
  pub fmax : Float → Float → Float
  pub fmin : Float → Float → Float
  pub le : Float → Float → Bool
  pub lt : Float → Float → Bool
  pub thousandth : Float
  pub thousand : Float
  pub billionth : Float
  pub as_secs_f64 : Duration → Float
  pub from_secs_f64 : Float → Duration
  pub from_secs : ℕ → Duration
  pub dmax : Duration → Duration → Duration

module _ (c : Clock) where
  pub record RateDecision : Type 0 where
    pub allowed : Bool
    pub retry_after : c.Duration
    pub reason : String

  unfoldable pub allow : RateDecision
  allow = record { allowed = true; retry_after = c.from_secs 0; reason = "" }

  pub record Bucket : Type 0 where
    pub tokens : c.Float
    pub capacity : c.Float
    pub refill_per_sec : c.Float
    pub last : ℤ

  unfoldable pub new_bucket : c.Float → c.Duration → ℤ → Bucket
  new_bucket capacity window now = record {
    tokens = capacity;
    capacity = capacity;
    refill_per_sec = c.div capacity (c.fmax (c.as_secs_f64 window) c.thousandth);
    last = now;
  }

  unfoldable pub refill : Bucket → ℤ → Bucket
  refill b now =
      let elapsed = c.div (c.of_int (pos (pos_part (now -ℤ b.last)))) c.thousand in
      record b {
        tokens = c.fmin (c.add b.tokens (c.mul elapsed b.refill_per_sec)) b.capacity;
        last = now;
      }

  -- The bucket afterwards, and the time to wait where it held too little.
  unfoldable pub take_tokens : Bucket → c.Float → ℤ → Bucket × (Bool × c.Duration)
  unfolding refill
  take_tokens b cost now =
      let r = refill b now in
      if c.le cost r.tokens
      then (record r { tokens = c.sub r.tokens cost }, (true, c.from_secs 0))
      else (
        r,
        (
          false,
          c.from_secs_f64 (c.div (c.sub cost r.tokens) (c.fmax r.refill_per_sec c.billionth)),
        ),
      )

  pub record Scope : Type 0 where
    pub rpm_bucket : Option Bucket
    pub tpm_bucket : Option Bucket
    pub in_flight : ℤ

  abbrev pub default_scope : Scope
  default_scope = record { rpm_bucket = none; tpm_bucket = none; in_flight = pos 0 }

  -- `scopes` tells whether the guard refers to the map, or is the one that releases nothing.
  pub record ConcurrencyGuard : Type 0 where
    pub scopes : Bool
    pub scope : String

  abbrev pub noop : ConcurrencyGuard
  noop = record { scopes = false; scope = "" }

  -- `map.entry(scope).or_default()`.
  unfoldable pub entry : String → List (String × Scope) → Scope
  unfolding lookup
  entry s m = unwrap_or (lookup s m) default_scope

  unfoldable pub store_entry : String → Scope → List (String × Scope) → List (String × Scope)
  unfolding upsert
  store_entry s e m = upsert s default_scope (λ _. e) m

  unfoldable pub bucket_of : Option Bucket → ℤ → c.Duration → ℤ → Bucket
  unfolding new_bucket
  bucket_of b limit window now = unwrap_or b (new_bucket (c.of_int limit) window now)

  -- The slot taken at the end of `check`.
  unfoldable pub admit :
      String
      → Scope
      → List (String × Scope)
      → RateDecision × (ConcurrencyGuard × List (String × Scope))
  unfolding allow
  admit s e m = (
    allow,
    (
      record { scopes = true; scope = s },
      store_entry s (record e { in_flight = e.in_flight +ℤ pos 1 }) m,
    ),
  )

  abbrev pub deny :
      c.Duration
      → String
      → List (String × Scope)
      → RateDecision × (ConcurrencyGuard × List (String × Scope))
  deny wait reason m = (record { allowed = false; retry_after = wait; reason = reason }, (noop, m))

  unfoldable pub check :
      c.Duration
      → String
      → Limits
      → ℤ
      → List (String × Scope)
      → RateDecision × (ConcurrencyGuard × List (String × Scope))
  unfolding is_unlimited take_tokens
  check window s limits now m =
      if is_unlimited limits
      then (allow, (noop, m))
      else let e = entry s m in
        if ltb_ℤ (pos 0) limits.max_concurrent && leb_ℤ limits.max_concurrent e.in_flight
        then deny (c.from_secs 1) "concurrency" (store_entry s e m)
        else if ltb_ℤ (pos 0) limits.rpm
        then (let b = bucket_of e.rpm_bucket limits.rpm window now in
            let (b', (ok, retry)) =
              take_tokens (record b { capacity = c.of_int limits.rpm }) (c.of_int (pos 1)) now in
            let e' = record e { rpm_bucket = some b' } in
            if ok then admit s e' m else deny retry "rpm" (store_entry s e' m))
        else admit s e m

  unfoldable pub charge_tokens :
      c.Duration → String → Limits → ℤ → ℤ → List (String × Scope) → Bool × List (String × Scope)
  unfolding refill
  charge_tokens window s limits tokens now m =
      if leb_ℤ limits.tpm (pos 0)
      then (false, m)
      else let e = entry s m in
        let b = bucket_of e.tpm_bucket limits.tpm window now in
        let r = refill (record b { capacity = c.of_int limits.tpm }) now in
        let left = c.sub r.tokens (c.of_int tokens) in
        (
          c.lt left (c.of_int (pos 1)),
          store_entry s (record e { tpm_bucket = some (record r { tokens = left }) }) m,
        )

  unfoldable pub tpm_exhausted :
      c.Duration
      → String
      → Limits
      → ℤ
      → List (String × Scope)
      → (Bool × c.Duration) × List (String × Scope)
  unfolding refill
  tpm_exhausted window s limits now m =
      if leb_ℤ limits.tpm (pos 0)
      then ((false, c.from_secs 0), m)
      else let e = entry s m in
        let r = refill (bucket_of e.tpm_bucket limits.tpm window now) now in
        let m' = store_entry s (record e { tpm_bucket = some r }) m in
        if c.lt r.tokens (c.of_int (pos 1))
        then (
          (
            true,
            c.dmax
                (c.from_secs_f64 (c.div (c.of_int (pos 1)) (c.fmax r.refill_per_sec c.billionth)))
                (c.from_secs 1),
          ),
          m',
        )
        else ((false, c.from_secs 0), m')

  -- A guard is dropped: the slot of its scope is free again.
  unfoldable pub drop_guard : ConcurrencyGuard → List (String × Scope) → List (String × Scope)
  unfolding modify
  drop_guard g m =
      if g.scopes
      then modify g.scope (λ e. record e { in_flight = pos (pos_part (e.in_flight -ℤ pos 1)) }) m
      else m
