-- ===== src/Core/RateLimit/Slots.antt =====
-- The concurrency slots of the limiter (crates/yb-core/src/ratelimit.rs) over any sequence of calls
-- and of dropped guards.
pub mod Balance
use mathlib.Core.Option
use sovereign_gateway.Base.{
  ℕ, zero, suc, ◌+◌, ◌-◌, ◌*◌, ◌%◌, ◌≤◌, ◌<◌, String, ◌≡◌, ◌≢◌, refl, sym, ap, ◌∙◌, ◌↔◌, ◌⊎◌, inl,
  inr, Bool, true, false, not, ◌&&◌, ◌||◌, Option, none, some, List, [], ◌∷◌, ◌++◌, map, ◌==◌,
  eq_iff, eq_refl, arith, ltb, leb, eqb, if◌then◌else◌, Bool-cases, Option-cases, All, All-append,
  length, is_nil, select, contains, any, unwrap_or, or_else,
}
use sovereign_gateway.Base.Int.{ℤ, pos, negsuc, ◌+ℤ◌, ◌-ℤ◌, ltb_ℤ, leb_ℤ, pos_part, neg_part, sub_ℕ}
use sovereign_gateway.Base.Assoc.{lookup, upsert, modify, lookup-upsert, lookup-modify}
use sovereign_gateway.Core.RateLimit.{
  Clock, Limits, Scope, ConcurrencyGuard, check, charge_tokens, tpm_exhausted, drop_guard,
  is_unlimited, entry, store_entry, bucket_of, take_tokens, refill, default_scope, RateDecision,
  admit, deny,
}

module _ (c : Clock) where
  unfoldable pub in_flight_of : String → List (String × Scope c) → ℤ
  unfolding lookup
  in_flight_of s m = (entry c s m).in_flight

  -- The guards of a scope that hold a slot.
  unfoldable pub live : String → List (ConcurrencyGuard c) → ℕ
  live s [] = 0
  live s (g ∷ gs) = if g.scopes && (g.scope == s) then suc (live s gs) else live s gs

  -- What happens to a limiter: its calls, and the drop of the guard at an index.
  pub data Event : Type 0 where
    checked : String → Limits → ℤ → Event
    charged : String → Limits → ℤ → ℤ → Event
    asked : String → Limits → ℤ → Event
    dropped : ℕ → Event

  unfoldable pub remove_at : ℕ → List (ConcurrencyGuard c) → List (ConcurrencyGuard c)
  remove_at i [] = []
  remove_at zero (g ∷ gs) = gs
  remove_at (suc i) (g ∷ gs) = g ∷ remove_at i gs

  unfoldable pub guard_at : ℕ → List (ConcurrencyGuard c) → Option (ConcurrencyGuard c)
  guard_at i [] = none
  guard_at zero (g ∷ gs) = some g
  guard_at (suc i) (g ∷ gs) = guard_at i gs

  -- The map and the guards that are held.
  abbrev pub Held : Type 0
  Held = List (String × Scope c) × List (ConcurrencyGuard c)

  -- The guard found at an index, if there is one, is dropped.
  unfoldable pub release : Option (ConcurrencyGuard c) → ℕ → Held → Held
  unfolding drop_guard remove_at
  release none i h = h
  release (some g) i (m, gs) = (drop_guard c g m, remove_at i gs)

  unfoldable pub step : c.Duration → Event → Held → Held
  unfolding check charge_tokens tpm_exhausted release guard_at
  step window (checked s limits now) (m, gs) =
      let (d, (g, m')) = check c window s limits now m in (m', g ∷ gs)
  step window (charged s limits tokens now) (m, gs) =
      let (over, m') = charge_tokens c window s limits tokens now m in (m', gs)
  step window (asked s limits now) (m, gs) =
      let (answer, m') = tpm_exhausted c window s limits now m in (m', gs)
  step window (dropped i) (m, gs) = release (guard_at i gs) i (m, gs)

  unfoldable pub run : c.Duration → List Event → Held → Held
  unfolding step
  run window [] h = h
  run window (e ∷ es) h = run window es (step window e h)

  abbrev pub IsBalanced : Held → Type 0
  IsBalanced (m, gs) = (s : String) → in_flight_of s m ≡ pos (live s gs)

  -- The slots of what a lookup found.
  abbrev slots : Option (Scope c) → ℤ
  slots o = (unwrap_or o (default_scope c)).in_flight

  slots-if :
      (b : Bool) (e : Scope c) (o : Option (Scope c))
      → slots (if b then some e else o) ≡ (if b then e.in_flight else slots o)
  slots-if true e o = refl
  slots-if false e o = refl

  abbrev freed : Scope c → Scope c
  freed e = record e { in_flight = pos (pos_part (e.in_flight -ℤ pos 1)) }

  slots-freed :
      (b : Bool) (o : Option (Scope c))
      → slots (if b then Option.map freed o else o)
        ≡ (if b then pos (pos_part (slots o -ℤ pos 1)) else slots o)
  unfolding ◌-ℤ◌
  slots-freed true none = ground arith
  slots-freed true (some e) = ground arith
  slots-freed false o = refl

  pub in_flight_of-store :
      (s j : String) (e : Scope c) (m : List (String × Scope c))
      → in_flight_of j (store_entry c s e m) ≡ (if s == j then e.in_flight else in_flight_of j m)
  unfolding in_flight_of store_entry entry upsert
  in_flight_of-store s j e m =
      ap slots (lookup-upsert s j (default_scope c) (λ _. e) m) ∙ slots-if (s == j) e (lookup j m)

  -- An entry stored with its own slots changes no count.
  pub in_flight_of-keep :
      (s j : String) (e : Scope c) (m : List (String × Scope c))
      → e.in_flight ≡ in_flight_of s m
      → in_flight_of j (store_entry c s e m) ≡ in_flight_of j m
  in_flight_of-keep s j e m h = elim (Bool-cases (s == j)) [
    | inl q ↦ (let same : s ≡ j = (eq_iff s j).0 q in rw (in_flight_of-store s j e m, q, h, same))
    | inr q ↦ rw (in_flight_of-store s j e m, q)
  ]

  pub in_flight_of-drop :
      (g : ConcurrencyGuard c) (j : String) (m : List (String × Scope c))
      → in_flight_of j (drop_guard c g m) ≡ (
          if g.scopes && (g.scope == j)
          then pos (pos_part (in_flight_of j m -ℤ pos 1))
          else in_flight_of j m)
  unfolding in_flight_of entry drop_guard
  in_flight_of-drop g j m = elim (Bool-cases g.scopes) [
    | inl q ↦
        rw q (ap slots (lookup-modify g.scope j freed m) ∙ slots-freed (g.scope == j) (lookup j m))
    | inr q ↦ rw q
  ]

  pub pos_suc : (n : ℕ) → pos n +ℤ pos 1 ≡ pos (suc n)
  unfolding ◌+ℤ◌
  pos_suc n = ground arith
