-- ===== src/Server/Admission/Laws.antt =====
-- What a refused request leaves behind (crates/yb-server/src/lib.rs, the first half of `run_call`).
use sovereign_gateway.Base.{
  ℕ, suc, String, ◌≡◌, refl, ◌∙◌, inl, inr, Bool, ◌&&◌, Option, ◌==◌, arith, if◌then◌else◌,
  Bool-cases,
}
use sovereign_gateway.Base.Int.{ℤ, pos}
use sovereign_gateway.Core.Errors.{Result, ok, err}
use sovereign_gateway.Core.RateLimit.{ConcurrencyGuard, check, tpm_exhausted, drop_guard, noop}
use sovereign_gateway.Core.RateLimit.Slots.{in_flight_of, live}
use sovereign_gateway.Core.RateLimit.Slots.Balance.{
  check-Accounts, tpm_exhausted-keep, drop-balance,
}
use sovereign_gateway.Server.Admission.{
  Config, Store, KeyAuth, Scopes, limit, budget, admission, authenticate, drop_result,
  resolve_limits,
}

module _ (cfg : Config) where
  abbrev slots : Scopes cfg → String → ℤ
  slots m j = in_flight_of cfg.clock j m

  -- A map that has the slots of a guard in addition has its own slots when the guard is dropped.
  dropped-slots :
      (g : ConcurrencyGuard cfg.clock) (m : Scopes cfg) (j : String) (n : ℕ)
      → slots m j ≡ pos (if g.scopes && (g.scope == j) then suc n else n)
      → slots (drop_guard cfg.clock g m) j ≡ pos n
  unfolding live
  dropped-slots g m j n h =
      drop-balance cfg.clock m j (if g.scopes && (g.scope == j) then suc n else n) n g
        (elim (Bool-cases (g.scopes && (g.scope == j))) [
          | inl q ↦ rw q (ground arith)
          | inr q ↦ rw q (ground arith)
        ])
        h

  -- The slots of a scope after a guard is held, or after a refusal.
  abbrev pub with_guard : ConcurrencyGuard cfg.clock → String → ℕ → ℕ
  with_guard g j n = if g.scopes && (g.scope == j) then suc n else n

  abbrev IsLimited : String → ℕ → Result (ConcurrencyGuard cfg.clock) × Scopes cfg → Type 0
  IsLimited j n (err e, m) = slots m j ≡ pos n
  IsLimited j n (ok g, m) = slots m j ≡ pos (with_guard g j n)

  limit-IsLimited :
      (auth : KeyAuth) (at : ℤ) (m : Scopes cfg) (j : String) (n : ℕ)
      → slots m j ≡ pos n
      → IsLimited j n (limit cfg auth at m)
  unfolding limit
  limit-IsLimited auth at m j n h =
      let c = check cfg.clock cfg.window auth.api_key.id (resolve_limits auth) at m in
      let held =
        check-Accounts cfg.clock cfg.window auth.api_key.id (resolve_limits auth) at m j n h in
      let t = tpm_exhausted cfg.clock cfg.window auth.api_key.id (resolve_limits auth) at c.1.1 in
      let still : slots t.1 j ≡ pos (with_guard c.1.0 j n) =
        tpm_exhausted-keep cfg.clock cfg.window auth.api_key.id j (resolve_limits auth) at c.1.1
        ∙ held in
      elim (Bool-cases c.0.allowed) [
        | inl a ↦ elim (Bool-cases t.0.0) [
          | inl x ↦ rw (a, x) (dropped-slots c.1.0 t.1 j n still)
          | inr x ↦ rw (a, x) still
        ]
        | inr a ↦ rw a (dropped-slots c.1.0 c.1.1 j n held)
      ]

  abbrev pub IsHeld :
      String → ℕ → Result (KeyAuth × ConcurrencyGuard cfg.clock) × Scopes cfg → Type 0
  IsHeld j n (err e, m) = slots m j ≡ pos n
  IsHeld j n (ok (auth, g), m) = slots m j ≡ pos (with_guard g j n)

  drop_result-IsHeld :
      (g : ConcurrencyGuard cfg.clock) (m : Scopes cfg) (auth : KeyAuth) (r : Result {0} Unit)
      (j : String) (n : ℕ)
      → slots m j ≡ pos (with_guard g j n)
      → IsHeld j n (drop_result cfg g m auth r)
  unfolding drop_result
  drop_result-IsHeld g m auth (err e) j n h = dropped-slots g m j n h
  drop_result-IsHeld g m auth (ok u) j n h = h

  -- However the store answers, a request that is refused leaves every scope's slots in flight as it
  -- found them, whichever check refuses it; one that is admitted has added exactly the slot of the
  -- guard that it holds.
  pub admission-IsHeld :
      (s : Store) (token : Option String) (is_turn : Bool) (at : ℤ) (m : Scopes cfg) (j : String)
      (n : ℕ)
      → in_flight_of cfg.clock j m ≡ pos n
      → IsHeld j n (admission cfg s token is_turn at m)
  unfolding admission drop_result
  admission-IsHeld s token is_turn at m j n h = go (authenticate s cfg token) refl
    where
      limited :
          (auth : KeyAuth) (p : Result (ConcurrencyGuard cfg.clock) × Scopes cfg)
          → IsLimited j n p
          → IsHeld j n (elim p.0 [
            | err e ↦ (err e, p.1)
            | ok guard ↦ drop_result cfg guard p.1 auth (budget cfg s auth at is_turn)
          ])
      limited auth (err e, m') k = k
      limited auth (ok guard, m') k =
          drop_result-IsHeld guard m' auth (budget cfg s auth at is_turn) j n k

      go :
          (a : Result KeyAuth)
          → authenticate s cfg token ≡ a
          → IsHeld j n (admission cfg s token is_turn at m)
      go (err e) q = rw (admission, q) h
      go (ok auth) q = elim (Bool-cases cfg.ratelimit_enabled) [
        | inl x ↦
            rw (admission, q, x)
              (limited auth (limit cfg auth at m) (limit-IsLimited auth at m j n h))
        | inr x ↦
            rw (admission, q, x)
              (drop_result-IsHeld (noop cfg.clock) m auth (budget cfg s auth at is_turn) j n h)
      ]
