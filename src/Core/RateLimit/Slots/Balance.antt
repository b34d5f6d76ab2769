-- ===== src/Core/RateLimit/Slots/Balance.antt =====
-- The slots in flight (crates/yb-core/src/ratelimit.rs) are the guards that are held, and a scope
-- never holds more of them than its limit.
use sovereign_gateway.Base.{
  ℕ, zero, suc, ◌+◌, String, ◌≡◌, refl, ◌∙◌, inl, inr, true, false, ◌&&◌, some, List, [], ◌∷◌, ◌==◌,
  eq_iff, arith, if◌then◌else◌, Bool-cases, Option-cases,
}
use sovereign_gateway.Base.Int.{ℤ, pos, negsuc, ◌+ℤ◌, ◌-ℤ◌, ltb_ℤ, leb_ℤ, ◌≤ℤ◌, pos_part}
use sovereign_gateway.Core.RateLimit.{
  is_zero, Clock, Limits, Scope, ConcurrencyGuard, RateDecision, check, charge_tokens,
  tpm_exhausted, drop_guard, is_unlimited, entry, store_entry, bucket_of, take_tokens, refill,
  admit, deny,
}
use sovereign_gateway.Core.RateLimit.Slots.{
  checked, charged, asked, dropped, in_flight_of, live, Event, remove_at, guard_at, Held, step, run,
  IsBalanced, in_flight_of-store, in_flight_of-keep, in_flight_of-drop, pos_suc, release,
}
use sovereign_gateway.Base.Assoc.{lookup}

is_zero-positive : (i : ℤ) → leb_ℤ i (pos 0) ≡ false → is_zero i ≡ false
is_zero-positive (pos zero) h = ground (arith, h)
is_zero-positive (pos (suc n)) h = refl
is_zero-positive (negsuc n) h = refl

module _ (c : Clock) where
  live-remove_at :
      (i : ℕ) (s : String) (g : ConcurrencyGuard c) (gs : List (ConcurrencyGuard c))
      → guard_at c i gs ≡ some g
      → live c s gs ≡ live c s (g ∷ []) + live c s (remove_at c i gs)
  unfolding live guard_at remove_at
  live-remove_at i s g [] h = ground arith
  live-remove_at zero s g (k ∷ gs) h = ground arith
  live-remove_at (suc i) s g (k ∷ gs) h = ground (arith, live-remove_at i s g gs h)

  -- An answer of `check` accounts for the slot of its guard.
  abbrev pub Accounts :
      List (String × Scope c)
      → RateDecision c × (ConcurrencyGuard c × List (String × Scope c))
      → Type 0
  Accounts m (d, (g, m')) =
      (j : String) (n : ℕ)
      → in_flight_of c j m ≡ pos n
      → in_flight_of c j m' ≡ pos (if g.scopes && (g.scope == j) then suc n else n)

  admit-Accounts :
      (s : String) (e : Scope c) (m : List (String × Scope c))
      → e.in_flight ≡ in_flight_of c s m
      → Accounts m (admit c s e m)
  unfolding in_flight_of entry admit
  admit-Accounts s e m h j n k = elim (Bool-cases (s == j)) [
    | inl q ↦
        let same : s ≡ j = (eq_iff s j).0 q in
        rw
          (
            in_flight_of-store c s j (record e { in_flight = e.in_flight +ℤ pos 1 }) m,
            q,
            h,
            same,
            k,
          )
          (pos_suc c n)
    | inr q ↦ rw (in_flight_of-store c s j (record e { in_flight = e.in_flight +ℤ pos 1 }) m, q, k)
  ]

  deny-Accounts :
      (s : String) (e : Scope c) (m : List (String × Scope c)) (wait : c.Duration) (reason : String)
      → e.in_flight ≡ in_flight_of c s m
      → Accounts m (deny c wait reason (store_entry c s e m))
  deny-Accounts s e m wait reason h j n k = in_flight_of-keep c s j e m h ∙ k

  pos_pred : (n : ℕ) → pos (pos_part (pos (suc n) -ℤ pos 1)) ≡ pos n
  unfolding ◌-ℤ◌
  pos_pred n = ground arith

  in_flight-entry :
      (s : String) (m : List (String × Scope c)) → (entry c s m).in_flight ≡ in_flight_of c s m
  unfolding in_flight_of
  in_flight-entry s m = refl

  pub check-Accounts :
      (window : c.Duration) (s : String) (limits : Limits) (now : ℤ) (m : List (String × Scope c))
      → Accounts m (check c window s limits now m)
  unfolding check
  check-Accounts window s limits now m j n k =
      let e : Scope c = entry c s m in
      elim (Bool-cases (is_unlimited limits)) [
        | inl q ↦ rw q k
        | inr q ↦
            elim (Bool-cases
              (ltb_ℤ (pos 0) limits.max_concurrent && leb_ℤ limits.max_concurrent e.in_flight)) [
                | inl f ↦
                    rw (q, f)
                      (deny-Accounts s e m (c.from_secs 1) "concurrency" (in_flight-entry s m) j n
                        k)
                | inr f ↦ elim (Bool-cases (ltb_ℤ (pos 0) limits.rpm)) [
                  | inl r ↦
                      let b = bucket_of c e.rpm_bucket limits.rpm window now in
                      let t =
                        take_tokens c (record b { capacity = c.of_int limits.rpm })
                          (c.of_int (pos 1)) now in
                      let e' : Scope c = record e { rpm_bucket = some t.0 } in
                      elim (Bool-cases t.1.0) [
                        | inl o ↦
                            rw (q, f, r, o) (admit-Accounts s e' m (in_flight-entry s m) j n k)
                        | inr o ↦
                            rw (q, f, r, o)
                              (deny-Accounts s e' m t.1.1 "rpm" (in_flight-entry s m) j n k)
                      ]
                  | inr r ↦ rw (q, f, r) (admit-Accounts s e m (in_flight-entry s m) j n k)
                ]
              ]
      ]

  charge_tokens-keep :
      (window : c.Duration) (s j : String) (limits : Limits) (tokens now : ℤ)
      (m : List (String × Scope c))
      → in_flight_of c j (charge_tokens c window s limits tokens now m).1 ≡ in_flight_of c j m
  unfolding charge_tokens
  charge_tokens-keep window s j limits tokens now m = elim (Bool-cases (leb_ℤ limits.tpm (pos 0))) [
    | inl q ↦ rw q
    | inr q ↦ rw q (in_flight_of-keep c s j _ m (in_flight-entry s m))
  ]

  pub tpm_exhausted-keep :
      (window : c.Duration) (s j : String) (limits : Limits) (now : ℤ) (m : List (String × Scope c))
      → in_flight_of c j (tpm_exhausted c window s limits now m).1 ≡ in_flight_of c j m
  unfolding tpm_exhausted
  tpm_exhausted-keep window s j limits now m = elim (Bool-cases (leb_ℤ limits.tpm (pos 0))) [
    | inl q ↦ rw q
    | inr q ↦
        let e : Scope c = entry c s m in
        let r = refill c (bucket_of c e.tpm_bucket limits.tpm window now) now in
        elim (Bool-cases (c.lt r.tokens (c.of_int (pos 1)))) [
          | inl l ↦
              rw (q, l)
                (in_flight_of-keep c s j (record e { tpm_bucket = some r }) m (in_flight-entry s m))
          | inr l ↦
              rw (q, l)
                (in_flight_of-keep c s j (record e { tpm_bucket = some r }) m (in_flight-entry s m))
        ]
  ]

  -- Dropping a guard gives back the slot that it held.
  pub drop-balance :
      (m : List (String × Scope c)) (j : String) (all rest : ℕ) (g : ConcurrencyGuard c)
      → all ≡ live c j (g ∷ []) + rest
      → in_flight_of c j m ≡ pos all
      → in_flight_of c j (drop_guard c g m) ≡ pos rest
  unfolding live
  drop-balance m j all rest g split b =
      in_flight_of-drop c g j m ∙ elim (Bool-cases (g.scopes && (g.scope == j))) [
        | inl q ↦
            let one : all ≡ suc rest = ground (arith, split, q) in rw (q, b, one) (pos_pred rest)
        | inr q ↦ let same : all ≡ rest = ground (arith, split, q) in rw (q, b, same)
      ]

  step-IsBalanced :
      (window : c.Duration) (e : Event c) (h : Held c)
      → IsBalanced c h
      → IsBalanced c (step c window e h)
  unfolding step live release
  step-IsBalanced window (checked s limits now) (m, gs) b j =
      check-Accounts window s limits now m j (live c j gs) (b j)
  step-IsBalanced window (charged s limits tokens now) (m, gs) b j =
      charge_tokens-keep window s j limits tokens now m ∙ b j
  step-IsBalanced window (asked s limits now) (m, gs) b j =
      tpm_exhausted-keep window s j limits now m ∙ b j
  step-IsBalanced window (dropped i) (m, gs) b j = elim (Option-cases (guard_at c i gs)) [
    | inl n ↦ rw n (b j)
    | inr (g, f) ↦ rw f (drop-balance m j _ _ g (live-remove_at i j g gs f) (b j))
  ]

  run-IsBalanced_from :
      (window : c.Duration) (es : List (Event c)) (h : Held c)
      → IsBalanced c h
      → IsBalanced c (run c window es h)
  unfolding run
  run-IsBalanced_from window [] h b = b
  run-IsBalanced_from window (e ∷ es) h b =
      run-IsBalanced_from window es (step c window e h) (step-IsBalanced window e h b)

  -- After any sequence of calls and of dropped guards on a fresh limiter, each scope's slots in flight
  -- are exactly the guards of that scope that are still held.
  pub run-IsBalanced :
      (window : c.Duration) (es : List (Event c)) (s : String)
      → in_flight_of c s (run c window es ([], [])).0 ≡ pos (live c s (run c window es ([], [])).1)
  unfolding live in_flight_of entry lookup
  run-IsBalanced window es = run-IsBalanced_from window es ([], []) (λ s. refl)

  -- What `check` lets through found its scope below a positive limit.
  check-free :
      (window : c.Duration) (s : String) (limits : Limits) (now : ℤ) (m : List (String × Scope c))
      → leb_ℤ limits.max_concurrent (pos 0) ≡ false
      → (check c window s limits now m).0.allowed ≡ true
      → leb_ℤ limits.max_concurrent (in_flight_of c s m) ≡ false
  unfolding check is_unlimited
  check-free window s limits now m positive admitted =
      elim (Bool-cases (leb_ℤ limits.max_concurrent (in_flight_of c s m))) [
        | inl l ↦
            let limited : is_unlimited limits ≡ false =
              ground (arith, is_zero-positive limits.max_concurrent positive) in
            let full : (ltb_ℤ (pos 0) limits.max_concurrent
                  && leb_ℤ limits.max_concurrent (entry c s m).in_flight)
                ≡ true =
              ground (arith, positive, l, in_flight-entry s m) in
            let refused : false ≡ true = rw (limited, full) at admitted in cc
        | inr l ↦ l
      ]

  -- In a state reached so, a call of `check` that is admitted under a positive limit on concurrency
  -- leaves no more guards of its scope held than that limit.
  pub check-capped :
      (window : c.Duration) (es : List (Event c)) (s : String) (limits : Limits) (now : ℤ)
      → leb_ℤ limits.max_concurrent (pos 0) ≡ false
      → (check c window s limits now (run c window es ([], [])).0).0.allowed ≡ true
      → pos (live c s (step c window (checked s limits now) (run c window es ([], []))).1)
        ≤ℤ limits.max_concurrent
  unfolding live step
  check-capped window es s limits now positive admitted =
      let free = check-free window s limits now (run c window es ([], [])).0 positive admitted in
      ground (arith, free, run-IsBalanced window es s)
