-- ===== src/Server/Admission/Budgets.antt =====
-- When the budgets let a turn pass (crates/yb-server/src/lib.rs, `enforce_budgets`).
use sovereign_gateway.Base.{
  ◌≡◌, refl, sym, ◌↔◌, ◌⊎◌, inl, inr, true, false, List, [], ◌∷◌, arith, if◌then◌else◌, Bool-cases,
  All,
}
use sovereign_gateway.Base.Int.{ℤ, leb_ℤ}
use sovereign_gateway.Core.Errors.{Result, ok, err, ◌>>=◌}
use sovereign_gateway.Core.Spend.{Budget}
use sovereign_gateway.Server.Admission.{Store, check_budgets, blocks_on, exceeded}
use mathlib.Core.Path.{subst}

-- A budget that is off or that only alerts, or whose spend is known and is below its hard limit.
abbrev pub IsOpen : Store → ℤ → Budget → Type 0
IsOpen s at b =
    (blocks_on b ≡ false)
    ⊎ ((spent : ℤ) × (s.period_spend b.subject_type b.subject_id b.period
            (s.bucket_start b.period at)
          ≡ ok spent)
        × (leb_ℤ b.hard_limit_micros spent ≡ false))

module _ (s : Store) (at : ℤ) where
  gate :
      (b : Budget) (bs : List Budget)
      → blocks_on b ≡ true
      → ((check_budgets s at bs ≡ ok tt) ↔ All (IsOpen s at) bs)
      → (r : Result ℤ)
      → s.period_spend b.subject_type b.subject_id b.period (s.bucket_start b.period at) ≡ r
      → ((r >>= λ spent.
            if leb_ℤ b.hard_limit_micros spent
            then err (exceeded s b spent)
            else check_budgets s at bs)
          ≡ ok tt)
        ↔ (IsOpen s at b × All (IsOpen s at) bs)
  gate b bs q rest (err e) h = (
    λ k. ground (arith, k),
    λ (o, k). elim o [
      | inl off ↦ ground (arith, off, q)
      | inr (spent, found, below) ↦ ground (arith, h, found)
    ],
  )
  gate b bs q rest (ok spent) h = elim (Bool-cases (leb_ℤ b.hard_limit_micros spent)) [
    | inl l ↦ rw l (
      λ k. ground (arith, k),
      λ (o, k). elim o [
        | inl off ↦ ground (arith, off, q)
        | inr (spent', found, below) ↦ ground (arith, h, found, below, l)
      ],
    )
    | inr l ↦ rw l (λ k. (inr (spent, h, l), rest.0 k), λ (o, k). rest.1 k)
  ]

  -- The budgets let a turn pass only if each enabled one that blocks has its spend known and strictly
  -- below its hard limit, and then they do.
  pub check_budgets_iff :
      (bs : List Budget) → (check_budgets s at bs ≡ ok tt) ↔ All (IsOpen s at) bs
  unfolding check_budgets
  check_budgets_iff [] = (λ h. tt, λ h. refl)
  check_budgets_iff (b ∷ bs) = elim (Bool-cases (blocks_on b)) [
    | inr q ↦
        let rest = check_budgets_iff bs in
        (λ h. (inl q, rest.0 (rw q at h)), λ h. rw q (rest.1 h.1))
    | inl q ↦
        let spend =
          s.period_spend b.subject_type b.subject_id b.period (s.bucket_start b.period at) in
        let asked : check_budgets s at (b ∷ bs) ≡ (
            spend >>= λ spent.
            if leb_ℤ b.hard_limit_micros spent
            then err (exceeded s b spent)
            else check_budgets s at bs) =
          rw q in
        subst (λ r. (r ≡ ok tt) ↔ (IsOpen s at b × All (IsOpen s at) bs)) (sym asked)
          (gate b bs q (check_budgets_iff bs) spend refl)
  ]
