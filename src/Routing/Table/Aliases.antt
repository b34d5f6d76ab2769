-- ===== src/Routing/Table/Aliases.antt =====
-- Where a requested name leads through the aliases.
use sovereign_gateway.Base.{
  ℕ, zero, suc, ◌≤◌, String, ◌≡◌, refl, ap, ◌∙◌, ◌⊎◌, inl, inr, true, false, none, some, arith,
  Bool-cases, Option-cases,
}
use sovereign_gateway.Routing.Table.{Snapshot, canonical_from, canonical}
use sovereign_gateway.Base.Assoc.{is_some, lookup}

-- `Hops s n a b`: `n` aliases lead from `a` to `b`, none of them shadowed by a model.
pub data Hops (s : Snapshot) : ℕ → String → String → Type 0 where
  here : {a : String} → Hops s zero a a
  hop :
      {n : ℕ} {a t b : String}
      → is_some (lookup a s.models) ≡ false
      → lookup a s.aliases ≡ some t
      → Hops s n t b
      → Hops s (suc n) a b

-- Nothing leads on from a model, or from a name that is no alias.
abbrev pub IsFinal : Snapshot → String → Type 0
IsFinal s a = (is_some (lookup a s.models) ≡ true) ⊎ (lookup a s.aliases ≡ none)

module _ (rounds : ℕ) (s : Snapshot) (a : String) where
  at_model : is_some (lookup a s.models) ≡ true → canonical_from (suc rounds) s a ≡ a
  unfolding canonical_from
  at_model m = ground arith

  at_name :
      is_some (lookup a s.models) ≡ false
      → lookup a s.aliases ≡ none
      → canonical_from (suc rounds) s a ≡ a
  unfolding canonical_from
  at_name m e = ground arith

  at_alias :
      (t : String)
      → is_some (lookup a s.models) ≡ false
      → lookup a s.aliases ≡ some t
      → canonical_from (suc rounds) s a ≡ canonical_from rounds s t
  unfolding canonical_from
  at_alias t m e = ground arith

at_final : (rounds : ℕ) (s : Snapshot) (a : String) → IsFinal s a → canonical_from rounds s a ≡ a
at_final zero s a f = unfold canonical_from in refl
at_final (suc rounds) s a (inl m) = at_model rounds s a m
at_final (suc rounds) s a (inr e) = elim (Bool-cases (is_some (lookup a s.models))) [
  | inl m ↦ at_model rounds s a m
  | inr m ↦ at_name rounds s a m e
]

canonical_from-Hops :
    (rounds n : ℕ) (s : Snapshot) {a b : String}
    → Hops s n a b
    → n ≤ rounds
    → IsFinal s b
    → canonical_from rounds s a ≡ b
canonical_from-Hops rounds zero s {a} here le f = at_final rounds s a f
canonical_from-Hops zero (suc n) s (hop m e r) le f = absurd (omega arith)
canonical_from-Hops (suc rounds) (suc n) s {a} (hop {t = t} m e r) le f =
    at_alias rounds s a t m e ∙ canonical_from-Hops rounds n s r (omega arith) f

-- Where following the aliases for at most `rounds` hops ends.
abbrev pub Reached : Snapshot → ℕ → String → String → Type 0
Reached s rounds a b = (n : ℕ) × Hops s n a b × (n ≤ rounds) × ((n ≡ rounds) ⊎ IsFinal s b)

Reached-hop :
    (s : Snapshot) (rounds : ℕ) (a t b : String)
    → is_some (lookup a s.models) ≡ false
    → lookup a s.aliases ≡ some t
    → Reached s rounds t b
    → Reached s (suc rounds) a b
Reached-hop s rounds a t b m e (n, r, le, inl same) =
    (suc n, hop m e r, omega arith, inl (ap suc same))
Reached-hop s rounds a t b m e (n, r, le, inr f) = (suc n, hop m e r, omega arith, inr f)

canonical_from-Reached :
    (rounds : ℕ) (s : Snapshot) (a : String) → Reached s rounds a (canonical_from rounds s a)
canonical_from-Reached zero s a = unfold canonical_from in (0, here, omega arith, inl refl)
canonical_from-Reached (suc rounds) s a = elim (Bool-cases (is_some (lookup a s.models))) [
  | inl m ↦ rw (at_model rounds s a m) (0, here, omega arith, inr (inl m))
  | inr m ↦ elim (Option-cases (lookup a s.aliases)) [
    | inl e ↦ rw (at_name rounds s a m e) (0, here, omega arith, inr (inr e))
    | inr (t, e) ↦ rw (at_alias rounds s a t m e) (
        Reached-hop s rounds a t (canonical_from rounds s t) m e
          (canonical_from-Reached rounds s t))
  ]
]

-- The canonical name is reached from the requested one by at most eight aliases that no model
-- shadows, and nothing leads on from it unless there were eight.
pub canonical-Reached : (s : Snapshot) (a : String) → Reached s 8 a (canonical s a)
unfolding canonical
canonical-Reached s a = canonical_from-Reached 8 s a

-- A chain of at most eight aliases that ends in a model, or in a name that is no alias, is followed to
-- its end; so a name that a model bears stands for itself, whatever its aliases are.
pub canonical-Hops :
    (s : Snapshot) (a b : String) (n : ℕ) → Hops s n a b → n ≤ 8 → IsFinal s b → canonical s a ≡ b
unfolding canonical
canonical-Hops s a b n r le f = canonical_from-Hops 8 n s r le f
