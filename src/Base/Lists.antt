-- ===== src/Base/Lists.antt =====
-- Lists measured by native numbers, membership by a Boolean test on texts, and a predicate that
-- holds of every element.
use mathlib.Core.Logic.Or
use Prim.Native.Nat.{ℕ, zero, suc, ◌+◌, ◌≤◌, ◌-◌}
use Prim.Native.String.{String}
use mathlib.Core.Path.{◌≡◌, refl, ap, ◌∙◌, sym, subst}
use mathlib.Core.Bool.{Bool, true, false, ◌||◌, Bool-set}
use mathlib.Core.List.{
  List, [], ◌∷◌, ◌++◌, Permᴰ, Perm, Mem, not-mem-nil, mem-cons, mem-cons_self, mem-cons_of_mem,
}
use mathlib.Core.Option.{Option, none, some}
use native.Mathlib.Omega.{arith}
use text.Mathlib.Text.{◌==◌}
use mathlib.Core.HLevel.{×_prop, Unit-prop}
use mathlib.Core.Logic.{∥∥₁_elim}
use sovereign_gateway.Base.Tests.{if◌then◌else◌}

module _ {ℓ} {A : Type ℓ} where
  abbrev pub length : List A → ℕ
  length [] = 0
  length (x ∷ xs) = suc (length xs)

  abbrev pub get_elem? : List A → ℕ → Option A
  get_elem? [] i = none
  get_elem? (x ∷ xs) zero = some x
  get_elem? (x ∷ xs) (suc i) = get_elem? xs i

  abbrev pub drop : ℕ → List A → List A
  drop zero xs = xs
  drop (suc n) [] = []
  drop (suc n) (x ∷ xs) = drop n xs

  abbrev pub take : ℕ → List A → List A
  take zero xs = []
  take (suc n) [] = []
  take (suc n) (x ∷ xs) = x ∷ take n xs

  pub length-append : (xs ys : List A) → length (xs ++ ys) ≡ length xs + length ys
  length-append [] ys = omega arith
  length-append (x ∷ xs) ys = omega (arith, length-append xs ys)

  pub take-append-drop : (n : ℕ) (xs : List A) → take n xs ++ drop n xs ≡ xs
  take-append-drop zero xs = refl
  take-append-drop (suc n) [] = refl
  take-append-drop (suc n) (x ∷ xs) = ap (◌∷◌ x) (take-append-drop n xs)

  pub take_all : (n : ℕ) (xs : List A) → length xs ≤ n → take n xs ≡ xs
  take_all zero [] h = refl
  take_all zero (x ∷ xs) h = elim h [ ]
  take_all (suc n) [] h = refl
  take_all (suc n) (x ∷ xs) h = ap (◌∷◌ x) (take_all n xs (omega arith))

  pub length-drop : (n : ℕ) (xs : List A) → length (drop n xs) ≡ length xs - n
  length-drop zero xs = omega arith
  length-drop (suc n) [] = omega arith
  length-drop (suc n) (x ∷ xs) = omega (arith, length-drop n xs)

  abbrev pub first_four : List A → Option (A × A × A × A)
  first_four [] = none
  first_four (a ∷ []) = none
  first_four (a ∷ b ∷ []) = none
  first_four (a ∷ b ∷ c ∷ []) = none
  first_four (a ∷ b ∷ c ∷ d ∷ rest) = some (a, b, c, d)

  abbrev pub is_nil : List A → Bool
  is_nil [] = true
  is_nil (x ∷ xs) = false

  -- Rust's `filter`, by a Boolean test.
  unfoldable pub select : (A → Bool) → List A → List A
  select p [] = []
  select p (x ∷ xs) = if p x then x ∷ select p xs else select p xs

  -- Rust's `any`.
  unfoldable pub any : (A → Bool) → List A → Bool
  any p [] = false
  any p (x ∷ xs) = p x || any p xs

module _ {ℓ κ} {A : Type ℓ} where
  abbrev pub All : (A → Type κ) → List A → Type κ
  All P [] = Unit
  All P (x ∷ xs) = P x × All P xs

  pub All-append : (P : A → Type κ) (xs ys : List A) → All P xs → All P ys → All P (xs ++ ys)
  All-append P [] ys h k = k
  All-append P (x ∷ xs) ys h k = (h.0, All-append P xs ys h.1 k)

  pub All-append_iff : (P : A → Type κ) (xs ys : List A) → All P (xs ++ ys) → All P xs × All P ys
  All-append_iff P [] ys h = (tt, h)
  All-append_iff P (x ∷ xs) ys h = let rest = All-append_iff P xs ys h.1 in ((h.0, rest.0), rest.1)

-- Membership in a list of texts: Rust's `contains` on a `Vec` or a set of strings.
unfoldable pub contains : String → List String → Bool
contains a [] = false
contains a (x ∷ xs) = x == a || contains a xs

pub contains-append :
    (a : String) (xs ys : List String) → contains a (xs ++ ys) ≡ contains a xs || contains a ys
unfolding contains
contains-append a [] ys = refl
contains-append a (x ∷ xs) ys = ground (arith, contains-append a xs ys)

module _ {ℓ} {A : Type ℓ} (p : A → Bool) where
  pub any-append : (xs ys : List A) → any p (xs ++ ys) ≡ any p xs || any p ys
  unfolding any
  any-append [] ys = refl
  any-append (x ∷ xs) ys = ground (arith, any-append xs ys)

  pub select-append : (xs ys : List A) → select p (xs ++ ys) ≡ select p xs ++ select p ys
  unfolding select
  select-append [] ys = refl
  select-append (x ∷ xs) ys = ground (arith, select-append xs ys)

  any-permᴰ : {xs ys : List A} → Permᴰ xs ys → any p xs ≡ any p ys
  unfolding any
  any-permᴰ Permᴰ.nil = refl
  any-permᴰ (Permᴰ.cons e h) = ground (arith, any-permᴰ h)
  any-permᴰ (Permᴰ.swap e e') = ground arith
  any-permᴰ (Permᴰ.trans h k) = any-permᴰ h ∙ any-permᴰ k

  pub any-perm : {xs ys : List A} → Perm xs ys → any p xs ≡ any p ys
  any-perm h = ∥∥₁_elim h (Bool-set _ _) any-permᴰ

module _ {ℓ κ} {A : Type ℓ} (P : A → Type κ) where
  All-prop : ((x : A) → IsProp (P x)) → (xs : List A) → IsProp (All P xs)
  All-prop h [] = Unit-prop
  All-prop h (x ∷ xs) = ×_prop (h x) (All-prop h xs)

  All-permᴰ : {xs ys : List A} → Permᴰ xs ys → All P ys → All P xs
  All-permᴰ Permᴰ.nil h = h
  All-permᴰ (Permᴰ.cons e p) h = (subst P (sym e) h.0, All-permᴰ p h.1)
  All-permᴰ (Permᴰ.swap e e') h = (subst P (sym e) h.1.0, (subst P (sym e') h.0, h.1.1))
  All-permᴰ (Permᴰ.trans p q) h = All-permᴰ p (All-permᴰ q h)

  -- What holds of all elements holds of all in another order.
  pub All-perm : ((x : A) → IsProp (P x)) → {xs ys : List A} → Perm xs ys → All P ys → All P xs
  All-perm prop {xs} p h = ∥∥₁_elim p (All-prop prop xs) (λ d. All-permᴰ d h)

  pub All-mem : ((x : A) → IsProp (P x)) → {a : A} (xs : List A) → All P xs → Mem a xs → P a
  All-mem prop [] h m = absurd (not-mem-nil m)
  All-mem prop {a} (x ∷ xs) h m =
      Or.elim (prop a) (mem-cons.0 m) (λ e. subst P (sym e) h.0) (All-mem prop xs h.1)

  pub All-of_mem : (xs : List A) → ((a : A) → Mem a xs → P a) → All P xs
  All-of_mem [] f = tt
  All-of_mem (x ∷ xs) f = (f x mem-cons_self, All-of_mem xs (λ a m. f a (mem-cons_of_mem x m)))
