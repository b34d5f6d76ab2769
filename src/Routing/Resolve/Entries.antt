-- ===== src/Routing/Resolve/Entries.antt =====
-- The survivors of a filter, and what adding deployments without duplicates does to the answer.
-- Whether a deployment with this key is among some.
use sovereign_gateway.Base.{
  ℕ, suc, ◌≡◌, refl, sym, ap, ◌∙◌, inl, inr, Bool, true, false, ◌||◌, List, [], ◌∷◌, ◌++◌, eq_iff,
  arith, if◌then◌else◌, Bool-cases, All, All-append, select, any, any-append,
}
use sovereign_gateway.Routing.Resolve.{
  Key, survivors_from, Progress, same_key, seen_before, key, is_allowed, push_new,
}
use sovereign_gateway.Routing.Order.{pick}
use sovereign_gateway.Core.Deployments.{Deployment, RouteRequest}
use mathlib.Core.List.{append-nil, append_assoc}
use mathlib.Core.Path.{subst}

abbrev pub has_key : Key → List Deployment → Bool
has_key k = any (λ d. same_key (key d) k)

pub pick_next :
    (d : Deployment) (ds : List Deployment) (i : ℕ) (req : RouteRequest) (es : List Deployment)
    → pick (d ∷ ds) (survivors_from (suc i) req es) ≡ pick ds (survivors_from i req es)
unfolding pick survivors_from
pick_next d ds i req [] = refl
pick_next d ds i req (e ∷ es) = ground (arith, pick_next d ds (suc i) req es)

-- The survivors are the deployments that the request's filters allow.
pub pick-survivors_from :
    (req : RouteRequest) (ds : List Deployment)
    → pick ds (survivors_from 0 req ds) ≡ select (is_allowed req) ds
unfolding survivors_from select pick
pick-survivors_from req [] = refl
pick-survivors_from req (d ∷ ds) =
    ground (arith, pick_next d ds 0 req ds, pick-survivors_from req ds)

-- The keys in the answer are those seen.
abbrev pub Tracks : Progress → Type 0
Tracks p = (k : Key) → seen_before k p.seen ≡ has_key k p.out

-- No two deployments have the same key.
abbrev pub Distinct : List Deployment → Type 0
Distinct [] = Unit
Distinct (d ∷ ds) = (has_key (key d) ds ≡ false) × Distinct ds

same_key_sym : (j k : Key) → same_key j k ≡ same_key k j
same_key_sym j k = ground (
  arith,
  eq_iff j.0 k.0,
  eq_iff j.1 k.1,
  eq_iff j.2 k.2,
  eq_iff k.0 j.0,
  eq_iff k.1 j.1,
  eq_iff k.2 j.2,
)

Distinct-snoc :
    (ds : List Deployment) (d : Deployment)
    → Distinct ds
    → has_key (key d) ds ≡ false
    → Distinct (ds ++ d ∷ [])
unfolding any
Distinct-snoc [] d h e = (refl, tt)
Distinct-snoc (x ∷ ds) d (fresh, h) e =
    let apart : (same_key (key x) (key d) ≡ false) × (has_key (key d) ds ≡ false) = ground arith in
    (
      rw
          (
            any-append (λ y. same_key (key y) (key x)) ds (d ∷ []),
            fresh,
            same_key_sym (key d) (key x),
            apart.0,
          )
          refl,
      Distinct-snoc ds d h apart.1,
    )

abbrev pub add_one : Deployment → Progress → Progress
add_one d p =
    if seen_before (key d) p.seen
    then p
    else record p { out = p.out ++ d ∷ []; seen = key d ∷ p.seen }

or_swap : (a b : Bool) → a || (b || false) ≡ b || a
or_swap a b = ground arith

has_key-snoc :
    (k : Key) (ds : List Deployment) (d : Deployment)
    → has_key k (ds ++ d ∷ []) ≡ same_key (key d) k || has_key k ds
unfolding any
has_key-snoc k ds d =
    any-append (λ y. same_key (key y) k) ds (d ∷ []) ∙ or_swap (has_key k ds) (same_key (key d) k)

-- What holds of the answer while deployments are added.
pub record Sound (P : Deployment → Type 0) (p : Progress) : Type 0 where
  pub tracks : Tracks p
  pub distinct : Distinct p.out
  pub all : All P p.out

module _ (P : Deployment → Type 0) where
  add_one-Sound : (d : Deployment) (p : Progress) → P d → Sound P p → Sound P (add_one d p)
  unfolding seen_before
  add_one-Sound d p h s = elim (Bool-cases (seen_before (key d) p.seen)) [
    | inl e ↦ rw e s
    | inr e ↦ rw e (record {
      tracks = λ k. rw (has_key-snoc k p.out d, s.tracks k) refl;
      distinct = Distinct-snoc p.out d s.distinct (sym (s.tracks (key d)) ∙ e);
      all = All-append P p.out (d ∷ []) s.all (h, tt);
    })
  ]

  pub push_new-Sound :
      (ds : List Deployment) (p : Progress) → All P ds → Sound P p → Sound P (push_new ds p)
  unfolding push_new
  push_new-Sound [] p h s = s
  push_new-Sound (d ∷ ds) p (h, hs) s = push_new-Sound ds (add_one d p) hs (add_one-Sound d p h s)

same_key-eq : (j k : Key) → same_key j k ≡ true → j ≡ k
same_key-eq j k h = ground (arith, eq_iff j.0 k.0, eq_iff j.1 k.1, eq_iff j.2 k.2)

or_of_true : (a b : Bool) → (b ≡ true → a ≡ true) → a ≡ b || a
or_of_true a true h = h refl
or_of_true a false h = refl

has_key-add_one :
    (k : Key) (d : Deployment) (p : Progress)
    → Tracks p
    → has_key k (add_one d p).out ≡ same_key (key d) k || has_key k p.out
has_key-add_one k d p t = elim (Bool-cases (seen_before (key d) p.seen)) [
  | inr e ↦ rw e (has_key-snoc k p.out d)
  | inl e ↦ rw e (
      or_of_true (has_key k p.out) (same_key (key d) k) (λ same.
        subst (λ j. has_key j p.out ≡ true) (same_key-eq (key d) k same) (sym (t (key d)) ∙ e)))
]

or_shuffle : (a b c : Bool) → (a || b) || c ≡ b || (a || c)
or_shuffle a b c = ground arith

pub has_key-push_new :
    (k : Key) (ds : List Deployment) (p : Progress)
    → Sound (λ _. Unit {0}) p
    → has_key k (push_new ds p).out ≡ has_key k p.out || has_key k ds
unfolding push_new any
has_key-push_new k [] p s = ground arith
has_key-push_new k (d ∷ ds) p s =
    has_key-push_new k ds (add_one d p) (add_one-Sound (λ _. Unit {0}) d p tt s)
    ∙ (ap (λ b. b || has_key k ds) (has_key-add_one k d p s.tracks)
        ∙ or_shuffle (same_key (key d) k) (has_key k p.out) (has_key k ds))

-- Only the answer and its keys change, and the answer only grows.
abbrev pub Grows : Progress → Progress → Type 0
Grows p q =
    (q.models ≡ p.models) × (q.rng ≡ p.rng) × ((new : List Deployment) × (q.out ≡ p.out ++ new))

add_one-Grows : (d : Deployment) (p : Progress) → Grows p (add_one d p)
add_one-Grows d p = elim (Bool-cases (seen_before (key d) p.seen)) [
  | inl e ↦ rw e (refl, refl, ([], sym (append-nil p.out)))
  | inr e ↦ rw e (refl, refl, (d ∷ [], refl))
]

pub push_new-Grows : (ds : List Deployment) (p : Progress) → Grows p (push_new ds p)
unfolding push_new
push_new-Grows [] p = (refl, refl, ([], sym (append-nil p.out)))
push_new-Grows (d ∷ ds) p =
    let (m, r, (new, e)) = add_one-Grows d p in
    let (m', r', (new', e')) = push_new-Grows ds (add_one d p) in
    (m' ∙ m, r' ∙ r, (new ++ new', e' ∙ (ap (λ l. l ++ new') e ∙ append_assoc p.out new new')))
