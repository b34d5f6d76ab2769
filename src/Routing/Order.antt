-- ===== src/Routing/Order.antt =====
-- crates/yb-gateway/src/router.rs, `order` and `next_unit`: how the deployments that survive the
-- filters are put in order. The atomics `rr`, `load` and `rng` are values that are passed on; the
-- weighted key of the shuffle is computed on floats, which are a parameter.
pub mod Sorting
pub mod Rotation
pub mod Laws
use mathlib.Core.Option
use sovereign_gateway.Base.{
  ℕ, zero, suc, ◌+◌, ◌-◌, ◌*◌, ◌%◌, ◌≤◌, ◌<◌, String, ◌≡◌, ◌≢◌, refl, sym, ap, ◌∙◌, ◌↔◌, ◌⊎◌, inl,
  inr, Bool, true, false, not, ◌&&◌, ◌||◌, Option, none, some, List, [], ◌∷◌, ◌++◌, map, ◌==◌,
  eq_iff, eq_refl, arith, ltb, leb, eqb, if◌then◌else◌, Bool-cases, Option-cases, All, All-append,
  length, is_nil, select, contains, any, unwrap_or, or_else, get_elem?, ◌^◌, ◌/◌, max,
}
use sovereign_gateway.Core.Deployments.{Deployment}
use sovereign_gateway.Routing.Table.{Strategy, ModelEntry, simple, round_robin, least_busy}
use Prim.Native.Nat.{Ordering, bit_xor}

-- What the shuffle takes of `f64`: the key `u ^ (1 / w)` of a deployment, as its bits, from the 53
-- random bits of `u` and the weight `w`; and `partial_cmp`, with `Equal` for its `None`.
pub record Floats : Type 0 where
  pub key : ℕ → ℕ → ℕ
  pub partial_cmp : ℕ → ℕ → Ordering

-- A 64-bit word shifted left; what leaves the word is lost.
abbrev shl : ℕ → ℕ → ℕ
shl x k = (x * 2 ^ k) % 2 ^ 64

abbrev shr : ℕ → ℕ → ℕ
shr x k = x / 2 ^ k

-- The next state of the generator.
unfoldable pub xorshift : ℕ → ℕ
xorshift state =
    let x : ℕ = if eqb state 0 then 0x9E3779B97F4A7C15 else state in
    let x₁ : ℕ = bit_xor x (shl x 13) in
    let x₂ : ℕ = bit_xor x₁ (shr x₁ 7) in bit_xor x₂ (shl x₂ 17)

-- `next_unit`: the 53 bits of the unit float, and the next state.
unfoldable pub next_unit : ℕ → ℕ × ℕ
unfolding xorshift
next_unit state = let next = xorshift state in (shr next 11, next)

-- `fetch_add` on an `AtomicUsize` of 64 bits.
abbrev pub fetch_add : ℕ → ℕ
fetch_add n = (n + 1) % 2 ^ 64

abbrev pub cons_some {ℓ} : {A : Type ℓ} → Option A → List A → List A
cons_some none xs = xs
cons_some (some x) xs = x ∷ xs

-- The elements at some indices: `is.map(|i| xs[i])`. No index is out of bounds where it is used.
unfoldable pub pick {ℓ} : {A : Type ℓ} → List A → List ℕ → List A
pick xs [] = []
pick xs (i ∷ is) = cons_some (get_elem? xs i) (pick xs is)

-- A stable sort: an element goes before those that come after it in the list, unless one of these
-- is strictly before it.
module _ {ℓ} {A : Type ℓ} (before : A → A → Bool) where
  unfoldable pub insert_by : A → List A → List A
  insert_by x [] = x ∷ []
  insert_by x (y ∷ ys) = if before y x then y ∷ insert_by x ys else x ∷ y ∷ ys

  unfoldable pub sort_by : List A → List A
  unfolding insert_by
  sort_by [] = []
  sort_by (x ∷ xs) = insert_by x (sort_by xs)

abbrev is_before : Ordering → Bool
is_before Ordering.lt = true
is_before Ordering.eq = false
is_before Ordering.gt = false

-- The keys of the weighted shuffle, drawn in the order of the survivors.
pub draw_keys : Floats → List Deployment → ℕ → List ℕ → List (ℕ × ℕ) × ℕ
unfolding next_unit
draw_keys f ds rng [] = ([], rng)
draw_keys f ds rng (i ∷ is) =
    let (unit, rng₁) = next_unit rng in
    let weight : ℕ =
      unwrap_or (Option.map (λ (d : Deployment). max d.weight 1) (get_elem? ds i)) 1 in
    let (keyed, rng₂) = draw_keys f ds rng₁ is in ((f.key unit weight, i) ∷ keyed, rng₂)

-- The indices `survivors[(start + k) % n]` for `left` values of `k`.
pub rotated : List ℕ → ℕ → ℕ → ℕ → List ℕ
rotated survivors start k zero = []
rotated survivors start k (suc left) =
    cons_some (get_elem? survivors ((start + k) % length survivors))
      (rotated survivors start (suc k) left)

abbrev load_of : List ℕ → ℕ → ℕ
load_of load i = unwrap_or (get_elem? load i) 0

-- The counter at an index is advanced.
pub advance : List ℕ → ℕ → List ℕ
advance [] i = []
advance (n ∷ load) zero = fetch_add n ∷ load
advance (n ∷ load) (suc i) = n ∷ advance load i

abbrev advance_first : List ℕ → List ℕ → List ℕ
advance_first load [] = load
advance_first load (i ∷ is) = advance load i

-- The indices of the survivors in the order of the strategy, the entry with its counters advanced,
-- and the next state of the generator.
unfoldable pub order_indices : Floats → Strategy → ℕ → ModelEntry → List ℕ → List ℕ × ModelEntry × ℕ
unfolding draw_keys sort_by rotated advance
order_indices f simple rng entry survivors =
    let (keyed, rng') = draw_keys f entry.deployments rng survivors in
    (
      map (λ (e : ℕ × ℕ). e.1) (sort_by (λ a b. is_before (f.partial_cmp b.0 a.0)) keyed),
      entry,
      rng',
    )
order_indices f round_robin rng entry survivors = (
  rotated survivors (entry.rr % length survivors) 0 (length survivors),
  record entry { rr = fetch_add entry.rr },
  rng,
)
order_indices f least_busy rng entry survivors =
    let idx : List ℕ =
      sort_by (λ i j. ltb (load_of entry.load i) (load_of entry.load j)) survivors in
    (idx, record entry { load = advance_first entry.load idx }, rng)

-- `order`: the deployments, in the order of the strategy.
unfoldable pub order :
    Floats → Strategy → ℕ → ModelEntry → List ℕ → List Deployment × ModelEntry × ℕ
unfolding order_indices pick
order f strategy rng entry survivors =
    let (indices, entry', rng') = order_indices f strategy rng entry survivors in
    (pick entry.deployments indices, entry', rng')
