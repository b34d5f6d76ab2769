-- ===== src/Routing/Order/Laws.antt =====
-- Every strategy only reorders the survivors, and leaves the deployments as they are.
use mathlib.Core.List.Perm
use mathlib.Core.List.{filter_map, Perm}
use native.Mathlib.Nat.{mod-lt}
use sovereign_gateway.Base.{
  take, drop, ◌^◌, ℕ, zero, suc, ◌+◌, ◌%◌, ◌<◌, ◌≡◌, ◌≢◌, refl, ap, ◌∙◌, List, [], ◌∷◌, ◌++◌, map,
  arith, length, get_elem?,
}
use sovereign_gateway.Routing.Order.{
  pick, draw_keys, order_indices, Floats, next_unit, order, fetch_add, sort_by, is_before,
}
use sovereign_gateway.Core.Deployments.{Deployment}
use sovereign_gateway.Routing.Table.{Strategy, ModelEntry, simple, round_robin, least_busy}
use sovereign_gateway.Routing.Order.Rotation.{rotated-perm, rotated-drop-take}
use sovereign_gateway.Routing.Order.Sorting.{sort_by-perm}
use mathlib.Core.Path.{subst}

pick-filter_map :
    {A : Type 0} (xs : List A) (is : List ℕ) → pick xs is ≡ filter_map (get_elem? xs) is
unfolding pick filter_map
pick-filter_map xs [] = refl
pick-filter_map xs (i ∷ is) = ground (arith, pick-filter_map xs is)

draw_keys-survivors :
    (f : Floats) (ds : List Deployment) (rng : ℕ) (is : List ℕ)
    → map (λ (e : ℕ × ℕ). e.1) (draw_keys f ds rng is).0 ≡ is
unfolding draw_keys
draw_keys-survivors f ds rng [] = refl
draw_keys-survivors f ds rng (i ∷ is) = ap (◌∷◌ i) (draw_keys-survivors f ds (next_unit rng).1 is)

length-pos : (s : List ℕ) → s ≢ [] → 0 < length s
length-pos [] h = absurd (h refl)
length-pos (x ∷ s) h = omega arith

order_indices-perm :
    (f : Floats) (st : Strategy) (rng : ℕ) (entry : ModelEntry) (survivors : List ℕ)
    → survivors ≢ []
    → Perm (order_indices f st rng entry survivors).0 survivors
unfolding order_indices
order_indices-perm f simple rng entry survivors h =
    let keyed = (draw_keys f entry.deployments rng survivors).0 in
    subst
      (Perm (map (λ (e : ℕ × ℕ). e.1) (sort_by (λ a b. is_before (f.partial_cmp b.0 a.0)) keyed)))
      (draw_keys-survivors f entry.deployments rng survivors)
      (Perm.map (λ (e : ℕ × ℕ). e.1) (sort_by-perm _ keyed))
order_indices-perm f round_robin rng entry survivors h =
    rotated-perm survivors (entry.rr % length survivors) (mod-lt entry.rr (length-pos survivors h))
order_indices-perm f least_busy rng entry survivors h = sort_by-perm _ survivors

pick-perm :
    {A : Type 0} (xs : List A) {is js : List ℕ} → Perm is js → Perm (pick xs is) (pick xs js)
pick-perm xs {is} {js} p =
    rw (pick-filter_map xs is, pick-filter_map xs js) (Perm.filter_map (get_elem? xs) p)

kept :
    (f : Floats) (st : Strategy) (rng : ℕ) (entry : ModelEntry) (survivors : List ℕ)
    → (order_indices f st rng entry survivors).1.deployments ≡ entry.deployments
unfolding order_indices
kept f simple rng entry survivors = refl
kept f round_robin rng entry survivors = refl
kept f least_busy rng entry survivors = refl

-- Whatever the strategy and the counters, what a model's deployments are ordered to is exactly the
-- survivors, none lost and none twice; and the deployments of the entry stay as they are.
pub order-perm :
    (f : Floats) (st : Strategy) (rng : ℕ) (entry : ModelEntry) (survivors : List ℕ)
    → survivors ≢ []
    → Perm (order f st rng entry survivors).0 (pick entry.deployments survivors)
      × ((order f st rng entry survivors).1.deployments ≡ entry.deployments)
unfolding order
order-perm f st rng entry survivors h = (
  pick-perm entry.deployments (order_indices-perm f st rng entry survivors h),
  kept f st rng entry survivors,
)

module _ (f : Floats) (rng : ℕ) (survivors : List ℕ) where
  -- The entry after some requests with the same survivors.
  pub after_turns : ℕ → ModelEntry → ModelEntry
  unfolding order_indices
  after_turns zero entry = entry
  after_turns (suc k) entry = (order_indices f round_robin rng (after_turns k entry) survivors).1

  rr-after_turns :
      (k : ℕ) (entry : ModelEntry) → entry.rr + k < 2 ^ 64 → (after_turns k entry).rr ≡ entry.rr + k
  unfolding after_turns
  rr-after_turns zero entry h = omega arith
  rr-after_turns (suc k) entry h =
      let before : (after_turns k entry).rr ≡ entry.rr + k = rr-after_turns k entry (omega arith) in
      ap fetch_add before ∙ omega arith

  -- A round robin starts at its counter and goes round: after `k` requests with the same `n`
  -- survivors the next answer is the survivors from number `(rr + k) % n` on and then those before
  -- it. So `n` requests in a row begin with each survivor once, as long as the counter does not wrap.
  pub round_robin_turn :
      (k : ℕ) (entry : ModelEntry)
      → survivors ≢ []
      → entry.rr + k < 2 ^ 64
      → (order_indices f round_robin rng (after_turns k entry) survivors).0
        ≡ drop ((entry.rr + k) % length survivors) survivors
          ++ take ((entry.rr + k) % length survivors) survivors
  unfolding order_indices
  round_robin_turn k entry h l = rw (rr-after_turns k entry l) (
      rotated-drop-take survivors ((entry.rr + k) % length survivors)
        (mod-lt (entry.rr + k) (length-pos survivors h)))
