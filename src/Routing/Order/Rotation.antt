-- ===== src/Routing/Order/Rotation.antt =====
-- The indices of a round robin are the survivors, rotated to start at the counter.
use native.Mathlib.Nat.{mod-eq_of_lt}
use mathlib.Core.Path.{ap₂, subst}
use mathlib.Core.List.{Perm, perm_append_comm}
use sovereign_gateway.Base.{
  ℕ, zero, suc, ◌+◌, ◌-◌, ◌%◌, ◌≤◌, ◌<◌, ◌≡◌, refl, ap, ◌∙◌, Option, none, some, List, [], ◌∷◌,
  ◌++◌, arith, length, get_elem?, take, drop, take_all, length-drop, take-append-drop,
}
use sovereign_gateway.Routing.Order.{cons_some, rotated}

-- `m` elements from the index `j` on.
window : List ℕ → ℕ → ℕ → List ℕ
window s j zero = []
window s j (suc m) = cons_some (get_elem? s j) (window s (suc j) m)

window_tail : (x : ℕ) (s : List ℕ) (j m : ℕ) → window (x ∷ s) (suc j) m ≡ window s j m
unfolding window
window_tail x s j zero = refl
window_tail x s j (suc m) = ap (cons_some (get_elem? s j)) (window_tail x s (suc j) m)

window_nil : (j m : ℕ) → window [] j m ≡ []
unfolding window
window_nil j zero = refl
window_nil j (suc m) = window_nil (suc j) m

window-take-drop : (s : List ℕ) (j m : ℕ) → window s j m ≡ take m (drop j s)
unfolding window
window-take-drop s j zero = refl
window-take-drop [] zero (suc m) = window_nil 1 m
window-take-drop [] (suc j) (suc m) = window_nil (suc (suc j)) m
window-take-drop (x ∷ s) zero (suc m) = ap (◌∷◌ x) (window_tail x s 0 m ∙ window-take-drop s 0 m)
window-take-drop (x ∷ s) (suc j) (suc m) = window_tail x s j (suc m) ∙ window-take-drop s j (suc m)

cons_some-append : (o : Option ℕ) (xs ys : List ℕ) → cons_some o (xs ++ ys) ≡ cons_some o xs ++ ys
cons_some-append none xs ys = refl
cons_some-append (some x) xs ys = refl

mod_wrapped : (a n : ℕ) → n ≤ a → a < n + n → a % n ≡ a - n
mod_wrapped a n h l = grind arith

-- Past the end the indices start again at the front.
rotated_wrapped :
    (s : List ℕ) (start k left : ℕ)
    → length s ≤ start + k
    → start + k + left ≤ length s + length s
    → rotated s start k left ≡ window s (start + k - length s) left
unfolding rotated window
rotated_wrapped s start k zero h l = refl
rotated_wrapped s start k (suc left) h l =
    let next : start + suc k - length s ≡ suc (start + k - length s) = omega arith in
    rw (mod_wrapped (start + k) (length s) h (omega arith)) (
      ap (cons_some (get_elem? s (start + k - length s))) (
        rotated_wrapped s start (suc k) left (omega arith) (omega arith)
        ∙ ap (λ j. window s j left) next))

-- Up to the end they go on, and then start again.
rotated_split :
    (s : List ℕ) (start k m r : ℕ)
    → start + k + m ≡ length s
    → r ≤ length s
    → rotated s start k (m + r) ≡ window s (start + k) m ++ window s 0 r
unfolding rotated window
rotated_split s start k zero r h l =
    let none_left : 0 + r ≡ r = omega arith in
    let front : start + k - length s ≡ 0 = omega arith in
    ap (rotated s start k) none_left
    ∙ (rotated_wrapped s start k r (omega arith) (omega arith) ∙ ap (λ j. window s j r) front)
rotated_split s start k (suc m) r h l =
    let more : suc m + r ≡ suc (m + r) = omega arith in
    let next : start + suc k ≡ suc (start + k) = omega arith in
    let small : (start + k) % length s ≡ start + k = mod-eq_of_lt (omega arith) in
    ap (rotated s start k) more
    ∙ rw small (
        ap (cons_some (get_elem? s (start + k))) (
          rotated_split s start (suc k) m r (omega arith) l
          ∙ ap (λ j. window s j m ++ window s 0 r) next)
        ∙ cons_some-append (get_elem? s (start + k)) (window s (suc (start + k)) m) (window s 0 r))

-- The elements from `start` on, and then those before it.
pub rotated-drop-take :
    (s : List ℕ) (start : ℕ)
    → start < length s
    → rotated s start 0 (length s) ≡ drop start s ++ take start s
rotated-drop-take s start h =
    let whole : length s ≡ length s - start + start = omega arith in
    let front : start + 0 ≡ start = omega arith in
    ap (rotated s start 0) whole
    ∙ rotated_split s start 0 (length s - start) start (omega arith) (omega arith)
    ∙ ap₂ ◌++◌
        (ap (λ j. window s j (length s - start)) front
          ∙ window-take-drop s start (length s - start)
          ∙ take_all (length s - start) (drop start s) (omega (arith, length-drop start s)))
        (window-take-drop s 0 start)

-- They are the survivors, in another order.
pub rotated-perm :
    (s : List ℕ) (start : ℕ) → start < length s → Perm (rotated s start 0 (length s)) s
rotated-perm s start h = rw (rotated-drop-take s start h) (
    subst (Perm (drop start s ++ take start s)) (take-append-drop start s)
      (perm_append_comm (drop start s) (take start s)))
