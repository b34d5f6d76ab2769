-- ===== src/Core/Scopes/Laws.antt =====
-- A set of scopes read back from its stored form has the same members.
use sovereign_gateway.Base.{
  ℕ, zero, suc, String, ◌≡◌, ◌≢◌, refl, ap, ◌∙◌, List, [], ◌∷◌, map, arith, ltb,
}
use sovereign_gateway.Core.Errors.{ok}
use sovereign_gateway.Core.Scopes.{
  KeyScope, inference, admin, has_scope, scope_str, parse_set, render_set, insert_str, sort_strs,
  dedup_after, dedup,
}
use sovereign_gateway.Base.Text.{join}

-- `a` times "admin" and then `b` times "inference": what sorting the names of scopes gives.
sorted : ℕ → ℕ → List String
sorted zero zero = []
sorted zero (suc b) = "inference" ∷ sorted zero b
sorted (suc a) b = "admin" ∷ sorted a b

count : KeyScope → List KeyScope → ℕ
count s [] = 0
count admin (admin ∷ ss) = suc (count admin ss)
count admin (inference ∷ ss) = count admin ss
count inference (admin ∷ ss) = count inference ss
count inference (inference ∷ ss) = suc (count inference ss)

insert_admin : (a b : ℕ) → insert_str "admin" (sorted a b) ≡ sorted (suc a) b
unfolding insert_str sorted
insert_admin zero zero = refl
insert_admin zero (suc b) = refl
insert_admin (suc a) b = refl

insert_inference : (a b : ℕ) → insert_str "inference" (sorted a b) ≡ sorted a (suc b)
unfolding insert_str sorted
insert_inference zero zero = refl
insert_inference zero (suc b) = refl
insert_inference (suc a) b = ap (◌∷◌ "admin") (insert_inference a b)

sort_strs-sorted :
    (ss : List KeyScope)
    → sort_strs (map scope_str ss) ≡ sorted (count admin ss) (count inference ss)
unfolding sort_strs count scope_str
sort_strs-sorted [] = unfold sorted in refl
sort_strs-sorted (admin ∷ ss) =
    ap (insert_str "admin") (sort_strs-sorted ss)
    ∙ insert_admin (count admin ss) (count inference ss)
sort_strs-sorted (inference ∷ ss) =
    ap (insert_str "inference") (sort_strs-sorted ss)
    ∙ insert_inference (count admin ss) (count inference ss)

dedup_inferences : (b : ℕ) → dedup_after "inference" (sorted zero b) ≡ []
unfolding dedup_after sorted
dedup_inferences zero = refl
dedup_inferences (suc b) = dedup_inferences b

dedup_admins_only : (a : ℕ) → dedup_after "admin" (sorted a zero) ≡ []
unfolding dedup_after sorted
dedup_admins_only zero = refl
dedup_admins_only (suc a) = dedup_admins_only a

dedup_admins : (a b : ℕ) → dedup_after "admin" (sorted a (suc b)) ≡ "inference" ∷ []
unfolding dedup_after sorted
dedup_admins zero b = ap (◌∷◌ "inference") (dedup_inferences b)
dedup_admins (suc a) b = dedup_admins a b

-- The canonical form of a set, by the number of times each scope is given.
canonical : ℕ → ℕ → List KeyScope
canonical zero b = inference ∷ []
canonical (suc a) zero = admin ∷ []
canonical (suc a) (suc b) = admin ∷ inference ∷ []

read_back : (a b : ℕ) → parse_set (join " " (dedup (sorted a b))) ≡ ok (canonical a b)
unfolding parse_set join canonical dedup sorted
read_back zero zero = refl
read_back zero (suc b) = rw (dedup_inferences b) refl
read_back (suc a) zero = rw (dedup_admins_only a) refl
read_back (suc a) (suc b) = rw (dedup_admins a b) refl

has_scope-count : (ss : List KeyScope) (s : KeyScope) → has_scope s ss ≡ ltb 0 (count s ss)
unfolding has_scope count
has_scope-count [] s = refl
has_scope-count (admin ∷ ss) admin = ground arith
has_scope-count (inference ∷ ss) inference = ground arith
has_scope-count (admin ∷ ss) inference = has_scope-count ss inference
has_scope-count (inference ∷ ss) admin = has_scope-count ss admin

has_scope-canonical :
    (ss : List KeyScope) (s : KeyScope)
    → ss ≢ []
    → has_scope s (canonical (count admin ss) (count inference ss)) ≡ has_scope s ss
unfolding has_scope canonical count
has_scope-canonical [] s h = absurd (h refl)
has_scope-canonical (admin ∷ ss) admin h = ground (arith, has_scope-count ss admin)
has_scope-canonical (admin ∷ ss) inference h = ground (arith, has_scope-count ss inference)
has_scope-canonical (inference ∷ ss) admin h = ground (arith, has_scope-count ss admin)
has_scope-canonical (inference ∷ ss) inference h = ground (arith, has_scope-count ss inference)

-- The scopes that a key is created with: none stands for inference.
abbrev pub or_inference : List KeyScope → List KeyScope
or_inference [] = inference ∷ []
or_inference (s ∷ ss) = s ∷ ss

has_scope-back :
    (ss : List KeyScope) (s : KeyScope)
    → has_scope s (canonical (count admin ss) (count inference ss)) ≡ has_scope s (or_inference ss)
has_scope-back [] s = unfold canonical count in refl
has_scope-back (t ∷ ss) s = has_scope-canonical (t ∷ ss) s (λ h. ground (arith, h))

-- Storing a set of scopes and reading it back succeeds, and gives a set with the same members, in
-- whatever order and however often the scopes were given; the empty set is read back as inference.
pub parse_set-render_set :
    (ss : List KeyScope)
    → (back : List KeyScope) × (parse_set (render_set ss) ≡ ok back)
      × ((s : KeyScope) → has_scope s back ≡ has_scope s (or_inference ss))
unfolding render_set
parse_set-render_set ss = (
  canonical (count admin ss) (count inference ss),
  rw (sort_strs-sorted ss) (read_back (count admin ss) (count inference ss)),
  has_scope-back ss,
)
