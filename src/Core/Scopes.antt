-- ===== src/Core/Scopes.antt =====
-- crates/yb-core/src/model.rs, `KeyScope`: the scopes of a virtual key, and the delimited string
-- that stores a set of them.
pub mod Laws
use Prim.Native.Char.{Char, code}
use Prim.Native.String.{◌++◌}
use Prim.Native.String
use sovereign_gateway.Base.{
  String, Bool, true, false, not, ◌||◌, List, [], ◌∷◌, map, if◌then◌else◌, ◌==◌, eqb, is_nil,
  select, any, ◌++◌ as append,
}
use text.Mathlib.Text.{is_lt}
use sovereign_gateway.Base.Text.{split, trim, join}
use sovereign_gateway.Core.Errors.{Result, ok, err, bad_request, ◌>>=◌}

pub data KeyScope : Type 0 where
  inference admin : KeyScope

unfoldable pub scope_str : KeyScope → String
scope_str inference = "inference"
scope_str admin = "admin"

unfoldable pub parse_scope : String → Result KeyScope
parse_scope s =
    if s == "inference"
    then ok inference
    else if s == "admin"
    then ok admin
    else err (bad_request ("unknown key scope: " ++ s))

pub same_scope : KeyScope → KeyScope → Bool
same_scope inference inference = true
same_scope admin admin = true
same_scope inference admin = false
same_scope admin inference = false

-- `scopes.contains(&scope)`, also `ApiKey::has_scope`.
unfoldable pub has_scope : KeyScope → List KeyScope → Bool
unfolding same_scope
has_scope scope [] = false
has_scope scope (s ∷ ss) = same_scope s scope || has_scope scope ss

abbrev is_delimiter : Char → Bool
is_delimiter c = eqb (code c) b' ' || eqb (code c) b',' || eqb (code c) 9

-- The loop of `parse_set`, and the default of an empty set.
pub parse_parts : List KeyScope → List String → Result (List KeyScope)
unfolding parse_scope has_scope
parse_parts out [] = ok (if is_nil out then inference ∷ [] else out)
parse_parts out (part ∷ parts) = do
  scope ← parse_scope part
  parse_parts (if has_scope scope out then out else append out (scope ∷ [])) parts

unfoldable pub parse_set : String → Result (List KeyScope)
unfolding parse_parts split trim select
parse_set s = parse_parts [] (select (λ p. not (p == "")) (map trim (split is_delimiter s)))

-- `sort_unstable` on strings; strings that compare equal are equal.
pub insert_str : String → List String → List String
insert_str x [] = x ∷ []
insert_str x (y ∷ ys) = if is_lt (String.compare y x) then y ∷ insert_str x ys else x ∷ y ∷ ys

pub sort_strs : List String → List String
unfolding insert_str
sort_strs [] = []
sort_strs (x ∷ xs) = insert_str x (sort_strs xs)

-- `dedup`: an element equal to the one before it is dropped.
pub dedup_after : String → List String → List String
dedup_after x [] = []
dedup_after x (y ∷ ys) = let rest = dedup_after y ys in if y == x then rest else y ∷ rest

pub dedup : List String → List String
unfolding dedup_after
dedup [] = []
dedup (x ∷ xs) = x ∷ dedup_after x xs

unfoldable pub render_set : List KeyScope → String
unfolding scope_str sort_strs dedup join
render_set scopes = join " " (dedup (sort_strs (map scope_str scopes)))
