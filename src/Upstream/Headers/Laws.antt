-- ===== src/Upstream/Headers/Laws.antt =====
-- How the headers of crates/yb-providers/src/route.rs are put together: the first writer of a name
-- keeps it.
use sovereign_gateway.Base.{
  String, ◌≡◌, refl, sym, inl, inr, true, false, ◌||◌, Option, none, some, List, [], ◌∷◌, eq_iff,
  arith, if◌then◌else◌, Bool-cases, any, or_else,
}
use sovereign_gateway.Base.Text.{eq_ignore_ascii_case, to_ascii_lowercase}
use sovereign_gateway.Upstream.Headers.{append_headers, has_name, push}
use sovereign_gateway.Base.Assoc.{is_some}

-- The value of the first header of a name.
pub value_of : String → List (String × String) → Option String
unfolding eq_ignore_ascii_case
value_of name [] = none
value_of name ((existing, value) ∷ hs) =
    if eq_ignore_ascii_case existing name then some value else value_of name hs

-- No two headers have the same name, in whichever case.
unfoldable pub IsDistinct : List (String × String) → Type 0
unfolding any eq_ignore_ascii_case
IsDistinct [] = Unit
IsDistinct ((name, value) ∷ hs) = (has_name name hs ≡ false) × IsDistinct hs

value_of-push :
    (name : String) (hs : List (String × String)) (h : String × String)
    → value_of name (push hs h) ≡ or_else (value_of name hs) (value_of name (h ∷ []))
unfolding value_of
value_of-push name [] h = ground arith
value_of-push name ((existing, value) ∷ hs) h = ground (arith, value_of-push name hs h)

has_name-value_of :
    (name : String) (hs : List (String × String)) → has_name name hs ≡ is_some (value_of name hs)
unfolding value_of any has_name
has_name-value_of name [] = refl
has_name-value_of name ((existing, value) ∷ hs) = ground (arith, has_name-value_of name hs)

-- Two names that agree but for case are asked for alike.
value_of_same :
    (a b : String) (hs : List (String × String))
    → eq_ignore_ascii_case a b ≡ true
    → value_of a hs ≡ value_of b hs
unfolding value_of eq_ignore_ascii_case
value_of_same a b [] h = refl
value_of_same a b ((existing, value) ∷ hs) h =
    ground (arith, value_of_same a b hs, (eq_iff (to_ascii_lowercase a) (to_ascii_lowercase b)).0 h)

-- The headers appended to a list answer for a name only where the list has no header of that name,
-- in whichever case it is written; otherwise the list's own first value stays.
pub value_of-append_headers :
    (name : String) (hs extra : List (String × String))
    → value_of name (append_headers hs extra) ≡ or_else (value_of name hs) (value_of name extra)
unfolding append_headers value_of
value_of-append_headers name hs [] = ground arith
value_of-append_headers name hs ((n, v) ∷ extra) = elim (Bool-cases (has_name n hs)) [
  | inl q ↦
      rw (q, value_of-append_headers name hs extra)
        (elim (Bool-cases (eq_ignore_ascii_case n name)) [
          | inl e ↦ ground (arith, q, e, has_name-value_of n hs, value_of_same n name hs e)
          | inr e ↦ rw e
        ])
  | inr q ↦
      rw (q, value_of-append_headers name (push hs (n, v)) extra, value_of-push name hs (n, v))
        (ground arith)
]

has_name-push :
    (name : String) (hs : List (String × String)) (n v : String)
    → has_name name (push hs (n, v)) ≡ (has_name name hs || eq_ignore_ascii_case n name)
unfolding any has_name
has_name-push name [] n v = ground arith
has_name-push name ((existing, value) ∷ hs) n v = ground (arith, has_name-push name hs n v)

eq_ignore_ascii_case_sym :
    (a b : String) → eq_ignore_ascii_case a b ≡ true → eq_ignore_ascii_case b a ≡ true
unfolding eq_ignore_ascii_case
eq_ignore_ascii_case_sym a b h =
    (eq_iff (to_ascii_lowercase b) (to_ascii_lowercase a)).1
      (sym ((eq_iff (to_ascii_lowercase a) (to_ascii_lowercase b)).0 h))

IsDistinct-push :
    (hs : List (String × String)) (n v : String)
    → has_name n hs ≡ false
    → IsDistinct hs
    → IsDistinct (push hs (n, v))
unfolding IsDistinct any has_name
IsDistinct-push [] n v h d = (refl, tt)
IsDistinct-push ((existing, value) ∷ hs) n v h (fresh, d) =
    let apart : eq_ignore_ascii_case existing n ≡ false = ground (arith, h) in
    let rest : has_name n hs ≡ false = ground (arith, h) in
    let back : eq_ignore_ascii_case n existing ≡ false =
      ground (arith, apart, eq_ignore_ascii_case_sym n existing) in
    (rw (has_name-push existing hs n v, fresh, back), IsDistinct-push hs n v rest d)

-- Headers with pairwise different names keep that when others are appended, whatever those are: no
-- header is sent twice.
pub IsDistinct-append_headers :
    (hs extra : List (String × String)) → IsDistinct hs → IsDistinct (append_headers hs extra)
unfolding append_headers
IsDistinct-append_headers hs [] d = d
IsDistinct-append_headers hs ((n, v) ∷ extra) d = elim (Bool-cases (has_name n hs)) [
  | inl q ↦ rw q (IsDistinct-append_headers hs extra d)
  | inr q ↦ rw q (IsDistinct-append_headers (push hs (n, v)) extra (IsDistinct-push hs n v q d))
]
