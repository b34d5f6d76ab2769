-- ===== src/Base/Text.antt =====
-- Texts: suffixes, and ASCII letters without their case.
use mathlib.Core.Option
use Prim.Native.Char.{Char, char, code, IsScalar}
use Prim.Native.String.{String, [], ◌∷◌, ◌++◌}
use Prim.Native.Nat.{ℕ, ◌+◌, ◌<◌, compare, Ordering, ◌%◌, suc, ◌/◌, zero}
use mathlib.Core.Path.{◌≡◌, refl}
use mathlib.Core.Logic.{dite, inl, inr}
use mathlib.Core.Bool.{Bool, true, false, ◌||◌, ◌&&◌}
use mathlib.Core.List.{List, [], ◌∷◌}
use mathlib.Core.Option.{Option, none, some}
use native.Mathlib.Omega.{arith}
use native.Mathlib.Decide.{dec_lt, dec_le}
use text.Mathlib.Text.{◌==◌}
use text.Mathlib.TextEquality.{eq_iff}
use text.Mathlib.TextLemmas.{nil-append, cons-append}
use text.Mathlib.TextPositions.{eq_refl}
use sovereign_gateway.Base.Tests.{if◌then◌else◌, Bool-cases, leb, eqb}

-- Rust's `ends_with`.
unfoldable pub ends_with : String → String → Bool
ends_with [] suffix = "" == suffix
ends_with (c ∷ s) suffix = (c ∷ s) == suffix || ends_with s suffix

-- Rust's `strip_suffix`.
unfoldable pub strip_suffix : String → String → Option String
strip_suffix suffix [] = if "" == suffix then some "" else none
strip_suffix suffix (c ∷ s) =
    if (c ∷ s) == suffix then some "" else Option.map (λ t. c ∷ t) (strip_suffix suffix s)

-- Rust's `strip_prefix`.
unfoldable pub strip_prefix : String → String → Option String
strip_prefix [] s = some s
strip_prefix (c ∷ p) [] = none
strip_prefix (c ∷ p) (d ∷ s) = if (c ∷ []) == (d ∷ []) then strip_prefix p s else none

pub strip_prefix-append : (p s : String) → strip_prefix p (p ++ s) ≡ some s
unfolding strip_prefix
strip_prefix-append [] s = rw (nil-append s) refl
strip_prefix-append (c ∷ p) s = rw (cons-append, eq_refl (c ∷ [])) (strip_prefix-append p s)

IsScalar_of_lt : (n : ℕ) → n < 55296 → IsScalar n
IsScalar_of_lt n h = let e : compare n 55296 ≡ Ordering.lt = ground arith in rw e tt

-- Rust's `to_ascii_lowercase` on a character.
unfoldable pub lower_char : Char → Char
unfolding IsScalar_of_lt
lower_char c =
    dite (dec_lt (code c) 65) (λ _. c)
      λ _.
        dite (dec_le (code c) 90)
          (λ h. char (code c + 32) (IsScalar_of_lt (code c + 32) (omega arith))) (λ _. c)

unfoldable pub to_ascii_lowercase : String → String
to_ascii_lowercase [] = []
to_ascii_lowercase (c ∷ s) = lower_char c ∷ to_ascii_lowercase s

unfoldable pub eq_ignore_ascii_case : String → String → Bool
eq_ignore_ascii_case s t = to_ascii_lowercase s == to_ascii_lowercase t

pub ends_with-append : (s suffix : String) → ends_with (s ++ suffix) suffix ≡ true
unfolding ends_with
ends_with-append [] [] = refl
ends_with-append [] (c ∷ t) = rw (nil-append, eq_refl (c ∷ t))
ends_with-append (c ∷ s) suffix = rw (cons-append, ends_with-append s suffix) (ground arith)

-- What `strip_suffix` leaves is the text without its suffix.
pub strip_suffix-eq-some : (suffix s t : String) → strip_suffix suffix s ≡ some t → s ≡ t ++ suffix
unfolding strip_suffix
strip_suffix-eq-some suffix [] t h = ground (arith, eq_iff "" suffix, nil-append suffix)
strip_suffix-eq-some suffix (c ∷ s) t h = elim (Bool-cases ((c ∷ s) == suffix)) [
  | inl e ↦ ground (arith, eq_iff (c ∷ s) suffix, nil-append suffix)
  | inr e ↦
      let (rest, found, same) = (Option.map-eq-some_iff _ _).0 (rw e at h) in
      rw (← same, cons-append, strip_suffix-eq-some suffix s rest found)
]

lower_test : to_ascii_lowercase "X-Api-KEY" ≡ "x-api-key"
unfolding to_ascii_lowercase lower_char dec_lt dec_le
lower_test = refl

-- Rust's `split` by a test on characters.
abbrev push_first : Char → List String → List String
push_first c [] = (c ∷ []) ∷ []
push_first c (t ∷ ts) = (c ∷ t) ∷ ts

unfoldable pub split : (Char → Bool) → String → List String
split p [] = "" ∷ []
split p (c ∷ s) = let rest = split p s in if p c then "" ∷ rest else push_first c rest

unfoldable pub is_line_feed : Char → Bool
is_line_feed c = eqb (code c) 10

-- Unicode's `White_Space`.
unfoldable pub is_whitespace : Char → Bool
is_whitespace c =
    let n = code c in
    (leb 9 n && leb n 13)
    || eqb n 32
    || eqb n 0x85
    || eqb n 0xa0
    || eqb n 0x1680
    || (leb 0x2000 n && leb n 0x200a)
    || eqb n 0x2028
    || eqb n 0x2029
    || eqb n 0x202f
    || eqb n 0x205f
    || eqb n 0x3000

unfoldable pub trim_start : String → String
unfolding is_whitespace
trim_start [] = []
trim_start (c ∷ s) = if is_whitespace c then trim_start s else c ∷ s

unfoldable pub trim_end : String → String
unfolding is_whitespace
trim_end [] = []
trim_end (c ∷ s) = let rest = trim_end s in if rest == "" && is_whitespace c then [] else c ∷ rest

-- Rust's `trim`.
unfoldable pub trim : String → String
unfolding trim_start trim_end
trim s = trim_end (trim_start s)

-- Rust's `join`.
unfoldable pub join : String → List String → String
join sep [] = ""
join sep (t ∷ []) = t
join sep (t ∷ u ∷ ts) = t ++ (sep ++ join sep (u ∷ ts))

digit_IsScalar : (n : ℕ) → IsScalar (48 + n % 10)
digit_IsScalar n = IsScalar_of_lt (48 + n % 10) (omega arith)

unfoldable pub digit : ℕ → Char
unfolding digit_IsScalar IsScalar_of_lt
digit n = char (48 + n % 10) (digit_IsScalar n)

-- The decimal digits of a number, with rounds for as many.
unfoldable pub show_from : ℕ → ℕ → String → String
unfolding digit
show_from zero n acc = acc
show_from (suc rounds) n acc =
    let rest = show_from rounds (n / 10) (digit n ∷ acc) in
    if eqb (n / 10) 0 then digit n ∷ acc else rest

-- A number in decimal, as Rust's `{}` writes it.
unfoldable pub show : ℕ → String
unfolding show_from IsScalar_of_lt
show n = show_from (suc n) n ""

show_test : show 1207 ≡ "1207"
unfolding show IsScalar_of_lt
show_test = refl

unfoldable pub starts_with : String → String → Bool
unfolding strip_prefix
starts_with prefix s = elim (strip_prefix prefix s) [ none ↦ false | some rest ↦ true ]

-- Rust's `contains` on texts, with the text that is looked for last.
unfoldable pub contains_text : String → String → Bool
unfolding starts_with
contains_text [] t = starts_with t []
contains_text (c ∷ s) t = starts_with t (c ∷ s) || contains_text s t

contains_text_test :
    (contains_text "a: [DONE]" "[DONE]" ≡ true) × (contains_text "data: [DON" "[DONE]" ≡ false)
unfolding contains_text starts_with strip_prefix
contains_text_test = (refl, refl)

-- Rust's `trim_end_matches(['\r', '\n'])`.
unfoldable pub trim_line_end : String → String
trim_line_end [] = []
trim_line_end (c ∷ s) =
    let rest = trim_line_end s in
    if rest == "" && (eqb (code c) 10 || eqb (code c) 13) then [] else c ∷ rest
