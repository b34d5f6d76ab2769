-- ===== src/Wire/Anthropic/Relay/Lines.antt =====
-- crates/yb-wire/src/anthropic.rs, `write_event`: the lines that the text of frames has.
use text.Mathlib.TextLemmas
use sovereign_gateway.Base.{
  String, ◌≡◌, refl, ap, ◌∙◌, inl, inr, Bool, true, not, ◌&&◌, List, [], ◌∷◌, Bool-cases, All,
  arith, String,
}
use sovereign_gateway.Wire.Aggregate.{Json, push_str}
use sovereign_gateway.Base.Text.{split, is_line_feed}
use sovereign_gateway.Wire.Anthropic.Encode.{Frame, frame_text, frames_text}
use sovereign_gateway.Core.Json.{Value}

-- A text without a line feed.
unfoldable pub is_line : String → Bool
unfolding is_line_feed
is_line String.[] = true
is_line (String.◌∷◌ c t) = not (is_line_feed c) && is_line t

-- The lines of the text of frames, with the empty one after its last line feed.
abbrev pub lines_of : Json → List Frame → List String
lines_of json [] = "" ∷ []
lines_of json ((name, v) ∷ frames) =
    push_str "event: " name ∷ push_str "data: " (json.to_string v) ∷ "" ∷ lines_of json frames

-- Frames whose names and data are lines.
abbrev pub AreLines : Json → List Frame → Type 0
AreLines json frames =
    All (λ (name, v). (is_line name ≡ true) × (is_line (json.to_string v) ≡ true)) frames

split-line :
    (t rest : String)
    → is_line t ≡ true
    → split is_line_feed (push_str t (push_str "\n" rest)) ≡ t ∷ split is_line_feed rest
unfolding split is_line is_line_feed
split-line String.[] rest h =
    ap (split is_line_feed) (TextLemmas.nil-append (push_str "\n" rest) ∙ line_feed rest)
  where
    line_feed : (t : String) → push_str "\n" t ≡ String.◌∷◌ "\n" t
    line_feed t = TextLemmas.cons-append "\n" "" t ∙ ap (String.◌∷◌ "\n") (TextLemmas.nil-append t)
split-line (String.◌∷◌ c t) rest h = elim (Bool-cases (is_line_feed c)) [
  | inl q ↦ ground (arith, q)
  | inr q ↦
      rw (TextLemmas.cons-append c t (push_str "\n" rest), q, split-line t rest (ground (arith, q)))
        refl
]

is_line-append :
    (a b : String) → is_line a ≡ true → is_line b ≡ true → is_line (push_str a b) ≡ true
unfolding is_line
is_line-append String.[] b h k = rw (TextLemmas.nil-append b) k
is_line-append (String.◌∷◌ c a) b h k = elim (Bool-cases (is_line_feed c)) [
  | inl q ↦ ground (arith, q)
  | inr q ↦ rw (TextLemmas.cons-append c a b, q) (is_line-append a b (ground (arith, q)) k)
]

frame_text-lines :
    (json : Json) (name : String) (v : Value) (rest : String)
    → push_str (frame_text json (name, v)) rest
      ≡ push_str (push_str "event: " name) (
          push_str "\n" (
            push_str
              (push_str "data: " (json.to_string v))
              (push_str "\n" (push_str "" (push_str "\n" rest)))))
unfolding frame_text
frame_text-lines json name v rest =
    let feeds : push_str "\n\n" rest ≡ push_str "\n" (push_str "\n" rest) =
      TextLemmas.append_assoc "\n" "\n" rest in
    simp (TextLemmas.append_assoc, TextLemmas.nil-append, feeds)

-- The text of frames is their lines.
pub split-frames_text :
    (json : Json) (frames : List Frame)
    → AreLines json frames
    → split is_line_feed (frames_text json frames) ≡ lines_of json frames
unfolding frames_text split is_line
split-frames_text json [] h = refl
split-frames_text json ((name, v) ∷ frames) ((n, d), h) =
    let event_line = push_str "event: " name in
    let data_line = push_str "data: " (json.to_string v) in
    ap (split is_line_feed) (frame_text-lines json name v (frames_text json frames))
    ∙ split-line event_line _ (is_line-append "event: " name refl n)
    ∙ ap (λ l. event_line ∷ l)
        (split-line data_line _ (is_line-append "data: " (json.to_string v) refl d)
          ∙ ap (λ l. data_line ∷ l)
              (split-line "" (frames_text json frames) refl
                ∙ ap (λ l. "" ∷ l) (split-frames_text json frames h)))
