-- ===== src/Wire/Embed.antt =====
-- crates/yb-wire/src/embed/mod.rs: the requests and the responses of embeddings. An `f32` is its 32 bits, as
-- a number.
use sovereign_gateway.Base.{ℕ, String, Bool, true, false, Option, none, some, List, [], ◌∷◌, any}

pub data EmbedPart : Type 0 where
  text : String → EmbedPart
  image : (media_type data_ url : Option String) → EmbedPart
  audio : (format : Option String) (data_ : String) → EmbedPart

pub record EmbedInput : Type 0 where
  pub parts : List EmbedPart

unfoldable pub text_input : String → EmbedInput
text_input s = record { parts = text s ∷ [] }

unfoldable pub as_single_text : EmbedInput → Option String
as_single_text input = elim input.parts [ text t ∷ [] ↦ some t | _ ↦ none ]

abbrev is_image : EmbedPart → Bool
is_image (text t) = false
is_image (image media_type data_ url) = true
is_image (audio format data_) = false

abbrev is_audio : EmbedPart → Bool
is_audio (text t) = false
is_audio (image media_type data_ url) = false
is_audio (audio format data_) = true

unfoldable pub has_image : EmbedInput → Bool
unfolding any
has_image input = any is_image input.parts

unfoldable pub has_audio : EmbedInput → Bool
unfolding any
has_audio input = any is_audio input.parts

pub data EncodingFormat : Type 0 where
  float base64 : EncodingFormat

pub record EmbedRequest : Type 0 where
  pub model : String
  pub inputs : List EmbedInput
  pub input_type : Option String
  pub output_dimensions : Option ℕ
  pub truncate : Option Bool
  pub encoding_format : Option EncodingFormat
  pub cohere_embedding_types : Option (List String)
  pub gemini_batch : Bool
  pub openai_content : Bool

pub record EmbedUsage : Type 0 where
  pub input_tokens : ℕ
  pub image_units : ℕ

pub record EmbedResponse : Type 0 where
  pub model : String
  pub embeddings : List (List ℕ)
  pub usage : EmbedUsage
