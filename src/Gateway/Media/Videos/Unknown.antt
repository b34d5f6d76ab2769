-- ===== src/Gateway/Media/Videos/Unknown.antt =====
-- crates/yb-gateway/src/media.rs, `handle_video`: when a client is told that its video is not known.
use sovereign_gateway.Base.{
  ℕ, String, ◌≡◌, refl, false, Bool-cases, inl, inr, Option, none, some, List, [], ◌∷◌, eqb, arith,
  if◌then◌else◌,
}
use sovereign_gateway.Core.Deployments.{Deployment}
use sovereign_gateway.Core.Errors.{Error}
use sovereign_gateway.Core.Formats.{media, openai_videos}
use sovereign_gateway.Gateway.Dispatch.{RequestCtx, filter_access}
use sovereign_gateway.Gateway.Media.{MediaServices}
use sovereign_gateway.Gateway.Media.Videos.{
  VideoLookup, exhausted, ask_about_video, ask_each, handle_video,
}
use sovereign_gateway.Gateway.Turns.{Answer, failed, answered_full}
use sovereign_gateway.Routing.Resolve.{Router, serving}

clash : (code : ℕ) → eqb code 404 ≡ false → code ≡ 404 → ⊥
clash code q same = ground (arith, q, same)

-- An upstream's answer that it does not know the video.
abbrev pub IsUnknown : Answer → Type 0
IsUnknown (failed e) = ⊥
IsUnknown (answered_full code headers body) = code ≡ 404

module _ (s : MediaServices) (id : String) (lookup : VideoLookup) where
  -- Each deployment, asked in turn, was reached and does not know the video.
  abbrev pub AreUnknown : List Deployment → s.World → Type 0
  AreUnknown [] w = Unit
  AreUnknown (d ∷ ds) w =
      IsUnknown (ask_about_video s id lookup d w).1
      × AreUnknown ds (ask_about_video s id lookup d w).0

  -- Where one could not be reached, the client is not told that the video is unknown.
  ask_each-lost :
      (ds : List Deployment) (e : Error) (answer : Option Answer) (w : s.World)
      → IsUnknown (ask_each s id lookup ds (some e) answer w).1
      → ⊥
  unfolding ask_each
  ask_each-lost [] e answer w h = h
  ask_each-lost (d ∷ ds) e answer w h =
      by_told (ask_about_video s id lookup d w) (λ e' a w'. ask_each-lost ds e' a w') h
    where
      by_told :
          (r : s.World × Answer)
          → ((e' : Error) (a : Option Answer) (w' : s.World)
              → IsUnknown (ask_each s id lookup ds (some e') a w').1
              → ⊥)
          → IsUnknown
              (elim r.1 as (λ _. s.World × Answer) [
                | failed e' ↦ ask_each s id lookup ds (some e') answer r.0
                | answered_full code headers body ↦
                    if eqb code 404
                    then ask_each s id lookup ds
                        (some e)
                        (some (answered_full code headers body))
                        r.0
                    else (r.0, answered_full code headers body)
              ]).1
          → ⊥
      by_told (w1, failed e') ih h = ih e' answer w1 h
      by_told (w1, answered_full code headers body) ih h = elim (Bool-cases (eqb code 404)) [
        | inl q ↦ ih e (some (answered_full code headers body)) w1 (rw q at h)
        | inr q ↦ (let same : code ≡ 404 = rw q at h in clash code q same)
      ]

  ask_each-unknown :
      (ds : List Deployment) (answer : Option Answer) (w : s.World)
      → IsUnknown (ask_each s id lookup ds none answer w).1
      → AreUnknown ds w
  unfolding ask_each
  ask_each-unknown [] answer w h = tt
  ask_each-unknown (d ∷ ds) answer w h =
      by_told (ask_about_video s id lookup d w) (λ a w'. ask_each-unknown ds a w') h
    where
      by_told :
          (r : s.World × Answer)
          → ((a : Option Answer) (w' : s.World)
              → IsUnknown (ask_each s id lookup ds none a w').1
              → AreUnknown ds w')
          → IsUnknown
              (elim r.1 as (λ _. s.World × Answer) [
                | failed e ↦ ask_each s id lookup ds (some e) answer r.0
                | answered_full code headers body ↦
                    if eqb code 404
                    then ask_each s id lookup ds none (some (answered_full code headers body)) r.0
                    else (r.0, answered_full code headers body)
              ]).1
          → IsUnknown r.1 × AreUnknown ds r.0
      by_told (w1, failed e) ih h = elim (ask_each-lost ds e answer w1 h) [ ]
      by_told (w1, answered_full code headers body) ih h = elim (Bool-cases (eqb code 404)) [
        | inl q ↦ (ground (arith, q), ih (some (answered_full code headers body)) w1 (rw q at h))
        | inr q ↦ (let same : code ≡ 404 = rw q at h in elim (clash code q same) [ ])
      ]

-- A client is told an upstream's 404 about a video only where the video's id names a model and every deployment
-- that serves the model and that the caller may use was reached and answered 404.
pub handle_video-unknown :
    (s : MediaServices) (id : String) (lookup : VideoLookup) (ctx : RequestCtx) (r : Router)
    (w : s.World)
    → IsUnknown (handle_video s id lookup ctx r w).1
    → (model : String) × (s.video_model id ≡ some model)
      × AreUnknown s id lookup (filter_access (serving (media openai_videos) model r) ctx) w
unfolding handle_video
handle_video-unknown s id lookup ctx r w h = by_model (s.video_model id) refl h
  where
    by_model :
        (m : Option String)
        → s.video_model id ≡ m
        → IsUnknown
            (elim m as (λ _. s.World × Answer) [
              | none ↦ (w, exhausted none none)
              | some model ↦
                  ask_each s id lookup
                    (filter_access (serving (media openai_videos) model r) ctx)
                    none
                    none
                    w
            ]).1
        → (model : String) × (s.video_model id ≡ some model)
          × AreUnknown s id lookup (filter_access (serving (media openai_videos) model r) ctx) w
    by_model none e h = elim h [ ]
    by_model (some model) e h = (
      model,
      e,
      ask_each-unknown s id lookup (filter_access (serving (media openai_videos) model r) ctx) none
          w h,
    )
