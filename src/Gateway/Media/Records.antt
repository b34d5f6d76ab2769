-- ===== src/Gateway/Media/Records.antt =====
-- crates/yb-gateway/src/media.rs: what a turn of images, speech or transcripts leaves, and whom it asks.
use Prim.Native.String.{len}
use sovereign_gateway.Base.{
  String, ◌≡◌, ◌≤◌, ◌<◌, refl, inl, inr, true, false, Bool-cases, leb, ltb, arith, ◌&&◌, ◌||◌,
  Option,
}
use sovereign_gateway.Core.Deployments.{Deployment}
use sovereign_gateway.Core.Errors.{http_status, Result, ok, err}
use sovereign_gateway.Core.Formats.{MediaFormat, media, UpstreamFormat-discrete}
use sovereign_gateway.Gateway.Dispatch.{RequestCtx, Sent, unreachable, answered}
use sovereign_gateway.Gateway.Dispatch.Access.{All-map, may_serve-permits, IsPermitted}
use sovereign_gateway.Routing.Order.{Floats}
use sovereign_gateway.Routing.Resolve.{Router, resolve}
use sovereign_gateway.Upstream.Urls.{is_retryable, is_model_not_found}
use sovereign_gateway.Wire.Media.{MediaRequest}
use sovereign_gateway.Gateway.Turns.Records.{IsRound, IsReported, try_decided-IsReported}
use sovereign_gateway.Gateway.Turns.{
  Answer, failed, answered_full, Recorded, Round, skipped, next, ended, guard_record, turn_record,
}
use sovereign_gateway.Gateway.Media.{
  MediaServices, commit_media, settle_media, media_request, media_by, media_round, media_exhausted,
  media_decided, build_media_route_request, handle_media,
}

-- A record says what the caller is told, and counts no tokens.
abbrev pub IsForwarded : Answer → Recorded → Type 0
IsForwarded (failed e) rec =
    (rec.turn.is_error ≡ true) × (rec.input_tokens ≡ 0) × (rec.turn.status ≡ http_status e)
IsForwarded (answered_full status headers body) rec =
    (rec.turn.is_error ≡ false)
    × (rec.input_tokens ≡ 0)
    × (rec.turn.status ≡ status)
    × (rec.response_bytes ≡ len body)
    × (200 ≤ status)
    × (status < 300)

module _ (s : MediaServices) (surface : MediaFormat) (request : MediaRequest) (body : String)
    (content_type : String) where
  abbrev IsTurn : Round → Type 0
  IsTurn skipped = Unit
  IsTurn (next e) = Unit
  IsTurn (ended answer rec) = IsForwarded answer rec

  settle_media-IsTurn :
      (d : Deployment) (sent : Sent × Option String)
      → IsTurn (settle_media s surface request body content_type d sent)
  unfolding settle_media commit_media turn_record http_status
  settle_media-IsTurn d (unreachable e, response_type) = tt
  settle_media-IsTurn d (answered status answer, response_type) =
      elim (Bool-cases (leb 200 status && ltb status 300)) [
        | inl q ↦ rw q (refl, refl, refl, refl, ground (arith, q), ground (arith, q))
        | inr q ↦ rw q (elim (Bool-cases (is_retryable status || is_model_not_found status)) [
          | inl k ↦ rw k tt
          | inr k ↦ rw k (refl, refl, refl)
        ])
      ]

  media_by-IsTurn :
      (d : Deployment) (w : s.World) → IsTurn (media_by s surface request body content_type d w).1
  unfolding media_by guard_record
  media_by-IsTurn d w = by_body (s.upstream_body request body d.upstream_model)
    where
      by_body :
          (r : Result String)
          → IsTurn
              (elim r as (λ _. s.World × Round) [
                | err e ↦ (w, ended (failed e) (guard_record request.model (http_status e)))
                | ok forwarded ↦ (
                  (s.send (media_request s surface request body content_type d forwarded) w).0,
                  settle_media s surface request body content_type d
                      (s.send (media_request s surface request body content_type d forwarded) w).1,
                )
              ]).1
      by_body (err e) = (refl, refl, refl)
      by_body (ok forwarded) =
          settle_media-IsTurn d
            (s.send (media_request s surface request body content_type d forwarded) w).1

  media_round-IsRound :
      (d : Deployment) (w : s.World)
      → IsRound IsForwarded
          (d.upstream_format ≡ media surface)
          (media_round s surface request body content_type d w).1
  unfolding media_round
  media_round-IsRound d w = by_format (UpstreamFormat-discrete d.upstream_format (media surface))
    where
      by_round :
          (r : Round)
          → d.upstream_format ≡ media surface
          → IsTurn r
          → IsRound IsForwarded (d.upstream_format ≡ media surface) r
      by_round skipped q h = tt
      by_round (next e) q h = q
      by_round (ended answer rec) q h = (q, h)

      by_format :
          (q : Dec (d.upstream_format ≡ media surface))
          → IsRound IsForwarded
              (d.upstream_format ≡ media surface)
              (elim q as (λ _. s.World × Round) [
                | yes same ↦ media_by s surface request body content_type d w
                | no other ↦ (w, skipped)
              ]).1
      by_format (yes q) =
          by_round (media_by s surface request body content_type d w).1 q (media_by-IsTurn d w)
      by_format (no q) = tt

-- A media request whose model can be read leaves exactly one record, without tokens, however routing decides
-- and the upstreams answer. A failure is recorded as an error under the status of what the caller is told; a
-- success under its status of success, with the bytes of its answer. Every deployment that is tried serves the
-- same endpoint, is permitted by the caller's access policy and is not excluded.
pub handle_media-IsReported :
    (s : MediaServices) (f : Floats) (surface : MediaFormat) (body content_type : String)
    (ctx : RequestCtx) (r : Router) (w : s.World) (request : MediaRequest)
    → s.route_request body content_type ≡ ok request
    → IsReported IsForwarded
        (λ d. IsPermitted ctx d × (d.upstream_format ≡ media surface))
        (handle_media s f surface body content_type ctx r w).1
unfolding handle_media media_decided guard_record
handle_media-IsReported s f surface body content_type ctx r w request h =
    let (told, tried) =
      try_decided-IsReported request.model (media_round s surface request body content_type)
        (media_exhausted s surface request body content_type) IsForwarded
        (λ d. d.upstream_format ≡ media surface)
        (media_round-IsRound s surface request body content_type) (λ e. (refl, refl, refl)) ctx
        (resolve f (build_media_route_request request.model ctx) r).0 w in
    rw (handle_media, h) (told, All-map (λ d (p, e). (may_serve-permits ctx d p, e)) _ tried)
