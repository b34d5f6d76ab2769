-- ===== src/Gateway/Embeddings/Records.antt =====
-- crates/yb-gateway/src/embed.rs: what a turn of embeddings leaves, and whom it asks.
use sovereign_gateway.Base.{
  ℕ, String, ◌≡◌, ◌≤◌, ◌<◌, refl, ◌⊎◌, inl, inr, true, false, Bool-cases, List, [], ◌∷◌, leb, ltb,
  arith, ◌&&◌, ◌||◌,
}
use sovereign_gateway.Core.Deployments.{Deployment}
use sovereign_gateway.Core.Errors.{http_status, Result, ok, err, Error}
use sovereign_gateway.Core.Formats.{EmbedFormat, UpstreamFormat, chat, embed, media}
use Prim.Native.String.{len}
use sovereign_gateway.Gateway.Bodies.{ResponseBody}
use sovereign_gateway.Gateway.Dispatch.{RequestCtx, Sent, unreachable, answered, UpstreamRequest}
use sovereign_gateway.Gateway.Dispatch.Access.{All-map, may_serve-permits, IsPermitted}
use sovereign_gateway.Routing.Order.{Floats}
use sovereign_gateway.Routing.Resolve.{Router, resolve}
use sovereign_gateway.Upstream.Urls.{is_retryable, is_model_not_found}
use sovereign_gateway.Wire.Embed.{EmbedRequest, EmbedResponse}
use sovereign_gateway.Gateway.Turns.Records.{IsRound, IsReported, try_decided-IsReported}
use sovereign_gateway.Gateway.Turns.{
  Answer, failed, answered_full, Recorded, Round, skipped, next, ended, guard_record, turn_record,
}
use sovereign_gateway.Gateway.Embeddings.{
  EmbedServices, unreadable, emit_embedded, commit_embed, settle_embed, ask, embed_request,
  embed_by, embed_round, embed_exhausted, handle_embed, bytes_of, build_embed_route_request,
  embed_decided,
}

module _ (s : EmbedServices) (surface : EmbedFormat) (req : EmbedRequest) where
  -- An error of reading an upstream's success, or of writing it for the client.
  abbrev pub IsUnread : Error → Type 0
  IsUnread e =
      (u : UpstreamRequest) × (w : s.World) × (status : ℕ) × (body : ResponseBody)
      × (fmt : EmbedFormat) × ((ask s surface req u w).1 ≡ answered status body)
      × (200 ≤ status)
      × (status < 300)
      × ((s.parse_response fmt (bytes_of s surface req body) ≡ err e)
          ⊎ ((parsed : EmbedResponse) × (s.parse_response fmt (bytes_of s surface req body)
                ≡ ok parsed)
              × (s.emit_response surface parsed req ≡ err e)))

  -- A record says what the caller is told; only a turn whose upstream's success could not be read or written
  -- for the client may be recorded as one that the client left.
  abbrev pub IsTold : Answer → Recorded → Type 0
  IsTold (failed e) rec =
      (rec.turn.is_error ≡ true)
      × (rec.input_tokens ≡ 0)
      × ((rec.turn.status ≡ http_status e) ⊎ ((rec.turn.status ≡ 499) × IsUnread e))
  IsTold (answered_full status headers body) rec =
      (rec.turn.is_error ≡ false) × (rec.turn.status ≡ status) × (200 ≤ status) × (status < 300)

  abbrev IsTurn : Round → Type 0
  IsTurn skipped = Unit
  IsTurn (next e) = Unit
  IsTurn (ended answer rec) = IsTold answer rec

  -- What is known of an answer that is a success.
  module _ (u : UpstreamRequest) (w : s.World) (status : ℕ) (body : ResponseBody)
      (fmt : EmbedFormat) (sent : (ask s surface req u w).1 ≡ answered status body)
      (success : (leb 200 status && ltb status 300) ≡ true) where
    emit_embedded-IsTurn :
        (d : Deployment) (parsed : EmbedResponse)
        → s.parse_response fmt (bytes_of s surface req body) ≡ ok parsed
        → IsTurn (emit_embedded s surface req d status parsed)
    unfolding emit_embedded unreadable guard_record turn_record
    emit_embedded-IsTurn d parsed p = by_body (s.emit_response surface parsed req) refl
      where
        by_body :
            (r : Result String)
            → s.emit_response surface parsed req ≡ r
            → IsTurn (elim r as (λ _. Round) [
              | err e ↦ ended (failed e) (guard_record req.model 499)
              | ok out ↦
                  ended (answered_full status (("content-type", "application/json") ∷ []) out) (
                    turn_record d status false parsed.usage.input_tokens
                      (len out)
                      (s.to_vec parsed))
            ])
        by_body (err e) q = (
          refl,
          refl,
          inr (
            refl,
            (
              u,
              w,
              status,
              body,
              fmt,
              sent,
              ground (arith, success),
              ground (arith, success),
              inr (parsed, p, q),
            ),
          ),
        )
        by_body (ok out) q = (refl, refl, ground (arith, success), ground (arith, success))

    commit_embed-IsTurn : (d : Deployment) → IsTurn (commit_embed s surface req d fmt status body)
    unfolding commit_embed unreadable guard_record
    commit_embed-IsTurn d = by_parse (s.parse_response fmt (bytes_of s surface req body)) refl
      where
        by_parse :
            (r : Result EmbedResponse)
            → s.parse_response fmt (bytes_of s surface req body) ≡ r
            → IsTurn (elim r as (λ _. Round) [
              | err e ↦ ended (failed e) (guard_record req.model 499)
              | ok parsed ↦ emit_embedded s surface req d status parsed
            ])
        by_parse (err e) q = (
          refl,
          refl,
          inr (
            refl,
            (
              u,
              w,
              status,
              body,
              fmt,
              sent,
              ground (arith, success),
              ground (arith, success),
              inl q,
            ),
          ),
        )
        by_parse (ok parsed) q = emit_embedded-IsTurn d parsed q

  settle_embed-IsTurn :
      (d : Deployment) (fmt : EmbedFormat) (u : UpstreamRequest) (w : s.World) (sent : Sent)
      → (ask s surface req u w).1 ≡ sent
      → IsTurn (settle_embed s surface req d fmt sent)
  unfolding settle_embed turn_record http_status
  settle_embed-IsTurn d fmt u w (unreachable e) h = tt
  settle_embed-IsTurn d fmt u w (answered status body) h =
      elim (Bool-cases (leb 200 status && ltb status 300)) [
        | inl q ↦ rw q (commit_embed-IsTurn u w status body fmt h q d)
        | inr q ↦ rw q (elim (Bool-cases (is_retryable status || is_model_not_found status)) [
          | inl k ↦ rw k tt
          | inr k ↦ rw k (refl, refl, inl refl)
        ])
      ]

  embed_by-IsTurn :
      (d : Deployment) (fmt : EmbedFormat) (w : s.World) → IsTurn (embed_by s surface req d fmt w).1
  unfolding embed_by guard_record
  embed_by-IsTurn d fmt w = by_emit (s.emit_request fmt req d.upstream_model)
    where
      by_emit :
          (r : Result (String × List (String × String)))
          → IsTurn
              (elim r as (λ _. s.World × Round) [
                | err e ↦ (w, ended (failed e) (guard_record req.model (http_status e)))
                | ok emitted ↦ (
                  (ask s surface req (embed_request s surface req fmt d emitted) w).0,
                  settle_embed s surface req d fmt
                      (ask s surface req (embed_request s surface req fmt d emitted) w).1,
                )
              ]).1
      by_emit (err e) = (refl, refl, inl refl)
      by_emit (ok emitted) =
          settle_embed-IsTurn d fmt (embed_request s surface req fmt d emitted) w
            (ask s surface req (embed_request s surface req fmt d emitted) w).1 refl

  abbrev pub IsEmbedding : Deployment → Type 0
  IsEmbedding d = (fmt : EmbedFormat) × (d.upstream_format ≡ embed fmt)

  embed_round-IsRound :
      (d : Deployment) (w : s.World)
      → IsRound IsTold (IsEmbedding d) (embed_round s surface req d w).1
  unfolding embed_round
  embed_round-IsRound d w = by_format d.upstream_format
    where
      by_round :
          (fmt : EmbedFormat) (r : Round)
          → IsTurn r
          → IsRound IsTold ((g : EmbedFormat) × (embed fmt ≡ embed g)) r
      by_round fmt skipped h = tt
      by_round fmt (next e) h = (fmt, refl)
      by_round fmt (ended answer rec) h = ((fmt, refl), h)

      by_format :
          (f : UpstreamFormat)
          → IsRound IsTold
              ((g : EmbedFormat) × (f ≡ embed g))
              (elim f as (λ _. s.World × Round) [
                | embed fmt ↦ embed_by s surface req d fmt w
                | chat fmt ↦ (w, skipped)
                | media fmt ↦ (w, skipped)
              ]).1
      by_format (embed fmt) =
          by_round fmt (embed_by s surface req d fmt w).1 (embed_by-IsTurn d fmt w)
      by_format (chat fmt) = tt
      by_format (media fmt) = tt

-- A request for embeddings that can be parsed leaves exactly one record, however routing decides and the
-- upstreams answer. A failure is recorded as an error without tokens under the status of what the caller is
-- told, unless it is the error of reading or writing an upstream's success, which may stand under 499; a success is
-- recorded under its status of success. Every deployment that is tried is of an embedding format, permitted by the
-- caller's access policy and not excluded.
pub handle_embed-IsReported :
    (s : EmbedServices) (f : Floats) (surface : EmbedFormat) (body : String) (ctx : RequestCtx)
    (r : Router) (w : s.World) (req : EmbedRequest)
    → s.parse_request surface body ≡ ok req
    → IsReported
        (IsTold s surface req)
        (λ d. IsPermitted ctx d × IsEmbedding s surface req d)
        (handle_embed s f surface body ctx r w).1
unfolding handle_embed embed_decided guard_record
handle_embed-IsReported s f surface body ctx r w req h =
    let (told, tried) =
      try_decided-IsReported req.model (embed_round s surface req) (embed_exhausted s surface req)
        (IsTold s surface req) (IsEmbedding s surface req) (embed_round-IsRound s surface req)
        (λ e. (refl, refl, inl refl)) ctx (resolve f (build_embed_route_request req ctx) r).0 w in
    rw (handle_embed, h) (told, All-map (λ d (p, e). (may_serve-permits ctx d p, e)) _ tried)
