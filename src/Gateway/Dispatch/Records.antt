-- ===== src/Gateway/Dispatch/Records.antt =====
-- What a turn leaves in the telemetry (crates/yb-gateway/src/service.rs, `TurnGuard` and `handle`).
use sovereign_gateway.Base.{
  ℕ, String, ◌≡◌, refl, ◌⊎◌, inl, inr, Bool, true, false, ◌&&◌, ◌||◌, Option, none, some, List, [],
  ◌∷◌, ltb, leb, Bool-cases, is_nil,
}
use sovereign_gateway.Routing.Resolve.{Router, resolve}
use sovereign_gateway.Routing.Order.{Floats}
use sovereign_gateway.Upstream.Urls.{is_retryable, is_model_not_found}
use sovereign_gateway.Wire.Request.{ChatRequest}
use sovereign_gateway.Core.Deployments.{Deployment, Decision}
use sovereign_gateway.Core.Errors.{Error, http_status, no_eligible_provider, Result, ok, err}
use sovereign_gateway.Core.Formats.{UpstreamFormat, WireFormat, chat, embed, media}
use sovereign_gateway.Gateway.Dispatch.{
  build_route_request, upstream_request, RequestCtx, Sent, unreachable, answered, Services, Turn,
  Outcome, failed, committed, filter_access, fail, uncommitted, exhausted, Attempt, skipped, next,
  refused, returned, commit, settle, attempt, attempt_chat, dispatch, serve, handle,
}
use sovereign_gateway.Gateway.Bodies.{ResponseBody, full, streamed}
use mathlib.Core.Path.{subst}

-- One turn is recorded, as an error with the status of the error.
abbrev pub IsRecorded : Error → List Turn → Type 0
IsRecorded e ts = (t : Turn) × (ts ≡ t ∷ []) × (t.status ≡ http_status e) × (t.is_error ≡ true)

-- A body in one piece that the translator could not read.
abbrev pub Unreadable : Services → Error → Type 0
Unreadable s e = (fmt : WireFormat) × (body : String) × (s.parse_response fmt body ≡ err e)

abbrev pub IsAccounted : Services → Outcome → List Turn → Type 0
IsAccounted s (committed d status body) ts = (ts ≡ []) × (leb 200 status && ltb status 300 ≡ true)
IsAccounted s (failed e) ts = IsRecorded e ts ⊎ ((ts ≡ []) × Unreadable s e)

abbrev IsSettled : Services → Attempt → Type 0
IsSettled s skipped = Unit
IsSettled s (next e) = Unit
IsSettled s (refused e) = Unit
IsSettled s (returned o ts) = IsAccounted s o ts

fail-IsAccounted :
    (s : Services) (c : ChatRequest) (e : Error) → IsAccounted s (fail c e).outcome (fail c e).turns
unfolding fail uncommitted
fail-IsAccounted s c e = inl (uncommitted c (http_status e), refl, refl, refl)

commit-IsSettled :
    (s : Services) (fmt : WireFormat) (d : Deployment) (status : ℕ) (body : ResponseBody)
    → leb 200 status && ltb status 300 ≡ true
    → IsSettled s (commit s fmt d status body)
unfolding commit
commit-IsSettled s fmt d status (streamed body) h = (refl, h)
commit-IsSettled s fmt d status (full body) h = go (s.parse_response fmt body) refl
  where
    go :
        (r : Result String)
        → s.parse_response fmt body ≡ r
        → IsSettled s (commit s fmt d status (full body))
    go (ok response) q = rw (commit, q) (refl, h)
    go (err e) q = rw (commit, q) (inr (refl, (fmt, body, q)))

settle-IsSettled :
    (s : Services) (fmt : WireFormat) (d : Deployment) (sent : Sent)
    → IsSettled s (settle s fmt d sent)
unfolding settle http_status
settle-IsSettled s fmt d (unreachable e) = tt
settle-IsSettled s fmt d (answered status body) =
    elim (Bool-cases (leb 200 status && ltb status 300)) [
      | inl q ↦ rw q (commit-IsSettled s fmt d status body q)
      | inr q ↦ elim (Bool-cases (is_retryable status || is_model_not_found status)) [
        | inl k ↦ rw (q, k) tt
        | inr k ↦ rw (q, k) (inl (_, refl, refl, refl))
      ]
    ]

attempt-IsSettled : (s : Services) (c : ChatRequest) (d : Deployment) → IsSettled s (attempt s c d)
unfolding attempt attempt_chat
attempt-IsSettled s c d = of_format d.upstream_format refl
  where
    of_emitted :
        (fmt : WireFormat) (r : Result (String × List (String × String)))
        → s.emit_request fmt c d.upstream_model ≡ r
        → IsSettled s (attempt_chat s c d fmt)
    of_emitted fmt (err e) q = rw (attempt_chat, q) tt
    of_emitted fmt (ok emitted) q =
        rw (attempt_chat, q) (settle-IsSettled s fmt d (s.send (upstream_request s fmt d emitted)))

    of_format : (u : UpstreamFormat) → d.upstream_format ≡ u → IsSettled s (attempt s c d)
    of_format (chat fmt) q = rw (attempt, q) (of_emitted fmt _ refl)
    of_format (embed fmt) q = rw (attempt, q) tt
    of_format (media fmt) q = rw (attempt, q) tt

dispatch-IsAccounted :
    (s : Services) (c : ChatRequest) (ds : List Deployment) (embed_only : Bool)
    (last : Option Error)
    → IsAccounted s
        (dispatch s c ds embed_only last).outcome
        (dispatch s c ds embed_only last).turns
unfolding dispatch
dispatch-IsAccounted s c [] embed_only last = fail-IsAccounted s c (exhausted c embed_only last)
dispatch-IsAccounted s c (d ∷ ds) embed_only last =
    go (attempt s c d) refl (attempt-IsSettled s c d) (λ b l. dispatch-IsAccounted s c ds b l)
  where
    go :
        (a : Attempt)
        → attempt s c d ≡ a
        → IsSettled s (attempt s c d)
        → ((b : Bool) (l : Option Error)
            → IsAccounted s (dispatch s c ds b l).outcome (dispatch s c ds b l).turns)
        → IsAccounted s
            (dispatch s c (d ∷ ds) embed_only last).outcome
            (dispatch s c (d ∷ ds) embed_only last).turns
    go skipped q h again = rw (dispatch, q) (again embed_only last)
    go (next e) q h again = rw (dispatch, q) (again false (some e))
    go (refused e) q h again = rw (dispatch, q) (fail-IsAccounted s c e)
    go (returned o ts) q h again = rw (dispatch, q) (subst (IsSettled s) q h)

serve-IsAccounted :
    (s : Services) (c : ChatRequest) (ctx : RequestCtx) (a : Result Decision)
    → IsAccounted s (serve s c ctx a).outcome (serve s c ctx a).turns
unfolding serve
serve-IsAccounted s c ctx (err e) = fail-IsAccounted s c e
serve-IsAccounted s c ctx (ok decision) =
    elim (Bool-cases (is_nil (filter_access decision.candidates ctx))) [
      | inl q ↦ rw q (fail-IsAccounted s c (no_eligible_provider c.model))
      | inr q ↦ rw q (dispatch-IsAccounted s c (filter_access decision.candidates ctx) true none)
    ]

-- A turn that ends in an error has left exactly one record, an error with the HTTP status of what the
-- caller is told, unless an upstream's body in one piece could not be read: then there may be none. A
-- turn that is handed on has left none yet, and its status is a success.
pub handle-IsAccounted :
    (s : Services) (f : Floats) (c : ChatRequest) (ctx : RequestCtx) (r : Router)
    → IsAccounted s (handle s f c ctx r).0.outcome (handle s f c ctx r).0.turns
unfolding handle
handle-IsAccounted s f c ctx r =
    serve-IsAccounted s c ctx (resolve f (build_route_request c ctx) r).0
