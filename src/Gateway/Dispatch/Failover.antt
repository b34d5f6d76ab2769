-- ===== src/Gateway/Dispatch/Failover.antt =====
-- Which candidate of a turn answers (crates/yb-gateway/src/service.rs, the loop of `handle`).
use sovereign_gateway.Base.{
  ℕ, String, ◌≡◌, refl, sym, ap, inl, inr, Bool, true, false, ◌&&◌, ◌||◌, Option, some, List, [],
  ◌∷◌, ◌++◌, arith, ltb, leb, Bool-cases, All, select,
}
use sovereign_gateway.Upstream.Urls.{is_retryable, is_model_not_found}
use sovereign_gateway.Wire.Request.{ChatRequest}
use sovereign_gateway.Core.Deployments.{Deployment}
use sovereign_gateway.Core.Errors.{Error, Result, ok, err}
use sovereign_gateway.Core.Formats.{UpstreamFormat, WireFormat, chat, embed, media}
use sovereign_gateway.Gateway.Dispatch.{
  upstream_request, Sent, unreachable, answered, Services, Turn, Outcome, failed, committed, fail,
  Attempt, skipped, next, refused, returned, commit, settle, attempt, attempt_chat, dispatch, after,
}
use sovereign_gateway.Gateway.Bodies.{ResponseBody, full, streamed}
use mathlib.Core.Path.{subst}

-- An answer is handed on as that of the deployment that gave it.
IsOwn : Deployment → Attempt → Type 0
IsOwn d skipped = Unit
IsOwn d (next e) = Unit
IsOwn d (refused e) = Unit
IsOwn d (returned (failed e) ts) = Unit
IsOwn d (returned (committed x status body) ts) = x ≡ d

commit-IsOwn :
    (s : Services) (fmt : WireFormat) (d : Deployment) (status : ℕ) (body : ResponseBody)
    → IsOwn d (commit s fmt d status body)
unfolding commit IsOwn
commit-IsOwn s fmt d status (streamed body) = refl
commit-IsOwn s fmt d status (full body) =
    elim (s.parse_response fmt body)
      as (λ r. IsOwn d (elim r [
        | err e ↦ returned (failed e) []
        | ok response ↦ returned (committed d status (full body)) []
      ])) [ err e ↦ tt | ok response ↦ refl ]

settle-IsOwn :
    (s : Services) (fmt : WireFormat) (d : Deployment) (sent : Sent) → IsOwn d (settle s fmt d sent)
unfolding settle IsOwn
settle-IsOwn s fmt d (unreachable e) = tt
settle-IsOwn s fmt d (answered status body) = elim (Bool-cases (leb 200 status && ltb status 300)) [
  | inl q ↦ rw q (commit-IsOwn s fmt d status body)
  | inr q ↦ elim (Bool-cases (is_retryable status || is_model_not_found status)) [
    | inl k ↦ rw (q, k) tt
    | inr k ↦ rw (q, k) tt
  ]
]

attempt-IsOwn : (s : Services) (c : ChatRequest) (d : Deployment) → IsOwn d (attempt s c d)
unfolding attempt attempt_chat IsOwn
attempt-IsOwn s c d = of_format d.upstream_format refl
  where
    of_emitted :
        (fmt : WireFormat) (r : Result (String × List (String × String)))
        → s.emit_request fmt c d.upstream_model ≡ r
        → IsOwn d (attempt_chat s c d fmt)
    of_emitted fmt (err e) q = rw (attempt_chat, q) tt
    of_emitted fmt (ok emitted) q =
        rw (attempt_chat, q) (settle-IsOwn s fmt d (s.send (upstream_request s fmt d emitted)))

    of_format : (u : UpstreamFormat) → d.upstream_format ≡ u → IsOwn d (attempt s c d)
    of_format (chat fmt) q = simp (attempt, q) (of_emitted fmt _ refl)
    of_format (embed fmt) q = simp (attempt, q) tt
    of_format (media fmt) q = simp (attempt, q) tt

module _ (s : Services) (c : ChatRequest) where
  -- A candidate that the loop passes over or goes on after.
  abbrev pub passes : Attempt → Bool
  passes skipped = true
  passes (next e) = true
  passes (refused e) = false
  passes (returned o ts) = false

  abbrev pub is_next : Attempt → Bool
  is_next skipped = false
  is_next (next e) = true
  is_next (refused e) = false
  is_next (returned o ts) = false

  -- The candidates that were called.
  pub tried : List Deployment → List Deployment
  unfolding select
  tried ds = select (λ d. is_next (attempt s c d)) ds

  -- Where every candidate before one is skipped or fails in a way that failover covers, and the
  -- answer of that one ends the turn, the turn ends with that answer: the candidates before it that
  -- are of a chat format were each called once, in order, and none after it is called.
  pub dispatch-append :
      (before after_it : List Deployment) (d : Deployment) (o : Outcome) (ts : List Turn)
      (embed_only : Bool) (last : Option Error)
      → All (λ e. passes (attempt s c e) ≡ true) before
      → attempt s c d ≡ returned o ts
      → dispatch s c (before ++ d ∷ after_it) embed_only last
        ≡ record { outcome = o; turns = ts; called = tried before ++ d ∷ [] }
  unfolding dispatch tried select
  dispatch-append [] after_it d o ts embed_only last p h = rw (dispatch, h) refl
  dispatch-append (e ∷ before) after_it d o ts embed_only last (p, ps) h =
      go (attempt s c e) refl p (λ b l. dispatch-append before after_it d o ts b l ps h)
    where
      go :
          (a : Attempt)
          → attempt s c e ≡ a
          → passes a ≡ true
          → ((b : Bool) (l : Option Error)
              → dispatch s c (before ++ d ∷ after_it) b l
                ≡ record { outcome = o; turns = ts; called = tried before ++ d ∷ [] })
          → dispatch s c (e ∷ before ++ d ∷ after_it) embed_only last
            ≡ record { outcome = o; turns = ts; called = tried (e ∷ before) ++ d ∷ [] }
      go skipped q k again = rw (dispatch, tried, q) (again embed_only last)
      go (next x) q k again = rw (dispatch, tried, q) (ap (after e) (again false (some x)))
      go (refused x) q k again = ground (arith, k)
      go (returned o' ts') q k again = ground (arith, k)

  -- What a committed response says of the candidates.
  abbrev pub Commits : List Deployment → Outcome → Type 0
  Commits ds (failed e) = Unit
  Commits ds (committed d status body) =
      (before : List Deployment) × (after_it : List Deployment) × (ds ≡ before ++ d ∷ after_it)
      × All (λ e. passes (attempt s c e) ≡ true) before
      × (ts : List Turn) × (attempt s c d ≡ returned (committed d status body) ts)

  Commits-skip :
      (d : Deployment) (ds : List Deployment) (o : Outcome)
      → passes (attempt s c d) ≡ true
      → Commits ds o
      → Commits (d ∷ ds) o
  Commits-skip d ds (failed e) p h = tt
  Commits-skip d ds (committed x status body) p (before, after_it, same, all, ts, q) =
      (d ∷ before, after_it, ap (λ l. d ∷ l) same, (p, all), ts, q)

  -- A response that the loop hands on is the answer of a candidate before which every candidate was
  -- skipped or failed in a way that failover covers.
  pub dispatch-Commits :
      (ds : List Deployment) (embed_only : Bool) (last : Option Error)
      → Commits ds (dispatch s c ds embed_only last).outcome
  unfolding dispatch fail IsOwn
  dispatch-Commits [] embed_only last = tt
  dispatch-Commits (d ∷ ds) embed_only last =
      go (attempt s c d) refl (λ b l. dispatch-Commits ds b l)
    where
      go :
          (a : Attempt)
          → attempt s c d ≡ a
          → ((b : Bool) (l : Option Error) → Commits ds (dispatch s c ds b l).outcome)
          → Commits (d ∷ ds) (dispatch s c (d ∷ ds) embed_only last).outcome
      go skipped q again =
          rw (dispatch, q) (Commits-skip d ds _ (ap passes q) (again embed_only last))
      go (next x) q again =
          rw (dispatch, q) (Commits-skip d ds _ (ap passes q) (again false (some x)))
      go (refused x) q again = rw (dispatch, q) tt
      go (returned (failed e) ts) q again = rw (dispatch, q) tt
      go (returned (committed x status body) ts) q again =
          rw (dispatch, q)
            (let same : x ≡ d = subst (IsOwn d) q (attempt-IsOwn s c d) in
              (
                [],
                ds,
                ap (λ y. y ∷ ds) (sym same),
                tt,
                ts,
                subst (λ y. attempt s c y ≡ returned (committed x status body) ts) (sym same) q,
              ))
