-- ===== src/Gateway/Turns/Records.antt =====
-- crates/yb-gateway/src/embed.rs and media.rs: the record of a turn and the candidates that are tried, for
-- whatever a round does.
use sovereign_gateway.Base.{
  String, ◌≡◌, refl, inl, inr, Bool, true, false, Bool-cases, Option, none, some, List, [], ◌∷◌,
  All, is_nil,
}
use sovereign_gateway.Core.Deployments.{Deployment, Decision}
use sovereign_gateway.Core.Errors.{Error, http_status, Result, ok, err, no_eligible_provider}
use sovereign_gateway.Gateway.Dispatch.{RequestCtx, filter_access, may_serve}
use sovereign_gateway.Gateway.Dispatch.Access.{filter_access-permitted}
use sovereign_gateway.Gateway.Turns.{
  Answer, failed, Recorded, TurnReport, Round, skipped, next, ended, guard_record, failed_turn,
  tried_first, try_candidates, try_decided,
}

-- A round that is not skipped is one of a deployment of the right format, and what it records is right.
abbrev pub IsRound : (Answer → Recorded → Type 0) → Type 0 → Round → Type 0
IsRound T F skipped = Unit
IsRound T F (next e) = F
IsRound T F (ended answer rec) = F × T answer rec

-- One record, which says what the caller is told; and candidates of which something holds.
abbrev pub IsReported : (Answer → Recorded → Type 0) → (Deployment → Type 0) → TurnReport → Type 0
IsReported T P r = ((rec : Recorded) × (r.recorded ≡ rec ∷ []) × T r.answer rec) × All P r.tried

module _ {W : Type 0} (model : String) (round : Deployment → W → W × Round)
    (exhausted : Bool → Option Error → Error) (T : Answer → Recorded → Type 0)
    (F : Deployment → Type 0) (rounds : (d : Deployment) (w : W) → IsRound T (F d) (round d w).1)
    (fails : (e : Error) → T (failed e) (guard_record model (http_status e))) where
  failed_turn-IsReported :
      (P : Deployment → Type 0) (e : Error) → IsReported T P (failed_turn model e)
  unfolding failed_turn
  failed_turn-IsReported P e = ((guard_record model (http_status e), refl, fails e), tt)

  try_candidates-IsReported :
      (P : Deployment → Type 0) (ds : List Deployment) (only : Bool) (last : Option Error) (w : W)
      → All P ds
      → IsReported T (λ d. P d × F d) (try_candidates model round exhausted ds only last w).1
  unfolding try_candidates
  try_candidates-IsReported P [] only last w h =
      failed_turn-IsReported (λ d. P d × F d) (exhausted only last)
  try_candidates-IsReported P (d ∷ ds) only last w (h, hs) =
      by_round (round d w) (rounds d w) (λ b l w1. try_candidates-IsReported P ds b l w1 hs)
    where
      by_round :
          (r : W × Round)
          → IsRound T (F d) r.1
          → ((b : Bool) (l : Option Error) (w1 : W)
              → IsReported T (λ d. P d × F d) (try_candidates model round exhausted ds b l w1).1)
          → IsReported T
              (λ d. P d × F d)
              (elim r.1 as (λ _. W × TurnReport) [
                | skipped ↦ try_candidates model round exhausted ds only last r.0
                | next e ↦ (
                  (try_candidates model round exhausted ds false (some e) r.0).0,
                  tried_first d (try_candidates model round exhausted ds false (some e) r.0).1,
                )
                | ended answer rec ↦
                    (r.0, record { answer = answer; recorded = rec ∷ []; tried = d ∷ [] })
              ]).1
      by_round (w1, skipped) k again = again only last w1
      by_round (w1, next e) k again =
          let (told, tried) = again false (some e) w1 in (told, ((h, k), tried))
      by_round (w1, ended answer rec) k again = ((rec, refl, k.1), ((h, k.0), tt))

  pub try_decided-IsReported :
      (ctx : RequestCtx) (a : Result Decision) (w : W)
      → IsReported T
          (λ d. (may_serve ctx d ≡ true) × F d)
          (try_decided model round exhausted ctx a w).1
  unfolding try_decided
  try_decided-IsReported ctx (err e) w =
      failed_turn-IsReported (λ d. (may_serve ctx d ≡ true) × F d) e
  try_decided-IsReported ctx (ok decision) w =
      elim (Bool-cases (is_nil (filter_access decision.candidates ctx))) [
        | inl q ↦ rw q (
            failed_turn-IsReported (λ d. (may_serve ctx d ≡ true) × F d)
              (no_eligible_provider model))
        | inr q ↦ rw q (
            try_candidates-IsReported (λ d. may_serve ctx d ≡ true)
              (filter_access decision.candidates ctx) true none w
              (filter_access-permitted ctx decision.candidates))
      ]
