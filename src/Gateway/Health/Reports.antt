-- ===== src/Gateway/Health/Reports.antt =====
-- crates/yb-gateway/src/health.rs: what the report of a check says.
use sovereign_gateway.Base.{
  ℕ, ◌≤◌, ◌<◌, String, ◌≡◌, ◌≢◌, refl, ap, ◌↔◌, ◌⊎◌, inl, inr, Bool, true, false, Option, none,
  some, Bool-cases, arith, List,
}
use sovereign_gateway.Core.Deployments.{DeploymentRecord}
use sovereign_gateway.Core.Formats.{
  UpstreamFormat, chat, embed, media, HealthCheck, unchecked, http_ok, models_list, probe,
}
use sovereign_gateway.Core.Errors.{Result, ok, err}
use sovereign_gateway.Upstream.Urls.{
  Listing, listed, unlisted, models_list_url_for, build_url, build_embed_url,
}
use sovereign_gateway.Gateway.Bodies.{take_chars, read_body_message}
use sovereign_gateway.Gateway.Dispatch.{Sent, unreachable, answered, extra_headers}
use sovereign_gateway.Gateway.Health.{
  Checks, HealthReport, Prepared, unneeded, ready, refused, build_check_request, new_report,
  report_answer, report_check, check_deployment, is_success, http_ok_request, models_list_request,
  probe_request, check_auth, probe_with, get_request,
}

abbrev pub prepared : Checks → DeploymentRecord → Prepared
prepared k dep = build_check_request k dep (extra_headers k.cf_access dep.extra)

-- The upstream answered with a status of success.
abbrev pub IsSuccess : Option Sent → Type 0
IsSuccess none = ⊥
IsSuccess (some (unreachable e)) = ⊥
IsSuccess (some (answered status body)) = (200 ≤ status) × (status < 300)

-- There was nothing to send, or the request had such an answer.
abbrev pub IsFit : Checks → Prepared → Type 0
IsFit k unneeded = Unit
IsFit k (refused detail) = ⊥
IsFit k (ready request) = IsSuccess (k.send request)

abbrev pub IsExplained : HealthReport → Type 0
IsExplained r = (r.healthy ≡ true) ⊎ ((t : String) × (r.detail ≡ some t))

is_success_iff : (n : ℕ) → (is_success n ≡ true) ↔ ((200 ≤ n) × (n < 300))
is_success_iff n = (λ h. (ground (arith, h), ground (arith, h)), λ (h, k). ground (arith, h, k))

report_answer-healthy :
    (k : Checks) (report : HealthReport) (sent : Option Sent)
    → report.healthy ≡ false
    → ((report_answer k report sent).healthy ≡ true) ↔ IsSuccess sent
unfolding report_answer
report_answer-healthy k report none h = (λ e. cc, λ x. absurd x)
report_answer-healthy k report (some (unreachable e)) h = (λ e. cc, λ x. absurd x)
report_answer-healthy k report (some (answered status body)) h = is_success_iff status

report_answer-IsExplained :
    (k : Checks) (report : HealthReport) (sent : Option Sent)
    → IsExplained (report_answer k report sent)
unfolding report_answer
report_answer-IsExplained k report none = inr (_, refl)
report_answer-IsExplained k report (some (unreachable e)) = inr (_, refl)
report_answer-IsExplained k report (some (answered status body)) =
    elim (Bool-cases (is_success status)) [
      | inl q ↦ inl q
      | inr q ↦ inr (take_chars 300 (read_body_message body), rw q refl)
    ]

report_check-healthy :
    (k : Checks) (dep : DeploymentRecord) (p : Prepared)
    → ((report_check k (new_report dep) p).healthy ≡ true) ↔ IsFit k p
unfolding report_check new_report
report_check-healthy k dep unneeded = (λ e. tt, λ x. refl)
report_check-healthy k dep (refused detail) = (λ e. cc, λ x. absurd x)
report_check-healthy k dep (ready request) =
    report_answer-healthy k (new_report dep) (k.send request) refl

report_check-IsExplained :
    (k : Checks) (dep : DeploymentRecord) (p : Prepared)
    → IsExplained (report_check k (new_report dep) p)
unfolding report_check
report_check-IsExplained k dep unneeded = inl refl
report_check-IsExplained k dep (refused detail) = inr (detail, refl)
report_check-IsExplained k dep (ready request) =
    report_answer-IsExplained k (new_report dep) (k.send request)

abbrev is_needed : Prepared → Bool
is_needed unneeded = false
is_needed (ready request) = true
is_needed (refused detail) = true

http_ok_request-needed :
    (dep : DeploymentRecord) (auth : List (String × String))
    → is_needed (http_ok_request dep auth) ≡ true
unfolding http_ok_request
http_ok_request-needed dep auth = ground arith

models_list_request-needed :
    (dep : DeploymentRecord) (auth : List (String × String))
    → is_needed (models_list_request dep auth) ≡ true
unfolding models_list_request
models_list_request-needed dep auth = by_url (models_list_url_for dep.upstream_format dep.api_base)
  where
    by_url :
        (l : Listing)
        → is_needed (elim l as (λ _. Prepared) [
          | listed url ↦ get_request url auth
          | unlisted detail ↦ refused detail
        ])
          ≡ true
    by_url (listed url) = refl
    by_url (unlisted detail) = refl

probe_with-needed :
    (k : Checks) (url : String) (auth : List (String × String))
    (emitted : Result (String × List (String × String)))
    → is_needed (probe_with k url auth emitted) ≡ true
unfolding probe_with
probe_with-needed k url auth (err e) = refl
probe_with-needed k url auth (ok request) = refl

probe_request-needed :
    (k : Checks) (dep : DeploymentRecord) (auth : List (String × String))
    → is_needed (probe_request k dep auth) ≡ true
unfolding probe_request
probe_request-needed k dep auth = by_format dep.upstream_format
  where
    by_format :
        (f : UpstreamFormat)
        → is_needed (probe_request k (record dep { upstream_format = f }) auth) ≡ true
    by_format (chat f) =
        probe_with-needed k (build_url f dep.api_base dep.upstream_model false) auth
          (k.emit_chat_probe f dep.upstream_model)
    by_format (embed f) =
        probe_with-needed k (build_embed_url f dep.api_base dep.upstream_model) auth
          (k.emit_embed_probe f dep.upstream_model)
    by_format (media f) = refl

-- Where a check needs a request, it is not the check that does nothing.
needed_iff :
    (p : Prepared) (h : HealthCheck)
    → is_needed p ≡ true
    → h ≢ unchecked
    → (p ≡ unneeded) ↔ (h ≡ unchecked)
needed_iff p h needed n =
    (λ e. let missing : is_needed p ≡ false = ap is_needed e in cc, λ q. absurd (n q))

build_check_request_iff :
    (k : Checks) (dep : DeploymentRecord) (extra : List (String × String)) (h : HealthCheck)
    → (build_check_request k (record dep { health_check = h }) extra ≡ unneeded) ↔ (h ≡ unchecked)
unfolding build_check_request
build_check_request_iff k dep extra unchecked = (λ _. refl, λ _. refl)
build_check_request_iff k dep extra http_ok =
    let auth = check_auth k dep extra in needed_iff _ _ (http_ok_request-needed dep auth) (λ q. cc)
build_check_request_iff k dep extra models_list =
    let auth = check_auth k dep extra in
    needed_iff _ _ (models_list_request-needed dep auth) (λ q. cc)
build_check_request_iff k dep extra probe =
    let auth = check_auth k dep extra in needed_iff _ _ (probe_request-needed k dep auth) (λ q. cc)

-- A check has nothing to send exactly where none is configured. A report says healthy exactly where that is so,
-- or where the request is sent and answered with a status from 200 to 299; a report that does not say healthy
-- says why.
pub check_deployment-IsExplained :
    (k : Checks) (dep : DeploymentRecord)
    → ((prepared k dep ≡ unneeded) ↔ (dep.health_check ≡ unchecked))
      × (((check_deployment k dep).healthy ≡ true) ↔ IsFit k (prepared k dep))
      × IsExplained (check_deployment k dep)
unfolding check_deployment
check_deployment-IsExplained k dep = (
  build_check_request_iff k dep (extra_headers k.cf_access dep.extra) dep.health_check,
  report_check-healthy k dep (prepared k dep),
  report_check-IsExplained k dep (prepared k dep),
)
