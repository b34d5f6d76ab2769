-- ===== src/Examples/Checks.antt =====
-- A check of a deployment whose upstream is busy.
use sovereign_gateway.Base.{◌≡◌, none, some, true, [], ◌==◌, if◌then◌else◌, ◌↔◌, refl}
use sovereign_gateway.Examples.{plain}
use sovereign_gateway.Core.Deployments.{DeploymentRecord}
use sovereign_gateway.Core.Errors.{ok}
use sovereign_gateway.Core.Formats.{chat, openai_chat, http_ok, unchecked}
use sovereign_gateway.Gateway.Bodies.{full}
use sovereign_gateway.Gateway.Dispatch.{answered}
use sovereign_gateway.Gateway.Health.{Checks, check_deployment, unneeded}
use sovereign_gateway.Gateway.Health.Reports.{
  prepared, IsFit, IsExplained, check_deployment-IsExplained,
}

abbrev checked : DeploymentRecord
checked = record {
  id = "r";
  model_id = "gpt";
  model_name = "gpt";
  provider_id = "p9";
  provider = "p9";
  upstream_model = "gpt";
  api_base = some "http://localhost:8000/v1";
  api_key = none;
  upstream_format = chat openai_chat;
  weight = 1;
  pricing = none;
  health_check = http_ok;
  health_path = some "/health";
  extra = plain;
  created_at = 0;
  updated_at = 0;
  deleted_at = none;
}

abbrev checks : Checks
checks = record {
  env = λ name. none;
  cf_access = none;
  error_text = λ e. "error";
  emit_chat_probe = λ f model. ok ("{}", []);
  emit_embed_probe = λ f model. ok ("{}", []);
  send = λ u.
      if u.url == "http://localhost:8000/health"
      then some (answered 200 (full ""))
      else some (answered 503 (full "busy"));
  elapsed_ms = 12;
}

-- The path of the base is not the one of the check.
check_deployment_test : (check_deployment checks checked).healthy ≡ true
unfolding check_deployment
check_deployment_test = refl

check_deployment-IsExplained_example :
    ((prepared checks checked ≡ unneeded) ↔ (checked.health_check ≡ unchecked))
    × (((check_deployment checks checked).healthy ≡ true) ↔ IsFit checks (prepared checks checked))
    × IsExplained (check_deployment checks checked)
check_deployment-IsExplained_example = check_deployment-IsExplained checks checked
