-- ===== src/Core/Reqlog.antt =====
-- crates/yb-core/src/reqlog.rs and capture.rs: a captured turn, and whether and how turns are captured. A
-- body is the list of its bytes.
use sovereign_gateway.Base.{ℕ, String, Bool, List, Option, none, some, ◌==◌, if◌then◌else◌}

pub record RequestLogRecord : Type 0 where
  pub ts : ℕ
  pub request_id : String
  pub trace_id : Option String
  pub installation_id : String
  pub surface : String
  pub requested_model : String
  pub decision_model : String
  pub decision_provider : String
  pub upstream_status : ℕ
  pub is_error : Bool
  pub request_bytes : ℕ
  pub response_bytes : ℕ
  pub response_truncated : Bool
  pub request_body : List ℕ
  pub response_body : List ℕ
  pub api_key_id : Option String
  pub user_id : Option String
  pub tags : Option String
  pub redaction : String

pub data Redaction : Type 0 where
  patterns metadata_only unredacted : Redaction

unfoldable pub redaction_str : Redaction → String
redaction_str patterns = "patterns"
redaction_str metadata_only = "metadata_only"
redaction_str unredacted = "none"

unfoldable pub parse_redaction : String → Option Redaction
parse_redaction value =
    if value == "patterns"
    then some patterns
    else if value == "metadata_only"
    then some metadata_only
    else if value == "none"
    then some unredacted
    else none

pub record CapturePolicy : Type 0 where
  pub enabled : Bool
  pub redaction : Redaction
  pub retention_days : ℕ
