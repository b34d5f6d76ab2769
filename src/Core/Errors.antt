-- ===== src/Core/Errors.antt =====
-- crates/yb-core/src/error.rs: the domain error, its HTTP status and its code. A `Duration` is its
-- number of nanoseconds. A `Result` of the program is a `Result` here.
use sovereign_gateway.Base.{ℕ, String}

pub data Error : Type 0 where
  not_found bad_request unauthorized forbidden conflict budget_exceeded : String → Error
  rate_limited : (retry_after : ℕ) (reason : String) → Error
  no_eligible_provider : String → Error
  upstream : (provider : String) (status : ℕ) (message : String) → Error
  connection_lost storage crypto config wire internal : String → Error

unfoldable pub http_status : Error → ℕ
http_status (not_found _) = 404
http_status (bad_request _) = 400
http_status (unauthorized _) = 401
http_status (forbidden _) = 403
http_status (conflict _) = 409
http_status (budget_exceeded _) = 429
http_status (rate_limited _ _) = 429
http_status (no_eligible_provider _) = 400
http_status (upstream _ status _) = status
http_status (connection_lost _) = 502
http_status (wire _) = 400
http_status (storage _) = 500
http_status (crypto _) = 500
http_status (config _) = 500
http_status (internal _) = 500

unfoldable pub error_code : Error → String
error_code (not_found _) = "not_found"
error_code (bad_request _) = "bad_request"
error_code (unauthorized _) = "unauthorized"
error_code (forbidden _) = "forbidden"
error_code (conflict _) = "conflict"
error_code (budget_exceeded _) = "budget_exceeded"
error_code (rate_limited _ _) = "rate_limited"
error_code (no_eligible_provider _) = "no_eligible_provider"
error_code (upstream _ _ _) = "upstream_error"
error_code (connection_lost _) = "upstream_error"
error_code (storage _) = "storage_error"
error_code (crypto _) = "crypto_error"
error_code (config _) = "config_error"
error_code (wire _) = "wire_error"
error_code (internal _) = "internal_error"

pub data Result {ℓ} (A : Type ℓ) : Type ℓ where
  ok : A → Result A
  err : Error → Result A

infixl 5 ◌>>=◌
abbrev pub ◌>>=◌ {ℓ κ} : {A : Type ℓ} {B : Type κ} → Result A → (A → Result B) → Result B
ok a >>= f = f a
err e >>= f = err e
