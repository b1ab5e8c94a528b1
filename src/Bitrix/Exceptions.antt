-- ===== src/Bitrix/Exceptions.antt =====
-- app/bitrix/exceptions.py, and the other exceptions that the services tell apart.
use b24_sinedis.Prelude.{ℕ, String, Bool, Option}
use b24_sinedis.Value.{Fields}

-- BitrixAPIError. The redacted `error_description` is for logs only and is left out.
pub record ApiError : Type 0 where
  pub code : String
  pub http_status : ℕ
  pub method : String
  pub retryable : Bool
  -- in microseconds
  pub retry_after_seconds : Option ℕ
  pub time : Option Fields

-- The subclasses of BitrixError; BitrixTimeoutError is a BitrixTransportError.
pub data BitrixError : Type 0 where
  configuration_error : BitrixError
  transport_error timeout_error : BitrixError
  invalid_response : (http_status : ℕ) → BitrixError
  authentication_error permission_error rate_limit_error temporary_error permanent_error :
      ApiError → BitrixError
  oauth_configuration_error oauth_temporary_error oauth_refresh_rejected : BitrixError

pub data Failure : Type 0 where
  bitrix : BitrixError → Failure
  encryption_error job_data_error key_error type_error value_error overflow_error other_error
        security_error credential_error robot_payload_error payload_error lifecycle_error
        storage_error attribute_error :
      Failure
  http_exception : (status_code : ℕ) → Failure
