-- ===== src/Bitrix/Client/Classify.antt =====
-- `parse_retry_after` and the error classification of app/bitrix/client.py. Delays are in
-- microseconds; an `int` or `float` of a text is refused beyond Python's limits.
use Prim.Native.String.{◌++◌}
use b24_sinedis.Prelude.{
  ℕ, ◌+◌, ◌-◌, ◌*◌, ◌/◌, ◌^◌, String, Bool, true, false, ◌||◌, Option, none, some, List, [], ◌∷◌,
  if◌then◌else◌, ◌==◌, comparable_ids, comparable_texts, ltb, leb, any,
}
use b24_sinedis.Prelude.Text.{strip, isdigit, decimal, length, upper, show_nat}
use b24_sinedis.Value.{Value, str, obj, Fields, get}
use b24_sinedis.Settings.{second}
use b24_sinedis.Runtime.{Result, ok, raised, HttpResponse, Env}
use b24_sinedis.Bitrix.Exceptions.{
  ApiError, BitrixError, authentication_error, permission_error, rate_limit_error, temporary_error,
  permanent_error, value_error, overflow_error,
}

-- int(s) of a text of digits: `none` stands for ValueError
abbrev pub int_of_digits : String → Option ℕ
int_of_digits s = if ltb 4300 (length s) then none else decimal 0 s

-- The integers that `float` refuses with OverflowError.
unfoldable pub beyond_float : ℕ → Bool
beyond_float n = leb (2 ^ 1024 - 2 ^ 970) n

unfoldable pub float_of_digits : String → Result (Option ℕ)
unfolding strip isdigit decimal length beyond_float
float_of_digits s = elim (int_of_digits s) [
  | none ↦ raised value_error
  | some n ↦ if beyond_float n then raised overflow_error else ok (some (n * second))
]

-- max(0, ceil((at - now).total_seconds()))
abbrev pub whole_seconds_until : ℕ → ℕ → ℕ
whole_seconds_until at now = (at - now + (second - 1)) / second * second

unfoldable pub parse_retry_after : (String → Option ℕ) → Option String → ℕ → Result (Option ℕ)
unfolding float_of_digits
parse_retry_after parse_http_date none now = ok none
parse_retry_after parse_http_date (some value) now =
    let stripped = strip value in
    let number = float_of_digits stripped in
    if isdigit stripped then number else elim (parse_http_date stripped) [
      | none ↦ ok none
      | some at ↦ ok (some (whole_seconds_until at now))
    ]

abbrev pub member : String → List String → Bool
member s codes = any (λ c. c == s) codes

abbrev pub authentication_codes : List String
authentication_codes = "EXPIRED_TOKEN" ∷ "NO_AUTH_FOUND" ∷ "INVALID_TOKEN" ∷ "WRONG_AUTH_TYPE" ∷ []

abbrev pub permission_codes : List String
permission_codes =
    "ACCESS_DENIED" ∷ "INVALID_CREDENTIALS" ∷ "USER_ACCESS_ERROR" ∷ "INSUFFICIENT_SCOPE" ∷ []

abbrev pub rate_limit_codes : List String
rate_limit_codes = "QUERY_LIMIT_EXCEEDED" ∷ "OPERATION_TIME_LIMIT" ∷ []

abbrev pub temporary_codes : List String
temporary_codes = "INTERNAL_SERVER_ERROR" ∷ "ERROR_UNEXPECTED_ANSWER" ∷ []

abbrev pub permanent_codes : List String
permanent_codes = "OVERLOAD_LIMIT" ∷ []

-- response.status_code in {500, 502, 503, 504}
abbrev pub is_server_error : ℕ → Bool
is_server_error c = c == 500 || c == 502 || c == 503 || c == 504

module _ (status : ℕ) (method code : String) (time : Option Fields) where
  -- An error without and with the right to repeat.
  abbrev pub final_error : ApiError
  final_error = record {
    code = code;
    http_status = status;
    method = method;
    retryable = false;
    retry_after_seconds = none;
    time = time;
  }

  abbrev pub repeatable_error : Option ℕ → ApiError
  repeatable_error retry_after = record {
    code = code;
    http_status = status;
    method = method;
    retryable = true;
    retry_after_seconds = retry_after;
    time = time;
  }

  unfoldable pub unknown_error : Option ℕ → BitrixError
  unknown_error retry_after =
      if status == 429
      then rate_limit_error (repeatable_error retry_after)
      else if is_server_error status
      then temporary_error (repeatable_error retry_after)
      else permanent_error final_error

  -- The chain of tests on the normalised code.
  unfoldable pub classify_code : String → Option ℕ → BitrixError
  unfolding unknown_error
  classify_code normalized retry_after =
      if member normalized authentication_codes
      then authentication_error final_error
      else if member normalized permission_codes
      then permission_error final_error
      else if member normalized rate_limit_codes
      then rate_limit_error (repeatable_error retry_after)
      else if member normalized temporary_codes
      then temporary_error (repeatable_error retry_after)
      else if member normalized permanent_codes
      then permanent_error final_error
      else unknown_error retry_after

-- raw_code if isinstance(raw_code, str) and raw_code else "UNKNOWN_BITRIX_ERROR"
abbrev pub code_of : Option Value → String
code_of (some (str s)) = if s == "" then "UNKNOWN_BITRIX_ERROR" else s
code_of _ = "UNKNOWN_BITRIX_ERROR"

abbrev pub error_metadata : Option Value → Option Fields
error_metadata (some (obj d)) = some d
error_metadata _ = none

abbrev with_delay : Result (Option ℕ) → (Option ℕ → BitrixError) → Result BitrixError
with_delay (ok retry_after) f = ok (f retry_after)
with_delay (raised e) f = raised e

module _ (env : Env) (now : ℕ) (r : HttpResponse) (method : String) where
  abbrev pub retry_after_of : Result (Option ℕ)
  retry_after_of = parse_retry_after env.parse_http_date r.retry_after now

  unfoldable pub classify_api_error : Fields → Result BitrixError
  unfolding parse_retry_after classify_code get upper
  classify_api_error payload =
      let code = code_of (get "error" payload) in
      with_delay retry_after_of
        (classify_code r.status_code method code (error_metadata (get "time" payload)) (upper code))

  unfoldable pub classify_http_error : Result BitrixError
  unfolding parse_retry_after unknown_error show_nat
  classify_http_error =
      with_delay retry_after_of
        (unknown_error r.status_code method ("HTTP_" ++ show_nat r.status_code) none)
