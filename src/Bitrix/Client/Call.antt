-- ===== src/Bitrix/Client/Call.antt =====
-- `BitrixClient.call` of app/bitrix/client.py and the reading of its answer.
use Prim.Native.String.{◌++◌}
use b24_sinedis.Prelude.{
  ℕ, ℤ, String, Bool, not, ◌||◌, ◌&&◌, Option, none, some, if◌then◌else◌, ◌==◌, comparable_ids,
  comparable_texts, leb,
}
use b24_sinedis.Prelude.Text.{strip, before, lower, ends_with}
use b24_sinedis.Value.{Value, str, int, null, obj, Fields, get, has, put}
use b24_sinedis.Runtime.{
  Result, ok, raised, HttpResponse, Exchange, response, timeout, request_error, Env, Action, ◌>>=◌,
  raise, lift, post, read_clock,
}
use b24_sinedis.Bitrix.Exceptions.{
  bitrix, configuration_error, transport_error, timeout_error, invalid_response, BitrixError,
}
use b24_sinedis.Bitrix.Endpoint.{normalize_client_endpoint, validate_rest_method}
use b24_sinedis.Bitrix.Client.Classify.{classify_api_error, classify_http_error}

pub record BitrixResponse : Type 0 where
  pub result : Value
  pub next : Option ℤ
  pub total : Option ℤ
  pub time : Option Fields

-- response.is_success
abbrev pub is_success : ℕ → Bool
is_success c = leb 200 c && leb c 299

abbrev pub or_empty : Option String → String
or_empty none = ""
or_empty (some s) = s

abbrev pub is_json : Option String → Bool
is_json header =
    let content_type = lower (strip (before b';' (or_empty header))) in
    content_type == "application/json" || ends_with content_type "+json"

module _ (status : ℕ) where
  abbrev pub optional_int : Option Value → Result (Option ℤ)
  optional_int none = ok none
  optional_int (some null) = ok none
  optional_int (some (int z)) = ok (some z)
  optional_int (some _) = raised (bitrix (invalid_response status))

  abbrev pub optional_mapping : Option Value → Result (Option Fields)
  optional_mapping none = ok none
  optional_mapping (some null) = ok none
  optional_mapping (some (obj d)) = ok (some d)
  optional_mapping (some _) = raised (bitrix (invalid_response status))

  abbrev pub response_from :
      Value → Result (Option ℤ) → Result (Option ℤ) → Result (Option Fields) → Result BitrixResponse
  response_from result (ok next) (ok total) (ok time) =
      ok (record { result = result; next = next; total = total; time = time })
  response_from result (raised e) _ _ = raised e
  response_from result (ok _) (raised e) _ = raised e
  response_from result (ok _) (ok _) (raised e) = raised e

  abbrev pub read_fields : Fields → Result BitrixResponse
  read_fields payload = elim (get "result" payload) [
    | none ↦ raised (bitrix (invalid_response status))
    | some result ↦
        response_from result (optional_int (get "next" payload))
          (optional_int (get "total" payload)) (optional_mapping (get "time" payload))
  ]

  abbrev pub read_payload : Option Value → Result BitrixResponse
  read_payload (some (obj payload)) = read_fields payload
  read_payload _ = raised (bitrix (invalid_response status))

abbrev pub raise_error : {A : Type 0} → Result BitrixError → Result A
raise_error (ok e) = raised (bitrix e)
raise_error (raised e) = raised e

-- isinstance(payload, Mapping) and "error" in payload
abbrev pub reports_error : Option Value → Option Fields
reports_error (some (obj payload)) = if has "error" payload then some payload else none
reports_error _ = none

module _ (env : Env) (now : ℕ) (method : String) where
  unfoldable pub parse_response : HttpResponse → Result BitrixResponse
  unfolding classify_api_error classify_http_error get has strip before lower ends_with
  parse_response r = elim (reports_error r.json) [
    | some payload ↦ raise_error (classify_api_error env now r method payload)
    | none ↦
        if not (is_success r.status_code)
        then raise_error (classify_http_error env now r method)
        else if not (is_json r.content_type)
        then raised (bitrix (invalid_response r.status_code))
        else read_payload r.status_code r.json
  ]

  unfoldable pub parse_exchange : Exchange → Result BitrixResponse
  unfolding parse_response
  parse_exchange timeout = raised (bitrix timeout_error)
  parse_exchange request_error = raised (bitrix transport_error)
  parse_exchange (response r) = parse_response r

-- A client for one endpoint and one token; the constructor checks both.
pub record BitrixClient : Type 0 where
  pub endpoint : String
  pub access_token : String

module _ (env : Env) where
  unfoldable pub new_client : String → String → Result BitrixClient
  unfolding normalize_client_endpoint
  new_client client_endpoint access_token =
      elim (normalize_client_endpoint env.urlsplit client_endpoint) [
        | raised e ↦ raised e
        | ok endpoint ↦
            if access_token == ""
            then raised (bitrix configuration_error)
            else ok (record { endpoint = endpoint; access_token = access_token })
      ]

  unfoldable pub call : BitrixClient → String → Fields → Action BitrixResponse
  unfolding validate_rest_method has put post read_clock parse_exchange
  call client method params = do
    safe_method ← lift (validate_rest_method method)
    if has "auth" params then raise (bitrix configuration_error) else do
      answer ← post env (record {
        url = client.endpoint ++ safe_method;
        body = put "auth" (str client.access_token) params;
      })
      now ← read_clock env
      lift (parse_exchange env now safe_method answer)
