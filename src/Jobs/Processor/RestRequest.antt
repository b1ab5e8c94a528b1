-- ===== src/Jobs/Processor/RestRequest.antt =====
-- `_process_rest_request` of app/jobs/processor.py. The intake stores `request_params` as an object;
-- another value is refused here with TypeError.
use b24_sinedis.Prelude.{
  ℕ, pos, negsuc, String, Bool, true, false, not, Option, none, some, List, [], ◌∷◌, if◌then◌else◌,
  ◌==◌, comparable_ids, comparable_texts, length,
}
use b24_sinedis.Prelude.Text.{show_nat}
use b24_sinedis.Value.{
  Value, null, bool, str, int, float, arr, obj, nil, cons, Fields, field, end, get, put, of_list,
}
use b24_sinedis.Settings.{Settings}
use b24_sinedis.Portals.{BitrixPortal}
use b24_sinedis.Jobs.Model.{AutomationJob}
use b24_sinedis.Jobs.Processor.Persisted.{subscription_data}
use b24_sinedis.Jobs.Processor.Outcome.{
  save_result, retry, notify, error_values, deliver_subscription,
}
use b24_sinedis.Jobs.Processor.ShortPause.{on_invalid}
use b24_sinedis.Runtime.{Result, ok, raised, Env, Action, ◌>>=◌, ◌>>◌, pure, raise, lift, try_else}
use b24_sinedis.Bitrix.Exceptions.{
  Failure, bitrix, configuration_error, transport_error, timeout_error, invalid_response,
  authentication_error, permission_error, rate_limit_error, permanent_error,
  oauth_configuration_error, oauth_temporary_error, oauth_refresh_rejected, key_error, type_error,
  other_error,
}
use b24_sinedis.Bitrix.OAuth.Portal.{call_portal}

-- bool(v)
abbrev pub truthy : Option Value → Bool
truthy none = false
truthy (some null) = false
truthy (some (bool b)) = b
truthy (some (int (pos n))) = not (n == 0)
truthy (some (int (negsuc n))) = true
truthy (some (float (pos n))) = not (n == 0)
truthy (some (float (negsuc n))) = true
truthy (some (str s)) = not (s == "")
truthy (some (arr nil)) = false
truthy (some (arr (cons v vs))) = true
truthy (some (obj end)) = false
truthy (some (obj (field k v d))) = true

-- d[key]
abbrev pub item : Option Value → Result Value
item none = raised key_error
item (some v) = ok v

-- A method name that is no text fails the client's check, as the empty text does.
abbrev pub method_of : Value → String
method_of (str s) = s
method_of _ = ""

abbrev pub mapping_of : Value → Result Fields
mapping_of (obj d) = ok d
mapping_of _ = raised type_error

-- No match is None, one match its value, more the list.
abbrev pub selected : List Value → Value
selected [] = null
selected (v ∷ []) = v
selected (v ∷ w ∷ vs) = arr (of_list (v ∷ w ∷ vs))

abbrev pub result_text : Env → Value → String
result_text env null = ""
result_text env (str s) = s
result_text env (int z) = env.show (int z)
result_text env (float f) = env.show (float f)
result_text env (bool b) = env.show (bool b)
result_text env v = env.dumps v

unfoldable pub rest_values : Env → ℕ → List Value → Fields
unfolding show_nat
rest_values env job_id matches = field "status" (str "completed") (
    field "job_id" (str (show_nat job_id)) (
      field "result_text" (str (result_text env (selected matches))) (
        field "result_json" (str (env.dumps (selected matches))) (
          field "matches_count" (int (pos (length matches)))
            (field "error_code" (str "") (field "error_message" (str "") end))))))

abbrev pub found : Option (List Value) → Result (List Value)
found none = raised other_error
found (some matches) = ok matches

abbrev pub mark_requested : Fields → Fields
mark_requested payload = put "request_completed" (bool true) payload

-- The return values of an earlier call, if one was checkpointed.
abbrev pub checkpoint : AutomationJob → Fields → Option Fields
checkpoint job payload =
    if truthy (get "request_completed" payload)
    then elim job.return_values [ obj values ↦ some values | _ ↦ none ]
    else none

module _ (env : Env) (settings : Settings) where
  -- The guarded block: the call, the selection and the checkpoint.
  unfoldable pub request_and_save : AutomationJob → Fields → Action Fields
  unfolding get call_portal rest_values put save_result
  request_and_save job payload = do
    rest_method ← lift (item (get "rest_method" payload))
    raw_params ← lift (item (get "request_params" payload))
    request_params ← lift (mapping_of raw_params)
    answer ← call_portal env settings job.portal_id (method_of rest_method) request_params
    expression ← lift (item (get "jsonpath" payload))
    matches ← lift (found (env.jsonpath (method_of expression) answer.result))
    let values = rest_values env job.id matches
    save_result env job (mark_requested payload) values
    pure values

  -- The outcome of a failed call is saved before the notices, unless the row is marked already.
  unfoldable pub record_failure : AutomationJob → Fields → String → Fields → Action (Unit {0})
  unfolding put save_result notify get
  record_failure job payload message values =
      if truthy (get "request_completed" payload) then pure tt else (do
        save_result env job (mark_requested payload) values
        notify env settings job (mark_requested payload) message)

  -- A failed call: its values are delivered.
  unfoldable pub conclude : AutomationJob → String → Fields → String → String → Action (Unit {0})
  unfolding record_failure deliver_subscription
  conclude job event_token payload code message = do
    let values = error_values job code message
    record_failure job payload message values
    deliver_subscription env settings job event_token values

  abbrev outcome_unknown_message : String
  outcome_unknown_message = "Ответ портала не получен; результат выполнения REST-метода неизвестен."

  -- The `except` clauses. A temporary API error is named by none of them.
  abbrev pub on_request_failure : AutomationJob → String → Fields → Failure → Action (Unit {0})
  on_request_failure job token payload (bitrix (rate_limit_error e)) =
      retry env settings job "rest_request_rate_limited" (bitrix (rate_limit_error e))
  on_request_failure job token payload (bitrix oauth_temporary_error) =
      retry env settings job "oauth_temporarily_unavailable" (bitrix oauth_temporary_error)
  on_request_failure job token payload (bitrix transport_error) =
      conclude job token payload "rest_request_outcome_unknown" outcome_unknown_message
  on_request_failure job token payload (bitrix timeout_error) =
      conclude job token payload "rest_request_outcome_unknown" outcome_unknown_message
  on_request_failure job token payload (bitrix (permission_error e)) =
      conclude job token payload "rest_request_failed" "REST-запрос Bitrix24 завершился ошибкой."
  on_request_failure job token payload (bitrix (permanent_error e)) =
      conclude job token payload "rest_request_failed" "REST-запрос Bitrix24 завершился ошибкой."
  on_request_failure job token payload (bitrix (invalid_response s)) =
      conclude job token payload "rest_request_failed" "REST-запрос Bitrix24 завершился ошибкой."
  on_request_failure job token payload (bitrix (authentication_error e)) =
      conclude job token payload "rest_request_failed" "REST-запрос Bitrix24 завершился ошибкой."
  on_request_failure job token payload (bitrix configuration_error) =
      conclude job token payload "rest_request_failed" "REST-запрос Bitrix24 завершился ошибкой."
  on_request_failure job token payload (bitrix oauth_configuration_error) =
      conclude job token payload "rest_request_failed" "REST-запрос Bitrix24 завершился ошибкой."
  on_request_failure job token payload (bitrix oauth_refresh_rejected) =
      conclude job token payload "rest_request_failed" "REST-запрос Bitrix24 завершился ошибкой."
  on_request_failure job token payload e = raise e

  unfoldable pub request_or_deliver : AutomationJob → String → Fields → Action (Unit {0})
  unfolding get request_and_save conclude retry deliver_subscription
  request_or_deliver job event_token payload = elim (checkpoint job payload) [
    | some values ↦ deliver_subscription env settings job event_token values
    | none ↦
        try_else (request_and_save job payload) (on_request_failure job event_token payload)
          (deliver_subscription env settings job event_token)
  ]

  unfoldable pub process_rest_request : AutomationJob → Option BitrixPortal → Action (Unit {0})
  unfolding subscription_data request_or_deliver
  process_rest_request job portal =
      try_else (lift (subscription_data env job portal)) (on_invalid env settings job)
        λ (event_token, payload). request_or_deliver job event_token payload
