-- ===== src/Jobs/Processor/WaitField.antt =====
-- `_process_wait_field` of app/jobs/processor.py.
use b24_sinedis.Prelude.{
  ℕ, pos, negsuc, ℤ, ◌/◌, ◌+◌, String, Bool, true, false, Option, none, some, if◌then◌else◌, ◌==◌,
  comparable_ids, comparable_texts, ltb,
}
use b24_sinedis.Prelude.Int.{scale, neg}
use b24_sinedis.Prelude.Text.{show_nat, strip, decimal, length, is_empty}
use b24_sinedis.Value.{
  Value, null, bool, str, int, float, arr, obj, nil, Fields, field, end, get, get_or, put,
}
use b24_sinedis.Settings.{Settings, second}
use b24_sinedis.Time.{add_signed}
use b24_sinedis.Portals.{BitrixPortal}
use b24_sinedis.Jobs.Model.{AutomationJob}
use b24_sinedis.Jobs.Processor.Persisted.{subscription_data}
use b24_sinedis.Jobs.Processor.Outcome.{
  failed, poll_again, retry, notify, error_values, deliver_subscription,
}
use b24_sinedis.Jobs.Processor.RestRequest.{item}
use b24_sinedis.Runtime.{
  Result, ok, raised, Env, Action, ◌>>=◌, ◌>>◌, pure, raise, lift, try_else, read_clock,
}
use b24_sinedis.Bitrix.Exceptions.{
  Failure, bitrix, rate_limit_error, temporary_error, oauth_temporary_error, invalid_response,
  encryption_error, job_data_error, key_error, type_error, value_error,
}
use b24_sinedis.Bitrix.OAuth.Numbers.{int_of_stripped}
use b24_sinedis.Bitrix.OAuth.Portal.{call_portal}

-- int(v)
abbrev pub int_of : Value → Result ℤ
int_of (int z) = ok z
int_of (bool b) = ok (pos (if b then 1 else 0))
int_of (float (pos n)) = ok (pos (n / second))
int_of (float (negsuc n)) = ok (neg ((n + 1) / second))
int_of (str s) = elim (int_of_stripped (strip s)) [ none ↦ raised value_error | some z ↦ ok z ]
int_of _ = raised type_error

-- z + 1
abbrev pub next : ℤ → ℤ
next (pos n) = pos (n + 1)
next (negsuc n) = neg n

-- timedelta(seconds=v), in microseconds
abbrev pub delta_of : Value → Result ℤ
delta_of (int z) = ok (scale second z)
delta_of (float f) = ok f
delta_of (bool b) = ok (pos (if b then second else 0))
delta_of _ = raised type_error

-- datetime.fromisoformat(v).astimezone(UTC)
abbrev pub instant_of : Env → Value → Result ℕ
instant_of env (str s) = elim (env.from_iso_format s) [
  | none ↦ raised value_error
  | some (at, _) ↦ ok at
]
instant_of env _ = raised type_error

abbrev pub item_of : Value → Option Fields
item_of (obj result) = elim (get "item" result) [
  | some v ↦ (elim v [ obj d ↦ some d | _ ↦ none ])
  | none ↦ none
]
item_of _ = none

-- item.get(field_name)
abbrev pub read_field : Value → Fields → Result Value
read_field (str name) d = elim (get name d) [ none ↦ ok null | some v ↦ ok v ]
read_field (arr vs) d = raised type_error
read_field (obj o) d = raised type_error
read_field _ d = ok null

-- value.strip() if isinstance(value, str) else value
unfoldable pub normalized : Value → Value
unfolding strip
normalized (str s) = str (strip s)
normalized v = v

-- normalized in (None, "", [], {})
abbrev pub is_blank : Value → Bool
is_blank null = true
is_blank (str s) = s == ""
is_blank (arr nil) = true
is_blank (obj end) = true
is_blank _ = false

abbrev pub serialized : Env → Value → String
serialized env (str s) = s
serialized env v = env.dumps v

-- What a check decides: the job was put back, or values are to be delivered.
pub data Check : Type 0 where
  put_back : Check
  deliver : Fields → Check

module _ (env : Env) (settings : Settings) where
  abbrev field_values : AutomationJob → String → String → ℤ → String → String → String → Fields
  field_values job status value checks completed_at code message = field "status" (str status) (
      field "job_id" (str (show_nat job.id)) (
        field "field_value" (str value) (
          field "checks_count" (int checks) (
            field "completed_at" (str completed_at)
              (field "error_code" (str code) (field "error_message" (str message) end))))))

  abbrev timeout_message : String
  timeout_message = "Поле не было заполнено за установленное время."

  -- An empty field: poll again before the deadline, give up after it.
  unfoldable pub on_blank : AutomationJob → Fields → ℕ → ℕ → ℤ → Action Check
  unfolding get add_signed poll_again notify
  on_blank job payload created now checks = do
    raw_timeout ← lift (item (get "timeout_seconds" payload))
    timeout ← lift (delta_of raw_timeout)
    deadline ← lift (add_signed created timeout)
    if ltb now deadline
        then (do
          raw_interval ← lift (item (get "poll_interval_seconds" payload))
          interval ← lift (delta_of raw_interval)
          run_at ← lift (add_signed now interval)
          poll_again env job run_at payload
          pure put_back)
        else (do
          notify env settings job payload timeout_message
          pure (
              deliver
                (field_values job "timeout" "" checks "" "field_wait_timeout" timeout_message)))

  unfoldable pub check_field : AutomationJob → Fields → Action Check
  unfolding get get_or strip decimal length is_empty call_portal read_clock put on_blank normalized
  check_field job payload = do
    raw_created ← lift (item (get "created_at" payload))
    created ← lift (instant_of env raw_created)
    counted ← lift (int_of (get_or "checks_count" (int (pos 0)) payload))
    entity_type_id ← lift (item (get "entity_type_id" payload))
    entity_id ← lift (item (get "entity_id" payload))
    answer ← call_portal env settings job.portal_id "crm.item.get" (
        field "entityTypeId" entity_type_id
          (field "id" entity_id (field "useOriginalUfNames" (bool true) end)))
    found ← lift (elim (item_of answer.result) [
      | none ↦ raised (bitrix (invalid_response 200))
      | some d ↦ ok d
    ])
    field_name ← lift (item (get "field_name" payload))
    value ← lift (read_field field_name found)
    now ← read_clock env
    let checked = put "checks_count" (int (next counted)) payload
    if is_blank (normalized value)
        then on_blank job checked created now (next counted)
        else pure (
            deliver (
              field_values job "completed" (serialized env (normalized value)) (next counted)
                (env.iso_format now) "" ""))

  abbrev check_failed_message : String
  check_failed_message = "Не удалось проверить поле CRM."

  abbrev invalid_job : AutomationJob → Action (Unit {0})
  invalid_job job = failed env job "invalid_persisted_job"

  -- The `except` clauses of the whole method.
  abbrev pub on_check_failure : AutomationJob → String → Fields → Failure → Action (Unit {0})
  on_check_failure job token payload job_data_error = invalid_job job
  on_check_failure job token payload encryption_error = invalid_job job
  on_check_failure job token payload key_error = invalid_job job
  on_check_failure job token payload type_error = invalid_job job
  on_check_failure job token payload value_error = invalid_job job
  on_check_failure job token payload (bitrix (rate_limit_error e)) =
      retry env settings job "field_check_temporary_error" (bitrix (rate_limit_error e))
  on_check_failure job token payload (bitrix (temporary_error e)) =
      retry env settings job "field_check_temporary_error" (bitrix (temporary_error e))
  on_check_failure job token payload (bitrix oauth_temporary_error) =
      retry env settings job "field_check_temporary_error" (bitrix oauth_temporary_error)
  on_check_failure job token payload (bitrix e) = do
    notify env settings job payload check_failed_message
    deliver_subscription env settings job token
        (error_values job "field_check_failed" check_failed_message)
  on_check_failure job token payload e = raise e

  abbrev pub conclude_check : AutomationJob → String → Check → Action (Unit {0})
  conclude_check job token put_back = pure tt
  conclude_check job token (deliver values) = deliver_subscription env settings job token values

  unfoldable pub check_and_deliver : AutomationJob → String → Fields → Action (Unit {0})
  unfolding check_field failed retry notify deliver_subscription
  check_and_deliver job token payload =
      try_else (check_field job payload) (on_check_failure job token payload)
        (conclude_check job token)

  -- Before the payload is read only JobDataError and EncryptionError can be raised.
  unfoldable pub process_wait_field : AutomationJob → Option BitrixPortal → Action (Unit {0})
  unfolding subscription_data check_and_deliver failed
  process_wait_field job portal =
      try_else (lift (subscription_data env job portal)) (λ _. invalid_job job)
        λ (event_token, payload). check_and_deliver job event_token payload
