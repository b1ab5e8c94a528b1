-- ===== src/Jobs/Processor/Outcome.antt =====
-- How app/jobs/processor.py ends a job: `_retry`, `_failed`, `_expired`, `_notify`, `_error_values`
-- and `_deliver_subscription`. Identifiers print in decimal.
use Prim.Native.String.{◌++◌}
use b24_sinedis.Prelude.{ℕ, pos, String, Option, none, some, List, [], ◌∷◌, if◌then◌else◌, leb}
use b24_sinedis.Prelude.Text.{show_nat}
use b24_sinedis.Value.{Value, str, int, bool, arr, obj, Fields, field, end, get, items}
use b24_sinedis.Settings.{Settings}
use b24_sinedis.Jobs.Model.{AutomationJob}
use b24_sinedis.Jobs.Repository.{
  mark_completed, mark_failed, mark_expired, schedule_retry, schedule_poll, save_processing_result,
}
use b24_sinedis.Jobs.Processor.Retry.{retry_at, retry_after_of, operating_reset}
use b24_sinedis.Runtime.{
  Result, ok, raised, Env, Action, ◌>>=◌, ◌>>◌, pure, lift, try_else, read_clock, draw, transact,
}
use b24_sinedis.Bitrix.Exceptions.{
  Failure, bitrix, rate_limit_error, temporary_error, oauth_temporary_error, invalid_response,
  transport_error, timeout_error, job_data_error, type_error,
}
use b24_sinedis.Bitrix.Client.Call.{BitrixResponse}
use b24_sinedis.Bitrix.OAuth.Portal.{call_portal}

abbrev pub done : {A : Type 0} → Action A → Action (Unit {0})
done m = do m; pure tt

-- if response.result is not True: raise JobDataError
abbrev pub confirmed : BitrixResponse → Result (Unit {0})
confirmed r = elim r.result [
  | bool b ↦ if b then ok tt else raised job_data_error
  | _ ↦ raised job_data_error
]

-- The parameters of `bizproc.event.send`.
abbrev pub event_params : String → Fields → String → Fields
event_params event_token return_values message =
    field "EVENT_TOKEN" (str event_token)
      (field "RETURN_VALUES" (obj return_values) (field "LOG_MESSAGE" (str message) end))

abbrev pub error_values : AutomationJob → String → String → Fields
error_values job code message = field "status" (str "error") (
    field "job_id" (str (show_nat job.id)) (
      field "result_text" (str "") (
        field "result_json" (str "null") (
          field "matches_count" (int (pos 0))
            (field "error_code" (str code) (field "error_message" (str message) end))))))

abbrev pub completion_message : AutomationJob → String
completion_message job = "Задание " ++ (show_nat job.id ++ " завершено.")

module _ (env : Env) where
  unfoldable pub failed : AutomationJob → String → Action (Unit {0})
  unfolding transact mark_failed
  failed job code = done (transact env (λ stamp. mark_failed stamp job.id code))

  unfoldable pub expired : AutomationJob → String → Action (Unit {0})
  unfolding transact mark_expired
  expired job code = done (transact env (λ stamp. mark_expired stamp job.id code))

  unfoldable pub complete : AutomationJob → ℕ → Fields → Action (Unit {0})
  unfolding transact mark_completed
  complete job completed_at values =
      done (transact env (λ stamp. mark_completed stamp job.id completed_at (obj values)))

  unfoldable pub save_result : AutomationJob → Fields → Fields → Action (Unit {0})
  unfolding transact save_processing_result
  save_result job payload values =
      done (transact env (λ stamp. save_processing_result stamp job.id (obj payload) (obj values)))

  unfoldable pub poll_again : AutomationJob → ℕ → Fields → Action (Unit {0})
  unfolding transact schedule_poll
  poll_again job run_at payload =
      done (transact env (λ stamp. schedule_poll stamp job.id run_at (obj payload)))

module _ (env : Env) (settings : Settings) where
  unfoldable pub retry_later : AutomationJob → String → Failure → Action (Unit {0})
  unfolding read_clock draw transact schedule_retry operating_reset retry_at
  retry_later job code error = do
    operating_reset_at ← lift (operating_reset env error)
    now ← read_clock env
    random_value ← draw env
    run_at ←
        lift (
          retry_at now job.attempts settings random_value (retry_after_of error) operating_reset_at)
    done (transact env (λ stamp. schedule_retry stamp job.id run_at code))

  unfoldable pub retry : AutomationJob → String → Failure → Action (Unit {0})
  unfolding failed retry_later
  retry job code error =
      if leb job.max_attempts job.attempts
      then failed env job (code ++ "_attempts_exhausted")
      else retry_later job code error

  -- payload.get("error_recipients", []); the intake stores a list
  abbrev pub recipients : Option Value → Result (List Value)
  recipients none = ok []
  recipients (some (arr vs)) = ok (items vs)
  recipients (some _) = raised type_error

  abbrev pub notice : Value → String → Fields
  notice user message =
      field "USER_ID" user (field "MESSAGE" (str message) (field "MESSAGE_OUT" (str message) end))

  -- The loop over the recipients: every exception is passed over.
  unfoldable pub notify_each : ℕ → List Value → String → Action (Unit {0})
  unfolding call_portal
  notify_each portal_id [] message = pure tt
  notify_each portal_id (user ∷ users) message =
      let rest = notify_each portal_id users message in
      try_else (call_portal env settings portal_id "im.notify.system.add" (notice user message))
        (λ _. rest) (λ _. rest)

  unfoldable pub notify : AutomationJob → Fields → String → Action (Unit {0})
  unfolding get notify_each
  notify job payload message = do
    users ← lift (recipients (get "error_recipients" payload))
    notify_each job.portal_id users message

  -- The exceptions of a delivery that are tried again; any other fails the job.
  abbrev pub on_delivery_failure : AutomationJob → Failure → Action (Unit {0})
  on_delivery_failure job (bitrix (rate_limit_error e)) =
      retry job "event_delivery_temporary_error" (bitrix (rate_limit_error e))
  on_delivery_failure job (bitrix (temporary_error e)) =
      retry job "event_delivery_temporary_error" (bitrix (temporary_error e))
  on_delivery_failure job (bitrix oauth_temporary_error) =
      retry job "event_delivery_temporary_error" (bitrix oauth_temporary_error)
  on_delivery_failure job (bitrix (invalid_response s)) =
      retry job "event_delivery_temporary_error" (bitrix (invalid_response s))
  on_delivery_failure job (bitrix transport_error) =
      retry job "event_delivery_temporary_error" (bitrix transport_error)
  on_delivery_failure job (bitrix timeout_error) =
      retry job "event_delivery_temporary_error" (bitrix timeout_error)
  on_delivery_failure job _ = failed env job "event_delivery_failed"

  -- The confirmed event.
  unfoldable pub send_event : AutomationJob → String → Fields → String → Action (Unit {0})
  unfolding call_portal
  send_event job event_token return_values message = do
    answer ←
        call_portal env settings job.portal_id "bizproc.event.send"
          (event_params event_token return_values message)
    lift (confirmed answer)

  unfoldable pub deliver_subscription : AutomationJob → String → Fields → Action (Unit {0})
  unfolding send_event retry failed read_clock complete show_nat
  deliver_subscription job event_token return_values =
      try_else (send_event job event_token return_values (completion_message job))
        (on_delivery_failure job) (λ _. do now ← read_clock env; complete env job now return_values)
