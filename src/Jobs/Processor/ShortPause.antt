-- ===== src/Jobs/Processor/ShortPause.antt =====
-- The short pause: `process` of app/jobs/processor.py after its dispatch, and `_return_values`.
use Prim.Native.String.{◌++◌}
use b24_sinedis.Prelude.{
  ℕ, pos, ◌-◌, ◌/◌, String, Bool, false, Option, none, some, if◌then◌else◌, ◌==◌, comparable_texts,
}
use b24_sinedis.Prelude.Text.{show_nat}
use b24_sinedis.Value.{str, int, Fields, field, end}
use b24_sinedis.Settings.{Settings, second}
use b24_sinedis.Portals.{BitrixPortal}
use b24_sinedis.Jobs.Model.{AutomationJob}
use b24_sinedis.Jobs.Processor.Persisted.{validated_data}
use b24_sinedis.Jobs.Processor.Outcome.{failed, expired, complete, retry, send_event}
use b24_sinedis.Runtime.{Env, Action, ◌>>=◌, raise, lift, try_else, read_clock}
use b24_sinedis.Bitrix.Exceptions.{
  Failure, bitrix, configuration_error, transport_error, timeout_error, invalid_response,
  authentication_error, permission_error, rate_limit_error, temporary_error, permanent_error,
  oauth_configuration_error, oauth_temporary_error, oauth_refresh_rejected, encryption_error,
  job_data_error,
}

unfoldable pub pause_values : Env → ℕ → ℕ → ℕ → ℕ → Fields
unfolding show_nat
pause_values env job_id scheduled_at resumed_at requested_delay = field "status" (str "completed") (
    field "job_id" (str (show_nat job_id)) (
      field "scheduled_at" (str (env.iso_format scheduled_at)) (
        field "resumed_at" (str (env.iso_format resumed_at)) (
          field "requested_delay_seconds" (int (pos requested_delay)) (
            field "actual_delay_seconds" (int (pos ((resumed_at - scheduled_at) / second))) end)))))

-- previous_error == "event_delivery_outcome_unknown"
abbrev pub outcome_unknown : Option String → Bool
outcome_unknown none = false
outcome_unknown (some s) = s == "event_delivery_outcome_unknown"

module _ (env : Env) (settings : Settings) where
  -- The chain of `except` clauses; an exception that none names leaves the method.
  abbrev pub on_pause_failure : AutomationJob → Failure → Action (Unit {0})
  on_pause_failure job (bitrix (permission_error e)) =
      if e.code == "ACCESS_DENIED"
      then (if outcome_unknown job.last_error
          then failed env job "event_delivery_requires_manual_review"
          else expired env job "event_token_invalid_or_expired")
      else failed env job "event_delivery_permission_denied"
  on_pause_failure job (bitrix (authentication_error e)) =
      failed env job "portal_authentication_failed"
  on_pause_failure job (bitrix configuration_error) = failed env job "portal_authentication_failed"
  on_pause_failure job (bitrix oauth_configuration_error) =
      failed env job "portal_authentication_failed"
  on_pause_failure job (bitrix oauth_refresh_rejected) =
      failed env job "portal_authentication_failed"
  on_pause_failure job (bitrix (permanent_error e)) =
      failed env job "event_delivery_permanent_error"
  on_pause_failure job (bitrix (rate_limit_error e)) =
      retry env settings job "event_delivery_rate_limited" (bitrix (rate_limit_error e))
  on_pause_failure job (bitrix (temporary_error e)) =
      retry env settings job "event_delivery_temporary_error" (bitrix (temporary_error e))
  on_pause_failure job (bitrix (invalid_response s)) =
      retry env settings job "event_delivery_invalid_response" (bitrix (invalid_response s))
  on_pause_failure job (bitrix oauth_temporary_error) =
      retry env settings job "oauth_temporarily_unavailable" (bitrix oauth_temporary_error)
  on_pause_failure job (bitrix transport_error) =
      retry env settings job "event_delivery_outcome_unknown" (bitrix transport_error)
  on_pause_failure job (bitrix timeout_error) =
      retry env settings job "event_delivery_outcome_unknown" (bitrix timeout_error)
  on_pause_failure job encryption_error = failed env job "portal_token_decryption_failed"
  on_pause_failure job job_data_error = failed env job "event_delivery_not_confirmed"
  on_pause_failure job e = raise e

  unfoldable pub resume_pause : AutomationJob → String → ℕ → ℕ → Action (Unit {0})
  unfolding read_clock pause_values send_event failed expired retry complete show_nat
  resume_pause job event_token scheduled_at requested_delay = do
    proposed_resume ← read_clock env
    let values = pause_values env job.id scheduled_at proposed_resume requested_delay
    try_else
        (send_event env settings job event_token values
          ("Короткая пауза завершена. Задание: " ++ (show_nat job.id ++ ".")))
        (on_pause_failure job) (λ _. complete env job proposed_resume values)

  -- `except (JobDataError, EncryptionError)`
  abbrev pub on_invalid : AutomationJob → Failure → Action (Unit {0})
  on_invalid job job_data_error = failed env job "invalid_persisted_job"
  on_invalid job encryption_error = failed env job "invalid_persisted_job"
  on_invalid job e = raise e

  unfoldable pub process_short_pause : AutomationJob → Option BitrixPortal → Action (Unit {0})
  unfolding validated_data failed resume_pause
  process_short_pause job portal =
      try_else (lift (validated_data env job portal)) (on_invalid job) λ (event_token, scheduled).
        let (scheduled_at, requested) = scheduled in
        resume_pause job event_token scheduled_at requested
