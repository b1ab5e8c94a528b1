-- ===== src/Jobs/Processor/Robots.antt =====
-- `AutomationJobProcessor.process` of app/jobs/processor.py as a sequence of queue operations.
use Prim.Native.String.{◌++◌}
use b24_sinedis.Prelude.Text.{show_nat}
use b24_sinedis.Prelude.{ℕ, ℤ, String, ◌≡◌, refl, true, Option, none, some, List, []}
use b24_sinedis.Value.{int, bool, Fields, field, end, get, put}
use b24_sinedis.Settings.{Settings}
use b24_sinedis.Portals.{BitrixPortal}
use b24_sinedis.Jobs.Model.{AutomationJob, Table}
use b24_sinedis.Jobs.Operations.{Operation, run}
use b24_sinedis.Runtime.{Env, World}
use b24_sinedis.Runtime.Contracts.{Meets-if, Meets-option, Meets-bind, Meets-try, outcome-both}
use b24_sinedis.Bitrix.Exceptions.{
  Failure, bitrix, configuration_error, authentication_error, permission_error, rate_limit_error,
  temporary_error, permanent_error, oauth_configuration_error, oauth_temporary_error,
  oauth_refresh_rejected, encryption_error, job_data_error, key_error, type_error, value_error,
}
use b24_sinedis.Jobs.Processor.Persisted.{load}
use b24_sinedis.Jobs.Processor.ShortPause.{
  pause_values, on_pause_failure, resume_pause, process_short_pause,
}
use b24_sinedis.Jobs.Processor.RestRequest.{
  checkpoint, mark_requested, method_of, truthy, record_failure, conclude, on_request_failure,
  request_and_save, request_or_deliver, process_rest_request,
}
use b24_sinedis.Jobs.Processor.WaitField.{
  Check, put_back, deliver, is_blank, normalized, next, on_blank, check_field, on_check_failure,
  conclude_check, check_and_deliver, process_wait_field,
}
use b24_sinedis.Jobs.Processor.Dispatch.{process_job, process_loaded, process}
use b24_sinedis.Jobs.Processor.Refinement.{
  Traced, Traces, Traces-lift, Traces-pure, Traces-raise, Traces-clock, Traces-call, Traces-failed,
  Traces-expired, Traces-complete, Traces-save, Traces-poll, Traces-retry, Traces-notify,
  Traces-send, Traces-deliver, Traces-invalid,
}

module _ (t : Table) (env : Env) (settings : Settings) where
  module _ (job : AutomationJob) where
    Traces-pause_failure : (e : Failure) → Traces t (on_pause_failure env settings job e)
    Traces-pause_failure (bitrix (permission_error e)) =
        Meets-if _ (Meets-if _ (Traces-failed t env job _) (Traces-expired t env job _))
          (Traces-failed t env job _)
    Traces-pause_failure (bitrix (authentication_error e)) = Traces-failed t env job _
    Traces-pause_failure (bitrix configuration_error) = Traces-failed t env job _
    Traces-pause_failure (bitrix oauth_configuration_error) = Traces-failed t env job _
    Traces-pause_failure (bitrix oauth_refresh_rejected) = Traces-failed t env job _
    Traces-pause_failure (bitrix (permanent_error e)) = Traces-failed t env job _
    Traces-pause_failure (bitrix _) = Traces-retry t env job settings _ _
    Traces-pause_failure encryption_error = Traces-failed t env job _
    Traces-pause_failure job_data_error = Traces-failed t env job _
    Traces-pause_failure _ = Traces-raise t _

    Traces-short_pause :
        (portal : Option BitrixPortal) → Traces t (process_short_pause env settings job portal)
    unfolding process_short_pause resume_pause
    Traces-short_pause portal =
        Meets-try (Traces-lift t _) (λ e. Traces-invalid t env settings job e)
          λ c. Meets-bind (Traces-clock t env) λ now.
            Meets-try
              (Traces-send t env settings job c.0 (pause_values env job.id c.1.0 now c.1.1)
                ("Короткая пауза завершена. Задание: " ++ (show_nat job.id ++ ".")))
              (λ e. Traces-pause_failure e) λ u. Traces-complete t env job now _

    Traces-request : (payload : Fields) → Traces t (request_and_save env settings job payload)
    unfolding request_and_save
    Traces-request payload = Meets-bind (Traces-lift t _) λ a. Meets-bind (Traces-lift t _) λ b.
        Meets-bind (Traces-lift t _) λ c.
          Meets-bind (Traces-call t env settings job.portal_id (method_of a) c) λ answer.
            Meets-bind (Traces-lift t _) λ x.
              Meets-bind (Traces-lift t _)
                λ matches. Meets-bind (Traces-save t env job _ _) λ u. Traces-pure t _

    Traces-record_failure :
        (payload : Fields) (message : String) (values : Fields)
        → Traces t (record_failure env settings job payload message values)
    unfolding record_failure
    Traces-record_failure payload message values =
        Meets-if (truthy (get "request_completed" payload)) (Traces-pure t tt) (
          Meets-bind (Traces-save t env job (mark_requested payload) values)
            λ u. Traces-notify t env settings job (mark_requested payload) message)

    Traces-conclude :
        (token : String) (payload : Fields) (code message : String)
        → Traces t (conclude env settings job token payload code message)
    unfolding conclude
    Traces-conclude token payload code message =
        Meets-bind (Traces-record_failure payload message _)
          λ u. Traces-deliver t env settings job token _

    Traces-request_failure :
        (token : String) (payload : Fields) (e : Failure)
        → Traces t (on_request_failure env settings job token payload e)
    Traces-request_failure token payload (bitrix (rate_limit_error e)) =
        Traces-retry t env job settings _ _
    Traces-request_failure token payload (bitrix oauth_temporary_error) =
        Traces-retry t env job settings _ _
    Traces-request_failure token payload (bitrix (temporary_error e)) = Traces-raise t _
    Traces-request_failure token payload (bitrix _) = Traces-conclude token payload _ _
    Traces-request_failure token payload _ = Traces-raise t _

    Traces-rest_request :
        (portal : Option BitrixPortal) → Traces t (process_rest_request env settings job portal)
    unfolding process_rest_request request_or_deliver
    Traces-rest_request portal =
        Meets-try (Traces-lift t _) (λ e. Traces-invalid t env settings job e)
          λ c.
            Meets-option (checkpoint job c.1)
              (Meets-try (Traces-request c.1) (λ e. Traces-request_failure c.0 c.1 e)
                λ values. Traces-deliver t env settings job c.0 values)
              λ values. Traces-deliver t env settings job c.0 values

    Traces-blank :
        (payload : Fields) (created now : ℕ) (checks : ℤ)
        → Traces t (on_blank env settings job payload created now checks)
    unfolding on_blank
    Traces-blank payload created now checks = Meets-bind (Traces-lift t _) λ raw.
        Meets-bind (Traces-lift t _) λ timeout. Meets-bind (Traces-lift t _) λ deadline.
          Meets-if _
            (Meets-bind (Traces-lift t _) λ raw_interval. Meets-bind (Traces-lift t _) λ interval.
              Meets-bind (Traces-lift t _)
                λ at. Meets-bind (Traces-poll t env job at payload) λ u. Traces-pure t put_back)
            (Meets-bind (Traces-notify t env settings job payload _) λ u. Traces-pure t _)

    Traces-check : (payload : Fields) → Traces t (check_field env settings job payload)
    unfolding check_field
    Traces-check payload = Meets-bind (Traces-lift t _) λ raw.
        Meets-bind (Traces-lift t _) λ created. Meets-bind (Traces-lift t _) λ counted.
          Meets-bind (Traces-lift t _) λ type_id. Meets-bind (Traces-lift t _) λ entity.
            Meets-bind
              (Traces-call t env settings job.portal_id "crm.item.get" (
                field "entityTypeId" type_id
                  (field "id" entity (field "useOriginalUfNames" (bool true) end))))
              λ answer. Meets-bind (Traces-lift t _) λ fields. Meets-bind (Traces-lift t _) λ name.
                Meets-bind (Traces-lift t _) λ value. Meets-bind (Traces-clock t env) λ now.
                  Meets-if (is_blank (normalized value))
                    (Traces-blank (put "checks_count" (int (next counted)) payload) created now
                      (next counted))
                    (Traces-pure t _)

    Traces-check_failure :
        (token : String) (payload : Fields) (e : Failure)
        → Traces t (on_check_failure env settings job token payload e)
    Traces-check_failure token payload job_data_error = Traces-failed t env job _
    Traces-check_failure token payload encryption_error = Traces-failed t env job _
    Traces-check_failure token payload key_error = Traces-failed t env job _
    Traces-check_failure token payload type_error = Traces-failed t env job _
    Traces-check_failure token payload value_error = Traces-failed t env job _
    Traces-check_failure token payload (bitrix (rate_limit_error e)) =
        Traces-retry t env job settings _ _
    Traces-check_failure token payload (bitrix (temporary_error e)) =
        Traces-retry t env job settings _ _
    Traces-check_failure token payload (bitrix oauth_temporary_error) =
        Traces-retry t env job settings _ _
    Traces-check_failure token payload (bitrix _) =
        Meets-bind (Traces-notify t env settings job payload _)
          λ u. Traces-deliver t env settings job token _
    Traces-check_failure token payload _ = Traces-raise t _

    Traces-concluded :
        (token : String) (c : Check) → Traces t (conclude_check env settings job token c)
    Traces-concluded token put_back = Traces-pure t tt
    Traces-concluded token (deliver values) = Traces-deliver t env settings job token values

    Traces-wait_field :
        (portal : Option BitrixPortal) → Traces t (process_wait_field env settings job portal)
    unfolding process_wait_field check_and_deliver
    Traces-wait_field portal =
        Meets-try (Traces-lift t _) (λ e. Traces-failed t env job _)
          λ c.
            Meets-try (Traces-check c.1) (λ e. Traces-check_failure c.0 c.1 e)
              λ check. Traces-concluded c.0 check

    Traces-job : (portal : Option BitrixPortal) → Traces t (process_job env settings job portal)
    unfolding process_job
    Traces-job portal =
        Meets-if _ (Traces-rest_request portal)
          (Meets-if _ (Traces-wait_field portal) (Traces-short_pause portal))

  Traces-load : (id : ℕ) → Traces t (load id)
  unfolding load
  Traces-load id = record { run = λ w p. p }

  Traces-loaded :
      (c : Option (AutomationJob × Option BitrixPortal)) → Traces t (process_loaded env settings c)
  Traces-loaded none = Traces-pure t tt
  Traces-loaded (some (job, portal)) = Traces-job job portal

  pub Traces-process : (id : ℕ) → Traces t (process env settings id)
  unfolding process
  Traces-process id = Meets-bind (Traces-load id) λ c. Traces-loaded c

-- Whatever the servers answer, what the processing of a job does to the queue, whether it returns or
-- raises, is a sequence of queue operations.
pub process_refines :
    (env : Env) (settings : Settings) (id : ℕ) (w : World)
    → (os : List Operation) × (run os w.jobs ≡ (process env settings id w).1.jobs)
unfolding run
process_refines env settings id w =
    let trace = outcome-both (Traced w.jobs) (process env settings id w).0 _ (
      (Traces-process w.jobs env settings id).run w (record { operations = []; reached = refl })) in
    (trace.operations, trace.reached)
