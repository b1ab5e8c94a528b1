-- ===== src/Jobs/Processor/Finished.antt =====
-- What the branches of `AutomationJobProcessor.process` of app/jobs/processor.py leave in the queue.
use mathlib.Core.Path.{subst}
use b24_sinedis.Prelude.{
  ℕ, String, ◌≡◌, false, Option, none, some, [], ◌∷◌, any, find, arith, comparable_ids,
  Option-cases, inl, inr, ℤ,
}
use b24_sinedis.Value.{int, Fields, put}
use b24_sinedis.Settings.{Settings}
use b24_sinedis.Portals.{BitrixPortal}
use b24_sinedis.Jobs.Model.{AutomationJob, Table}
use b24_sinedis.Jobs.Repository.{is_held, get_processing_job}
use b24_sinedis.Jobs.Operations.Lookup.{any-find}
use b24_sinedis.Runtime.{ok, Env, World}
use b24_sinedis.Runtime.Contracts.{
  Outcome, Meets, Anywhere, Whatever, Meets-pure, Meets-if, Meets-option, Meets-any, Meets-imp,
  Meets-bind, Meets-try, outcome-of,
}
use b24_sinedis.Bitrix.Exceptions.{
  Failure, bitrix, configuration_error, authentication_error, permission_error, rate_limit_error,
  temporary_error, permanent_error, oauth_configuration_error, oauth_temporary_error,
  oauth_refresh_rejected, encryption_error, job_data_error, key_error, type_error, value_error,
}
use b24_sinedis.Jobs.Processor.Persisted.{load}
use b24_sinedis.Jobs.Processor.ShortPause.{on_pause_failure, resume_pause, process_short_pause}
use b24_sinedis.Jobs.Processor.RestRequest.{
  checkpoint, conclude, on_request_failure, request_or_deliver, process_rest_request,
}
use b24_sinedis.Jobs.Processor.WaitField.{
  Check, put_back, deliver, is_blank, normalized, next, on_blank, check_field, on_check_failure,
  conclude_check, check_and_deliver, process_wait_field,
}
use b24_sinedis.Jobs.Processor.Dispatch.{process_job, process_loaded, process}
use b24_sinedis.Jobs.Processor.Settled.{
  Idle, Settles, weaken, failed-Settles, expired-Settles, complete-Settles, poll_again-Settles,
  retry-Settles, raise-Settles, delivery-Settles, invalid-Settles,
}

module _ (env : Env) (settings : Settings) where
  -- The short pause.
  pause_failure-Settles :
      (job : AutomationJob) (e : Failure) → Settles job.id (on_pause_failure env settings job e)
  pause_failure-Settles job (bitrix (permission_error e)) =
      Meets-if _ (Meets-if _ (failed-Settles env job _) (expired-Settles env job _))
        (failed-Settles env job _)
  pause_failure-Settles job (bitrix (authentication_error e)) = failed-Settles env job _
  pause_failure-Settles job (bitrix configuration_error) = failed-Settles env job _
  pause_failure-Settles job (bitrix oauth_configuration_error) = failed-Settles env job _
  pause_failure-Settles job (bitrix oauth_refresh_rejected) = failed-Settles env job _
  pause_failure-Settles job (bitrix (permanent_error e)) = failed-Settles env job _
  pause_failure-Settles job (bitrix _) = retry-Settles env settings job _ _
  pause_failure-Settles job encryption_error = failed-Settles env job _
  pause_failure-Settles job job_data_error = failed-Settles env job _
  pause_failure-Settles job _ = raise-Settles env settings job.id _

  short_pause-Settles :
      (job : AutomationJob) (portal : Option BitrixPortal)
      → Settles job.id (process_short_pause env settings job portal)
  unfolding process_short_pause resume_pause
  short_pause-Settles job portal =
      Meets-try (Meets-any _) (λ e. weaken job.id (invalid-Settles env settings job e))
        λ c. Meets-bind (Meets-any _) λ now.
          Meets-try (Meets-any _) (λ e. weaken job.id (pause_failure-Settles job e))
            λ u. weaken job.id (complete-Settles env job now _)

  -- The request.
  conclude-Settles :
      (job : AutomationJob) (token : String) (payload : Fields) (code message : String)
      → Settles job.id (conclude env settings job token payload code message)
  unfolding conclude
  conclude-Settles job token payload code message =
      Meets-bind (Meets-any _) λ u. weaken job.id (delivery-Settles env settings job token _)

  request_failure-Settles :
      (job : AutomationJob) (token : String) (payload : Fields) (e : Failure)
      → Settles job.id (on_request_failure env settings job token payload e)
  request_failure-Settles job token payload (bitrix (rate_limit_error e)) =
      retry-Settles env settings job _ _
  request_failure-Settles job token payload (bitrix oauth_temporary_error) =
      retry-Settles env settings job _ _
  request_failure-Settles job token payload (bitrix (temporary_error e)) =
      raise-Settles env settings job.id _
  request_failure-Settles job token payload (bitrix _) = conclude-Settles job token payload _ _
  request_failure-Settles job token payload _ = raise-Settles env settings job.id _

  rest_request-Settles :
      (job : AutomationJob) (portal : Option BitrixPortal)
      → Settles job.id (process_rest_request env settings job portal)
  unfolding process_rest_request request_or_deliver
  rest_request-Settles job portal =
      Meets-try (Meets-any _) (λ e. weaken job.id (invalid-Settles env settings job e))
        λ c.
          Meets-option (checkpoint job c.1)
            (Meets-try (Meets-any _) (λ e. weaken job.id (request_failure-Settles job c.0 c.1 e))
              λ values. weaken job.id (delivery-Settles env settings job c.0 values))
            λ values. weaken job.id (delivery-Settles env settings job c.0 values)

  -- The wait for a field: a check either puts the job back, or has values to deliver.
  Checked : ℕ → Check → World → Type 0
  Checked id put_back w = Idle id w.jobs
  Checked id (deliver values) w = Unit

  blank-Checked :
      (job : AutomationJob) (payload : Fields) (created now : ℕ) (checks : ℤ)
      → Meets Anywhere
          (Checked job.id)
          Whatever
          (on_blank env settings job payload created now checks)
  unfolding on_blank Checked
  blank-Checked job payload created now checks = Meets-bind (Meets-any _) λ raw.
      Meets-bind (Meets-any _) λ timeout. Meets-bind (Meets-any _) λ deadline.
        Meets-if _
          (Meets-bind (Meets-any _) λ raw_interval. Meets-bind (Meets-any _) λ interval.
            Meets-bind (Meets-any _) λ at.
              Meets-bind (weaken job.id (poll_again-Settles env job at payload))
                λ u. Meets-pure put_back (λ w p. p))
          (Meets-bind (Meets-any _) λ u. Meets-pure _ (λ w p. tt))

  check-Checked :
      (job : AutomationJob) (payload : Fields)
      → Meets Anywhere (Checked job.id) Whatever (check_field env settings job payload)
  unfolding check_field Checked
  check-Checked job payload = Meets-bind (Meets-any _) λ raw. Meets-bind (Meets-any _) λ created.
      Meets-bind (Meets-any _) λ counted. Meets-bind (Meets-any _) λ type_id.
        Meets-bind (Meets-any _) λ entity. Meets-bind (Meets-any _) λ answer.
          Meets-bind (Meets-any _) λ fields. Meets-bind (Meets-any _) λ name.
            Meets-bind (Meets-any _) λ value. Meets-bind (Meets-any _) λ now.
              Meets-if (is_blank (normalized value))
                (Meets-imp
                  (blank-Checked job (put "checks_count" (int (next counted)) payload) created now
                    (next counted))
                  (λ w p. tt) (λ w c q. q) (λ w e q. q))
                (Meets-pure _ (λ w p. tt))

  check_failure-Settles :
      (job : AutomationJob) (token : String) (payload : Fields) (e : Failure)
      → Settles job.id (on_check_failure env settings job token payload e)
  check_failure-Settles job token payload job_data_error = failed-Settles env job _
  check_failure-Settles job token payload encryption_error = failed-Settles env job _
  check_failure-Settles job token payload key_error = failed-Settles env job _
  check_failure-Settles job token payload type_error = failed-Settles env job _
  check_failure-Settles job token payload value_error = failed-Settles env job _
  check_failure-Settles job token payload (bitrix (rate_limit_error e)) =
      retry-Settles env settings job _ _
  check_failure-Settles job token payload (bitrix (temporary_error e)) =
      retry-Settles env settings job _ _
  check_failure-Settles job token payload (bitrix oauth_temporary_error) =
      retry-Settles env settings job _ _
  check_failure-Settles job token payload (bitrix _) =
      Meets-bind (Meets-any _) λ u. weaken job.id (delivery-Settles env settings job token _)
  check_failure-Settles job token payload _ = raise-Settles env settings job.id _

  concluded-Settles :
      (job : AutomationJob) (token : String) (c : Check)
      → Meets
          (Checked job.id c)
          (λ a w. Idle job.id w.jobs)
          Whatever
          (conclude_check env settings job token c)
  unfolding Checked
  concluded-Settles job token put_back = Meets-pure tt (λ w p. p)
  concluded-Settles job token (deliver values) =
      weaken job.id (delivery-Settles env settings job token values)

  wait_field-Settles :
      (job : AutomationJob) (portal : Option BitrixPortal)
      → Settles job.id (process_wait_field env settings job portal)
  unfolding process_wait_field check_and_deliver
  wait_field-Settles job portal =
      Meets-try (Meets-any _) (λ e. weaken job.id (failed-Settles env job _))
        λ c.
          Meets-try (Meets-imp (check-Checked job c.1) (λ w p. tt) (λ w c q. q) (λ w e q. q))
            (λ e. weaken job.id (check_failure-Settles job c.0 c.1 e))
            λ check. concluded-Settles job c.0 check

  job-Settles :
      (job : AutomationJob) (portal : Option BitrixPortal)
      → Settles job.id (process_job env settings job portal)
  unfolding process_job
  job-Settles job portal =
      Meets-if _ (rest_request-Settles job portal)
        (Meets-if _ (wait_field-Settles job portal) (short_pause-Settles job portal))

  -- What is loaded is the job asked for; where nothing is, no such row is being processed.
  Loaded : ℕ → Option (AutomationJob × Option BitrixPortal) → World → Type 0
  Loaded id none w = Idle id w.jobs
  Loaded id (some (job, portal)) w = job.id ≡ id

  held-id : (id : ℕ) (t : Table) {j : AutomationJob} → find (is_held id) t ≡ some j → j.id ≡ id
  held-id id [] h = cc
  held-id id (k ∷ t) {j} h = ground (arith, held-id id t {j = j})

  load-Loaded : (id : ℕ) → Meets Anywhere (Loaded id) Whatever (load id)
  unfolding load Loaded get_processing_job
  load-Loaded id = record {
    run = λ w p. elim (Option-cases (find (is_held id) w.jobs)) [
      | inl e ↦ rw (e) (any-find (is_held id) w.jobs e)
      | inr (j, e) ↦ rw (e) (held-id id w.jobs e)
    ];
  }

  Loaded-Settles :
      (id : ℕ) (c : Option (AutomationJob × Option BitrixPortal))
      → Meets (Loaded id c) (λ a w. Idle id w.jobs) Whatever (process_loaded env settings c)
  unfolding Loaded
  Loaded-Settles id none = Meets-pure tt (λ w p. p)
  Loaded-Settles id (some (job, portal)) = record {
    run = λ w p.
        subst
          (λ i.
            Outcome (λ a w'. Idle i w'.jobs) Whatever (process_job env settings job portal w).0
              (process_job env settings job portal w).1)
          p ((job-Settles job portal).run w tt);
  }

  process-Settles : (id : ℕ) → Settles id (process env settings id)
  unfolding process
  process-Settles id = Meets-bind (load-Loaded id) λ c. Loaded-Settles id c

-- When the processing of a job returns, no row with its identifier is in the state `processing`.
pub process_settles :
    (env : Env) (settings : Settings) (id : ℕ) (w : World)
    → (process env settings id w).0 ≡ ok tt
    → any (is_held id) (process env settings id w).1.jobs ≡ false
process_settles env settings id w h =
    outcome-of (λ a w'. Idle id w'.jobs) Whatever (process env settings id w).1 h
      ((process-Settles env settings id).run w tt)
