-- ===== src/Jobs/Processor/Settled.antt =====
-- The steps of app/jobs/processor.py that end or put back a job, and the state that they leave it in.
use b24_sinedis.Jobs.Processor.ShortPause.{on_invalid}
use b24_sinedis.Prelude.{
  ℕ, String, ◌≡◌, refl, false, [], ◌∷◌, map, any, arith, if◌then◌else◌, comparable_ids,
}
use b24_sinedis.Value.{Fields}
use b24_sinedis.Settings.{Settings}
use b24_sinedis.Jobs.Model.{AutomationJob, Table, is_processing}
use b24_sinedis.Jobs.Repository.{
  is_held, transition, update_where, mark_completed, mark_failed, mark_expired, schedule_retry,
  schedule_poll,
}
use b24_sinedis.Runtime.{Env, World, Action, ◌>>=◌, pure, transact, raise}
use b24_sinedis.Runtime.Contracts.{
  Meets, Anywhere, Whatever, Meets-if, Meets-any, Meets-imp, Meets-bind, Meets-raise, Meets-try,
}
use b24_sinedis.Bitrix.Exceptions.{
  Failure, bitrix, transport_error, timeout_error, invalid_response, rate_limit_error,
  temporary_error, oauth_temporary_error, encryption_error, job_data_error,
}
use b24_sinedis.Jobs.Processor.Outcome.{
  done, failed, expired, complete, poll_again, retry_later, retry, deliver_subscription,
  on_delivery_failure,
}

-- No row with this identifier is being processed.
abbrev pub Idle : ℕ → Table → Type 0
Idle id t = any (is_held id) t ≡ false

-- An update of the held rows that moves them to another state leaves none.
released :
    (id : ℕ) (f : AutomationJob → AutomationJob) (t : Table)
    → ((j : AutomationJob) → is_processing (f j).status ≡ false)
    → Idle id (map (λ j. if is_held id j then f j else j) t)
released id f [] h = refl
released id f (j ∷ t) h = ground (arith, h j, released id f t h)

-- A run that returns leaves the job idle.
abbrev pub Settles : ℕ → Action (Unit {0}) → Type 0
Settles id m = Meets Anywhere (λ a w. Idle id w.jobs) Whatever m

pub weaken :
    (id : ℕ) {P : World → Type 0} {m : Action (Unit {0})}
    → Settles id m
    → Meets P (λ a w. Idle id w.jobs) Whatever m
weaken id c = Meets-imp c (λ w p. tt) (λ w a q. q) (λ w e q. q)

module _ (env : Env) where
  pub failed-Settles : (job : AutomationJob) (code : String) → Settles job.id (failed env job code)
  unfolding failed transact mark_failed transition update_where ◌>>=◌ pure
  failed-Settles job code = record { run = λ w p. released job.id _ w.jobs (λ j. refl) }

  pub expired-Settles :
      (job : AutomationJob) (code : String) → Settles job.id (expired env job code)
  unfolding expired transact mark_expired transition update_where ◌>>=◌ pure
  expired-Settles job code = record { run = λ w p. released job.id _ w.jobs (λ j. refl) }

  pub complete-Settles :
      (job : AutomationJob) (at : ℕ) (values : Fields) → Settles job.id (complete env job at values)
  unfolding complete transact mark_completed transition update_where ◌>>=◌ pure
  complete-Settles job at values = record { run = λ w p. released job.id _ w.jobs (λ j. refl) }

  pub poll_again-Settles :
      (job : AutomationJob) (at : ℕ) (payload : Fields)
      → Settles job.id (poll_again env job at payload)
  unfolding poll_again transact schedule_poll transition update_where ◌>>=◌ pure
  poll_again-Settles job at payload = record { run = λ w p. released job.id _ w.jobs (λ j. refl) }

  module _ (settings : Settings) where
    rescheduled :
        (job : AutomationJob) (at : ℕ) (code : String)
        → Settles job.id (done (transact env (λ stamp. schedule_retry stamp job.id at code)))
    unfolding transact schedule_retry transition update_where ◌>>=◌ pure
    rescheduled job at code = record { run = λ w p. released job.id _ w.jobs (λ j. refl) }

    retry_later-Settles :
        (job : AutomationJob) (code : String) (e : Failure)
        → Settles job.id (retry_later env settings job code e)
    unfolding retry_later
    retry_later-Settles job code e = Meets-bind (Meets-any _) λ reset.
        Meets-bind (Meets-any _) λ now.
          Meets-bind (Meets-any _)
            λ v. Meets-bind (Meets-any _) λ at. weaken job.id (rescheduled job at code)

    pub retry-Settles :
        (job : AutomationJob) (code : String) (e : Failure)
        → Settles job.id (retry env settings job code e)
    unfolding retry
    retry-Settles job code e = Meets-if _ (failed-Settles job _) (retry_later-Settles job code e)

module _ (env : Env) (settings : Settings) where
  pub raise-Settles : (id : ℕ) (e : Failure) → Settles id (raise e)
  raise-Settles id e = Meets-raise e (λ w p. tt)

  delivery_failure-Settles :
      (job : AutomationJob) (e : Failure) → Settles job.id (on_delivery_failure env settings job e)
  delivery_failure-Settles job (bitrix (rate_limit_error e)) = retry-Settles env settings job _ _
  delivery_failure-Settles job (bitrix (temporary_error e)) = retry-Settles env settings job _ _
  delivery_failure-Settles job (bitrix oauth_temporary_error) = retry-Settles env settings job _ _
  delivery_failure-Settles job (bitrix (invalid_response s)) = retry-Settles env settings job _ _
  delivery_failure-Settles job (bitrix transport_error) = retry-Settles env settings job _ _
  delivery_failure-Settles job (bitrix timeout_error) = retry-Settles env settings job _ _
  delivery_failure-Settles job _ = failed-Settles env job _

  pub delivery-Settles :
      (job : AutomationJob) (token : String) (values : Fields)
      → Settles job.id (deliver_subscription env settings job token values)
  unfolding deliver_subscription
  delivery-Settles job token values =
      Meets-try (Meets-any _) (λ e. weaken job.id (delivery_failure-Settles job e))
        λ r. Meets-bind (Meets-any _) λ now. weaken job.id (complete-Settles env job now values)

  pub invalid-Settles :
      (job : AutomationJob) (e : Failure) → Settles job.id (on_invalid env settings job e)
  invalid-Settles job job_data_error = failed-Settles env job _
  invalid-Settles job encryption_error = failed-Settles env job _
  invalid-Settles job _ = raise-Settles job.id _
