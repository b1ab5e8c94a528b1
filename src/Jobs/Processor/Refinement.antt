-- ===== src/Jobs/Processor/Refinement.antt =====
-- Steps of app/jobs/processor.py that continue a sequence of the operations of app/jobs/repository.py.
use b24_sinedis.Jobs.Processor.ShortPause.{on_invalid}
use b24_sinedis.Prelude.{ℕ, String, ◌≡◌, refl, sym, ◌∙◌, ap, List, [], ◌∷◌, ◌++◌}
use b24_sinedis.Value.{obj, Fields, Value}
use b24_sinedis.Settings.{Settings}
use b24_sinedis.Jobs.Model.{AutomationJob, Table}
use b24_sinedis.Jobs.Operations.{
  Operation, complete, postpone, poll, save, fail, expire, apply, run,
}
use b24_sinedis.Jobs.Repository.{
  mark_completed, mark_failed, mark_expired, schedule_retry, schedule_poll, save_processing_result,
}
use b24_sinedis.Runtime.{
  Result, ok, raised, Env, World, Action, pure, raise, lift, read_clock, draw, transact,
}
use b24_sinedis.Runtime.Contracts.{
  Outcome, Meets, Meets-pure, Meets-raise, Meets-lift, Meets-if, Meets-bind, Meets-try,
}
use b24_sinedis.Bitrix.Exceptions.{
  Failure, bitrix, transport_error, timeout_error, invalid_response, rate_limit_error,
  temporary_error, oauth_temporary_error, encryption_error, job_data_error,
}
use b24_sinedis.Bitrix.OAuth.Portal.{call_portal}
use b24_sinedis.Bitrix.OAuth.Traffic.{call_portal-bounds}
use b24_sinedis.Jobs.Processor.Outcome as Outcomes

-- The jobs are those of `t` after some sequence of operations.
pub record Traced (t : Table) (w : World) : Type 0 where
  pub operations : List Operation
  pub reached : run operations t ≡ w.jobs

run-append :
    (os : List Operation) (o : Operation) (t : Table) → run (os ++ o ∷ []) t ≡ apply o (run os t)
unfolding run
run-append [] o t = refl
run-append (p ∷ os) o t = run-append os o (apply p t)

-- One more operation.
pub extended :
    (t : Table) (u w : World) (o : Operation) → Traced t u → apply o u.jobs ≡ w.jobs → Traced t w
extended t u w o c h = record {
  operations = c.operations ++ o ∷ [];
  reached = run-append c.operations o t ∙ ap (apply o) c.reached ∙ h;
}

pub same_jobs : (t : Table) (u w : World) → Traced t u → w.jobs ≡ u.jobs → Traced t w
same_jobs t u w c h = record { operations = c.operations; reached = c.reached ∙ sym h }

module _ (t : Table) where
  -- A run that continues such a sequence, whether it returns or raises.
  abbrev pub Traces : {A : Type 0} → Action A → Type 0
  Traces m = Meets (Traced t) (λ a. Traced t) (λ e. Traced t) m

  module _ {A : Type 0} where
    outcome-Traced :
        (r : Result A) (w : World) → Traced t w → Outcome (λ a. Traced t) (λ e. Traced t) r w
    outcome-Traced (ok a) w h = h
    outcome-Traced (raised e) w h = h

    pub Traces-lift : (r : Result A) → Traces (lift r)
    Traces-lift r = Meets-lift r (λ a e w p. p) (λ x e w p. p)

    pub Traces-pure : (a : A) → Traces (pure a)
    Traces-pure a = Meets-pure a (λ w p. p)

    pub Traces-raise : (e : Failure) → Traces (raise {A = A} e)
    Traces-raise e = Meets-raise e (λ w p. p)

    pub Traces-transact :
        (env : Env) (f : ℕ → Table → A × Table) (o : ℕ → Operation)
        → ((stamp : ℕ) (u : Table) → apply (o stamp) u ≡ (f stamp u).1)
        → Traces (transact env f)
    unfolding transact
    Traces-transact env f o h = record {
      run = λ w p.
          extended t w _ (o (env.database_clock w.transactions)) p
            (h (env.database_clock w.transactions) w.jobs);
    }

  pub Traces-clock : (env : Env) → Traces (read_clock env)
  unfolding read_clock
  Traces-clock env = record { run = λ w p. same_jobs t w _ p refl }

  pub Traces-draw : (env : Env) → Traces (draw env)
  unfolding draw
  Traces-draw env = record { run = λ w p. same_jobs t w _ p refl }

  pub Traces-call :
      (env : Env) (settings : Settings) (id : ℕ) (method : String) (params : Fields)
      → Traces (call_portal env settings id method params)
  Traces-call env settings id method params = record {
    run = λ w p.
        outcome-Traced (call_portal env settings id method params w).0 _
          (same_jobs t w _ p (call_portal-bounds env settings id method params w).1);
  }

  module _ (env : Env) (job : AutomationJob) where
    pub Traces-failed : (code : String) → Traces (Outcomes.failed env job code)
    unfolding Outcomes.failed apply
    Traces-failed code =
        Meets-bind
          (Traces-transact env (λ stamp. mark_failed stamp job.id code)
            (λ stamp. fail stamp job.id code) (λ stamp u. refl))
          λ b. Traces-pure tt

    pub Traces-expired : (code : String) → Traces (Outcomes.expired env job code)
    unfolding Outcomes.expired apply
    Traces-expired code =
        Meets-bind
          (Traces-transact env (λ stamp. mark_expired stamp job.id code)
            (λ stamp. expire stamp job.id code) (λ stamp u. refl))
          λ b. Traces-pure tt

    pub Traces-complete : (at : ℕ) (values : Fields) → Traces (Outcomes.complete env job at values)
    unfolding Outcomes.complete apply
    Traces-complete at values =
        Meets-bind
          (Traces-transact env (λ stamp. mark_completed stamp job.id at (obj values))
            (λ stamp. complete stamp job.id at (obj values)) (λ stamp u. refl))
          λ b. Traces-pure tt

    pub Traces-save :
        (payload values : Fields) → Traces (Outcomes.save_result env job payload values)
    unfolding Outcomes.save_result apply
    Traces-save payload values =
        Meets-bind
          (Traces-transact env
            (λ stamp. save_processing_result stamp job.id (obj payload) (obj values))
            (λ stamp. save stamp job.id (obj payload) (obj values)) (λ stamp u. refl))
          λ b. Traces-pure tt

    pub Traces-poll : (at : ℕ) (payload : Fields) → Traces (Outcomes.poll_again env job at payload)
    unfolding Outcomes.poll_again apply
    Traces-poll at payload =
        Meets-bind
          (Traces-transact env (λ stamp. schedule_poll stamp job.id at (obj payload))
            (λ stamp. poll stamp job.id at (obj payload)) (λ stamp u. refl))
          λ b. Traces-pure tt

    module _ (settings : Settings) where
      pub Traces-retry :
          (code : String) (e : Failure) → Traces (Outcomes.retry env settings job code e)
      unfolding Outcomes.retry Outcomes.retry_later apply
      Traces-retry code e = Meets-if _ (Traces-failed _) (
          Meets-bind (Traces-lift _) λ reset. Meets-bind (Traces-clock env) λ now.
            Meets-bind (Traces-draw env) λ v. Meets-bind (Traces-lift _) λ at.
              Meets-bind
                (Traces-transact env (λ stamp. schedule_retry stamp job.id at code)
                  (λ stamp. postpone stamp job.id at code) (λ stamp u. refl))
                λ b. Traces-pure tt)

module _ (t : Table) (env : Env) (settings : Settings) where
  Traces-notify_each :
      (id : ℕ) (users : List Value) (message : String)
      → Traces t (Outcomes.notify_each env settings id users message)
  unfolding Outcomes.notify_each
  Traces-notify_each id [] message = Traces-pure t tt
  Traces-notify_each id (user ∷ users) message =
      let rest = Traces-notify_each id users message in
      Meets-try
        (Traces-call t env settings id "im.notify.system.add"
          (Outcomes.notice env settings user message))
        (λ e. rest) (λ r. rest)

  module _ (job : AutomationJob) where
    pub Traces-notify :
        (payload : Fields) (message : String)
        → Traces t (Outcomes.notify env settings job payload message)
    unfolding Outcomes.notify
    Traces-notify payload message =
        Meets-bind (Traces-lift t _) λ users. Traces-notify_each job.portal_id users message

    pub Traces-send :
        (token : String) (values : Fields) (message : String)
        → Traces t (Outcomes.send_event env settings job token values message)
    unfolding Outcomes.send_event
    Traces-send token values message =
        Meets-bind
          (Traces-call t env settings job.portal_id "bizproc.event.send"
            (Outcomes.event_params token values message))
          λ answer. Traces-lift t _

    Traces-delivery_failure :
        (e : Failure) → Traces t (Outcomes.on_delivery_failure env settings job e)
    Traces-delivery_failure (bitrix (rate_limit_error e)) = Traces-retry t env job settings _ _
    Traces-delivery_failure (bitrix (temporary_error e)) = Traces-retry t env job settings _ _
    Traces-delivery_failure (bitrix oauth_temporary_error) = Traces-retry t env job settings _ _
    Traces-delivery_failure (bitrix (invalid_response s)) = Traces-retry t env job settings _ _
    Traces-delivery_failure (bitrix transport_error) = Traces-retry t env job settings _ _
    Traces-delivery_failure (bitrix timeout_error) = Traces-retry t env job settings _ _
    Traces-delivery_failure _ = Traces-failed t env job _

    pub Traces-deliver :
        (token : String) (values : Fields)
        → Traces t (Outcomes.deliver_subscription env settings job token values)
    unfolding Outcomes.deliver_subscription
    Traces-deliver token values =
        Meets-try (Traces-send token values (Outcomes.completion_message job))
          (λ e. Traces-delivery_failure e)
          λ u. Meets-bind (Traces-clock t env) λ now. Traces-complete t env job now values

    pub Traces-invalid : (e : Failure) → Traces t (on_invalid env settings job e)
    Traces-invalid job_data_error = Traces-failed t env job _
    Traces-invalid encryption_error = Traces-failed t env job _
    Traces-invalid _ = Traces-raise t _
