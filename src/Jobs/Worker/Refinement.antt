-- ===== src/Jobs/Worker/Refinement.antt =====
-- The worker of app/jobs/worker.py as a sequence of queue operations, and what it inherits from them.
use mathlib.Core.Path.{subst}
use b24_sinedis.Prelude.{ℕ, zero, suc, String, ◌≡◌, refl, Bool, true, some, List, [], ◌∷◌}
use b24_sinedis.Settings.{Settings}
use b24_sinedis.Jobs.Model.{AutomationJob, Table, is_final}
use b24_sinedis.Jobs.Repository.{claim_due_jobs, recover_stale_jobs, find_job}
use b24_sinedis.Jobs.Operations.{Operation, claim_due, recover_stale, apply, run}
use b24_sinedis.Jobs.Operations.Invariant.{IsSound, run-IsSound}
use b24_sinedis.Jobs.Operations.Lifecycle.{final_absorbs}
use b24_sinedis.Runtime.{Env, World}
use b24_sinedis.Runtime.Contracts.{Meets-if, Meets-bind, Meets-try, outcome-both}
use b24_sinedis.Jobs.Processor.Refinement.{
  Traced, Traces, Traces-lift, Traces-pure, Traces-clock, Traces-transact,
}
use b24_sinedis.Jobs.Processor.Robots.{Traces-process}
use b24_sinedis.Jobs.Worker.{
  Loop, recover_jobs, recover_due, process_batch, claim_and_process, cycle, worker_loop,
}

module _ (t : Table) (env : Env) (settings : Settings) (shutdown : ℕ → Bool) where
  Traces-recover : (s : Loop) (now : ℕ) → Traces t (recover_due env settings shutdown s now)
  unfolding recover_due recover_jobs apply
  Traces-recover s now =
      Meets-if _
        (Meets-bind
          (Traces-transact t env
            (λ stamp. recover_stale_jobs stamp now settings.worker_lock_timeout)
            (λ stamp. recover_stale stamp now settings.worker_lock_timeout) (λ stamp u. refl))
          λ n. Meets-bind (Traces-lift t _) λ next. Traces-pure t _)
        (Traces-pure t s)

  Traces-batch :
      (jobs : List AutomationJob) (s : Loop) → Traces t (process_batch env settings shutdown jobs s)
  unfolding process_batch
  Traces-batch [] s = Traces-pure t s
  Traces-batch (job ∷ jobs) s =
      let rest = Traces-batch jobs (record s { tests = suc s.tests }) in
      Meets-if _ (Traces-pure t _)
        (Meets-try (Traces-process t env settings job.id) (λ e. rest) (λ u. rest))

  module _ (worker_id : String) (locked : ℕ → ℕ → Bool) where
    Traces-claim :
        (s : Loop) → Traces t (claim_and_process env settings shutdown worker_id locked s)
    unfolding claim_and_process apply
    Traces-claim s = Meets-bind (Traces-clock t env) λ now.
        Meets-bind
          (Traces-transact t env
            (λ stamp.
              claim_due_jobs (locked s.tests) worker_id settings.worker_batch_size now stamp)
            (λ stamp. claim_due (locked s.tests) worker_id settings.worker_batch_size now stamp)
            (λ stamp u. refl))
          λ jobs. Traces-batch jobs s

    Traces-cycle : (s : Loop) → Traces t (cycle env settings shutdown worker_id locked s)
    unfolding cycle
    Traces-cycle s = Meets-bind (Traces-clock t env) λ now.
        Meets-bind (Traces-recover s now) λ recovered.
          Meets-if _ (Traces-pure t _) (Meets-bind (Traces-claim _) λ after. Traces-pure t _)

    Traces-loop :
        (n : ℕ) (once : Bool) (s : Loop)
        → Traces t (worker_loop env settings shutdown n once worker_id locked s)
    unfolding worker_loop
    Traces-loop zero once s = Traces-pure t s
    Traces-loop (suc n) once s =
        Meets-if _ (Traces-pure t _)
          (Meets-bind (Traces-cycle _) λ c. Meets-if _ (Traces-pure t _) (Traces-loop n once _))

module _ (env : Env) (settings : Settings) (shutdown : ℕ → Bool) (n : ℕ) (once : Bool)
    (worker_id : String) (locked : ℕ → ℕ → Bool) (s : Loop) (w : World) where
  -- What any number of cycles of the worker does to the queue is a sequence of queue operations.
  pub worker_loop_refines :
      (os : List Operation) × (run os w.jobs
        ≡ (worker_loop env settings shutdown n once worker_id locked s w).1.jobs)
  unfolding run
  worker_loop_refines =
      let trace = outcome-both (Traced w.jobs) _ _ (
        (Traces-loop w.jobs env settings shutdown worker_id locked n once s).run w
          (record { operations = []; reached = refl })) in
      (trace.operations, trace.reached)

  -- Any number of cycles of the worker keeps a sound table sound, and the finished jobs in it as
  -- they are.
  pub worker_loop_keeps :
      (id : ℕ) {j : AutomationJob}
      → IsSound w.jobs
      → find_job id w.jobs ≡ some j
      → is_final j.status ≡ true
      → let w' = (worker_loop env settings shutdown n once worker_id locked s w).1 in
        IsSound w'.jobs × (find_job id w'.jobs ≡ some j)
  worker_loop_keeps id {j} sound found done =
      let (os, reached) = worker_loop_refines in
      subst (λ u. IsSound u × (find_job id u ≡ some j)) reached
        (run-IsSound os w.jobs sound, final_absorbs os w.jobs id sound found done)
