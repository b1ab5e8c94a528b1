-- ===== src/Jobs/Worker.antt =====
-- `worker_loop` of app/jobs/worker.py, with app/jobs/recovery.py. `shutdown` answers the tests of the
-- shutdown event in turn, `locked` tells the rows that other transactions hold, after so many tests. The
-- number of cycles is bounded by fuel, since the loop ends only at a shutdown; the sleep and the log
-- have no effect on the state.
pub mod Refinement
mod Scenarios
use b24_sinedis.Prelude.{
  ℕ, zero, suc, ◌+◌, String, Bool, true, false, not, ◌||◌, Option, none, some, List, [], ◌∷◌,
  if◌then◌else◌, leb,
}
use b24_sinedis.Settings.{Settings}
use b24_sinedis.Time.{add_delta}
use b24_sinedis.Jobs.Model.{AutomationJob, Table}
use b24_sinedis.Jobs.Repository.{claim_due_jobs, recover_stale_jobs}
use b24_sinedis.Jobs.Processor.Dispatch.{process}
use b24_sinedis.Runtime.{
  Result, ok, raised, Env, World, Action, ◌>>=◌, ◌>>◌, pure, lift, try_else, read_clock, transact,
}

-- The variables of the loop: the time of the next recovery, and the tests of the event so far.
pub record Loop : Type 0 where
  pub next_recovery : ℕ
  pub tests : ℕ

module _ (env : Env) (settings : Settings) (shutdown : ℕ → Bool) where
  -- JobRecoveryService.recover
  unfoldable pub recover_jobs : ℕ → Action ℕ
  unfolding transact recover_stale_jobs
  recover_jobs now =
      transact env (λ stamp. recover_stale_jobs stamp now settings.worker_lock_timeout)

  -- The recovery, when it is due.
  unfoldable pub recover_due : Loop → ℕ → Action Loop
  unfolding recover_jobs add_delta
  recover_due s now =
      if leb s.next_recovery now
      then (do
        recover_jobs now
        next ← lift (add_delta now settings.worker_recovery_interval)
        pure (record s { next_recovery = next }))
      else pure s

  abbrev asked : Loop → Loop
  asked s = record s { tests = suc s.tests }

  -- The jobs of a batch, one after the other, until the shutdown: every exception is passed over.
  unfoldable pub process_batch : List AutomationJob → Loop → Action Loop
  unfolding process
  process_batch [] s = pure s
  process_batch (job ∷ jobs) s =
      let rest = process_batch jobs (asked s) in
      if shutdown s.tests
      then pure (asked s)
      else try_else (process env settings job.id) (λ e. rest) (λ u. rest)

  -- The claim, and what is done with what it returns.
  unfoldable pub claim_and_process : String → (ℕ → ℕ → Bool) → Loop → Action Loop
  unfolding read_clock transact claim_due_jobs process_batch
  claim_and_process worker_id locked s = do
    now ← read_clock env
    jobs ←
        transact env
          (λ stamp. claim_due_jobs (locked s.tests) worker_id settings.worker_batch_size now stamp)
    process_batch jobs s

  -- One pass through the body of the loop, up to the sleep; `false` stands for its `break`.
  unfoldable pub cycle : String → (ℕ → ℕ → Bool) → Loop → Action (Bool × Loop)
  unfolding read_clock recover_due claim_and_process
  cycle worker_id locked s = do
    now ← read_clock env
    recovered ← recover_due s now
    if shutdown recovered.tests
        then pure (false, asked recovered)
        else (do after ← claim_and_process worker_id locked (asked recovered); pure (true, after))

  -- The loop; `once` ends it after one pass, and the event is tested before the sleep, too.
  unfoldable pub worker_loop : ℕ → Bool → String → (ℕ → ℕ → Bool) → Loop → Action Loop
  unfolding cycle
  worker_loop zero once worker_id locked s = pure s
  worker_loop (suc n) once worker_id locked s = if shutdown s.tests then pure (asked s) else do
    (goes_on, after) ← cycle worker_id locked (asked s)
    if once || not goes_on then pure after else worker_loop n once worker_id locked (asked after)
