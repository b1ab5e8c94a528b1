-- ===== src/Jobs/Operations.antt =====
-- The transactions of app/jobs/repository.py as the callbacks, the workers and the recovery run them
-- on one table, in any order: a trace is a list of operations.
pub mod Rows
pub mod Lookup
pub mod Invariant
pub mod Lifecycle
pub mod Intake
pub mod Progress
pub mod Leases
use b24_sinedis.Prelude.{
  ℕ, String, Bool, List, [], ◌∷◌, ◌==◌, comparable_ids, if◌then◌else◌, ◌&&◌, ◌-◌, any, not,
}
use b24_sinedis.Value.{Value}
use b24_sinedis.Jobs.Model.{pending, AutomationJob, Table}
use b24_sinedis.Jobs.Repository.{
  NewJob, create_idempotent, claim_due_jobs, mark_completed, schedule_retry, schedule_poll,
  save_processing_result, mark_failed, mark_expired, recover_stale_jobs,
}

-- The values that both services of app/jobs/service.py hand to `create_idempotent`.
abbrev pub intake : ℕ → String → String → String → Value → Value → ℕ → NewJob
intake portal_id robot_code encrypted hash payload return_values run_at = record {
  portal_id = portal_id;
  robot_code = robot_code;
  event_token_encrypted = encrypted;
  event_token_hash = hash;
  payload = payload;
  return_values = return_values;
  run_at = run_at;
  status = pending;
  attempts = 0;
  max_attempts = 10;
}

pub data Operation : Type 0 where
  create :
      (id stamp portal_id : ℕ) (robot_code encrypted hash : String) (payload return_values : Value)
      (run_at : ℕ)
      → Operation
  claim_due : (locked : ℕ → Bool) (worker_id : String) (limit now stamp : ℕ) → Operation
  complete : (stamp job_id completed_at : ℕ) (return_values : Value) → Operation
  postpone : (stamp job_id run_at : ℕ) (error_code : String) → Operation
  poll : (stamp job_id run_at : ℕ) (payload : Value) → Operation
  save : (stamp job_id : ℕ) (payload return_values : Value) → Operation
  fail : (stamp job_id : ℕ) (error_code : String) → Operation
  expire : (stamp job_id : ℕ) (error_code : String) → Operation
  recover_stale : (stamp now lock_timeout : ℕ) → Operation

unfoldable pub apply : Operation → Table → Table
unfolding create_idempotent claim_due_jobs mark_completed schedule_retry schedule_poll
    save_processing_result mark_failed mark_expired recover_stale_jobs
apply (create id stamp portal_id code encrypted hash payload values run_at) t =
    (create_idempotent id stamp (intake portal_id code encrypted hash payload values run_at) t).1
apply (claim_due locked worker_id limit now stamp) t =
    (claim_due_jobs locked worker_id limit now stamp t).1
apply (complete stamp job_id completed_at values) t =
    (mark_completed stamp job_id completed_at values t).1
apply (postpone stamp job_id run_at code) t = (schedule_retry stamp job_id run_at code t).1
apply (poll stamp job_id run_at payload) t = (schedule_poll stamp job_id run_at payload t).1
apply (save stamp job_id payload values) t =
    (save_processing_result stamp job_id payload values t).1
apply (fail stamp job_id code) t = (mark_failed stamp job_id code t).1
apply (expire stamp job_id code) t = (mark_expired stamp job_id code t).1
apply (recover_stale stamp now lock_timeout) t = (recover_stale_jobs stamp now lock_timeout t).1

unfoldable pub run : List Operation → Table → Table
run [] t = t
run (o ∷ os) t = run os (apply o t)
