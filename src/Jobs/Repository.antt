-- ===== src/Jobs/Repository.antt =====
-- app/jobs/repository.py. Each method is one transaction on the table; `stamp` is the time of the
-- database, which every update writes to `updated_at`.
pub mod Order
pub mod Claim
use b24_sinedis.Prelude.{
  ℕ, zero, suc, ◌+◌, ◌-◌, String, Bool, true, false, not, ◌&&◌, ◌||◌, Option, none, some, List, [],
  ◌∷◌, ◌++◌, map, ltb, leb, ◌==◌, comparable_ids, comparable_texts, if◌then◌else◌, or_else, length,
  take, any, select, find,
}
use b24_sinedis.Value.{Value}
use b24_sinedis.Jobs.Model.{
  JobStatus, pending, processing, retry, completed, failed, expired, AutomationJob, Table,
  is_processing, is_waiting,
}

-- The columns that a caller of `create_idempotent` gives.
pub record NewJob : Type 0 where
  pub portal_id : ℕ
  pub robot_code : String
  pub event_token_encrypted : String
  pub event_token_hash : String
  pub payload : Value
  pub return_values : Value
  pub run_at : ℕ
  pub status : JobStatus
  pub attempts : ℕ
  pub max_attempts : ℕ

pub record JobCreationResult : Type 0 where
  pub job : AutomationJob
  pub existing : Bool

pub data StorageError : Type 0 where
  -- a violated primary key or check constraint
  integrity_error : StorageError
  -- "Automation job persistence failed"
  runtime_error : StorageError

pub data Stored : Type 0 where
  stored : JobCreationResult → Stored
  refused : StorageError → Stored

abbrev pub row : ℕ → ℕ → NewJob → AutomationJob
row id stamp v = record {
  id = id;
  portal_id = v.portal_id;
  robot_code = v.robot_code;
  event_token_encrypted = v.event_token_encrypted;
  event_token_hash = v.event_token_hash;
  payload = v.payload;
  return_values = v.return_values;
  run_at = v.run_at;
  status = v.status;
  attempts = v.attempts;
  max_attempts = v.max_attempts;
  locked_at = none;
  locked_by = none;
  last_error = none;
  started_at = none;
  completed_at = none;
  created_at = stamp;
  updated_at = stamp;
}

abbrev pub has_id : ℕ → AutomationJob → Bool
has_id id j = j.id == id

-- the columns of the unique constraint
abbrev pub has_key : ℕ → String → AutomationJob → Bool
has_key portal_id hash j = j.portal_id == portal_id && j.event_token_hash == hash

-- SELECT … WHERE id = …
unfoldable pub find_job : ℕ → Table → Option AutomationJob
find_job id t = find (has_id id) t

-- SELECT … WHERE portal_id = … AND event_token_hash = …
unfoldable pub find_key : ℕ → String → Table → Option AutomationJob
find_key portal_id hash t = find (has_key portal_id hash) t

abbrev pub checks : NewJob → Bool
checks v = leb 1 v.max_attempts && leb v.attempts v.max_attempts

abbrev pub found : Bool → Option AutomationJob → Stored
found existing none = refused runtime_error
found existing (some j) = stored (record { job = j; existing = existing })

-- `id` is the value of `uuid4` for the new row.
unfoldable pub create_idempotent : ℕ → ℕ → NewJob → Table → Stored × Table
unfolding find_job find_key
create_idempotent id stamp v t =
    if not (checks v) || any (has_id id) t
    then (refused integrity_error, t)
    else if any (has_key v.portal_id v.event_token_hash) t
    then (found true (find_key v.portal_id v.event_token_hash t), t)
    else let t' = t ++ row id stamp v ∷ [] in (found false (find_job id t'), t')

-- status IN ('pending', 'retry') AND run_at <= now AND attempts < max_attempts
abbrev pub is_due : ℕ → AutomationJob → Bool
is_due now j = is_waiting j.status && leb j.run_at now && ltb j.attempts j.max_attempts

-- ORDER BY run_at, created_at
abbrev pub earlier : AutomationJob → AutomationJob → Bool
earlier a b = ltb a.run_at b.run_at || a.run_at == b.run_at && ltb a.created_at b.created_at

unfoldable pub insert : AutomationJob → Table → Table
insert j [] = j ∷ []
insert j (k ∷ ks) = let rest = insert j ks in if earlier k j then k ∷ rest else j ∷ k ∷ ks

unfoldable pub order_by : Table → Table
unfolding insert
order_by [] = []
order_by (j ∷ js) = insert j (order_by js)

abbrev pub claim : String → ℕ → ℕ → AutomationJob → AutomationJob
claim worker_id now stamp j = record j {
  status = processing;
  locked_at = some now;
  locked_by = some worker_id;
  started_at = some (or_else j.started_at now);
  attempts = j.attempts + 1;
  updated_at = stamp;
}

-- `locked` tells the rows that other transactions hold: SKIP LOCKED passes over them.
unfoldable pub pick_due : (ℕ → Bool) → ℕ → ℕ → Table → Table
pick_due locked limit now t =
    take limit (order_by (select (λ j. is_due now j && not (locked j.id)) t))

unfoldable pub claim_due_jobs : (ℕ → Bool) → String → ℕ → ℕ → ℕ → Table → Table × Table
unfolding pick_due order_by
claim_due_jobs locked worker_id limit now stamp t =
    let jobs = pick_due locked limit now t in
    (
      map (claim worker_id now stamp) jobs,
      map (λ j. if any (has_id j.id) jobs then claim worker_id now stamp j else j) t,
    )

-- UPDATE … WHERE p: the number of rows, and the table
unfoldable pub update_where :
    (AutomationJob → Bool) → (AutomationJob → AutomationJob) → Table → ℕ × Table
update_where p f t = (length (select p t), map (λ j. if p j then f j else j) t)

-- id = job_id AND status = 'processing'
abbrev pub is_held : ℕ → AutomationJob → Bool
is_held job_id j = j.id == job_id && is_processing j.status

unfoldable pub get_processing_job : ℕ → Table → Option AutomationJob
get_processing_job job_id t = find (is_held job_id) t

unfoldable pub transition : ℕ → ℕ → (AutomationJob → AutomationJob) → Table → Bool × Table
unfolding update_where
transition stamp job_id values t =
    let (rowcount, t') =
      update_where (is_held job_id) (λ j. record (values j) { updated_at = stamp }) t in
    (ltb 0 rowcount, t')

unfoldable pub mark_completed : ℕ → ℕ → ℕ → Value → Table → Bool × Table
unfolding transition
mark_completed stamp job_id completed_at return_values = transition stamp job_id λ j. record j {
  status = completed;
  completed_at = some completed_at;
  return_values = return_values;
  last_error = none;
  locked_at = none;
  locked_by = none;
}

unfoldable pub schedule_retry : ℕ → ℕ → ℕ → String → Table → Bool × Table
unfolding transition
schedule_retry stamp job_id run_at error_code = transition stamp job_id λ j. record j {
  status = retry;
  run_at = run_at;
  last_error = some error_code;
  locked_at = none;
  locked_by = none;
}

-- GREATEST(attempts - 1, 0) is the subtraction of the natural numbers.
unfoldable pub schedule_poll : ℕ → ℕ → ℕ → Value → Table → Bool × Table
unfolding transition
schedule_poll stamp job_id run_at payload = transition stamp job_id λ j. record j {
  status = retry;
  run_at = run_at;
  payload = payload;
  last_error = none;
  attempts = j.attempts - 1;
  locked_at = none;
  locked_by = none;
}

unfoldable pub save_processing_result : ℕ → ℕ → Value → Value → Table → Bool × Table
unfolding transition
save_processing_result stamp job_id payload return_values =
    transition stamp job_id (λ j. record j { payload = payload; return_values = return_values })

unfoldable pub mark_failed : ℕ → ℕ → String → Table → Bool × Table
unfolding transition
mark_failed stamp job_id error_code = transition stamp job_id λ j. record j {
  status = failed;
  last_error = some error_code;
  locked_at = none;
  locked_by = none;
}

unfoldable pub mark_expired : ℕ → ℕ → String → Table → Bool × Table
unfolding transition
mark_expired stamp job_id error_code = transition stamp job_id λ j. record j {
  status = expired;
  last_error = some error_code;
  locked_at = none;
  locked_by = none;
}

-- `locked_at < now - lock_timeout`, which a null lease does not satisfy
abbrev pub lease_before : ℕ → Option ℕ → Bool
lease_before cutoff none = false
lease_before cutoff (some locked_at) = ltb locked_at cutoff

abbrev pub is_stale : ℕ → AutomationJob → Bool
is_stale cutoff j = is_processing j.status && lease_before cutoff j.locked_at

abbrev pub recover : ℕ → ℕ → AutomationJob → AutomationJob
recover now stamp j =
    let exhausted = leb j.max_attempts j.attempts in
    record j {
      status = if exhausted then failed else retry;
      run_at = if exhausted then j.run_at else now;
      last_error = some (
          if exhausted
          then "stale_processing_attempts_exhausted"
          else "stale_processing_recovered");
      locked_at = none;
      locked_by = none;
      updated_at = stamp;
    }

unfoldable pub recover_stale_jobs : ℕ → ℕ → ℕ → Table → ℕ × Table
unfolding update_where
recover_stale_jobs stamp now lock_timeout =
    update_where (is_stale (now - lock_timeout)) (recover now stamp)
