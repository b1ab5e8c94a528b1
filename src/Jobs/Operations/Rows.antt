-- ===== src/Jobs/Operations/Rows.antt =====
-- What one operation of app/jobs/repository.py does to one row: all but the insertion update rows in
-- place and leave their identifiers and their unique keys alone.
use mathlib.Core.List.{append-nil}
use b24_sinedis.Prelude.{
  ◌≡◌, refl, ◌||◌, ◌-◌, none, some, List, [], ◌∷◌, ◌++◌, map, arith, if◌then◌else◌, any,
}
use b24_sinedis.Jobs.Model.{AutomationJob, Table, completed, retry, failed, expired}
use b24_sinedis.Jobs.Repository.{row, has_id, has_key, is_held, is_stale, claim, recover, pick_due}
use b24_sinedis.Jobs.Operations.{
  Operation, create, claim_due, complete, postpone, poll, save, fail, expire, recover_stale, intake,
  apply,
}

-- The row after an operation that updates rows, `picked` being the rows that a claim takes.
abbrev pub touch : Operation → Table → AutomationJob → AutomationJob
touch (create id stamp p c e h pl rv at) picked j = j
touch (claim_due locked worker_id limit now stamp) picked j =
    if any (has_id j.id) picked then claim worker_id now stamp j else j
touch (complete stamp job_id completed_at values) picked j =
    if is_held job_id j
    then record j {
      status = completed;
      completed_at = some completed_at;
      return_values = values;
      last_error = none;
      locked_at = none;
      locked_by = none;
      updated_at = stamp;
    }
    else j
touch (postpone stamp job_id run_at code) picked j =
    if is_held job_id j
    then record j {
      status = retry;
      run_at = run_at;
      last_error = some code;
      locked_at = none;
      locked_by = none;
      updated_at = stamp;
    }
    else j
touch (poll stamp job_id run_at payload) picked j =
    if is_held job_id j
    then record j {
      status = retry;
      run_at = run_at;
      payload = payload;
      last_error = none;
      attempts = j.attempts - 1;
      locked_at = none;
      locked_by = none;
      updated_at = stamp;
    }
    else j
touch (save stamp job_id payload values) picked j =
    if is_held job_id j
    then record j { payload = payload; return_values = values; updated_at = stamp }
    else j
touch (fail stamp job_id code) picked j =
    if is_held job_id j
    then record j {
      status = failed;
      last_error = some code;
      locked_at = none;
      locked_by = none;
      updated_at = stamp;
    }
    else j
touch (expire stamp job_id code) picked j =
    if is_held job_id j
    then record j {
      status = expired;
      last_error = some code;
      locked_at = none;
      locked_by = none;
      updated_at = stamp;
    }
    else j
touch (recover_stale stamp now lock_timeout) picked j =
    if is_stale (now - lock_timeout) j then recover now stamp j else j

-- The rows that the operation claims.
abbrev pub picked : Operation → Table → Table
picked (claim_due locked worker_id limit now stamp) t = pick_due locked limit now t
picked _ t = []

-- The rows that the operation adds.
abbrev pub added : Operation → Table → Table
added (create id stamp p c e h pl rv at) t =
    if any (has_id id) t || any (has_key p h) t
    then []
    else row id stamp (intake p c e h pl rv at) ∷ []
added _ t = []

map-id {ℓ} : {A : Type ℓ} (xs : List A) → map (λ (x : A). x) xs ≡ xs
map-id [] = refl
map-id (x ∷ xs) = rw (map-id xs)

pub apply-eq : (o : Operation) (t : Table) → apply o t ≡ map (touch o (picked o t)) t ++ added o t
unfolding apply
apply-eq (create id stamp p c e h pl rv at) t = rw map-id (ground (arith, append-nil t))
apply-eq o t = rw append-nil
