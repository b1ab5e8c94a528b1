-- ===== src/Jobs/Operations/Leases.antt =====
-- The lease of a job that a worker of app/jobs/worker.py processes, under whatever the callbacks, the
-- other workers and the recovery do meanwhile.
use b24_sinedis.Prelude.{
  ℕ, ◌-◌, String, ◌≡◌, refl, ◌∙◌, Bool, true, false, not, Option, some, List, [], ◌∷◌, arith, any,
  All, ◌==◌, comparable_ids, Bool-cases, inl, inr,
}
use b24_sinedis.Jobs.Model.{processing, AutomationJob, Table}
use b24_sinedis.Jobs.Repository.{has_id, find_job, lease_before, pick_due, claim_due_jobs}
use b24_sinedis.Jobs.Repository.Claim.{any-map-claim}
use b24_sinedis.Jobs.Operations.{
  Operation, create, claim_due, complete, postpone, poll, fail, expire, recover_stale, apply, run,
}
use b24_sinedis.Jobs.Operations.Rows.{touch, picked}
use b24_sinedis.Jobs.Operations.Lookup.{find_job-id, find_job-apply, picked-is_due}
use b24_sinedis.Jobs.Operations.Invariant.{IsSound, apply-IsSound}

-- An operation that does not settle the job, and a recovery for which its lease is not stale.
abbrev pub spares : ℕ → Option ℕ → Operation → Bool
spares id lease (complete stamp job_id completed_at values) = not (job_id == id)
spares id lease (postpone stamp job_id run_at code) = not (job_id == id)
spares id lease (poll stamp job_id run_at payload) = not (job_id == id)
spares id lease (fail stamp job_id code) = not (job_id == id)
spares id lease (expire stamp job_id code) = not (job_id == id)
spares id lease (recover_stale stamp now lock_timeout) =
    not (lease_before (now - lock_timeout) lease)
spares id lease _ = true

-- The row is processed under the same lease.
abbrev pub IsSameLease : AutomationJob → AutomationJob → Type 0
IsSameLease j k =
    (k.status ≡ processing)
    × (k.locked_by ≡ j.locked_by)
    × (k.locked_at ≡ j.locked_at)
    × (k.attempts ≡ j.attempts)

touch-IsSameLease :
    (o : Operation) (jobs : Table) (j : AutomationJob)
    → j.status ≡ processing
    → any (has_id j.id) jobs ≡ false
    → spares j.id j.locked_at o ≡ true
    → IsSameLease j (touch o jobs j)
touch-IsSameLease (create id stamp p c e h pl rv at) jobs j s free spared = (s, refl, refl, refl)
touch-IsSameLease _ jobs j s free spared = ground arith

-- No batch takes a row that is processed.
unpicked :
    (o : Operation) (t : Table) (id : ℕ) {j : AutomationJob}
    → IsSound t
    → find_job id t ≡ some j
    → j.status ≡ processing
    → any (has_id id) (picked o t) ≡ false
unpicked (claim_due locked worker_id limit now stamp) t id {j} s f p =
    elim (Bool-cases (any (has_id id) (pick_due locked limit now t))) [
      | inr e ↦ e
      | inl e ↦
          let (due, free) = picked-is_due locked limit now t id s.distinct_ids f e in
          absurd (ground arith)
    ]
unpicked _ t id s f p = refl

-- While a worker processes a job nobody else gets it: whatever operations run, in any order, the row
-- stays under the same lease with the same attempts, and no batch of any worker holds the job, provided
-- none of them settles, polls or postpones it and no recovery finds its lease stale.
pub lease_exclusive :
    (os : List Operation) (t : Table) (id : ℕ) (j : AutomationJob) (locked : ℕ → Bool)
    (worker_id : String) (limit now stamp : ℕ)
    → IsSound t
    → find_job id t ≡ some j
    → j.status ≡ processing
    → All (λ o. spares id j.locked_at o ≡ true) os
    → ((k : AutomationJob) × (find_job id (run os t) ≡ some k) × IsSameLease j k)
      × (any (has_id id) (claim_due_jobs locked worker_id limit now stamp (run os t)).0 ≡ false)
unfolding run claim_due_jobs
lease_exclusive [] t id j locked worker_id limit now stamp s f p h = (
  (j, f, (p, refl, refl, refl)),
  rw any-map-claim (unpicked (claim_due locked worker_id limit now stamp) t id s f p),
)
lease_exclusive (o ∷ os) t id j locked worker_id limit now stamp s f p h =
    let k = touch o (picked o t) j in
    let named = find_job-id id t f in
    let (status, worker, time, attempts) =
      touch-IsSameLease o (picked o t) j p (rw named (unpicked o t id s f p)) (rw named h.0) in
    let ((later, found, lease), free) =
      lease_exclusive os (apply o t) id k locked worker_id limit now stamp (apply-IsSound o t s)
        (find_job-apply o t id f) status (rw time h.1) in
    ((later, found, (lease.0, lease.1 ∙ worker, lease.2 ∙ time, lease.3 ∙ attempts)), free)
