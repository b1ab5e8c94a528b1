-- ===== src/Jobs/Operations/Progress.antt =====
-- That the workers of app/jobs/worker.py come to every job: what repeated claims do to a job that is due,
-- and what becomes of a job whose worker is gone.
use mathlib.Core.List.{Memᴰ}
use b24_sinedis.Prelude.{
  leb, ℕ, suc, ◌-◌, ◌≤◌, ◌<◌, String, ◌≡◌, refl, Bool, true, false, not, ◌&&◌, none, some, ◌⊎◌,
  List, [], ◌∷◌, map, arith, any, find, select, length, All, comparable_ids, Bool-cases, inl, inr,
  any-take, any-select, length-map, ==ℕ_iff,
}
use b24_sinedis.Jobs.Model.{processing, failed, AutomationJob, Table, is_waiting}
use b24_sinedis.Jobs.Repository.{
  has_id, find_job, is_due, is_stale, recover, pick_due, claim, claim_due_jobs,
}
use b24_sinedis.Jobs.Repository.Order.{any-order_by}
use b24_sinedis.Jobs.Repository.Claim.{claim_earliest, any-map-claim, is_due-of_picked}
use b24_sinedis.Jobs.Operations.{Operation, claim_due, recover_stale, apply, run}
use b24_sinedis.Jobs.Operations.Rows.{touch}
use b24_sinedis.Jobs.Operations.Lookup.{find_job-id, find_job-apply, picked-is_due}
use b24_sinedis.Jobs.Operations.Invariant.{IsSound, apply-IsSound}

mem-find {ℓ} : {A : Type ℓ} (p : A → Bool) (xs : List A) {a : A} → find p xs ≡ some a → Memᴰ a xs
mem-find p [] h = cc
mem-find p (x ∷ xs) {a} h = elim (Bool-cases (p x)) [
  | inl e ↦ Memᴰ.head (ground arith)
  | inr e ↦ Memᴰ.tail (mem-find p xs (ground arith))
]

-- A claim, by any worker, that no other transaction hinders.
pub record Batch : Type 0 where
  pub worker_id : String
  pub limit : ℕ
  pub now : ℕ
  pub stamp : ℕ

abbrev no_lock : ℕ → Bool
no_lock id = false

abbrev claim_of : Batch → Operation
claim_of b = claim_due no_lock b.worker_id b.limit b.now b.stamp

abbrev pub claims_of : List Batch → List Operation
claims_of = map claim_of

abbrev waits : AutomationJob → Bool
waits j = is_waiting j.status

abbrev pub waiting : Table → ℕ
waiting t = length (select waits t)

module _ (b : Batch) (jobs : Table) where
  abbrev marked : AutomationJob → AutomationJob
  marked = touch (claim_of b) jobs

  waiting_le : (t : Table) → waiting (map marked t) ≤ waiting t
  waiting_le [] = omega arith
  waiting_le (j ∷ t) = ground (arith, waiting_le t)

  waiting_drops :
      (t : Table)
      → any (λ j. any (has_id j.id) jobs && waits j) t ≡ true
      → suc (waiting (map marked t)) ≤ waiting t
  waiting_drops [] h = cc
  waiting_drops (j ∷ t) h = ground (arith, waiting_le t, waiting_drops t)

-- A table of rows one of which waits has a row that waits.
waiting_some : (t : Table) {j : AutomationJob} → Memᴰ j t → waits j ≡ true → 1 ≤ waiting t
waiting_some [] m h = elim m [ ]
waiting_some (k ∷ t) {j} (Memᴰ.head e) h = ground arith
waiting_some (k ∷ t) {j} (Memᴰ.tail m) h = ground (arith, waiting_some t {j = j} m)

any-picked :
    (p : AutomationJob → Bool) (limit now : ℕ) (t : Table)
    → any p (pick_due no_lock limit now t) ≡ true
    → any p t ≡ true
unfolding pick_due
any-picked p limit now t h = any-select p _ t (any-order_by p _ (any-take p limit _ h))

head-waits :
    (now : ℕ) (k : AutomationJob) (ks : Table)
    → is_due now k ≡ true
    → any (λ j. any (has_id j.id) (k ∷ ks) && waits j) (k ∷ ks) ≡ true
head-waits now k ks due = ground (arith, ==ℕ_iff k.id k.id)

-- A batch that is not empty takes a row that waits.
picked-waits :
    (b : Batch) (t : Table)
    → 1 ≤ length (pick_due no_lock b.limit b.now t)
    → any (λ j. any (has_id j.id) (pick_due no_lock b.limit b.now t) && waits j) t ≡ true
picked-waits b t h =
    takes (pick_due no_lock b.limit b.now t) refl (is_due-of_picked no_lock b.limit b.now t) h
  where
    takes :
        (jobs : Table)
        → pick_due no_lock b.limit b.now t ≡ jobs
        → All (λ j. (is_due b.now j && not (no_lock j.id)) ≡ true) jobs
        → 1 ≤ length jobs
        → any (λ j. any (has_id j.id) jobs && waits j) t ≡ true
    takes [] e due h = absurd (omega arith)
    takes (k ∷ ks) e due h =
        any-picked (λ j. any (has_id j.id) (k ∷ ks) && waits j) b.limit b.now t
          (rw e (head-waits b.now k ks (ground arith)))

module _ (b : Batch) (t : Table) (id : ℕ) {j : AutomationJob} (f : find_job id t ≡ some j) where
  claim-passed :
      any (has_id id) (pick_due no_lock b.limit b.now t) ≡ false
      → find_job id (apply (claim_of b) t) ≡ some j
  claim-passed h = rw (find_job-apply (claim_of b) t id f, find_job-id id t f, h) refl

  claim-taken :
      any (has_id id) (pick_due no_lock b.limit b.now t) ≡ true
      → find_job id (apply (claim_of b) t) ≡ some (claim b.worker_id b.now b.stamp j)
  claim-taken h = rw (find_job-apply (claim_of b) t id f, find_job-id id t f, h) refl

  claim-leaves : IsSound t → waits j ≡ false → find_job id (apply (claim_of b) t) ≡ some j
  claim-leaves s p = elim (Bool-cases (any (has_id id) (pick_due no_lock b.limit b.now t))) [
    | inr h ↦ claim-passed h
    | inl h ↦
        let (due, free) = picked-is_due no_lock b.limit b.now t id s.distinct_ids f h in
        absurd (ground arith)
  ]

-- A batch that passes over a job that is due takes another row that waits.
waiting_falls :
    (b : Batch) (t : Table) (j : AutomationJob)
    → Memᴰ j t
    → is_due b.now j ≡ true
    → 1 ≤ b.limit
    → any (has_id j.id) (pick_due no_lock b.limit b.now t) ≡ false
    → suc (waiting (apply (claim_of b) t)) ≤ waiting t
unfolding apply claim_due_jobs
waiting_falls b t j m due some_room h =
    let jobs = pick_due no_lock b.limit b.now t in
    let (full, after) =
      claim_earliest no_lock b.worker_id b.limit b.now b.stamp t j m due refl
        (rw any-map-claim h) in
    let filled : length jobs ≡ b.limit = rw length-map at full in
    waiting_drops b jobs t (picked-waits b t (omega (arith, filled, some_room)))

-- A row that does not wait stays as it is under claims.
stays_in_claims :
    (bs : List Batch) (t : Table) (id : ℕ) {k : AutomationJob}
    → IsSound t
    → find_job id t ≡ some k
    → waits k ≡ false
    → find_job id (run (claims_of bs) t) ≡ some k
unfolding run
stays_in_claims [] t id s f p = f
stays_in_claims (b ∷ bs) t id {k} s f p =
    stays_in_claims bs (apply (claim_of b) t) id (apply-IsSound (claim_of b) t s)
      (claim-leaves b t id f s p) p

-- A lease of the worker of one of the batches, from the time of that batch.
abbrev pub IsLeaseOf : List Batch → AutomationJob → Type 0
IsLeaseOf bs k =
    (b : Batch) × Memᴰ b bs × (k.locked_by ≡ some b.worker_id) × (k.locked_at ≡ some b.now)

-- The batch that takes a job that is due leaves it leased by its worker.
due_leased :
    (bs : List Batch) (t : Table) (id : ℕ) (j : AutomationJob)
    → IsSound t
    → find_job id t ≡ some j
    → waits j ≡ true
    → j.attempts < j.max_attempts
    → All (λ b. (1 ≤ b.limit) × (j.run_at ≤ b.now)) bs
    → waiting t ≤ length bs
    → (k : AutomationJob) × (find_job id (run (claims_of bs) t) ≡ some k)
      × (k.status ≡ processing)
      × (k.attempts ≡ suc j.attempts)
      × IsLeaseOf bs k
unfolding run find_job
due_leased [] t id j s f w a h enough =
    absurd (ground (arith, waiting_some t {j = j} (mem-find (has_id id) t f) w))
due_leased (b ∷ bs) t id j s f w a h enough =
    elim (Bool-cases (any (has_id id) (pick_due no_lock b.limit b.now t))) [
      | inl now ↦
          let k = claim b.worker_id b.now b.stamp j in
          let taken = claim-taken b t id f now in
          (
            k,
            stays_in_claims bs (apply (claim_of b) t) id (apply-IsSound (claim_of b) t s) taken
                refl,
            refl,
            omega arith,
            (b, Memᴰ.head refl, refl, refl),
          )
      | inr later ↦
          let (k, found, status, attempts, (c, m, by, at)) =
            due_leased bs (apply (claim_of b) t) id j (apply-IsSound (claim_of b) t s)
              (claim-passed b t id f later) w a h.1
              (let falls =
                  waiting_falls b t j (mem-find (has_id id) t f) (ground arith) h.0.0
                    (rw (find_job-id id t f) later) in
                omega (arith, falls, enough)) in
          (k, found, status, attempts, (c, Memᴰ.tail m, by, at))
    ]

-- A job that is due is claimed by one of the batches that workers take, once there are as many batches as
-- rows that wait, and its attempt is counted: no other row keeps it waiting for ever. The batches are not
-- empty and come after the job's time, in any order and by any workers, and no row is locked by another
-- transaction.
pub due_claimed :
    (bs : List Batch) (t : Table) (id : ℕ) (j : AutomationJob)
    → IsSound t
    → find_job id t ≡ some j
    → waits j ≡ true
    → j.attempts < j.max_attempts
    → All (λ b. (1 ≤ b.limit) × (j.run_at ≤ b.now)) bs
    → waiting t ≤ length bs
    → (k : AutomationJob) × (find_job id (run (claims_of bs) t) ≡ some k)
      × (k.status ≡ processing)
      × (k.attempts ≡ suc j.attempts)
due_claimed bs t id j s f w a h enough =
    let (k, found, status, attempts, lease) = due_leased bs t id j s f w a h enough in
    (k, found, status, attempts)

-- A job whose worker is gone comes back: once its lease is older than the time-out, a recovery and as
-- many further batches as rows wait leave it leased by the worker of one of these batches, from the time
-- of that batch and with its attempt counted, or failed and without a lease if its attempts were used up.
-- The batches are not empty, none comes before the recovery, and no row is locked by another transaction.
pub abandoned_returns :
    (stamp now lock_timeout : ℕ) (bs : List Batch) (t : Table) (id : ℕ) (j : AutomationJob)
    → IsSound t
    → find_job id t ≡ some j
    → is_stale (now - lock_timeout) j ≡ true
    → All (λ b. (1 ≤ b.limit) × (now ≤ b.now)) bs
    → waiting (apply (recover_stale stamp now lock_timeout) t) ≤ length bs
    → (k : AutomationJob) × (find_job id
          (run (recover_stale stamp now lock_timeout ∷ claims_of bs) t)
        ≡ some k)
      × (((leb j.max_attempts j.attempts ≡ true)
            × (k.status ≡ failed)
            × (k.attempts ≡ j.attempts)
            × (k.locked_by ≡ none))
          ⊎ ((leb j.max_attempts j.attempts ≡ false)
              × (k.status ≡ processing)
              × (k.attempts ≡ suc j.attempts)
              × IsLeaseOf bs k))
unfolding run
abandoned_returns stamp now lock_timeout bs t id j s f stale h enough =
    let o = recover_stale stamp now lock_timeout in
    let sound = apply-IsSound o t s in
    let back : find_job id (apply o t) ≡ some (recover now stamp j) =
      rw (find_job-apply o t id f, stale) refl in
    elim (Bool-cases (leb j.max_attempts j.attempts)) [
      | inl used ↦ (
        recover now stamp j,
        stays_in_claims bs (apply o t) id sound back (rw used refl),
        inl (used, rw used refl, refl, refl),
      )
      | inr left ↦
          let (k, found, status, attempts, lease) =
            due_leased bs (apply o t) id (recover now stamp j) sound back (rw left refl)
              (ground arith) (rw left h) enough in
          (k, found, inr (left, status, attempts, lease))
    ]
