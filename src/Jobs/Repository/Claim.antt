-- ===== src/Jobs/Repository/Claim.antt =====
-- What `claim_due_jobs` of app/jobs/repository.py promises a worker.
use mathlib.Core.List.{Memᴰ}
use b24_sinedis.Prelude.{
  ℕ, zero, suc, ◌≤◌, String, ◌≡◌, refl, ap, Bool, true, false, some, [], ◌∷◌, map, arith, not, ◌&&◌,
  if◌then◌else◌, any, take, select, length, All, All-take, All-imp, length-map, length-take-le,
  ◌==◌, comparable_ids, Bool-cases, inl, inr, All-map, All-of-mem, any-of-mem, any-take, at_mem,
  ==ℕ_iff,
}
use b24_sinedis.Jobs.Model.{processing, AutomationJob, Table, is_waiting}
use b24_sinedis.Jobs.Repository.{has_id, is_due, earlier, order_by, claim, pick_due, claim_due_jobs}
use b24_sinedis.Jobs.Repository.Order.{
  IsOrdered, All-select, All-order_by, order_by-IsOrdered, mem-order_by, mem-select, any-order_by,
}

-- Rows that a batch leaves out stand after it, and are left out only by a full batch.
left_out :
    (limit : ℕ) (t : Table) {j : AutomationJob}
    → IsOrdered t
    → Memᴰ j t
    → any (has_id j.id) (take limit t) ≡ false
    → (length (take limit t) ≡ limit) × All (λ k. earlier j k ≡ false) (take limit t)
left_out zero t o m h = (refl, tt)
left_out (suc n) [] o m h = elim m [ ]
left_out (suc n) (k ∷ t) {j} o (Memᴰ.head e) h = ground arith
left_out (suc n) (k ∷ t) {j} o (Memᴰ.tail m) h =
    let (full, after) = left_out n t o.1 m (ground arith) in
    (ap suc full, (at_mem (λ x. earlier x k ≡ false) t o.0 m, after))

pub is_due-of_picked :
    (locked : ℕ → Bool) (limit now : ℕ) (t : Table)
    → All (λ j. (is_due now j && not (locked j.id)) ≡ true) (pick_due locked limit now t)
unfolding pick_due
is_due-of_picked locked limit now t =
    All-take _ limit _ (All-order_by _ _ (All-select (λ j. is_due now j && not (locked j.id)) t))

pub any-map-claim :
    (worker_id : String) (now stamp id : ℕ) (t : Table)
    → any (has_id id) (map (claim worker_id now stamp) t) ≡ any (has_id id) t
any-map-claim worker_id now stamp id [] = refl
any-map-claim worker_id now stamp id (j ∷ t) = rw (any-map-claim worker_id now stamp id t)

module _ (locked : ℕ → Bool) (worker_id : String) (limit now stamp : ℕ) (t : Table) where
  -- A batch has at most `limit` jobs; each of them was due, and is now leased to the worker with its
  -- attempts counted and within its limit.
  pub claim-IsLeased :
      let jobs = (claim_due_jobs locked worker_id limit now stamp t).0 in
      (length jobs ≤ limit)
      × All
          (λ j.
            (j.status ≡ processing)
            × (j.locked_at ≡ some now)
            × (j.locked_by ≡ some worker_id)
            × (j.run_at ≤ now)
            × (1 ≤ j.attempts)
            × (j.attempts ≤ j.max_attempts))
          jobs
  unfolding claim_due_jobs
  claim-IsLeased = (
    rw length-map (length-take-le limit _),
    All-map _ (claim worker_id now stamp) _
        (All-imp _ _ (λ j due. ground arith) _ (is_due-of_picked locked limit now t)),
  )

  -- A due job that no transaction holds is left out only by a full batch, and then no job of the batch
  -- stands later in the order of `run_at` and `created_at`.
  pub claim_earliest :
      (j : AutomationJob)
      → Memᴰ j t
      → is_due now j ≡ true
      → locked j.id ≡ false
      → let jobs = (claim_due_jobs locked worker_id limit now stamp t).0 in
        any (has_id j.id) jobs ≡ false → (length jobs ≡ limit) × All (λ k. earlier j k ≡ false) jobs
  unfolding claim_due_jobs
  claim_earliest j m due free h =
      let due_rows = select (λ k. is_due now k && not (locked k.id)) t in
      let (full, after) =
        left_out limit (order_by due_rows) (order_by-IsOrdered due_rows)
          (mem-order_by due_rows
            (mem-select (λ k. is_due now k && not (locked k.id)) t m (ground arith)))
          (rw any-map-claim at h) in
      (rw length-map full, All-map _ (claim worker_id now stamp) _ after)

any-select-cons :
    (p q : AutomationJob → Bool) (j : AutomationJob) (t : Table)
    → (p j && q j) ≡ false
    → any p (select q t) ≡ false
    → any p (select q (j ∷ t)) ≡ false
any-select-cons p q j t h rest = ground arith

-- A row that was claimed is not selected as due again.
module _ (jobs : Table) (worker_id : String) (now stamp : ℕ) (test : AutomationJob → Bool)
    (only_waiting : (j : AutomationJob) → is_waiting j.status ≡ false → test j ≡ false) (id : ℕ)
    (taken : any (has_id id) jobs ≡ true) where
  abbrev marked : AutomationJob → AutomationJob
  marked j = if any (has_id j.id) jobs then claim worker_id now stamp j else j

  marked-not-due : (j : AutomationJob) → (has_id id (marked j) && test (marked j)) ≡ false
  marked-not-due j = elim (Bool-cases (j.id == id)) [
    | inl same ↦
        let here : any (has_id j.id) jobs ≡ true = rw ((==ℕ_iff j.id id).0 same) taken in
        rw here (ground (arith, only_waiting (claim worker_id now stamp j)))
    | inr other ↦ ground arith
  ]

  claimed-not-due : (t : Table) → any (has_id id) (select test (map marked t)) ≡ false
  claimed-not-due [] = refl
  claimed-not-due (j ∷ t) =
      any-select-cons (has_id id) test (marked j) (map marked t) (marked-not-due j)
        (claimed-not-due t)

-- The next batch, of any worker at any time, shares no job with a batch that is still in process.
pub claims_disjoint :
    (locked : ℕ → Bool) (worker_id : String) (limit now stamp : ℕ) (t : Table) (locked' : ℕ → Bool)
    (worker_id' : String) (limit' now' stamp' : ℕ)
    → let (jobs, t') = claim_due_jobs locked worker_id limit now stamp t in
      All
        (λ j. any (has_id j.id) (claim_due_jobs locked' worker_id' limit' now' stamp' t').0 ≡ false)
        jobs
unfolding claim_due_jobs
claims_disjoint locked worker_id limit now stamp t locked' worker_id' limit' now' stamp' =
    let jobs = pick_due locked limit now t in
    let test = λ (k : AutomationJob). is_due now' k && not (locked' k.id) in
    All-map _ (claim worker_id now stamp) jobs (
      All-of-mem _ jobs λ j m.
        let taken = any-of-mem (has_id j.id) jobs m ((==ℕ_iff j.id j.id).1 refl) in
        let fresh =
          claimed-not-due jobs worker_id now stamp test (λ k h. ground arith) j.id taken t in
        rw any-map-claim (not_picked j.id _ fresh))
  where
    not_picked :
        (id : ℕ) (due : Table)
        → any (has_id id) due ≡ false
        → any (has_id id) (take limit' (order_by due)) ≡ false
    not_picked id due h =
        ground (arith, any-take (has_id id) limit' (order_by due), any-order_by (has_id id) due)
