-- ===== src/Jobs/Operations/Lifecycle.antt =====
-- The life of one job under the operations of app/jobs/repository.py: its states and its budget.
use mathlib.Core.Path.{subst}
use b24_sinedis.Prelude.{
  ℕ, ◌+◌, ◌≤◌, ◌≡◌, refl, sym, ap, ◌∙◌, ◌⊎◌, ◌≢◌, ◌-◌, Bool-cases, inl, inr, Bool, true, false,
  some, List, [], ◌∷◌, arith, any, if◌then◌else◌, ◌==◌, comparable_ids, some-eq,
}
use b24_sinedis.Jobs.Model.{
  JobStatus, pending, processing, retry, completed, failed, expired, cancelled, AutomationJob,
  Table, is_final, is_processing, is_waiting,
}
use b24_sinedis.Jobs.Repository.{has_id, is_held, is_stale, pick_due, find_job}
use b24_sinedis.Jobs.Operations.{
  Operation, create, claim_due, complete, postpone, poll, save, fail, expire, recover_stale, apply,
  run,
}
use b24_sinedis.Jobs.Operations.Rows.{touch, picked}
use b24_sinedis.Jobs.Operations.Lookup.{find_job-apply, find_job-id, picked-is_due}
use b24_sinedis.Jobs.Operations.Invariant.{IsSound, apply-IsSound}

-- The life cycle of a job.
infix 40 ◌⟶◌
pub data ◌⟶◌ : JobStatus → JobStatus → Type 0 where
  start : pending ⟶ processing
  restart : retry ⟶ processing
  put_back : processing ⟶ retry
  finish : processing ⟶ completed
  give_up : processing ⟶ failed
  lapse : processing ⟶ expired

-- What an operation may do to a row: nothing, an edge, or a checkpoint of a job in process.
abbrev pub Moves : AutomationJob → AutomationJob → Type 0
Moves j k = (k ≡ j) ⊎ ((j.status ≡ processing) × (k.status ≡ processing)) ⊎ (j.status ⟶ k.status)

edge_of_waiting : (a : JobStatus) → is_waiting a ≡ true → a ⟶ processing
edge_of_waiting pending h = start
edge_of_waiting retry h = restart
edge_of_waiting _ h = cc

edge_of_processing :
    (a b : JobStatus)
    → is_processing a ≡ true
    → (is_final b ≡ true) × (b ≢ cancelled) ⊎ (b ≡ retry)
    → a ⟶ b
edge_of_processing processing completed h k = finish
edge_of_processing processing failed h k = give_up
edge_of_processing processing expired h k = lapse
edge_of_processing processing retry h k = put_back
edge_of_processing processing _ h k = ground arith
edge_of_processing _ b h k = cc

held-Moves :
    (job_id : ℕ) (j k : AutomationJob) (b : JobStatus)
    → (is_final b ≡ true) × (b ≢ cancelled) ⊎ (b ≡ retry)
    → k.status ≡ b
    → Moves j (if is_held job_id j then k else j)
held-Moves job_id j k b allowed e = elim (Bool-cases (is_held job_id j)) [
  | inl held ↦ inr (inr (rw (held, e) (edge_of_processing j.status b (ground arith) allowed)))
  | inr other ↦ inl (rw other)
]

touch-Moves :
    (o : Operation) (t : Table) (id : ℕ) {j : AutomationJob}
    → IsSound t
    → find_job id t ≡ some j
    → Moves j (touch o (picked o t) j)
touch-Moves (claim_due locked worker_id limit now stamp) t id {j} s f =
    elim (Bool-cases (any (has_id j.id) (pick_due locked limit now t))) [
      | inl taken ↦ inr (
          inr (
            rw taken (
              edge_of_waiting j.status (
                ground (
                  arith,
                  find_job-id id t {j = j},
                  picked-is_due locked limit now t id {j = j} s.distinct_ids,
                )))))
      | inr left ↦ inl (rw left)
    ]
touch-Moves (recover_stale stamp now lock_timeout) t id {j} s f =
    elim (Bool-cases (is_stale (now - lock_timeout) j)) [
      | inl stale ↦
          inr (inr (rw stale (edge_of_processing j.status _ (ground arith) (ground arith))))
      | inr fresh ↦ inl (rw fresh)
    ]
touch-Moves (create _ _ _ _ _ _ _ _ _) t id s f = inl refl
touch-Moves (save stamp job_id payload values) t id s f = ground arith
touch-Moves (complete stamp job_id completed_at values) t id {j} s f =
    held-Moves job_id j _ completed (inl (refl, λ e. cc)) refl
touch-Moves (postpone stamp job_id run_at code) t id {j} s f =
    held-Moves job_id j _ retry (inr refl) refl
touch-Moves (poll stamp job_id run_at payload) t id {j} s f =
    held-Moves job_id j _ retry (inr refl) refl
touch-Moves (fail stamp job_id code) t id {j} s f =
    held-Moves job_id j _ failed (inl (refl, λ e. cc)) refl
touch-Moves (expire stamp job_id code) t id {j} s f =
    held-Moves job_id j _ expired (inl (refl, λ e. cc)) refl

-- Every transaction leaves a job alone, checkpoints it in process, or moves it along the life cycle.
pub apply-Moves :
    (o : Operation) (t : Table) (id : ℕ) {j k : AutomationJob}
    → IsSound t
    → find_job id t ≡ some j
    → find_job id (apply o t) ≡ some k
    → Moves j k
apply-Moves o t id {j} s f g =
    subst (Moves j) (some-eq (sym (find_job-apply o t id f) ∙ g)) (touch-Moves o t id s f)

final-touch :
    (o : Operation) (t : Table) (id : ℕ) {j : AutomationJob}
    → IsSound t
    → find_job id t ≡ some j
    → is_final j.status ≡ true
    → touch o (picked o t) j ≡ j
final-touch (claim_due locked worker_id limit now stamp) t id {j} s f e =
    ground
      (arith, find_job-id id t {j = j}, picked-is_due locked limit now t id {j = j} s.distinct_ids)
final-touch _ t id s f e = ground arith

-- A completed, failed, expired or cancelled job is never changed again, whatever transactions run.
pub final_absorbs :
    (os : List Operation) (t : Table) (id : ℕ) {j : AutomationJob}
    → IsSound t
    → find_job id t ≡ some j
    → is_final j.status ≡ true
    → find_job id (run os t) ≡ some j
unfolding run
final_absorbs [] t id s f e = f
final_absorbs (o ∷ os) t id {j} s f e =
    final_absorbs os (apply o t) id (apply-IsSound o t s)
      (find_job-apply o t id f ∙ ap some (final-touch o t id s f e)) e

-- whether the operation claims the job
abbrev pub claims_job : ℕ → Operation → Table → Bool
claims_job id o t = any (has_id id) (picked o t)

-- whether the operation puts the job back after a normal poll
abbrev pub polls_job : ℕ → Operation → Table → Bool
polls_job id (poll stamp job_id run_at payload) t = job_id == id
polls_job id _ t = false

abbrev one_if : Bool → ℕ
one_if true = 1
one_if false = 0

-- How often a trace claims the job, and how often it polls it.
abbrev pub claims : ℕ → List Operation → Table → ℕ
claims id [] t = 0
claims id (o ∷ os) t = one_if (claims_job id o t) + claims id os (apply o t)

abbrev pub polls : ℕ → List Operation → Table → ℕ
polls id [] t = 0
polls id (o ∷ os) t = one_if (polls_job id o t) + polls id os (apply o t)

touch-budget :
    (o : Operation) (t : Table) (id : ℕ) {j : AutomationJob}
    → IsSound t
    → find_job id t ≡ some j
    → (j.attempts + one_if (claims_job id o t)
        ≤ (touch o (picked o t) j).attempts + one_if (polls_job id o t))
      × ((touch o (picked o t) j).max_attempts ≡ j.max_attempts)
touch-budget (create _ _ _ _ _ _ _ _ _) t id s f = ground arith
touch-budget o t id {j} s f = ground (arith, find_job-id id t {j = j})

-- Besides the polls of an empty field, a job is claimed at most as often as its budget of attempts
-- allows, whatever transactions run: the claims are at most the attempts left plus the polls.
pub claims_bounded :
    (os : List Operation) (t : Table) (id : ℕ) {j : AutomationJob}
    → IsSound t
    → find_job id t ≡ some j
    → j.attempts + claims id os t ≤ j.max_attempts + polls id os t
claims_bounded [] t id s f = ground (arith, s.valid id f)
claims_bounded (o ∷ os) t id {j} s f = omega (
  arith,
  touch-budget o t id s f,
  claims_bounded os (apply o t) id (apply-IsSound o t s) (find_job-apply o t id f),
)
