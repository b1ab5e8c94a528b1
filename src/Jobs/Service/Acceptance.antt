-- ===== src/Jobs/Service/Acceptance.antt =====
-- What the services of app/jobs/service.py store, and that whatever they refuse stores nothing.
use text.Mathlib.TextEquality.{eq_iff}
use b24_sinedis.Prelude.{
  ℕ, String, ◌≡◌, refl, Bool, true, false, Option, none, some, [], ◌∷◌, ◌++◌, arith, any,
  Bool-cases, inl, inr, comparable_ids, comparable_texts,
}
use b24_sinedis.Value.{Value}
use b24_sinedis.Jobs.Model.{JobStatus, pending, AutomationJob, Table}
use b24_sinedis.Jobs.Repository.{
  NewJob, Stored, stored, refused, row, has_id, has_key, find_job, find_key, found,
  create_idempotent,
}
use b24_sinedis.Jobs.Operations.{intake}
use b24_sinedis.Jobs.Operations.Intake.{find-snoc}

-- What an accepted callback does: a job that exists already changes nothing, and a new one is pending
-- and due at its time.
abbrev pub HasEffect : Table → Table → ℕ → JobStatus → ℕ → Bool → Type 0
HasEffect before after due status run_at true = after ≡ before
HasEffect before after due status run_at false = (due ≡ run_at) × (status ≡ pending)

-- The key of the callback finds the job that is stored; a refusal changes no job.
module _ (before after : Table) (portal_id : ℕ) (hash : String) (run_at : ℕ) where
  abbrev pub IsStored : Stored → Type 0
  IsStored (stored r) =
      (find_key portal_id hash after ≡ some r.job)
      × HasEffect before after r.job.run_at r.job.status run_at r.existing
  IsStored (refused e) = after ≡ before

module _ (id stamp : ℕ) (t : Table) (portal_id : ℕ) (code encrypted hash : String)
    (payload values : Value) (run_at : ℕ) where
  abbrev new_job : NewJob
  new_job = intake portal_id code encrypted hash payload values run_at

  abbrev new_row : AutomationJob
  new_row = row id stamp new_job

  known-IsStored :
      (o : Option AutomationJob)
      → find_key portal_id hash t ≡ o
      → IsStored t t portal_id hash run_at (found true o)
  known-IsStored none e = refl
  known-IsStored (some j) e = (e, refl)

  new-IsStored :
      any (has_id id) t ≡ false
      → any (has_key portal_id hash) t ≡ false
      → IsStored t
          (t ++ new_row ∷ [])
          portal_id
          hash
          run_at
          (found false (find_job id (t ++ new_row ∷ [])))
  unfolding find_job find_key
  new-IsStored no_id no_key = rw (find-snoc (has_id id) t new_row no_id (ground arith)) (
    find-snoc (has_key portal_id hash) t new_row no_key (ground (arith, eq_iff hash hash)),
    (refl, refl),
  )

  pub create-IsStored :
      IsStored t
        (create_idempotent id stamp new_job t).1
        portal_id
        hash
        run_at
        (create_idempotent id stamp new_job t).0
  unfolding create_idempotent
  create-IsStored = elim (Bool-cases (any (has_id id) t)) [
    | inl e ↦ rw (e) refl
    | inr e ↦ elim (Bool-cases (any (has_key portal_id hash) t)) [
      | inl k ↦ rw (e, k) (known-IsStored (find_key portal_id hash t) refl)
      | inr k ↦ rw (e, k) (new-IsStored e k)
    ]
  ]
