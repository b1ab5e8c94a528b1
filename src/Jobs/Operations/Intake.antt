-- ===== src/Jobs/Operations/Intake.antt =====
-- Idempotent intake: `create_idempotent` of app/jobs/repository.py among all other operations.
use text.Mathlib.TextEquality.{eq_iff}
use b24_sinedis.Prelude.{
  ℕ, String, ◌≡◌, refl, ◌∙◌, Bool, true, false, some, List, [], ◌∷◌, ◌++◌, arith, any, find,
  comparable_ids, comparable_texts,
}
use b24_sinedis.Jobs.Model.{AutomationJob, Table}
use b24_sinedis.Jobs.Repository.{
  NewJob, JobCreationResult, stored, row, has_id, has_key, find_key, checks, create_idempotent,
}
use b24_sinedis.Jobs.Operations.{Operation, apply, run}
use b24_sinedis.Jobs.Operations.Rows.{picked}
use b24_sinedis.Jobs.Operations.Lookup.{find_key-apply, touch-id}

module _ {A : Type 0} (p : A → Bool) where
  any-of-find : (xs : List A) {a : A} → find p xs ≡ some a → any p xs ≡ true
  any-of-find [] h = cc
  any-of-find (x ∷ xs) {a} h = ground (arith, any-of-find xs {a = a})

  pub find-snoc :
      (xs : List A) (a : A) → any p xs ≡ false → p a ≡ true → find p (xs ++ a ∷ []) ≡ some a
  find-snoc [] a h k = rw k
  find-snoc (x ∷ xs) a h k = ground (arith, find-snoc xs a)

module _ (portal_id : ℕ) (hash : String) where
  -- A stored pair of portal and token stays stored, with its identifier.
  key_kept :
      (os : List Operation) (t : Table) {j : AutomationJob}
      → find_key portal_id hash t ≡ some j
      → (k : AutomationJob) × (find_key portal_id hash (run os t) ≡ some k) × (k.id ≡ j.id)
  unfolding run
  key_kept [] t {j} f = (j, f, refl)
  key_kept (o ∷ os) t {j} f =
      let (k, found, same) = key_kept os (apply o t) (find_key-apply o t portal_id hash f) in
      (k, found, same ∙ touch-id o (picked o t) j)

module _ (id stamp : ℕ) (v : NewJob) (t : Table) where
  -- What a successful call returns is what a look-up by the key finds afterwards.
  pub create-find_key :
      {r : JobCreationResult}
      → (create_idempotent id stamp v t).0 ≡ stored r
      → find_key v.portal_id v.event_token_hash (create_idempotent id stamp v t).1 ≡ some r.job
  unfolding create_idempotent
  create-find_key {r} e =
      let new = row id stamp v in
      ground (
        arith,
        eq_iff v.event_token_hash v.event_token_hash,
        find-snoc (has_id id) t new,
        find-snoc (has_key v.portal_id v.event_token_hash) t new,
      )

  pub create-existing :
      {j : AutomationJob}
      → checks v ≡ true
      → any (has_id id) t ≡ false
      → find_key v.portal_id v.event_token_hash t ≡ some j
      → create_idempotent id stamp v t ≡ (stored (record { job = j; existing = true }), t)
  unfolding create_idempotent
  create-existing c new f = ground (arith, any-of-find (has_key v.portal_id v.event_token_hash) t f)

-- A callback that is delivered again, after any transactions at all, gets the job that the first
-- delivery stored, by its identifier and marked as existing, and leaves the table as it is.
pub redelivery :
    (id stamp : ℕ) (v : NewJob) (t : Table) {r : JobCreationResult}
    → (create_idempotent id stamp v t).0 ≡ stored r
    → (os : List Operation) (id' stamp' : ℕ) (w : NewJob) → w.portal_id ≡ v.portal_id
    → w.event_token_hash ≡ v.event_token_hash
    → checks w ≡ true
    → let later = run os (create_idempotent id stamp v t).1 in
      any (has_id id') later ≡ false
      → (k : AutomationJob) × (create_idempotent id' stamp' w later
          ≡ (stored (record { job = k; existing = true }), later))
        × (k.id ≡ r.job.id)
redelivery id stamp v t e os id' stamp' w same_portal same_hash c new =
    let (k, found, same) =
      key_kept v.portal_id v.event_token_hash os _ (create-find_key id stamp v t e) in
    (k, create-existing id' stamp' w _ c new (rw (same_portal, same_hash) found), same)
