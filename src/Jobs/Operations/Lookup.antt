-- ===== src/Jobs/Operations/Lookup.antt =====
-- How the operations of app/jobs/repository.py change what a look-up by identifier or by key finds.
use mathlib.Core.Option
use b24_sinedis.Jobs.Repository.Order.{any-order_by}
use b24_sinedis.Prelude.{
  any-select, any-take, ℕ, String, ◌≡◌, refl, Bool, true, false, not, ◌&&◌, none, some, List, [],
  ◌∷◌, ◌++◌, map, arith, any, find, select, comparable_ids, comparable_texts,
}
use b24_sinedis.Jobs.Model.{AutomationJob, Table}
use b24_sinedis.Jobs.Repository.{has_id, has_key, find_job, find_key, is_due, pick_due}
use b24_sinedis.Jobs.Operations.{Operation, create, apply}
use b24_sinedis.Jobs.Operations.Rows.{touch, picked, added, apply-eq}

module _ {ℓ} {A : Type ℓ} (p : A → Bool) where
  find-append-some : (xs ys : List A) {a : A} → find p xs ≡ some a → find p (xs ++ ys) ≡ some a
  find-append-some [] ys h = cc
  find-append-some (x ∷ xs) ys {a} h = ground (arith, find-append-some xs ys {a = a})

  find-append-none : (xs ys : List A) → find p xs ≡ none → find p (xs ++ ys) ≡ find p ys
  find-append-none [] ys h = refl
  find-append-none (x ∷ xs) ys h = ground (arith, find-append-none xs ys)

  module _ (f : A → A) (keeps : (a : A) → p (f a) ≡ p a) where
    find-map : (xs : List A) → find p (map f xs) ≡ Option.map f (find p xs)
    find-map [] = refl
    find-map (x ∷ xs) = ground (arith, keeps x, find-map xs)

  pub any-find : (xs : List A) → find p xs ≡ none → any p xs ≡ false
  any-find [] h = refl
  any-find (x ∷ xs) h = ground (arith, any-find xs)

pub find_job-id : (id : ℕ) (t : Table) {j : AutomationJob} → find_job id t ≡ some j → j.id ≡ id
unfolding find_job
find_job-id id [] h = cc
find_job-id id (k ∷ t) {j} h = ground (arith, find_job-id id t {j = j})

pub touch-id : (o : Operation) (p : Table) (j : AutomationJob) → (touch o p j).id ≡ j.id
touch-id (create _ _ _ _ _ _ _ _ _) p j = refl
touch-id _ p j = ground arith

pub touch-has_key :
    (o : Operation) (p : Table) (portal_id : ℕ) (hash : String) (j : AutomationJob)
    → has_key portal_id hash (touch o p j) ≡ has_key portal_id hash j
touch-has_key (create _ _ _ _ _ _ _ _ _) p portal_id hash j = refl
touch-has_key _ p portal_id hash j = ground arith

pub touch-has_id :
    (o : Operation) (p : Table) (id : ℕ) (j : AutomationJob) → has_id id (touch o p j) ≡ has_id id j
touch-has_id o p id j = rw (touch-id o p j)

module _ (o : Operation) (t : Table) (id : ℕ) where
  pub find_job-apply :
      {j : AutomationJob}
      → find_job id t ≡ some j
      → find_job id (apply o t) ≡ some (touch o (picked o t) j)
  unfolding find_job
  find_job-apply h = rw apply-eq (
      find-append-some (has_id id) _ (added o t)
        (rw (find-map (has_id id) (touch o (picked o t)) (touch-has_id o (picked o t) id) t, h)))

  pub find_job-apply_new :
      find_job id t ≡ none → find_job id (apply o t) ≡ find (has_id id) (added o t)
  unfolding find_job
  find_job-apply_new h = rw apply-eq (
      find-append-none (has_id id) _ (added o t)
        (rw (find-map (has_id id) (touch o (picked o t)) (touch-has_id o (picked o t) id) t, h)))

module _ (o : Operation) (t : Table) (portal_id : ℕ) (hash : String) where
  pub find_key-apply :
      {j : AutomationJob}
      → find_key portal_id hash t ≡ some j
      → find_key portal_id hash (apply o t) ≡ some (touch o (picked o t) j)
  unfolding find_key
  find_key-apply h = rw apply-eq (
      find-append-some (has_key portal_id hash) _ (added o t) (
        rw (
          find-map (has_key portal_id hash) (touch o (picked o t))
              (touch-has_key o (picked o t) portal_id hash) t,
          h,
        )))

-- No two rows share an identifier: the primary key.
abbrev pub DistinctIds : Table → Type 0
DistinctIds [] = Unit
DistinctIds (j ∷ t) = (any (has_id j.id) t ≡ false) × DistinctIds t

-- No two rows share a portal and an event token: the unique constraint.
abbrev pub DistinctKeys : Table → Type 0
DistinctKeys [] = Unit
DistinctKeys (j ∷ t) = (any (has_key j.portal_id j.event_token_hash) t ≡ false) × DistinctKeys t

-- Where identifiers are distinct, a selected identifier belongs to a row that passes.
selected :
    (p : AutomationJob → Bool) (t : Table) (id : ℕ) {j : AutomationJob}
    → DistinctIds t
    → find (has_id id) t ≡ some j
    → any (has_id id) (select p t) ≡ true
    → p j ≡ true
selected p [] id d f h = cc
selected p (k ∷ t) id {j} d f h =
    ground (arith, selected p t id {j = j}, any-select (has_id id) p t)

pub picked-is_due :
    (locked : ℕ → Bool) (limit now : ℕ) (t : Table) (id : ℕ) {j : AutomationJob}
    → DistinctIds t
    → find_job id t ≡ some j
    → any (has_id id) (pick_due locked limit now t) ≡ true
    → (is_due now j ≡ true) × (locked j.id ≡ false)
unfolding find_job pick_due
picked-is_due locked limit now t id {j} d f h =
    let test = λ (k : AutomationJob). is_due now k && not (locked k.id) in
    let passed = selected test t id d f (any-order_by _ _ (any-take (has_id id) limit _ h)) in
    ground (arith, passed)
