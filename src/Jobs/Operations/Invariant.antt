-- ===== src/Jobs/Operations/Invariant.antt =====
-- What holds of the table of app/models/job.py after every operation of app/jobs/repository.py.
use mathlib.Core.List.{append-nil}
use mathlib.Core.Path.{subst}
use b24_sinedis.Value.{Value}
use text.Mathlib.TextEquality.{eq_iff}
use b24_sinedis.Prelude.{
  ℕ, String, ◌≡◌, refl, sym, ◌∙◌, ◌⊎◌, Bool, false, some, List, [], ◌∷◌, ◌++◌, map, arith, some-eq,
  any, find, Bool-cases, Option-cases, comparable_ids, comparable_texts, inl, inr, ◌||◌,
}
use b24_sinedis.Jobs.Model.{AutomationJob, Table, IsValid}
use b24_sinedis.Jobs.Repository.{row, has_id, has_key, find_job}
use b24_sinedis.Jobs.Operations.{Operation, create, claim_due, intake, apply, run}
use b24_sinedis.Jobs.Operations.Rows.{touch, picked, added, apply-eq}
use b24_sinedis.Jobs.Operations.Lookup.{
  DistinctIds, DistinctKeys, find_job-id, touch-id, touch-has_id, touch-has_key, picked-is_due,
  find_job-apply, find_job-apply_new,
}

-- The constraints of the table: the primary key, the unique constraint, and every row valid.
pub record IsSound (t : Table) : Type 0 where
  pub distinct_ids : DistinctIds t
  pub distinct_keys : DistinctKeys t
  pub valid : (id : ℕ) {j : AutomationJob} → find_job id t ≡ some j → IsValid j

touch-IsValid :
    (o : Operation) (t : Table) (id : ℕ) {j : AutomationJob}
    → DistinctIds t
    → find_job id t ≡ some j
    → IsValid j
    → IsValid (touch o (picked o t) j)
touch-IsValid (claim_due locked worker_id limit now stamp) t id {j} d f v =
    ground (arith, find_job-id id t {j = j}, picked-is_due locked limit now t id {j = j})
touch-IsValid _ t id d f v = ground arith

module _ {A : Type 0} (f : A → A) (p : A → Bool) (keeps : (a : A) → p (f a) ≡ p a) where
  any-map : (xs : List A) → any p (map f xs) ≡ any p xs
  any-map [] = refl
  any-map (x ∷ xs) = ground (arith, keeps x, any-map xs)

module _ (o : Operation) (p : Table) where
  map-DistinctIds : (t : Table) → DistinctIds t → DistinctIds (map (touch o p) t)
  map-DistinctIds [] d = tt
  map-DistinctIds (j ∷ t) d = (
    rw touch-id (rw (any-map (touch o p) (has_id j.id) (touch-has_id o p j.id) t) d.0),
    map-DistinctIds t d.1,
  )

  touch-key :
      (j : AutomationJob)
      → ((touch o p j).portal_id ≡ j.portal_id)
        × ((touch o p j).event_token_hash ≡ j.event_token_hash)
  touch-key j = ground (
    arith,
    touch-has_key o p j.portal_id j.event_token_hash j,
    eq_iff j.event_token_hash j.event_token_hash,
    eq_iff (touch o p j).event_token_hash j.event_token_hash,
  )

  map-DistinctKeys : (t : Table) → DistinctKeys t → DistinctKeys (map (touch o p) t)
  map-DistinctKeys [] d = tt
  map-DistinctKeys (j ∷ t) d =
      let (same_portal, same_hash) = touch-key j in
      (
        rw (same_portal, same_hash)
            (rw (any-map (touch o p) _ (touch-has_key o p j.portal_id j.event_token_hash) t) d.0),
        map-DistinctKeys t d.1,
      )

any-snoc :
    (p : AutomationJob → Bool) (t : Table) (r : AutomationJob)
    → any p t ≡ false
    → p r ≡ false
    → any p (t ++ r ∷ []) ≡ false
any-snoc p [] r h k = rw k
any-snoc p (j ∷ t) r h k = ground (arith, any-snoc p t r)

module _ (r : AutomationJob) where
  snoc-DistinctIds :
      (t : Table) → DistinctIds t → any (has_id r.id) t ≡ false → DistinctIds (t ++ r ∷ [])
  snoc-DistinctIds [] d h = (refl, tt)
  snoc-DistinctIds (j ∷ t) d h =
      (any-snoc (has_id j.id) t r d.0 (ground arith), snoc-DistinctIds t d.1 (ground arith))

  snoc-DistinctKeys :
      (t : Table)
      → DistinctKeys t
      → any (has_key r.portal_id r.event_token_hash) t ≡ false
      → DistinctKeys (t ++ r ∷ [])
  snoc-DistinctKeys [] d h = (refl, tt)
  snoc-DistinctKeys (j ∷ t) d h = (
    any-snoc (has_key j.portal_id j.event_token_hash) t r d.0 (
        ground (
          arith,
          eq_iff j.event_token_hash r.event_token_hash,
          eq_iff r.event_token_hash j.event_token_hash,
        )),
    snoc-DistinctKeys t d.1 (ground arith),
  )

-- The row that `create` adds collides with none.
added-new :
    (id stamp portal_id : ℕ) (c e h : String) (pl rv : Value) (at : ℕ) (t : Table)
    → let o = create id stamp portal_id c e h pl rv at in
      (added o t ≡ [])
      ⊎ ((added o t ≡ row id stamp (intake portal_id c e h pl rv at) ∷ [])
          × (any (has_id id) t ≡ false)
          × (any (has_key portal_id h) t ≡ false))
added-new id stamp portal_id c e h pl rv at t =
    elim (Bool-cases (any (has_id id) t || any (has_key portal_id h) t)) [
      | inl old ↦ inl (rw old)
      | inr fresh ↦ inr (rw fresh, ground arith, ground arith)
    ]

apply-DistinctIds : (o : Operation) (t : Table) → DistinctIds t → DistinctIds (apply o t)
apply-DistinctIds (create id stamp portal_id c e h pl rv at) t d =
    let o = create id stamp portal_id c e h pl rv at in
    let kept = map-DistinctIds o [] t d in
    rw apply-eq (elim (added-new id stamp portal_id c e h pl rv at t) [
      | inl same ↦ rw (same, append-nil) kept
      | inr (grown, new, _) ↦ rw grown (
          snoc-DistinctIds (row id stamp (intake portal_id c e h pl rv at)) _ kept
            (rw (any-map (touch o []) (has_id id) (touch-has_id o [] id) t) new))
    ])
apply-DistinctIds o t d = rw (apply-eq, append-nil) (map-DistinctIds o (picked o t) t d)

apply-DistinctKeys : (o : Operation) (t : Table) → DistinctKeys t → DistinctKeys (apply o t)
apply-DistinctKeys (create id stamp portal_id c e h pl rv at) t d =
    let o = create id stamp portal_id c e h pl rv at in
    let kept = map-DistinctKeys o [] t d in
    rw apply-eq (elim (added-new id stamp portal_id c e h pl rv at t) [
      | inl same ↦ rw (same, append-nil) kept
      | inr (grown, _, new) ↦ rw grown (
          snoc-DistinctKeys (row id stamp (intake portal_id c e h pl rv at)) _ kept (
            rw (any-map (touch o []) (has_key portal_id h) (touch-has_key o [] portal_id h) t) new))
    ])
apply-DistinctKeys o t d = rw (apply-eq, append-nil) (map-DistinctKeys o (picked o t) t d)

added-IsValid :
    (o : Operation) (t : Table) (id : ℕ) {j : AutomationJob}
    → find (has_id id) (added o t) ≡ some j
    → IsValid j
added-IsValid (create id stamp portal_id c e h pl rv at) t k {j} f =
    elim (added-new id stamp portal_id c e h pl rv at t) [
      | inl same ↦ cc (rw same at f)
      | inr (grown, _, _) ↦ ground arith
    ]
added-IsValid o t id f = cc

pub apply-IsSound : (o : Operation) (t : Table) → IsSound t → IsSound (apply o t)
apply-IsSound o t s = record {
  distinct_ids = apply-DistinctIds o t s.distinct_ids;
  distinct_keys = apply-DistinctKeys o t s.distinct_keys;
  valid = λ id {j} f. elim (Option-cases (find_job id t)) [
    | inl new ↦ added-IsValid o t id (sym (find_job-apply_new o t id new) ∙ f)
    | inr (k, old) ↦
        subst IsValid (some-eq (sym (find_job-apply o t id old) ∙ f))
          (touch-IsValid o t id s.distinct_ids old (s.valid id old))
  ];
}

-- Whatever transactions the callbacks, the workers and the recovery run, and in whatever order, the
-- table keeps its constraints: distinct identifiers, distinct pairs of portal and event token, and in
-- each row 1 ≤ max_attempts, attempts ≤ max_attempts, and a lease exactly while it is processed.
pub run-IsSound : (os : List Operation) (t : Table) → IsSound t → IsSound (run os t)
unfolding run
run-IsSound [] t s = s
run-IsSound (o ∷ os) t s = run-IsSound os (apply o t) (apply-IsSound o t s)

pub empty-IsSound : IsSound []
unfolding find_job
empty-IsSound = record { distinct_ids = tt; distinct_keys = tt; valid = λ id f. cc }
