-- ===== src/Jobs/Repository/Order.antt =====
-- The ordering of due rows in `claim_due_jobs` of app/jobs/repository.py.
use mathlib.Core.List.{Memᴰ}
use b24_sinedis.Prelude.{
  ◌≡◌, sym, ap, ◌∙◌, Bool, true, false, [], ◌∷◌, arith, any, select, All, All-imp, comparable_ids,
  Bool-cases, inl, inr,
}
use b24_sinedis.Jobs.Model.{AutomationJob, Table}
use b24_sinedis.Jobs.Repository.{earlier, insert, order_by}

pub All-select : (p : AutomationJob → Bool) (t : Table) → All (λ j. p j ≡ true) (select p t)
All-select p [] = tt
All-select p (j ∷ t) = elim (Bool-cases (p j)) [
  | inl passes ↦ rw passes (passes, All-select p t)
  | inr fails ↦ rw fails (All-select p t)
]

module _ (P : AutomationJob → Type 0) where
  All-insert : (j : AutomationJob) (t : Table) → P j → All P t → All P (insert j t)
  unfolding insert
  All-insert j [] h k = (h, tt)
  All-insert j (x ∷ t) h k = elim (Bool-cases (earlier x j)) [
    | inl before ↦ rw before (k.0, All-insert j t h k.1)
    | inr after ↦ rw after (h, k)
  ]

  pub All-order_by : (t : Table) → All P t → All P (order_by t)
  unfolding order_by
  All-order_by [] h = tt
  All-order_by (j ∷ t) h = All-insert j (order_by t) h.0 (All-order_by t h.1)

-- Every row of the list stands before those that are later.
abbrev pub IsOrdered : Table → Type 0
IsOrdered [] = Unit
IsOrdered (j ∷ t) = All (λ k. earlier k j ≡ false) t × IsOrdered t

earlier_trans :
    (a b c : AutomationJob) → earlier b a ≡ false → earlier c b ≡ false → earlier c a ≡ false
earlier_trans a b c h k = ground arith

earlier_asym : (a b : AutomationJob) → earlier a b ≡ true → earlier b a ≡ false
earlier_asym a b h = ground arith

insert-IsOrdered : (j : AutomationJob) (t : Table) → IsOrdered t → IsOrdered (insert j t)
unfolding insert
insert-IsOrdered j [] h = (tt, tt)
insert-IsOrdered j (x ∷ t) h = elim (Bool-cases (earlier x j)) [
  | inl before ↦ rw before (
    All-insert (λ k. earlier k x ≡ false) j t (earlier_asym x j before) h.0,
    insert-IsOrdered j t h.1,
  )
  | inr after ↦
      rw after ((after, All-imp _ _ (λ k later. earlier_trans j x k after later) t h.0), h)
]

pub order_by-IsOrdered : (t : Table) → IsOrdered (order_by t)
unfolding order_by
order_by-IsOrdered [] = tt
order_by-IsOrdered (j ∷ t) = insert-IsOrdered j (order_by t) (order_by-IsOrdered t)

module _ {j : AutomationJob} where
  mem-insert : (k : AutomationJob) (t : Table) → Memᴰ j (k ∷ t) → Memᴰ j (insert k t)
  unfolding insert
  mem-insert k [] m = m
  mem-insert k (x ∷ t) (Memᴰ.head e) = elim (Bool-cases (earlier x k)) [
    | inl before ↦ rw before (Memᴰ.tail (mem-insert k t (Memᴰ.head e)))
    | inr after ↦ rw after (Memᴰ.head e)
  ]
  mem-insert k (x ∷ t) (Memᴰ.tail (Memᴰ.head e)) = elim (Bool-cases (earlier x k)) [
    | inl before ↦ rw before (Memᴰ.head e)
    | inr after ↦ rw after (Memᴰ.tail (Memᴰ.head e))
  ]
  mem-insert k (x ∷ t) (Memᴰ.tail (Memᴰ.tail m)) = elim (Bool-cases (earlier x k)) [
    | inl before ↦ rw before (Memᴰ.tail (mem-insert k t (Memᴰ.tail m)))
    | inr after ↦ rw after (Memᴰ.tail (Memᴰ.tail m))
  ]

  pub mem-order_by : (t : Table) → Memᴰ j t → Memᴰ j (order_by t)
  unfolding order_by
  mem-order_by [] m = elim m [ ]
  mem-order_by (k ∷ t) (Memᴰ.head e) = mem-insert k (order_by t) (Memᴰ.head e)
  mem-order_by (k ∷ t) (Memᴰ.tail m) = mem-insert k (order_by t) (Memᴰ.tail (mem-order_by t m))

  pub mem-select :
      (p : AutomationJob → Bool) (t : Table) → Memᴰ j t → p j ≡ true → Memᴰ j (select p t)
  mem-select p [] m h = elim m [ ]
  mem-select p (k ∷ t) (Memᴰ.head e) h = rw (ap p (sym e) ∙ h) (Memᴰ.head e)
  mem-select p (k ∷ t) (Memᴰ.tail m) h = elim (Bool-cases (p k)) [
    | inl passes ↦ rw passes (Memᴰ.tail (mem-select p t m h))
    | inr fails ↦ rw fails (mem-select p t m h)
  ]

any-insert :
    (p : AutomationJob → Bool) (j : AutomationJob) (t : Table)
    → any p (insert j t) ≡ true
    → any p (j ∷ t) ≡ true
unfolding insert
any-insert p j [] h = h
any-insert p j (k ∷ t) h = ground (arith, any-insert p j t)

pub any-order_by :
    (p : AutomationJob → Bool) (t : Table) → any p (order_by t) ≡ true → any p t ≡ true
unfolding order_by
any-order_by p [] h = h
any-order_by p (j ∷ t) h = ground (arith, any-insert p j (order_by t), any-order_by p t)
