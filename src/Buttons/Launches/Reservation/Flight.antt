-- ===== src/Buttons/Launches/Reservation/Flight.antt =====
-- The rows of the requests of app/api/workflow_buttons.py that are under way.
use b24_sinedis.Prelude.{
  ℕ, ◌≡◌, refl, Bool, true, false, not, ◌&&◌, List, [], ◌∷◌, ◌++◌, any, select, All, arith,
  any-select, ◌==◌, comparable_ids, Bool-cases, inl, inr,
}
use b24_sinedis.Value.{Value, str}
use b24_sinedis.Buttons.Model.{starting, WorkflowLaunch}
use b24_sinedis.Buttons.Launches.{write_launch, conclude, release_by}
use b24_sinedis.Buttons.Launches.Reservation.Exclusive.{is_starting, once}

abbrev is_flying : List ℕ → ℕ → Bool
is_flying flight id = any (λ i. i == id) flight

-- The row of a request that is under way is starting.
abbrev pub AreStarting : List ℕ → List WorkflowLaunch → Type 0
AreStarting flight = All (λ l. (is_flying flight l.id && not (is_starting l.status)) ≡ false)

landed : (id : ℕ) (flight : List ℕ) → is_flying (select (λ i. not (i == id)) flight) id ≡ false
landed id [] = refl
landed id (i ∷ flight) = ground (arith, landed id flight)

-- A request that is under way writes a row that is starting.
pub write-once :
    (id : ℕ) (f : WorkflowLaunch → WorkflowLaunch) (flight : List ℕ) (ls : List WorkflowLaunch)
    → is_flying flight id ≡ true
    → AreStarting flight ls
    → write_launch id (once f) ls ≡ write_launch id f ls
unfolding write_launch
write-once id f flight [] h a = refl
write-once id f flight (l ∷ ls) h a = elim (Bool-cases (l.id == id)) [
  | inr e ↦ rw (e, write-once id f flight ls h a.1) refl
  | inl e ↦
      let same : l.id ≡ id = ground (arith, e) in
      let flies : is_flying flight l.id ≡ true = rw (same) h in
      let starts : is_starting l.status ≡ true = ground (arith, a.0, flies) in
      rw (e, starts, write-once id f flight ls h a.1) refl
]

pub AreStarting-landed :
    (id : ℕ) (f : WorkflowLaunch → WorkflowLaunch) (flight : List ℕ) (ls : List WorkflowLaunch)
    → ((l : WorkflowLaunch) → (f l).id ≡ l.id)
    → AreStarting flight ls
    → AreStarting (select (λ i. not (i == id)) flight) (write_launch id f ls)
unfolding write_launch
AreStarting-landed id f flight [] k a = tt
AreStarting-landed id f flight (l ∷ ls) k a = (
  elim (Bool-cases (l.id == id)) [
    | inl e ↦
        let same : (f l).id ≡ id = ground (arith, e, k l) in rw (e, same, landed id flight) refl
    | inr e ↦
        let still = any-select (λ i. i == l.id) (λ i. not (i == id)) flight in
        rw (e) (ground (arith, a.0, still))
  ],
  AreStarting-landed id f flight ls k a.1,
)

pub AreStarting-released :
    (id now user_id : ℕ) (flight : List ℕ) (ls : List WorkflowLaunch)
    → AreStarting flight ls
    → AreStarting flight (write_launch id (release_by now user_id) ls)
unfolding write_launch
AreStarting-released id now user_id flight [] a = tt
AreStarting-released id now user_id flight (l ∷ ls) a =
    (ground (arith, a.0), AreStarting-released id now user_id flight ls a.1)

-- A request that comes in has no row yet.
pub AreStarting-fresh :
    (id : ℕ) (flight : List ℕ) (ls : List WorkflowLaunch)
    → any (λ l. l.id == id) ls ≡ false
    → AreStarting flight ls
    → AreStarting (id ∷ flight) ls
AreStarting-fresh id flight [] h a = tt
AreStarting-fresh id flight (l ∷ ls) h a =
    (ground (arith, h, a.0), AreStarting-fresh id flight ls (ground (arith, h)) a.1)

pub AreStarting-added :
    (flight : List ℕ) (ls : List WorkflowLaunch) (n : WorkflowLaunch)
    → n.status ≡ starting
    → AreStarting flight ls
    → AreStarting flight (ls ++ n ∷ [])
AreStarting-added flight [] n h a =
    (elim (Bool-cases (is_flying flight n.id)) [ inl e ↦ rw (e, h) refl | inr e ↦ rw (e) refl ], tt)
AreStarting-added flight (l ∷ ls) n h a = (a.0, AreStarting-added flight ls n h a.1)

pub conclude-id :
    (block : Bool) (result : Value) (l : WorkflowLaunch) → (conclude block result l).id ≡ l.id
conclude-id block (str s) l = ground arith
conclude-id block _ l = refl
