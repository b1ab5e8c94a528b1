-- ===== src/Buttons/Launches/Reservation/Trace.antt =====
-- The order of the launches along the steps of the requests of app/api/workflow_buttons.py.
use mathlib.Core.Path.{subst}
use b24_sinedis.Prelude.{
  ℕ, ◌≤◌, ◌≡◌, refl, Bool, true, false, not, ◌&&◌, Option, none, some, List, [], ◌∷◌, any, find,
  select, length, arith, Bool-cases, inl, inr, ◌==◌, comparable_ids,
}
use b24_sinedis.Buttons.Model.{WorkflowButton, WorkflowLaunch}
use b24_sinedis.Buttons.Launches.{
  LaunchRequest, write_launch, conclude, uncertain, release_by, targets, is_open, must_wait, latest,
  decide_for, decide_with, decide_new, add_launch, new_launch, button_for, can_launch, is_same,
  has_request,
}
use b24_sinedis.Buttons.Launches.Reservation.{
  Step, reserves, concludes, fails, releases, step, steps, in_flight, IsPrompt, IsAllowed,
  AreAllowed,
}
use b24_sinedis.Buttons.Launches.Reservation.Serial.{IsSerial, IsOrdered, none_open, stamped_later}
use b24_sinedis.Buttons.Launches.Reservation.Exclusive.{
  IsSerial-added, IsOrdered-added, IsSerial-written, IsOrdered-written, IsMild, IsMild-at,
  IsMild-release_by, IsMild-uncertain, IsMild-conclude, once,
}
use b24_sinedis.Buttons.Launches.Reservation.Flight.{
  AreStarting, write-once, AreStarting-landed, AreStarting-released, AreStarting-fresh,
  AreStarting-added, conclude-id,
}

abbrev IsClear : List ℕ → List WorkflowLaunch → Type 0
IsClear flight ls = IsSerial ls × IsOrdered ls × AreStarting flight ls

module _ (id stamp now : ℕ) (q : LaunchRequest) (flight : List ℕ) (ls : List WorkflowLaunch)
    (clear : IsClear (id ∷ flight) ls) where
  abbrev IsClearWith : List WorkflowLaunch → Type 0
  IsClearWith = IsClear (id ∷ flight)

  new-IsClear :
      (b : WorkflowButton)
      → IsPrompt stamp now (some b)
      → IsClearWith (add_launch (decide_new id stamp now q ls b) ls)
  new-IsClear b prompt =
      elim (Bool-cases
        (must_wait now b.settings.cooldown_seconds (latest (targets b.id q.deal_id) ls))) [
          | inl e ↦ rw (e) clear
          | inr e ↦
              let n = new_launch id stamp q b in
              rw (e) (
                IsSerial-added n ls clear.0
                    (none_open b.id q.deal_id now b.settings.cooldown_seconds ls clear.0 clear.1 e),
                IsOrdered-added n ls clear.1 (
                    stamped_later (targets b.id q.deal_id) now b.settings.cooldown_seconds stamp ls
                      e prompt),
                AreStarting-added (id ∷ flight) ls n refl clear.2,
              )
        ]

  with-IsClear :
      (b : WorkflowButton)
      → IsPrompt stamp now (some b)
      → (o : Option WorkflowLaunch)
      → IsClearWith (add_launch (decide_with id stamp now q ls b o) ls)
  with-IsClear b prompt none = new-IsClear b prompt
  with-IsClear b prompt (some l) = elim (Bool-cases (is_same b.id q l)) [
    | inl e ↦ rw (e) clear
    | inr e ↦ rw (e) clear
  ]

  for-IsClear :
      (o : Option WorkflowButton)
      → IsPrompt stamp now o
      → IsClearWith (add_launch (decide_for id stamp now q ls o) ls)
  for-IsClear none prompt = clear
  for-IsClear (some b) prompt = elim (Bool-cases (can_launch b.settings q.admin q.user_id)) [
    | inl e ↦ rw (e) (with-IsClear b prompt (find (has_request q.portal_id q.request_id) ls))
    | inr e ↦ rw (e) clear
  ]

abbrev IsPlaced : List WorkflowLaunch → Type 0
IsPlaced ls = IsSerial ls × IsOrdered ls

written-IsPlaced :
    (id : ℕ) (f : WorkflowLaunch → WorkflowLaunch) (ls : List WorkflowLaunch)
    → IsMild f
    → IsPlaced ls
    → IsPlaced (write_launch id f ls)
unfolding write_launch
written-IsPlaced id f ls mild placed =
    let at = IsMild-at id f mild in
    (IsSerial-written _ at ls placed.0, IsOrdered-written _ at ls placed.1)

-- A request writes the outcome of its row.
landed-IsClear :
    (id : ℕ) (f : WorkflowLaunch → WorkflowLaunch) (flight : List ℕ) (ls : List WorkflowLaunch)
    → IsMild (once f)
    → ((l : WorkflowLaunch) → (f l).id ≡ l.id)
    → any (λ i. i == id) flight ≡ true
    → IsClear flight ls
    → IsClear (select (λ i. not (i == id)) flight) (write_launch id f ls)
landed-IsClear id f flight ls mild keeps flies clear =
    let placed : IsPlaced (write_launch id f ls) =
      subst IsPlaced (write-once id f flight ls flies clear.2)
        (written-IsPlaced id (once f) ls mild (clear.0, clear.1)) in
    (placed.0, placed.1, AreStarting-landed id f flight ls keeps clear.2)

step-IsClear :
    (s : Step) (flight : List ℕ) (ls : List WorkflowLaunch)
    → IsAllowed s flight ls
    → IsClear flight ls
    → IsClear (in_flight s flight) (step s ls)
unfolding step
step-IsClear (reserves id stamp now q buttons) flight ls allowed clear =
    let ready : IsClear (id ∷ flight) ls =
      (clear.0, clear.1, AreStarting-fresh id flight ls allowed.0 clear.2) in
    for-IsClear id stamp now q flight ls ready (button_for q.portal_id q.field_name buttons)
      allowed.1
step-IsClear (concludes id block result) flight ls allowed clear =
    landed-IsClear id (conclude block result) flight ls (IsMild-conclude block result)
      (conclude-id block result) allowed clear
step-IsClear (fails id) flight ls allowed clear =
    landed-IsClear id uncertain flight ls IsMild-uncertain (λ l. refl) allowed clear
step-IsClear (releases id now user_id) flight ls allowed clear =
    let placed =
      written-IsPlaced id (release_by now user_id) ls (IsMild-release_by now user_id)
        (clear.0, clear.1) in
    (placed.0, placed.1, AreStarting-released id now user_id flight ls clear.2)

steps-IsSerial :
    (ss : List Step) (flight : List ℕ) (ls : List WorkflowLaunch)
    → AreAllowed ss flight ls
    → IsClear flight ls
    → IsSerial (steps ss ls)
unfolding steps
steps-IsSerial [] flight ls a clear = clear.0
steps-IsSerial (s ∷ ss) flight ls a clear =
    steps-IsSerial ss (in_flight s flight) (step s ls) a.1 (step-IsClear s flight ls a.0 clear)

module _ (b d : ℕ) where
  abbrev is_open_here : WorkflowLaunch → Bool
  is_open_here l = targets b d l && is_open l

  none_left :
      (ls : List WorkflowLaunch)
      → any (targets b d) ls ≡ false
      → length (select is_open_here ls) ≤ 0
  none_left [] h = omega arith
  none_left (l ∷ ls) h = ground (arith, none_left ls)

  one_at_most : (ls : List WorkflowLaunch) → IsSerial ls → length (select is_open_here ls) ≤ 1
  one_at_most [] s = omega arith
  one_at_most (l ∷ ls) s = elim (Bool-cases (is_open_here l)) [
    | inl e ↦
        let one : l.button_id ≡ b = ground (arith, e) in
        let two : l.deal_id ≡ d = ground (arith, e) in
        let alone : any (targets l.button_id l.deal_id) ls ≡ false = ground (arith, s.0, e) in
        let zero : length (select is_open_here ls) ≤ 0 = none_left ls (rw (← one, ← two) alone) in
        rw (e) (omega (arith, zero))
    | inr e ↦ rw (e) (one_at_most ls s.1)
  ]

-- Whatever the requests, their order and the answers of the portal, at most one launch of a deal by a
-- button is open (unreleased and starting, unknown or blocked) at a time. Each request writes the outcome
-- of its own row once, each row has an identifier of its own, and each request for a button reads the
-- clock before the cooldown of the button has passed from the start of its transaction, which is the time
-- of its row.
pub steps_exclusive :
    (ss : List Step) (button_id deal_id : ℕ)
    → AreAllowed ss [] []
    → length (select (λ l. targets button_id deal_id l && is_open l) (steps ss [])) ≤ 1
steps_exclusive ss button_id deal_id a =
    one_at_most button_id deal_id (steps ss []) (steps-IsSerial ss [] [] a (tt, tt, tt))
