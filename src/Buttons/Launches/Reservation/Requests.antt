-- ===== src/Buttons/Launches/Reservation/Requests.antt =====
-- The rows of one request of app/api/workflow_buttons.py that is sent again and again.
use b24_sinedis.Prelude.{
  ℕ, ◌+◌, ◌≤◌, ◌≡◌, refl, Bool, Option, none, some, List, [], ◌∷◌, ◌++◌, find, select, length,
  arith, if◌then◌else◌, Bool-cases, inl, inr, comparable_ids,
}
use b24_sinedis.Value.{Value, str}
use b24_sinedis.Buttons.Model.{WorkflowButton, WorkflowLaunch}
use b24_sinedis.Buttons.Launches.{
  LaunchRequest, has_request, decide_for, decide_with, decide_new, add_launch, new_launch,
  button_for, can_launch, is_same, must_wait, latest, targets, conclude, uncertain, release_by,
  write_launch,
}
use b24_sinedis.Buttons.Launches.Reservation.{
  Step, reserves, concludes, fails, releases, step, steps,
}

module _ (portal_id request_id : ℕ) where
  abbrev sent_for : WorkflowLaunch → Bool
  sent_for = has_request portal_id request_id

  abbrev rows_of : List WorkflowLaunch → ℕ
  rows_of ls = length (select sent_for ls)

  none_found : (ls : List WorkflowLaunch) → find sent_for ls ≡ none → rows_of ls ≤ 0
  none_found [] h = omega arith
  none_found (l ∷ ls) h = ground (arith, none_found ls)

  one_more :
      (n : WorkflowLaunch) (ls : List WorkflowLaunch)
      → rows_of (ls ++ n ∷ []) ≡ rows_of ls + (if sent_for n then 1 else 0)
  one_more n [] = ground arith
  one_more n (l ∷ ls) = ground (arith, one_more n ls)

  -- A write keeps what a row was sent for.
  written_alike :
      (id : ℕ) (f : WorkflowLaunch → WorkflowLaunch)
      → ((l : WorkflowLaunch) → sent_for (f l) ≡ sent_for l)
      → (ls : List WorkflowLaunch) → rows_of (write_launch id f ls) ≡ rows_of ls
  unfolding write_launch
  written_alike id f k [] = refl
  written_alike id f k (l ∷ ls) = ground (arith, k l, written_alike id f k ls)

  conclude_alike :
      (block : Bool) (result : Value) (l : WorkflowLaunch)
      → sent_for (conclude block result l) ≡ sent_for l
  conclude_alike block (str s) l = ground arith
  conclude_alike block _ l = refl

  module _ (id stamp now : ℕ) (q : LaunchRequest) (ls : List WorkflowLaunch)
      (one : rows_of ls ≤ 1) where
    new_one :
        (b : WorkflowButton)
        → find (has_request q.portal_id q.request_id) ls ≡ none
        → rows_of (add_launch (decide_new id stamp now q ls b) ls) ≤ 1
    new_one b fresh =
        elim (Bool-cases
          (must_wait now b.settings.cooldown_seconds (latest (targets b.id q.deal_id) ls))) [
            | inl e ↦ rw (e) one
            | inr e ↦ rw (e) (added (new_launch id stamp q b) refl refl)
          ]
      where
        added :
            (n : WorkflowLaunch)
            → n.portal_id ≡ q.portal_id
            → n.request_id ≡ q.request_id
            → rows_of (ls ++ n ∷ []) ≤ 1
        added n p r = elim (Bool-cases (sent_for n)) [
          | inr e ↦ rw (one_more n ls, e) (omega (arith, one))
          | inl e ↦
              let here : q.portal_id ≡ portal_id = ground (arith, e, p) in
              let this : q.request_id ≡ request_id = ground (arith, e, r) in
              let empty = none_found ls (rw (here, this) at fresh) in
              rw (one_more n ls, e) (omega (arith, empty))
        ]

    with_one :
        (b : WorkflowButton) (o : Option WorkflowLaunch)
        → find (has_request q.portal_id q.request_id) ls ≡ o
        → rows_of (add_launch (decide_with id stamp now q ls b o) ls) ≤ 1
    with_one b none e = new_one b e
    with_one b (some l) e = elim (Bool-cases (is_same b.id q l)) [
      | inl s ↦ rw (s) one
      | inr s ↦ rw (s) one
    ]

    for_one :
        (o : Option WorkflowButton) → rows_of (add_launch (decide_for id stamp now q ls o) ls) ≤ 1
    for_one none = one
    for_one (some b) = elim (Bool-cases (can_launch b.settings q.admin q.user_id)) [
      | inl e ↦ rw (e) (with_one b (find (has_request q.portal_id q.request_id) ls) refl)
      | inr e ↦ rw (e) one
    ]

  step_one : (s : Step) (ls : List WorkflowLaunch) → rows_of ls ≤ 1 → rows_of (step s ls) ≤ 1
  unfolding step
  step_one (reserves id stamp now q buttons) ls one =
      for_one id stamp now q ls one (button_for q.portal_id q.field_name buttons)
  step_one (concludes id block result) ls one =
      rw (written_alike id (conclude block result) (conclude_alike block result) ls) one
  step_one (fails id) ls one = rw (written_alike id uncertain (λ l. refl) ls) one
  step_one (releases id now user_id) ls one =
      rw (written_alike id (release_by now user_id) (λ l. refl) ls) one

  one_from :
      (ss : List Step) (ls : List WorkflowLaunch) → rows_of ls ≤ 1 → rows_of (steps ss ls) ≤ 1
  unfolding steps
  one_from [] ls one = one
  one_from (s ∷ ss) ls one = one_from ss (step s ls) (step_one s ls one)

-- Whatever the requests, their order and the answers of the portal, a portal has at most one launch with
-- a request identifier: a request that is sent again, by any user and for any button or deal, adds no row.
pub steps_unrepeated :
    (ss : List Step) (portal_id request_id : ℕ)
    → length (select (has_request portal_id request_id) (steps ss [])) ≤ 1
steps_unrepeated ss portal_id request_id = one_from portal_id request_id ss [] (omega arith)
