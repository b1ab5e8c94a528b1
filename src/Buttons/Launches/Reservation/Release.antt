-- ===== src/Buttons/Launches/Reservation/Release.antt =====
-- What `release` of app/api/workflow_buttons.py is for: it makes way for the next launch.
use b24_sinedis.Prelude.{
  ℕ, ◌+◌, ◌*◌, ◌≤◌, ◌≡◌, refl, true, false, not, ◌&&◌, Option, none, some, List, [], ◌∷◌, find, All,
  arith, Bool-cases, inl, inr, ◌==◌, comparable_ids,
}
use b24_sinedis.Settings.{second}
use b24_sinedis.Runtime.{ok}
use b24_sinedis.Buttons.Model.{WorkflowButton, WorkflowLaunch}
use b24_sinedis.Buttons.Launches.{
  LaunchRequest, has_request, button_for, can_launch, targets, is_open, must_wait, later, latest,
  reserved, new_launch, reserve, write_launch, release_by,
}
use b24_sinedis.Buttons.Launches.Reservation.{releases, step}

module _ (now cooldown button_id deal_id : ℕ) where
  abbrev IsFree : WorkflowLaunch → Type 0
  IsFree k = (targets button_id deal_id k && must_wait now cooldown (some k)) ≡ false

  later-free :
      (r : Option WorkflowLaunch) (l : WorkflowLaunch)
      → must_wait now cooldown (some l) ≡ false
      → must_wait now cooldown r ≡ false
      → must_wait now cooldown (some (later r l)) ≡ false
  later-free none l h k = h
  later-free (some r) l h k = ground arith

  latest-free :
      (ls : List WorkflowLaunch)
      → All IsFree ls
      → must_wait now cooldown (latest (targets button_id deal_id) ls) ≡ false
  unfolding latest
  latest-free [] a = refl
  latest-free (l ∷ ls) a = elim (Bool-cases (targets button_id deal_id l)) [
    | inl e ↦
        rw (e)
          (later-free (latest (targets button_id deal_id) ls) l (ground arith) (latest-free ls a.1))
    | inr e ↦ rw (e) (latest-free ls a.1)
  ]

released-has_request :
    (launch_id released_at admin_id portal_id request_id : ℕ) (ls : List WorkflowLaunch)
    → find (has_request portal_id request_id) ls ≡ none
    → find
        (has_request portal_id request_id)
        (write_launch launch_id (release_by released_at admin_id) ls)
      ≡ none
unfolding write_launch
released-has_request launch_id released_at admin_id portal_id request_id [] h = refl
released-has_request launch_id released_at admin_id portal_id request_id (l ∷ ls) h =
    ground (arith, released-has_request launch_id released_at admin_id portal_id request_id ls)

released-IsFree :
    (launch_id released_at admin_id now cooldown button_id deal_id : ℕ) (ls : List WorkflowLaunch)
    → All (λ l. (targets button_id deal_id l && is_open l && not (l.id == launch_id)) ≡ false) ls
    → All (λ l. l.created_at + cooldown * second ≤ now) ls
    → All
        (IsFree now cooldown button_id deal_id)
        (write_launch launch_id (release_by released_at admin_id) ls)
unfolding write_launch
released-IsFree launch_id released_at admin_id now cooldown button_id deal_id [] others cooled = tt
released-IsFree launch_id released_at admin_id now cooldown button_id deal_id (l ∷ ls) others
      cooled =
    let here = others.0 in
    let passed = cooled.0 in
    (
      elim (Bool-cases (l.id == launch_id)) [
        | inl e ↦ rw (e) (ground (arith, passed))
        | inr e ↦ rw (e) (ground (arith, here, passed, e))
      ],
      released-IsFree launch_id released_at admin_id now cooldown button_id deal_id ls others.1
          cooled.1,
    )

-- A blocked button is not blocked for ever: where no launch of the deal but the released one is open, the
-- next request of a user who may launch the button is reserved, once the cooldown of every launch has
-- passed. The request has an identifier of its own.
pub release_unblocks :
    (launch_id released_at admin_id id stamp now : ℕ) (q : LaunchRequest) (b : WorkflowButton)
    (buttons : List WorkflowButton) (ls : List WorkflowLaunch)
    → button_for q.portal_id q.field_name buttons ≡ some b
    → can_launch b.settings q.admin q.user_id ≡ true
    → find (has_request q.portal_id q.request_id) ls ≡ none
    → All (λ l. (targets b.id q.deal_id l && is_open l && not (l.id == launch_id)) ≡ false) ls
    → All (λ l. l.created_at + b.settings.cooldown_seconds * second ≤ now) ls
    → (reserve id stamp now q buttons (step (releases launch_id released_at admin_id) ls)).0
      ≡ ok (reserved (new_launch id stamp q b) b.settings)
unfolding reserve step
release_unblocks launch_id released_at admin_id id stamp now q b buttons ls found allowed fresh
      others cooled =
    let free =
      latest-free now b.settings.cooldown_seconds b.id q.deal_id
        (write_launch launch_id (release_by released_at admin_id) ls)
        (released-IsFree launch_id released_at admin_id now b.settings.cooldown_seconds b.id
          q.deal_id ls others cooled) in
    rw
      (
        found,
        allowed,
        released-has_request launch_id released_at admin_id q.portal_id q.request_id ls fresh,
        free,
      )
      refl
