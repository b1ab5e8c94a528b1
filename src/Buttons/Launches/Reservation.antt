-- ===== src/Buttons/Launches/Reservation.antt =====
-- The rows of the launches over any interleaving of the requests of app/api/workflow_buttons.py: each
-- reservation, conclusion and release is one transaction.
pub mod Serial
pub mod Exclusive
pub mod Flight
pub mod Trace
pub mod Release
pub mod Requests
use b24_sinedis.Prelude.{
  ℕ, ◌+◌, ◌*◌, ◌<◌, ◌≡◌, Bool, true, false, not, Option, none, some, List, [], ◌∷◌, any, select,
  ◌==◌, comparable_ids,
}
use b24_sinedis.Value.{Value}
use b24_sinedis.Settings.{second}
use b24_sinedis.Buttons.Model.{WorkflowButton, WorkflowLaunch}
use b24_sinedis.Buttons.Launches.{
  LaunchRequest, reserve, write_launch, conclude, uncertain, release_by, button_for,
}

pub data Step : Type 0 where
  reserves : (id stamp now : ℕ) (q : LaunchRequest) (buttons : List WorkflowButton) → Step
  concludes : (id : ℕ) (block : Bool) (result : Value) → Step
  fails : (id : ℕ) → Step
  releases : (id now user_id : ℕ) → Step

unfoldable pub step : Step → List WorkflowLaunch → List WorkflowLaunch
unfolding reserve write_launch
step (reserves id stamp now q buttons) ls = (reserve id stamp now q buttons ls).1
step (concludes id block result) ls = write_launch id (conclude block result) ls
step (fails id) ls = write_launch id uncertain ls
step (releases id now user_id) ls = write_launch id (release_by now user_id) ls

unfoldable pub steps : List Step → List WorkflowLaunch → List WorkflowLaunch
steps [] ls = ls
steps (s ∷ ss) ls = steps ss (step s ls)

-- The requests that have reserved a row, or tried to, and not written its outcome yet, by the row's
-- identifier.
abbrev pub in_flight : Step → List ℕ → List ℕ
in_flight (reserves id stamp now q buttons) flight = id ∷ flight
in_flight (concludes id block result) flight = select (λ i. not (i == id)) flight
in_flight (fails id) flight = select (λ i. not (i == id)) flight
in_flight (releases id now user_id) flight = flight

-- The reservation comes within the cooldown of its button from the start of its transaction.
abbrev pub IsPrompt : ℕ → ℕ → Option WorkflowButton → Type 0
IsPrompt stamp now none = Unit
IsPrompt stamp now (some b) = now < stamp + b.settings.cooldown_seconds * second

-- A new row has an identifier of its own, and a request writes the outcome of its row once.
abbrev pub IsAllowed : Step → List ℕ → List WorkflowLaunch → Type 0
IsAllowed (reserves id stamp now q buttons) flight ls =
    (any (λ l. l.id == id) ls ≡ false)
    × IsPrompt stamp now (button_for q.portal_id q.field_name buttons)
IsAllowed (concludes id block result) flight ls = any (λ i. i == id) flight ≡ true
IsAllowed (fails id) flight ls = any (λ i. i == id) flight ≡ true
IsAllowed (releases id now user_id) flight ls = Unit

abbrev pub AreAllowed : List Step → List ℕ → List WorkflowLaunch → Type 0
AreAllowed [] flight ls = Unit
AreAllowed (s ∷ ss) flight ls =
    IsAllowed s flight ls × AreAllowed ss (in_flight s flight) (step s ls)
