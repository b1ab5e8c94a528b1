-- ===== src/Buttons/Scenarios.antt =====
-- One button of one deal: tests of app/api/workflow_buttons.py, and its theorems at concrete inputs.
use b24_sinedis.Prelude.{
  ℕ, pos, ◌≤◌, ◌&&◌, ◌+◌, ◌*◌, ◌⊎◌, find, ◌==◌, ◌≡◌, refl, true, false, none, some, List, [], ◌∷◌,
  ◌++◌, select, length, map, arith, comparable_ids,
}
use b24_sinedis.Prelude.Text
use b24_sinedis.Prelude.Text.{is_empty}
use b24_sinedis.Value.{str, int, field, end}
use b24_sinedis.Settings.{defaults, second}
use b24_sinedis.Runtime.{ok, raised, Env, World, ◌>>=◌, try_else, pure, raise, lift}
use b24_sinedis.Runtime.Samples.{willing, portal, world}
use b24_sinedis.Bitrix.Exceptions.{http_exception}
use b24_sinedis.Bitrix.Client.Call.{call}
use b24_sinedis.Buttons.Model.{
  ButtonSettings, WorkflowButton, starting, started, blocked, unknown, WorkflowLaunch,
}
use b24_sinedis.Buttons.Launches.{
  LaunchRequest, has_request, reserve, write_launch, targets, is_open, reserved, new_launch,
}
use b24_sinedis.Buttons.Launches.Reservation.{
  Step, reserves, concludes, fails, releases, step, steps,
}
use b24_sinedis.Buttons.Launches.Reservation.Trace.{steps_exclusive}
use b24_sinedis.Buttons.Launches.Reservation.Requests.{steps_unrepeated}
use b24_sinedis.Buttons.Launches.Reservation.Release.{release_unblocks}
use b24_sinedis.Buttons.Limits.{validated}
use b24_sinedis.Buttons.Handlers.{Actor}
use b24_sinedis.Buttons.Handlers.Launch.{
  launch, take_reservation, start_workflow, finish, commit_launch, release, request_of,
}
use b24_sinedis.Bitrix.OAuth.Portal.{call_portal}
use b24_sinedis.Buttons.Handlers.Launch.Refinement.{returns, IsReserved, launch_refines}
use b24_sinedis.Buttons.Handlers.Launch.Authority.{release_refines}

abbrev button_settings : ButtonSettings
button_settings = record {
  label = "Run";
  template_id = 5;
  parameters = end;
  allowed_user_ids = 7 ∷ 3 ∷ 7 ∷ [];
  color = "#2563eb";
  width = 240;
  height = 40;
  enabled = true;
  confirm = true;
  cooldown_seconds = 30;
  block_until_released = false;
}

abbrev button : WorkflowButton
button = record {
  id = 1;
  portal_id = portal.id;
  field_name = "UF_CRM_RUN";
  settings = button_settings;
}

abbrev user : Actor
user = record {
  began = 100;
  portal = portal;
  user_id = 3;
  admin = false;
  client = record { endpoint = "https://portal.example/rest/"; access_token = "caller" };
}

abbrev ask : ℕ → LaunchRequest
ask request_id = request_of user "UF_CRM_RUN" 9 request_id

users_are_sorted :
    validated (λ d. 2) button_settings
    ≡ some (record button_settings { allowed_user_ids = 3 ∷ 7 ∷ [] })
unfolding validated
users_are_sorted = refl

abbrev launched : WorkflowLaunch
launched = record {
  id = 1;
  portal_id = portal.id;
  button_id = 1;
  request_id = 11;
  deal_id = 9;
  user_id = 3;
  template_id = 5;
  status = started;
  workflow_id = some "w";
  released_at = none;
  released_by = none;
  created_at = 100;
}

abbrev pressed : World
pressed = record (world []) { buttons = button ∷ []; launches = launched ∷ [] }

cooled_down :
    (reserve 2 (40 * second) (40 * second) (ask 12) (button ∷ []) (launched ∷ [])).0
    ≡ ok (
        reserved
          (record launched {
            id = 2;
            request_id = 12;
            status = starting;
            workflow_id = none;
            created_at = 40 * second;
          })
          button_settings)
unfolding reserve
cooled_down = refl

too_soon :
    (reserve 2 (20 * second) (20 * second) (ask 12) (button ∷ []) (launched ∷ [])).0
    ≡ raised (http_exception 409)
unfolding reserve
too_soon = refl

abbrev events : List Step
events =
    reserves 1 100 100 (ask 11) (button ∷ [])
    ∷ concludes 1 false (str "w")
    ∷ reserves 2 (40 * second) (40 * second) (ask 12) (button ∷ [])
    ∷ fails 2
    ∷ reserves 3 (90 * second) (90 * second) (ask 13) (button ∷ [])
    ∷ []

statuses : map (λ l. l.status) (steps events []) ≡ started ∷ unknown ∷ []
unfolding steps step is_empty Text.length
statuses = refl

steps_exclusive_example : length (select (λ l. targets 1 9 l && is_open l) (steps events [])) ≤ 1
unfolding step steps is_empty Text.length
steps_exclusive_example =
    steps_exclusive events 1 9
      ((refl, omega arith), (refl, ((refl, omega arith), (refl, ((refl, omega arith), tt)))))

-- The second request is slow: its transaction began before that of the first one, and it reserves when
-- the cooldown of the first one has passed. The third one takes the first row, which is closed, for the
-- latest by the time of its transaction, and two launches of the deal are open.
abbrev slow : List Step
slow =
    reserves 1 (100 * second) (101 * second) (ask 11) (button ∷ [])
    ∷ concludes 1 false (str "w")
    ∷ reserves 2 (99 * second) (140 * second) (ask 12) (button ∷ [])
    ∷ reserves 3 (180 * second) (180 * second) (ask 13) (button ∷ [])
    ∷ []

two_open : length (select (λ l. targets 1 9 l && is_open l) (steps slow [])) ≡ 2
unfolding steps step is_empty Text.length
two_open = refl

steps_unrepeated_example :
    length (select (has_request portal.id 11) (steps (events ++ events) [])) ≤ 1
steps_unrepeated_example = steps_unrepeated (events ++ events) portal.id 11

abbrev idle : World
idle = record (world []) { buttons = button ∷ [] }

launched_once :
    map (λ l. l.status) (launch willing defaults 2 user "UF_CRM_RUN" 9 12 idle).1.launches
    ≡ unknown ∷ []
unfolding launch take_reservation reserve start_workflow finish commit_launch write_launch
    call_portal call ◌>>=◌ lift raise pure try_else is_empty Text.length
launched_once = refl

launch_refines_example :
    let (r, w') = launch willing defaults 2 user "UF_CRM_RUN" 9 12 idle in
    let readable =
      returns (call willing user.client "crm.deal.get" (field "id" (int (pos 9)) end) idle).0 in
    ((readable ≡ false) × (returns r ≡ false) × (w'.launches ≡ []))
    ⊎ ((readable ≡ true)
        × IsReserved willing defaults 2 user "UF_CRM_RUN" 9 12 (button ∷ []) [] r w'.launches)
launch_refines_example = launch_refines willing defaults 2 user "UF_CRM_RUN" 9 12 idle

abbrev admin : Actor
admin = record user { user_id = 7; admin = true }

abbrev later : Env
later = record willing { clock = λ n. 400 * second }

release_refines_example :
    let (r, w') = release later defaults admin 1 pressed in
    ((returns r ≡ false) × (w'.launches ≡ launched ∷ []))
    ⊎ ((returns r ≡ true)
        × (true ≡ true)
        × (l : WorkflowLaunch) × (find (λ l. l.id == 1 && l.portal_id == portal.id) (launched ∷ [])
            ≡ some l)
        × (l.created_at + 300 * second ≤ 400 * second)
        × (w'.launches ≡ step (releases 1 (400 * second) 7) (launched ∷ [])))
release_refines_example = release_refines later defaults admin 1 pressed

abbrev stuck : WorkflowLaunch
stuck = record launched { status = blocked }

refused_while_blocked :
    (reserve 2 (40 * second) (40 * second) (ask 12) (button ∷ []) (stuck ∷ [])).0
    ≡ raised (http_exception 409)
unfolding reserve
refused_while_blocked = refl

release_unblocks_example :
    (reserve 2
      (40 * second)
      (40 * second)
      (ask 12)
      (button ∷ [])
      (step (releases 1 (35 * second) 7) (stuck ∷ []))).0
    ≡ ok (reserved (new_launch 2 (40 * second) (ask 12) button) button_settings)
release_unblocks_example =
    release_unblocks 1 (35 * second) 7 2 (40 * second) (40 * second) (ask 12) button (button ∷ [])
      (stuck ∷ []) refl refl refl (refl, tt) (omega arith, tt)
