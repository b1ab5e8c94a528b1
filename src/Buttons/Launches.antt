-- ===== src/Buttons/Launches.antt =====
-- The rows of app/api/workflow_buttons.py: what one locked transaction reads and writes. The lock on
-- the portal's row makes the guard of a launch and its reservation one step.
pub mod Reservation
use b24_sinedis.Prelude.{
  ℕ, ltb, leb, ◌+◌, ◌-◌, ◌*◌, String, Bool, true, false, not, ◌&&◌, ◌||◌, Option, none, some, List,
  [], ◌∷◌, ◌++◌, map, any, find, select, take, if◌then◌else◌, ◌==◌, comparable_ids,
  comparable_texts,
}
use b24_sinedis.Prelude.Text.{is_empty, length}
use b24_sinedis.Value.{Value, str}
use b24_sinedis.Settings.{second}
use b24_sinedis.Runtime.{Result, ok, raised}
use b24_sinedis.Bitrix.Exceptions.{http_exception}
use b24_sinedis.Buttons.Model.{
  ButtonSettings, WorkflowButton, LaunchStatus, starting, started, blocked, unknown, WorkflowLaunch,
}

-- button_for
abbrev pub is_button : ℕ → String → WorkflowButton → Bool
is_button portal_id name b = b.portal_id == portal_id && b.field_name == name

abbrev pub button_for : ℕ → String → List WorkflowButton → Option WorkflowButton
button_for portal_id name = find (is_button portal_id name)

-- The write of `save`: new settings for the button, or a new button.
unfoldable pub save_button :
    ℕ → ℕ → String → ButtonSettings → List WorkflowButton → List WorkflowButton
save_button new_id portal_id name settings buttons =
    if any (is_button portal_id name) buttons
    then map (λ b. if is_button portal_id name b then record b { settings = settings } else b)
        buttons
    else buttons
      ++ record { id = new_id; portal_id = portal_id; field_name = name; settings = settings } ∷ []

-- settings.enabled and (who.admin or who.user_id in settings.allowed_user_ids)
abbrev pub can_launch : ButtonSettings → Bool → ℕ → Bool
can_launch settings admin user_id =
    settings.enabled && (admin || any (λ n. n == user_id) settings.allowed_user_ids)

-- What the body of a launch and its actor say.
pub record LaunchRequest : Type 0 where
  pub portal_id : ℕ
  pub user_id : ℕ
  pub admin : Bool
  pub field_name : String
  pub deal_id : ℕ
  pub request_id : ℕ

abbrev pub has_request : ℕ → ℕ → WorkflowLaunch → Bool
has_request portal_id request_id l = l.portal_id == portal_id && l.request_id == request_id

abbrev pub is_same : ℕ → LaunchRequest → WorkflowLaunch → Bool
is_same button_id q l = l.button_id == button_id && l.deal_id == q.deal_id && l.user_id == q.user_id

-- the latest of the launches that pass, the first of those that are created at one instant
abbrev later : Option WorkflowLaunch → WorkflowLaunch → WorkflowLaunch
later none l = l
later (some k) l = if ltb l.created_at k.created_at then k else l

unfoldable pub latest : (WorkflowLaunch → Bool) → List WorkflowLaunch → Option WorkflowLaunch
latest p [] = none
latest p (l ∷ ls) = let rest = latest p ls in if p l then some (later rest l) else rest

abbrev pub is_pending : LaunchStatus → Bool
is_pending started = false
is_pending _ = true

abbrev pub is_none : {A : Type 0} → Option A → Bool
is_none none = true
is_none (some a) = false

-- released_at is None and status in {"starting", "unknown", "blocked"}
abbrev pub is_open : WorkflowLaunch → Bool
is_open l = is_none l.released_at && is_pending l.status

-- `created_at > now - cooldown`, which is later than a difference below the first instant
abbrev pub is_recent : ℕ → ℕ → WorkflowLaunch → Bool
is_recent now cooldown l = ltb now (l.created_at + cooldown * second)

abbrev pub must_wait : ℕ → ℕ → Option WorkflowLaunch → Bool
must_wait now cooldown none = false
must_wait now cooldown (some l) = is_open l || is_recent now cooldown l

abbrev pub targets : ℕ → ℕ → WorkflowLaunch → Bool
targets button_id deal_id l = l.button_id == button_id && l.deal_id == deal_id

-- What the guards of `launch` decide: an earlier launch is answered, or a row is reserved.
pub data Decision : Type 0 where
  again : WorkflowLaunch → Decision
  reserved : WorkflowLaunch → ButtonSettings → Decision

abbrev pub new_launch : ℕ → ℕ → LaunchRequest → WorkflowButton → WorkflowLaunch
new_launch id stamp q b = record {
  id = id;
  portal_id = q.portal_id;
  button_id = b.id;
  request_id = q.request_id;
  deal_id = q.deal_id;
  user_id = q.user_id;
  template_id = b.settings.template_id;
  status = starting;
  workflow_id = none;
  released_at = none;
  released_by = none;
  created_at = stamp;
}

module _ (id stamp now : ℕ) (q : LaunchRequest) (launches : List WorkflowLaunch) where
  abbrev pub decide_new : WorkflowButton → Result Decision
  decide_new b =
      if must_wait now b.settings.cooldown_seconds (latest (targets b.id q.deal_id) launches)
      then raised (http_exception 409)
      else ok (reserved (new_launch id stamp q b) b.settings)

  abbrev pub decide_with : WorkflowButton → Option WorkflowLaunch → Result Decision
  decide_with b (some previous) =
      if is_same b.id q previous then ok (again previous) else raised (http_exception 409)
  decide_with b none = decide_new b

  abbrev pub decide_for : Option WorkflowButton → Result Decision
  decide_for none = raised (http_exception 404)
  decide_for (some b) =
      if not (can_launch b.settings q.admin q.user_id)
      then raised (http_exception 403)
      else decide_with b (find (has_request q.portal_id q.request_id) launches)

-- session.add(record) and the commit
abbrev pub add_launch : Result Decision → List WorkflowLaunch → List WorkflowLaunch
add_launch (ok (reserved l settings)) launches = launches ++ l ∷ []
add_launch _ launches = launches

unfoldable pub reserve :
    ℕ
    → ℕ
    → ℕ
    → LaunchRequest
    → List WorkflowButton
    → List WorkflowLaunch
    → Result Decision × List WorkflowLaunch
unfolding latest
reserve id stamp now q buttons launches =
    let decision =
      decide_for id stamp now q launches (button_for q.portal_id q.field_name buttons) in
    (decision, add_launch decision launches)

-- What a result of `bizproc.workflow.start` makes of the row.
abbrev pub is_workflow_id : String → Bool
is_workflow_id s = not (is_empty s) && leb (length s) 100

abbrev pub started_with : Bool → String → WorkflowLaunch → WorkflowLaunch
started_with block s l = record l {
  workflow_id = some s;
  status = if block then blocked else started;
}

abbrev pub uncertain : WorkflowLaunch → WorkflowLaunch
uncertain l = record l { status = unknown }

abbrev pub conclude : Bool → Value → WorkflowLaunch → WorkflowLaunch
conclude block (str s) l = if is_workflow_id s then started_with block s l else uncertain l
conclude block _ l = uncertain l

-- The write of one row by its identifier.
unfoldable pub write_launch :
    ℕ → (WorkflowLaunch → WorkflowLaunch) → List WorkflowLaunch → List WorkflowLaunch
write_launch id f = map (λ l. if l.id == id then f l else l)

abbrev pub release_by : ℕ → ℕ → WorkflowLaunch → WorkflowLaunch
release_by now user_id l = record l { released_at = some now; released_by = some user_id }

-- the guards of `release`
abbrev pub found_launch : Option WorkflowLaunch → Result WorkflowLaunch
found_launch none = raised (http_exception 404)
found_launch (some l) = ok l

abbrev pub releasable : ℕ → WorkflowLaunch → Result WorkflowLaunch
releasable now l =
    if ltb now (l.created_at + 300 * second) then raised (http_exception 409) else ok l
