-- ===== src/Buttons/Handlers/Launch.antt =====
-- `launch`, `journal` and `release` of app/api/workflow_buttons.py.
pub mod Refinement
pub mod Authority
use Prim.Native.String.{◌++◌}
use b24_sinedis.Prelude.{
  ℕ, suc, pos, ltb, String, not, ◌&&◌, Option, none, some, List, [], ◌∷◌, find, select, take,
  if◌then◌else◌, ◌==◌, comparable_ids, comparable_texts,
}
use b24_sinedis.Prelude.Text.{show_nat}
use b24_sinedis.Value.{obj, arr, str, int, Fields, field, end, nil, cons}
use b24_sinedis.Settings.{Settings}
use b24_sinedis.Runtime.{
  ok, raised, Env, Action, ◌>>=◌, ◌>>◌, pure, raise, lift, try_else, read_clock,
}
use b24_sinedis.Bitrix.Exceptions.{Failure, bitrix}
use b24_sinedis.Bitrix.Client.Call.{call}
use b24_sinedis.Bitrix.OAuth.Portal.{call_portal}
use b24_sinedis.Buttons.Model.{ButtonSettings, WorkflowButton, WorkflowLaunch}
use b24_sinedis.Buttons.Launches.{
  button_for, LaunchRequest, Decision, again, reserved, reserve, conclude, uncertain, write_launch,
  release_by, found_launch, releasable,
}
use b24_sinedis.Buttons.Handlers.{Actor, forbidden}

abbrev pub request_of : Actor → String → ℕ → ℕ → LaunchRequest
request_of who field_name deal_id request_id = record {
  portal_id = who.portal.id;
  user_id = who.user_id;
  admin = who.admin;
  field_name = field_name;
  deal_id = deal_id;
  request_id = request_id;
}

abbrev pub start_params : ℕ → ButtonSettings → Fields
start_params deal_id s = field "TEMPLATE_ID" (int (pos s.template_id)) (
    field "DOCUMENT_ID"
      (arr (
        cons (str "crm")
          (cons (str "CCrmDocumentDeal") (cons (str ("DEAL_" ++ show_nat deal_id)) nil))))
      (field "PARAMETERS" (obj s.parameters) end))

module _ (env : Env) (settings : Settings) where
  -- The locked reads, the guards, and the commit of the reservation. The row's time is now() of the
  -- database, the start of the transaction, which the actor's first read began. The clock is asked whatever
  -- the guards decide.
  unfoldable pub take_reservation : ℕ → ℕ → LaunchRequest → Action Decision
  take_reservation new_id began q w =
      let (decision, launches) =
        reserve new_id began (env.clock w.readings) q w.buttons w.launches in
      (decision, record w { launches = launches; readings = suc w.readings })

  -- record.… = …; await session.commit()
  unfoldable pub commit_launch : ℕ → (WorkflowLaunch → WorkflowLaunch) → Action (Unit {0})
  commit_launch id f w = (ok tt, record w { launches = write_launch id f w.launches })

  unfoldable pub finish : WorkflowLaunch → (WorkflowLaunch → WorkflowLaunch) → Action WorkflowLaunch
  finish l f = do commit_launch l.id f; pure (f l)

  -- except BitrixError; another exception leaves the row in the state starting
  abbrev pub on_start_failure : WorkflowLaunch → Failure → Action WorkflowLaunch
  on_start_failure l (bitrix e) = finish l uncertain
  on_start_failure l e = raise e

  unfoldable pub start_workflow :
      Actor → ℕ → WorkflowLaunch → ButtonSettings → Action WorkflowLaunch
  start_workflow who deal_id l s =
      try_else
        (call_portal env settings who.portal.id "bizproc.workflow.start" (start_params deal_id s))
        (on_start_failure l)
        (λ response. finish l (conclude s.block_until_released response.result))

  abbrev pub proceed : Actor → ℕ → Decision → Action WorkflowLaunch
  proceed who deal_id (again previous) = pure previous
  proceed who deal_id (reserved l s) = start_workflow who deal_id l s

  -- the check of the deal with the caller's token
  abbrev pub deny : Failure → Failure
  deny (bitrix e) = forbidden
  deny e = e

  unfoldable pub launch : ℕ → Actor → String → ℕ → ℕ → Action WorkflowLaunch
  launch new_id who field_name deal_id request_id =
      try_else (call env who.client "crm.deal.get" (field "id" (int (pos deal_id)) end))
        (λ e. raise (deny e))
        λ deal. (do
          decision ←
              take_reservation new_id who.began (request_of who field_name deal_id request_id)
          proceed who deal_id decision)

  -- the launch, in the actor's portal, under the lock of its row
  unfoldable pub find_launch : ℕ → ℕ → Action WorkflowLaunch
  find_launch portal_id launch_id w =
      (found_launch (find (λ l. l.id == launch_id && l.portal_id == portal_id) w.launches), w)

  unfoldable pub release : Actor → ℕ → Action (Unit {0})
  release who launch_id = if not who.admin then raise forbidden else (do
    l ← find_launch who.portal.id launch_id
    now ← read_clock env
    old ← lift (releasable now l)
    released_at ← read_clock env
    commit_launch l.id (release_by released_at who.user_id))

  -- ORDER BY created_at DESC
  unfoldable pub insert_launch : WorkflowLaunch → List WorkflowLaunch → List WorkflowLaunch
  insert_launch l [] = l ∷ []
  insert_launch l (k ∷ ks) =
      let rest = insert_launch l ks in
      if ltb l.created_at k.created_at then k ∷ rest else l ∷ k ∷ ks

  unfoldable pub newest_first : List WorkflowLaunch → List WorkflowLaunch
  unfolding insert_launch
  newest_first [] = []
  newest_first (l ∷ ls) = insert_launch l (newest_first ls)

  abbrev pub launches_of : Option WorkflowButton → List WorkflowLaunch → List WorkflowLaunch
  launches_of none launches = []
  launches_of (some b) launches =
      take 50 (newest_first (select (λ l. l.button_id == b.id) launches))

  unfoldable pub journal : Actor → String → Action (List WorkflowLaunch)
  journal who field_name w =
      if not who.admin
      then (raised forbidden, w)
      else (ok (launches_of (button_for who.portal.id field_name w.buttons) w.launches), w)
