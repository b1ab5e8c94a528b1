-- ===== src/Buttons/Handlers.antt =====
-- The handlers of app/api/workflow_buttons.py. An HTTPException is `http_exception`; the shape of a
-- body is the framework's; the limits of the settings are in Buttons.Limits.
pub mod Launch
use Prim.Native.String.{◌++◌}
use b24_sinedis.Prelude.{
  ℕ, suc, ℤ, pos, negsuc, leb, ltb, String, Bool, true, false, not, ◌&&◌, ◌||◌, Option, none, some,
  List, [], ◌∷◌, find, any, all, if◌then◌else◌, ◌==◌, comparable_ids, comparable_texts,
}
use b24_sinedis.Prelude.Text.{show_nat}
use b24_sinedis.Prelude.Int.{is_positive}
use b24_sinedis.Value.{
  Value, obj, arr, str, int, float, bool, null, Fields, field, end, Items, nil, cons, get, of_list,
}
use b24_sinedis.Settings.{Settings}
use b24_sinedis.Portals.{BitrixPortal, is_active}
use b24_sinedis.Runtime.{
  Result, ok, raised, Env, World, Action, ◌>>=◌, ◌>>◌, pure, raise, lift, try_else, read_clock,
}
use b24_sinedis.Runtime.Integers.{int_of_value}
use b24_sinedis.Bitrix.Exceptions.{
  Failure, bitrix, key_error, value_error, type_error, attribute_error, http_exception,
}
use b24_sinedis.Bitrix.Client.Call.{BitrixClient, BitrixResponse, new_client, call}
use b24_sinedis.Bitrix.OAuth.Portal.{call_portal}
use b24_sinedis.Bitrix.Registration.Service.{user_type_id}
use b24_sinedis.Buttons.Model.{ButtonSettings, WorkflowButton, LaunchStatus, WorkflowLaunch}
use b24_sinedis.Buttons.Launches.{
  button_for, save_button, can_launch, LaunchRequest, Decision, again, reserved, reserve, conclude,
  uncertain, write_launch, release_by, releasable, is_button,
}
use b24_sinedis.Robots.Payload.{text_of}

pub record Actor : Type 0 where
  -- the start of the transaction of the request's session, which stays open until its first commit
  pub began : ℕ
  pub portal : BitrixPortal
  pub user_id : ℕ
  pub admin : Bool
  pub client : BitrixClient

abbrev pub forbidden : Failure
forbidden = http_exception 403

-- not value, negated
abbrev pub is_truthy : Value → Bool
is_truthy null = false
is_truthy (bool b) = b
is_truthy (int (pos n)) = ltb 0 n
is_truthy (int (negsuc n)) = true
is_truthy (float (pos n)) = ltb 0 n
is_truthy (float (negsuc n)) = true
is_truthy (str s) = not (s == "")
is_truthy (arr nil) = false
is_truthy (arr (cons v vs)) = true
is_truthy (obj end) = false
is_truthy (obj (field k v d)) = true

-- value.get(key), where the value may have no `get`
abbrev pub get_of : String → Value → Result (Option Value)
get_of key (obj d) = ok (get key d)
get_of key _ = raised attribute_error

-- value[key] with a text as the key
abbrev pub item_at : String → Value → Result Value
item_at key (obj d) = elim (get key d) [ none ↦ raised key_error | some v ↦ ok v ]
item_at key _ = raised type_error

-- str(value), None included
abbrev pub printed : (Value → String) → Option Value → String
printed show none = show null
printed show (some v) = text_of show v

abbrev pub same_application : (Value → String) → Option Value → Option Value → Result Bool
same_application show none other = raised forbidden
same_application show (some id) other =
    if not (is_truthy id) || not (printed show (some id) == printed show other)
    then raised forbidden
    else ok true

abbrev pub positive_user : ℤ → Result ℕ
positive_user (pos n) = if ltb 0 n then ok n else raised forbidden
positive_user (negsuc n) = raised forbidden

abbrev pub is_true : Value → Bool
is_true (bool b) = b
is_true _ = false

-- except (BitrixError, KeyError, ValueError, TypeError, AttributeError)
abbrev pub as_forbidden : Failure → Failure
as_forbidden (bitrix e) = forbidden
as_forbidden key_error = forbidden
as_forbidden value_error = forbidden
as_forbidden type_error = forbidden
as_forbidden attribute_error = forbidden
as_forbidden e = e

module _ (env : Env) (settings : Settings) where
  abbrev identify : ℕ → BitrixPortal → BitrixClient → Action Actor
  identify began portal client = do
    info ← call env client "app.info" end
    installed ← call_portal env settings portal.id "app.info" end
    mine ← lift (get_of "ID" info.result)
    theirs ← lift (get_of "ID" installed.result)
    same ← lift (same_application env.show mine theirs)
    profile ← call env client "profile" end
    admin ← call env client "user.admin" end
    id ← lift (item_at "ID" profile.result)
    number ← lift (int_of_value id)
    user_id ← lift (positive_user number)
    pure (record {
      began = began;
      portal = portal;
      user_id = user_id;
      admin = is_true admin.result;
      client = client;
    })

  abbrev active_row : Option BitrixPortal → Result BitrixPortal
  active_row none = raised forbidden
  active_row (some portal) = ok portal

  -- WHERE member_id = … AND status = 'active'
  unfoldable pub portal_of : String → Action BitrixPortal
  portal_of member_id w =
      (active_row (find (λ p. p.member_id == member_id && is_active p.status) w.portals), w)

  -- The first statement of the request's session begins its transaction.
  unfoldable pub begin : Action ℕ
  begin w = (ok (env.database_clock w.transactions), record w { transactions = suc w.transactions })

  unfoldable pub actor : String → String → Action Actor
  actor member_id access_token =
      if not settings.workflow_buttons_enabled then raise (http_exception 404) else (do
        began ← begin
        portal ← portal_of member_id
        client ← lift (new_client env portal.client_endpoint access_token)
        try_else (identify began portal client) (λ e. raise (as_forbidden e)) pure)

  abbrev names_field : String → Fields → Bool
  names_field field_name item = elim (get "FIELD_NAME" item) [
    | some (str s) ↦ s == field_name
    | _ ↦ false
  ]

  abbrev pub has_type : Items → Bool
  has_type nil = false
  has_type (cons (obj entry) vs) = elim (get "USER_TYPE_ID" entry) [
    | some (str s) ↦ s == user_type_id || has_type vs
    | _ ↦ has_type vs
  ]
  has_type (cons v vs) = has_type vs

  abbrev registers_type : Value → Bool
  registers_type (arr vs) = has_type vs
  registers_type _ = false

  abbrev type_of : Fields → String
  type_of item = elim (get "USER_TYPE_ID" item) [ some (str s) ↦ s | _ ↦ "" ]

  -- The fields that are listed, in their order: the first that belongs to the application ends the search.
  unfoldable pub search_fields : ℕ → String → String → Items → Action Bool
  search_fields portal_id field_name expected nil = pure false
  search_fields portal_id field_name expected (cons (obj item) vs) =
      if not (names_field field_name item)
      then search_fields portal_id field_name expected vs
      else if type_of item == expected
      then pure true
      else if type_of item == user_type_id
      then (do
        registered ← call_portal env settings portal_id "userfieldtype.list" end
        if registers_type registered.result
            then pure true
            else search_fields portal_id field_name expected vs)
      else search_fields portal_id field_name expected vs
  search_fields portal_id field_name expected (cons v vs) =
      search_fields portal_id field_name expected vs

  abbrev fields_in : Value → Items
  fields_in (arr vs) = vs
  fields_in _ = nil

  unfoldable pub validate_field : ℕ → String → Action Bool
  validate_field portal_id field_name = do
    response ←
        call_portal env settings portal_id "crm.deal.userfield.list"
          (field "filter" (obj (field "FIELD_NAME" (str field_name) end)) end)
    info ← call_portal env settings portal_id "app.info" end
    id ← lift (item_at "ID" info.result)
    owned ←
        search_fields portal_id field_name
          ("rest_" ++ (text_of env.show id ++ ("_" ++ user_type_id))) (fields_in response.result)
    if owned then pure true else raise (http_exception 400)

  -- The write of `save`, under the lock of the portal's row.
  unfoldable pub write_buttons : (List WorkflowButton → List WorkflowButton) → Action (Unit {0})
  write_buttons f w = (ok tt, record w { buttons = f w.buttons })

  abbrev bad_gateway : Failure → Failure
  bad_gateway (bitrix e) = http_exception 502
  bad_gateway e = e

  unfoldable pub save : ℕ → Actor → String → ButtonSettings → Action (Unit {0})
  save new_id who field_name body =
      if not who.admin
      then raise forbidden
      else try_else (validate_field who.portal.id field_name) (λ e. raise (bad_gateway e))
          (λ owned. write_buttons (save_button new_id who.portal.id field_name body))

  -- ConfigResponse: the whole settings for an administrator, five of them for others.
  pub data Configuration : Type 0 where
    missing : (admin : Bool) → Configuration
    full : (launchable : Bool) → ButtonSettings → Configuration
    brief :
        (launchable : Bool) (label color : String) (width height : ℕ) (confirm : Bool)
        → Configuration

  abbrev shown : Actor → Option WorkflowButton → Result Configuration
  shown who none = ok (missing who.admin)
  shown who (some b) =
      let s = b.settings in
      let launchable = can_launch s who.admin who.user_id in
      if not who.admin && not launchable
      then raised forbidden
      else if who.admin
      then ok (full launchable s)
      else ok (brief launchable s.label s.color s.width s.height s.confirm)

  unfoldable pub config : Actor → String → Action Configuration
  config who field_name w = (shown who (button_for who.portal.id field_name w.buttons), w)
