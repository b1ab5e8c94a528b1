-- ===== src/Bitrix/Registration/Service.antt =====
-- `BitrixRegistrationService` of app/bitrix/registration.py and `ensure_workflow_field_type` of
-- app/bitrix/workflow_fields.py, over the calls of one client.
use Prim.Native.Char.{code}
use Prim.Native.String.{◌++◌}
use b24_sinedis.Prelude.{
  pos, String, Bool, true, false, some, List, [], ◌∷◌, select, if◌then◌else◌, ◌==◌, comparable_ids,
  comparable_texts,
}
use b24_sinedis.Value.{Value, obj, arr, str, int, Fields, field, end, Items, nil, cons, get}
use b24_sinedis.Settings.{Settings}
use b24_sinedis.Runtime.{Result, ok, raised, Env, Action, ◌>>=◌, ◌>>◌, pure, lift}
use b24_sinedis.Bitrix.Exceptions.{attribute_error, value_error}
use b24_sinedis.Bitrix.Client.Call.{BitrixClient, BitrixResponse, call}
use b24_sinedis.Bitrix.Registration.{
  RobotDefinition, fields_of, add_payload, robot_codes, read_codes, has_event_handler, member_of,
}

-- RegistrationResult, each mapping as a list of pairs
pub record RegistrationResult : Type 0 where
  pub robots : List (String × String)
  pub events : List (String × String)
  pub activities : List (String × String)

abbrev pub uninstall_event : String
uninstall_event = "ONAPPUNINSTALL"

-- sorted(DUPLICATE_ACTIVITY_CODES)
abbrev pub duplicate_activity_codes : List String
duplicate_activity_codes =
    "sinedis.rest_request.activity.v1" ∷ "sinedis.wait_field.activity.v1" ∷ []

-- path.lstrip("/")
unfoldable pub lstrip_slash : String → String
lstrip_slash (String.[]) = ""
lstrip_slash (String.◌∷◌ c s) =
    let rest = lstrip_slash s in if code c == b'/' then rest else String.◌∷◌ c s

abbrev pub user_type_id : String
user_type_id = "sinedis_bp_button"

-- any(item.get("USER_TYPE_ID") == USER_TYPE_ID for item in existing); what is no mapping has no `get`
abbrev pub finds_type : Items → Result Bool
finds_type nil = ok false
finds_type (cons (obj d) vs) =
    let later = finds_type vs in
    elim (get "USER_TYPE_ID" d) [
      | some (str s) ↦ if s == user_type_id then ok true else later
      | _ ↦ later
    ]
finds_type (cons v vs) = raised attribute_error

abbrev pub type_found : Value → Result Bool
type_found (arr vs) = finds_type vs
type_found _ = raised value_error

abbrev pub type_params : String → Fields
type_params handler = field "USER_TYPE_ID" (str user_type_id) (
    field "HANDLER" (str handler) (
      field "TITLE" (str "Запуск бизнес-процесса SINEDIS") (
        field "DESCRIPTION" (str "Настраиваемая кнопка запуска процесса в сделке")
          (field "OPTIONS" (obj (field "height" (int (pos 90)) end)) end))))

module _ (env : Env) (client : BitrixClient) where
  unfoldable pub ensure_workflow_field_type : String → Action BitrixResponse
  ensure_workflow_field_type handler = do
    listed ← call env client "userfieldtype.list" end
    found ← lift (type_found listed.result)
    call env client (if found then "userfieldtype.update" else "userfieldtype.add")
        (type_params handler)

  module _ (base_url : String) where
    abbrev pub handler_url : String → String
    handler_url path = base_url ++ lstrip_slash path

    -- one definition: an update of a robot that is listed, else an addition
    unfoldable pub register_one : List String → RobotDefinition → Action (String × String)
    register_one existing d =
        if member_of d.code existing
        then (do
          response ← call env client "bizproc.robot.update" (
              field "CODE" (str d.code)
                (field "FIELDS" (obj (fields_of d (handler_url d.handler_path))) end))
          pure (d.code, "updated"))
        else (do
          response ←
              call env client "bizproc.robot.add" (add_payload d (handler_url d.handler_path))
          pure (d.code, "added"))

    unfoldable pub register_each :
        List String → List RobotDefinition → Action (List (String × String))
    register_each existing [] = pure []
    register_each existing (d ∷ ds) = do
      status ← register_one existing d
      statuses ← register_each existing ds
      pure (status ∷ statuses)

    unfoldable pub ensure_robots_registered : List RobotDefinition → Action (List (String × String))
    ensure_robots_registered registry = do
      listed ← call env client "bizproc.robot.list" end
      existing ← lift (read_codes (robot_codes listed.result))
      register_each existing registry

    unfoldable pub ensure_uninstall_event_registered : Action (List (String × String))
    ensure_uninstall_event_registered =
        let handler = handler_url "api/bitrix/uninstall" in
        do
          listed ← call env client "event.get" end
          bound ← lift (has_event_handler listed.result uninstall_event handler)
          if bound then pure ((uninstall_event, "already_bound") ∷ []) else (do
            response ←
                call env client "event.bind"
                  (field "event" (str uninstall_event) (field "handler" (str handler) end))
            pure ((uninstall_event, "bound") ∷ []))

    unfoldable pub delete_each : List String → Action (List (String × String))
    delete_each [] = pure []
    delete_each (duplicate ∷ duplicates) = do
      response ← call env client "bizproc.activity.delete" (field "CODE" (str duplicate) end)
      statuses ← delete_each duplicates
      pure ((duplicate, "deleted") ∷ statuses)

    unfoldable pub ensure_activities_registered : Action (List (String × String))
    ensure_activities_registered = do
      listed ← call env client "bizproc.activity.list" end
      existing ← lift (read_codes (robot_codes listed.result))
      delete_each (select (λ c. member_of c existing) duplicate_activity_codes)

    unfoldable pub field_type_registered : Settings → Action (Unit {0})
    field_type_registered settings =
        if settings.workflow_buttons_enabled
        then (do response ← ensure_workflow_field_type (handler_url "api/buttons/field"); pure tt)
        else pure tt

    unfoldable pub ensure_all : Settings → List RobotDefinition → Action RegistrationResult
    ensure_all settings registry = do
      field_type_registered settings
      robots ← ensure_robots_registered registry
      activities ← ensure_activities_registered
      events ← ensure_uninstall_event_registered
      pure (record { robots = robots; events = events; activities = activities })
