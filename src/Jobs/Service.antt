-- ===== src/Jobs/Service.antt =====
-- app/jobs/service.py: the intake of the callbacks of the three robots. `verify` is
-- `verify_application_token` under the keys of the settings, `fingerprint` is
-- `event_token_fingerprint` (SHA-256 of the Python library), and `new_id` the `uuid4` of the row.
pub mod Guards
pub mod Acceptance
pub mod Promises
mod Scenarios
use b24_sinedis.Prelude.{
  ℕ, pos, ◌*◌, String, Bool, true, false, not, ◌||◌, Option, none, some, List, find, map,
  if◌then◌else◌, ◌==◌, comparable_texts,
}
use b24_sinedis.Value.{Value, str, int, null, arr, obj, Fields, field, end, put, of_list}
use b24_sinedis.Settings.{second}
use b24_sinedis.Time.{add_delta}
use b24_sinedis.Portals.{BitrixPortal, is_active}
use b24_sinedis.Runtime.{
  Result, ok, raised, Env, World, Action, ◌>>=◌, raise, lift, read_clock, transact,
}
use b24_sinedis.Bitrix.Exceptions.{value_error, credential_error}
use b24_sinedis.Jobs.Repository.{Stored, create_idempotent}
use b24_sinedis.Jobs.Operations.{intake}
use b24_sinedis.Jobs.Processor.Persisted.{
  short_pause_code, rest_request_robot_code, wait_field_robot_code,
}

pub record RobotExecutionPayload : Type 0 where
  pub member_id : String
  pub application_token : String
  pub event_token : String
  pub delay_seconds : ℕ
  pub comment : Option String
  pub document_id : Option Value
  pub document_type : Option Value

pub record SubscriptionPayload : Type 0 where
  pub member_id : String
  pub application_token : String
  pub event_token : String
  pub properties : Fields
  pub error_recipients : List ℕ
  pub document_id : Option Value
  pub document_type : Option Value

-- if v is not None: payload[name] = v
abbrev pub put_some : String → Option Value → Fields → Fields
put_some name none d = d
put_some name (some v) d = put name v d

abbrev optional_text : Option String → Value
optional_text none = null
optional_text (some s) = str s

-- the whole numbers of the recipients
abbrev recipient_list : List ℕ → Value
recipient_list ids = arr (of_list (map (λ n. int (pos n)) ids))

module _ (env : Env) (verify : String → String → Result Bool) where
  abbrev verified_portal : BitrixPortal → Result Bool → Result BitrixPortal
  verified_portal portal (ok b) = if b then ok portal else raised credential_error
  verified_portal portal (raised e) = raised e

  -- the guard of both services
  abbrev pub checked_portal : String → Option BitrixPortal → Result BitrixPortal
  checked_portal token none = raised credential_error
  checked_portal token (some portal) =
      if not (is_active portal.status)
      then raised credential_error
      else elim portal.application_token_hash [
        | none ↦ raised credential_error
        | some stored_hash ↦ verified_portal portal (verify token stored_hash)
      ]

  -- SELECT … WHERE member_id = …, and the guard
  unfoldable pub credentials_of : String → String → Action BitrixPortal
  credentials_of member_id token w =
      (checked_portal token (find (λ p. p.member_id == member_id) w.portals), w)

  module _ (fingerprint : String → String) (new_id : ℕ) where
    abbrev pause_payload : RobotExecutionPayload → ℕ → Fields
    pause_payload c scheduled_at = put_some "document_type" c.document_type (
        put_some "document_id" c.document_id (
          field "requested_delay_seconds" (int (pos c.delay_seconds)) (
            field "comment" (optional_text c.comment)
              (field "scheduled_at" (str (env.iso_format scheduled_at)) end))))

    abbrev pending_values : Fields → Value
    pending_values d = obj (field "status" (str "pending") d)

    unfoldable pub create_pause : RobotExecutionPayload → Action Stored
    unfolding credentials_of read_clock add_delta transact create_idempotent put
    create_pause c = do
      portal ← credentials_of c.member_id c.application_token
      scheduled_at ← read_clock env
      run_at ← lift (add_delta scheduled_at (c.delay_seconds * second))
      transact env λ stamp. create_idempotent new_id stamp (
          intake portal.id short_pause_code (env.encrypt c.event_token) (fingerprint c.event_token)
            (obj (pause_payload c scheduled_at))
            (pending_values (field "requested_delay_seconds" (int (pos c.delay_seconds)) end))
            run_at)

    abbrev subscription_payload : SubscriptionPayload → ℕ → Fields
    subscription_payload c now = put_some "document_type" c.document_type (
        put_some "document_id" c.document_id (
          put "created_at" (str (env.iso_format now))
            (put "error_recipients" (recipient_list c.error_recipients) c.properties)))

    unfoldable pub create_subscription : SubscriptionPayload → String → Action Stored
    unfolding credentials_of read_clock transact create_idempotent put
    create_subscription c robot_code =
        if not (robot_code == rest_request_robot_code || robot_code == wait_field_robot_code)
        then raise value_error
        else do
          portal ← credentials_of c.member_id c.application_token
          now ← read_clock env
          transact env λ stamp. create_idempotent new_id stamp (
              intake portal.id robot_code (env.encrypt c.event_token) (fingerprint c.event_token)
                (obj (subscription_payload c now)) (pending_values end) now)
