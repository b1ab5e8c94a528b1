-- ===== src/Jobs/Processor/Persisted.antt =====
-- The checks of persisted data in app/jobs/processor.py: `_validated_data`, `_subscription_data`, `_load`.
use b24_sinedis.Prelude.{
  ℕ, pos, String, Bool, false, not, ◌||◌, Option, none, some, if◌then◌else◌, ◌==◌, comparable_ids,
  comparable_texts,
}
use b24_sinedis.Value.{Value, str, int, obj, Fields, get}
use b24_sinedis.Jobs.Model.{AutomationJob}
use b24_sinedis.Jobs.Repository.{get_processing_job}
use b24_sinedis.Portals.{BitrixPortal, is_active, get_portal}
use b24_sinedis.Runtime.{Result, ok, raised, Env, Action}
use b24_sinedis.Bitrix.Exceptions.{job_data_error, encryption_error}

abbrev pub short_pause_code : String
short_pause_code = "sinedis.short_pause.v1"

abbrev pub rest_request_robot_code : String
rest_request_robot_code = "sinedis.rest_request.robot.v1"

abbrev pub wait_field_robot_code : String
wait_field_robot_code = "sinedis.wait_field.robot.v1"

-- portal is not None and portal.status == "active"
abbrev pub in_service : Option BitrixPortal → Bool
in_service none = false
in_service (some p) = is_active p.status

abbrev pub decrypt_token : Env → AutomationJob → Result String
decrypt_token env job = elim (env.decrypt job.event_token_encrypted) [
  | none ↦ raised encryption_error
  | some token ↦ ok token
]

abbrev paired : {A : Type 0} → Result String → A → Result (String × A)
paired (ok token) a = ok (token, a)
paired (raised e) a = raised e

-- the payload where it is a dict and there is an encrypted token
abbrev pub persisted_payload : AutomationJob → Option Fields
persisted_payload job =
    if job.event_token_encrypted == ""
    then none
    else elim job.payload [ obj payload ↦ some payload | _ ↦ none ]

unfoldable pub subscription_data :
    Env → AutomationJob → Option BitrixPortal → Result (String × Fields)
subscription_data env job portal =
    if not (in_service portal) then raised job_data_error else elim (persisted_payload job) [
      | none ↦ raised job_data_error
      | some payload ↦ paired (decrypt_token env job) payload
    ]

-- A delay that is an `int`, no `bool`, and not negative.
abbrev pub requested_delay : Option Value → Option ℕ
requested_delay (some (int (pos n))) = some n
requested_delay _ = none

-- A time that is the text of an instant with its zone.
abbrev pub scheduled_time : Env → Option Value → Option ℕ
scheduled_time env (some (str s)) = elim (env.from_iso_format s) [
  | none ↦ none
  | some (at, has_zone) ↦ if has_zone then some at else none
]
scheduled_time env _ = none

-- The event token, the scheduled time and the requested delay of a short pause.
unfoldable pub validated_data :
    Env → AutomationJob → Option BitrixPortal → Result (String × (ℕ × ℕ))
unfolding get
validated_data env job portal =
    if not (in_service portal) || not (job.robot_code == short_pause_code)
    then raised job_data_error
    else elim (persisted_payload job) [
      | none ↦ raised job_data_error
      | some payload ↦ elim (requested_delay (get "requested_delay_seconds" payload)) [
        | none ↦ raised job_data_error
        | some requested ↦ elim (scheduled_time env (get "scheduled_at" payload)) [
          | none ↦ raised job_data_error
          | some scheduled ↦ paired (decrypt_token env job) (scheduled, requested)
        ]
      ]
    ]

-- The job, if it is still being processed, and its portal.
unfoldable pub load : ℕ → Action (Option (AutomationJob × Option BitrixPortal))
unfolding get_processing_job get_portal
load job_id w = (
  ok (elim (get_processing_job job_id w.jobs) [
    | none ↦ none
    | some job ↦ some (job, get_portal job.portal_id w.portals)
  ]),
  w,
)
