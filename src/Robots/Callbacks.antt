-- ===== src/Robots/Callbacks.antt =====
-- app/api/robots.py: the three callbacks and the answers that they give. `verify`, `fingerprint` and `new_id` are those of the services.
pub mod Fulfilled
pub mod Due
mod Scenarios
use b24_sinedis.Prelude.{
  ℕ, String, Bool, true, false, ◌||◌, Option, none, some, if◌then◌else◌, ◌==◌, comparable_texts,
}
use b24_sinedis.Prelude.Text.{before, lower}
use b24_sinedis.Api.{Request, read_callback_mapping, Reply, replied, http_error, unhandled}
use b24_sinedis.Value.{Value, obj, Fields}
use b24_sinedis.Settings.{Settings}
use b24_sinedis.Runtime.{Result, ok, raised, Env, World, Action, ◌>>=◌, lift}
use b24_sinedis.Bitrix.Exceptions.{
  Failure, payload_error, robot_payload_error, credential_error, storage_error, other_error,
}
use b24_sinedis.Jobs.Model.{JobStatus}
use b24_sinedis.Jobs.Repository.{
  JobCreationResult, Stored, stored, refused, integrity_error, runtime_error,
}
use b24_sinedis.Jobs.Processor.Persisted.{rest_request_robot_code, wait_field_robot_code}
use b24_sinedis.Jobs.Service.{SubscriptionPayload, create_pause, create_subscription}
use b24_sinedis.Robots.Payload.Normalize.{
  Readers, normalize_robot_payload, normalize_rest_request_payload, normalize_wait_field_payload,
}

-- ShortPauseResponse; `ok` is always true.
pub record ShortPauseResponse : Type 0 where
  pub job_id : ℕ
  pub status : JobStatus
  pub run_at : ℕ
  pub existing : Bool

abbrev pub response_of : JobCreationResult → ShortPauseResponse
response_of r = record {
  job_id = r.job.id;
  status = r.job.status;
  run_at = r.job.run_at;
  existing = r.existing;
}

-- the except clauses of the handlers
abbrev pub excepted : Failure → Reply ShortPauseResponse
excepted robot_payload_error = http_error 400
excepted credential_error = http_error 403
excepted storage_error = http_error 503
excepted e = unhandled e

abbrev pub reply_of : Result Stored → Reply ShortPauseResponse
reply_of (ok (stored r)) = replied (response_of r)
reply_of (ok (refused integrity_error)) = excepted storage_error
reply_of (ok (refused runtime_error)) = excepted other_error
reply_of (raised e) = excepted e

abbrev pub answer : Result Stored × World → Reply ShortPauseResponse × World
answer (r, w) = (reply_of r, w)

module _ (env : Env) (readers : Readers) (verify : String → String → Result Bool)
    (fingerprint : String → String) (new_id : ℕ) where
  abbrev pub accept_pause : Settings → Request → Action Stored
  accept_pause settings request = do
    source ← lift (read_callback_mapping request)
    callback ← lift (
        normalize_robot_payload readers settings.short_pause_min_seconds
          settings.short_pause_max_seconds source)
    create_pause env verify fingerprint new_id callback

  unfoldable pub short_pause_callback :
      Settings → Request → World → Reply ShortPauseResponse × World
  short_pause_callback settings request w = answer (accept_pause settings request w)

  abbrev pub accept_subscription :
      (Fields → Result SubscriptionPayload) → String → Request → Action Stored
  accept_subscription normalizer robot_code request = do
    source ← lift (read_callback_mapping request)
    callback ← lift (normalizer source)
    create_subscription env verify fingerprint new_id callback robot_code

  -- `_subscription_callback`
  unfoldable pub subscription_callback :
      (Fields → Result SubscriptionPayload)
      → String
      → Request
      → World
      → Reply ShortPauseResponse × World
  subscription_callback normalizer robot_code request w =
      answer (accept_subscription normalizer robot_code request w)

  unfoldable pub rest_request_callback : Request → World → Reply ShortPauseResponse × World
  unfolding subscription_callback
  rest_request_callback =
      subscription_callback (normalize_rest_request_payload readers) rest_request_robot_code

  unfoldable pub wait_field_callback : Request → World → Reply ShortPauseResponse × World
  unfolding subscription_callback
  wait_field_callback =
      subscription_callback (normalize_wait_field_payload readers) wait_field_robot_code
