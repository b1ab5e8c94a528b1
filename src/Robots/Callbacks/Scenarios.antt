-- ===== src/Robots/Callbacks/Scenarios.antt =====
-- Requests of a portal: tests of app/api/robots.py, and its theorems at concrete inputs.
use b24_sinedis.Prelude.{◌+◌, ◌*◌, ◌≡◌, refl, false, none, some}
use b24_sinedis.Prelude.Text.{is_empty, length}
use b24_sinedis.Value.{obj, get}
use b24_sinedis.Settings.{Settings, defaults, second}
use b24_sinedis.Runtime.{◌>>=◌, lift}
use b24_sinedis.Runtime.Results
use b24_sinedis.Runtime.Samples.{willing, accepting, identity, installed}
use b24_sinedis.Bitrix.Exceptions.{payload_error}
use b24_sinedis.Jobs.Model.{pending}
use b24_sinedis.Jobs.Service.{create_pause}
use b24_sinedis.Robots.Payload.{copy_onto, required, integer}
use b24_sinedis.Robots.Payload.Normalize.{
  normalize_robot_payload, normalize_rest_request_payload, common_of, get_either,
}
use b24_sinedis.Robots.Payload.Samples.{plain_readers, pause_form, request_json}
use b24_sinedis.Api.{Request, read_callback_mapping, Reply, replied, http_error, unhandled}
use b24_sinedis.Robots.Callbacks.{ShortPauseResponse, short_pause_callback, rest_request_callback}
use b24_sinedis.Robots.Callbacks.Fulfilled.{
  IsFulfilled, short_pause_callback-IsFulfilled, subscription_callback-IsFulfilled,
}

abbrev form_request : Request
form_request = record {
  content_type = "Application/X-WWW-form-urlencoded; charset=UTF-8";
  json = none;
  form = some pause_form;
}

abbrev json_request : Request
json_request = record {
  content_type = "application/json";
  json = some (obj request_json);
  form = none;
}

abbrev broken_request : Request
broken_request = record { content_type = "application/json"; json = none; form = none }

abbrev short_pause : Settings → Request → Reply ShortPauseResponse
short_pause settings request =
    (short_pause_callback willing plain_readers accepting identity 1 settings request installed).0

abbrev created : ShortPauseResponse
created = record { job_id = 1; status = pending; run_at = 5000700; existing = false }

pause_is_answered : short_pause defaults form_request ≡ replied created
unfolding short_pause_callback read_callback_mapping normalize_robot_payload copy_onto common_of
    get_either required integer get Results.◌>>=◌ is_empty length create_pause ◌>>=◌ lift
pause_is_answered = refl

out_of_range :
    short_pause (record defaults { short_pause_max_seconds = 4 }) form_request ≡ http_error 400
unfolding short_pause_callback read_callback_mapping normalize_robot_payload copy_onto common_of
    get_either required integer get Results.◌>>=◌ is_empty length create_pause ◌>>=◌ lift
out_of_range = refl

broken_body : short_pause defaults broken_request ≡ unhandled payload_error
unfolding short_pause_callback read_callback_mapping ◌>>=◌ lift
broken_body = refl

short_pause_callback-IsFulfilled_example :
    IsFulfilled willing plain_readers accepting identity 1 installed
      (normalize_robot_payload plain_readers 1 3600)
      (λ c. c.member_id)
      (λ c. c.application_token)
      (λ c. c.event_token)
      (λ c. 700 + c.delay_seconds * second)
      form_request
      (short_pause_callback willing plain_readers accepting identity 1 defaults form_request
        installed)
short_pause_callback-IsFulfilled_example =
    short_pause_callback-IsFulfilled willing plain_readers accepting identity 1 defaults
      form_request installed

subscription_callback-IsFulfilled_example :
    IsFulfilled willing plain_readers accepting identity 1 installed
      (normalize_rest_request_payload plain_readers)
      (λ c. c.member_id)
      (λ c. c.application_token)
      (λ c. c.event_token)
      (λ c. 700)
      json_request
      (rest_request_callback willing plain_readers accepting identity 1 json_request installed)
unfolding rest_request_callback
subscription_callback-IsFulfilled_example =
    subscription_callback-IsFulfilled willing plain_readers accepting identity 1
      (normalize_rest_request_payload plain_readers) "sinedis.rest_request.robot.v1" json_request
      installed
