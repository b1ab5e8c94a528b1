-- ===== src/Jobs/Processor/Scenarios.antt =====
-- One portal, one job and a scripted server: tests of app/jobs/processor.py, and its theorems at
-- concrete inputs.
use b24_sinedis.Prelude.{
  ℕ, ◌+◌, ◌*◌, ◌≤◌, ◌<◌, arith, String, ◌≡◌, refl, true, false, Option, none, some, [], ◌∷◌, any,
  All, pos,
}
use b24_sinedis.Value.{obj, str, int, Fields, field, end, get}
use b24_sinedis.Settings.{defaults, second}
use b24_sinedis.Jobs.Model.{AutomationJob, JobStatus, processing, completed, retry}
use b24_sinedis.Jobs.Repository.{is_held, find_job}
use b24_sinedis.Runtime.{ok, Env, ◌>>=◌, try_else, pure, raise, lift}
use b24_sinedis.Runtime.Samples.{willing, broken, world}
use b24_sinedis.Jobs.Processor.RestRequest.{mark_requested, request_and_save, request_or_deliver}
use b24_sinedis.Jobs.Processor.Outcome.{deliver_subscription}
use b24_sinedis.Jobs.Processor.Dispatch.{process}
use b24_sinedis.Jobs.Processor.Finished.{process_settles}
use b24_sinedis.Jobs.Processor.Checkpoint.{request_checkpointed}
use b24_sinedis.Jobs.Processor.Retry.{retry_at}
use b24_sinedis.Jobs.Processor.WaitField.{on_blank}
use b24_sinedis.Jobs.Processor.Waiting.{BlankCheck, waits_bounded}
use b24_sinedis.Jobs.Processor.Delays.{retry_at-bounds}

abbrev held : String → Fields → AutomationJob
held code payload = record {
  id = 1;
  portal_id = 7;
  robot_code = code;
  event_token_encrypted = "token";
  event_token_hash = "hash";
  payload = obj payload;
  return_values = obj end;
  run_at = 200;
  status = processing;
  attempts = 1;
  max_attempts = 10;
  locked_at = some 600;
  locked_by = some "w1";
  last_error = none;
  started_at = some 600;
  completed_at = none;
  created_at = 100;
  updated_at = 600;
}

abbrev pause : AutomationJob
pause = held "sinedis.short_pause.v1" (
    field "requested_delay_seconds" (int (pos 5))
      (field "scheduled_at" (str "1970-01-01T00:00:00+00:00") end))

abbrev request_payload : Fields
request_payload =
    field "rest_method" (str "crm.item.list")
      (field "request_params" (obj end) (field "jsonpath" (str "$") end))

abbrev request : AutomationJob
request = held "sinedis.rest_request.robot.v1" request_payload

abbrev status_of : Option AutomationJob → Option JobStatus
status_of none = none
status_of (some j) = some j.status

pause_completes :
    let (r, w) = process willing defaults 1 (world (pause ∷ [])) in
    (r ≡ ok tt) × (status_of (find_job 1 w.jobs) ≡ some completed) × (w.exchanges ≡ 1)
unfolding process find_job ◌>>=◌ try_else pure raise lift
pause_completes = (refl, refl, refl)

pause_retried :
    let (r, w) = process broken defaults 1 (world (pause ∷ [])) in
    (r ≡ ok tt) × (status_of (find_job 1 w.jobs) ≡ some retry)
unfolding process find_job ◌>>=◌ try_else pure raise lift
pause_retried = (refl, refl)

process_settles_example :
    any (is_held 1) (process willing defaults 1 (world (pause ∷ []))).1.jobs ≡ false
unfolding process ◌>>=◌ try_else pure raise lift
process_settles_example = process_settles willing defaults 1 (world (pause ∷ [])) refl

abbrev values : Fields
values = field "status" (str "completed") (
    field "job_id" (str "1") (
      field "result_text" (str "0") (
        field "result_json" (str "null") (
          field "matches_count" (int (pos 1))
            (field "error_code" (str "") (field "error_message" (str "") end))))))

request_checkpointed_example :
    All
      (λ j.
        is_held 1 j ≡ true
        → (j.payload ≡ obj (mark_requested request_payload))
          × ((later : Env) (token : String)
              → request_or_deliver later defaults j token (mark_requested request_payload)
                ≡ deliver_subscription later defaults j token values))
      (request_and_save willing defaults request request_payload (world (request ∷ []))).1.jobs
unfolding request_and_save ◌>>=◌ try_else pure raise lift
request_checkpointed_example =
    request_checkpointed willing defaults request request_payload (world (request ∷ []))
      {values = values} refl

abbrev half_minute : Option ℕ
half_minute = some 30000000

abbrev reset_time : Option ℕ
reset_time = some 900

retry_at-bounds_example :
    (700 ≤ 30000700)
    × ((d : ℕ) → half_minute ≡ some d → 700 + d ≤ 30000700)
    × ((r : ℕ) → reset_time ≡ some r → r ≤ 30000700)
    × (half_minute ≡ none → reset_time ≡ none → 30000700 ≤ 700 + defaults.worker_retry_max)
unfolding retry_at
retry_at-bounds_example =
    retry_at-bounds 700 2 defaults (pos 500000) half_minute reset_time 30000700 refl

abbrev wait_payload : Fields
wait_payload =
    field "timeout_seconds" (int (pos 60)) (field "poll_interval_seconds" (int (pos 30)) end)

abbrev wait : AutomationJob
wait = held "sinedis.wait_field.robot.v1" wait_payload

abbrev blank_at : ℕ → ℕ → BlankCheck
blank_at now count = record {
  row = wait;
  before = world (wait ∷ []);
  payload = wait_payload;
  now = now;
  count = pos count;
}

-- Two checks of a wait of one minute, created at 100.
waits_bounded_example :
    All (λ c. c.now < 100 + 60 * second) (blank_at 200 1 ∷ blank_at 30000200 2 ∷ [])
    × (2 * (30 * second) < 60 * second + 30 * second)
unfolding on_blank find_job get ◌>>=◌ lift pure
waits_bounded_example =
    waits_bounded willing defaults wait 100 60 30 (blank_at 200 1 ∷ blank_at 30000200 2 ∷ [])
      (omega arith)
      (omega arith, refl, refl, refl, refl, refl, (omega arith, refl, refl, refl, refl, refl, tt))
