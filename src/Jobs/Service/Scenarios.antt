-- ===== src/Jobs/Service/Scenarios.antt =====
-- A callback of a short pause and one of a request: tests of app/jobs/service.py, and its theorems at
-- concrete inputs.
use b24_sinedis.Prelude.{ℕ, String, ◌≡◌, refl, none, List, [], ◌∷◌, comparable_texts}
use b24_sinedis.Value.{end}
use b24_sinedis.Jobs.Model.{Table}
use b24_sinedis.Runtime.{◌>>=◌, lift}
use b24_sinedis.Runtime.Samples.{willing, accepting, identity, installed}
use b24_sinedis.Jobs.Service.{RobotExecutionPayload, SubscriptionPayload, create_pause}

abbrev callback : String → RobotExecutionPayload
callback token = record {
  member_id = "m";
  application_token = token;
  event_token = "event";
  delay_seconds = 5;
  comment = none;
  document_id = none;
  document_type = none;
}

abbrev subscription : String → SubscriptionPayload
subscription token = record {
  member_id = "m";
  application_token = token;
  event_token = "event";
  properties = end;
  error_recipients = 1 ∷ [];
  document_id = none;
  document_type = none;
}

abbrev due_times : Table → List ℕ
due_times [] = []
due_times (j ∷ js) = j.run_at ∷ due_times js

pause_is_due :
    let accepted =
      (create_pause willing accepting identity 1 (callback "application") installed).1 in
    due_times accepted.jobs ≡ 5000700 ∷ []
unfolding create_pause ◌>>=◌ lift
pause_is_due = refl
