-- ===== src/Robots/Payload/Samples.antt =====
-- Sample readers and callbacks.
use b24_sinedis.Prelude.{pos, none, some, ◌==◌, comparable_texts, if◌then◌else◌, ◌∷◌, []}
use b24_sinedis.Prelude.Text.{is_letter}
use b24_sinedis.Value.{obj, str, int, Fields, field, end}
use b24_sinedis.Jobs.Service.{RobotExecutionPayload, SubscriptionPayload}
use b24_sinedis.Robots.Payload.Normalize.{Readers}

-- Reads the empty JSON object only, and one expression.
abbrev pub plain_readers : Readers
plain_readers = record {
  show = λ v. "7";
  loads = λ s. if s == "{}" then some (obj end) else none;
  parses = λ s. s == "$";
  is_alnum = is_letter;
}

-- auth[member_id]=m&auth[application_token]=application&…
abbrev pub pause_form : Fields
pause_form = field "auth[member_id]" (str "m") (
    field "auth[application_token]" (str "application")
      (field "properties[delay_seconds]" (str " 5 ") (field "event_token" (str "event") end)))

abbrev pub pause_json : Fields
pause_json =
    field "auth"
      (obj (field "member_id" (str "m") (field "application_token" (str "application") end)))
      (field "properties" (obj (field "delay_seconds" (str " 5 ") end))
        (field "event_token" (str "event") end))

abbrev pub pause : RobotExecutionPayload
pause = record {
  member_id = "m";
  application_token = "application";
  event_token = "event";
  delay_seconds = 5;
  comment = none;
  document_id = none;
  document_type = none;
}

abbrev pub request_json : Fields
request_json =
    field "auth"
      (obj (field "member_id" (str "m") (field "application_token" (str "application") end)))
      (field "PROPERTIES"
        (obj (
          field "rest_method" (str "crm.deal.get") (field "error_recipients" (str " user_7 ") end)))
        (field "EVENT_TOKEN" (str "event") end))

abbrev pub request : SubscriptionPayload
request = record {
  member_id = "m";
  application_token = "application";
  event_token = "event";
  properties =
      field "rest_method" (str "crm.deal.get")
        (field "request_params" (obj end) (field "jsonpath" (str "$") end));
  error_recipients = 7 ∷ [];
  document_id = none;
  document_type = none;
}

abbrev pub wait_json : Fields
wait_json =
    field "auth"
      (obj (field "member_id" (str "m") (field "application_token" (str "application") end)))
      (field "properties"
        (obj (
          field "entity_type_id" (str "2")
            (field "entity_id" (int (pos 9)) (field "field_name" (str "STAGE_ID") end))))
        (field "event_token" (str "event") end))

abbrev pub wait : SubscriptionPayload
wait = record {
  member_id = "m";
  application_token = "application";
  event_token = "event";
  properties = field "entity_type_id" (int (pos 2)) (
      field "entity_id" (int (pos 9)) (
        field "field_name" (str "STAGE_ID") (
          field "poll_interval_seconds" (int (pos 30))
            (field "timeout_seconds" (int (pos 86400)) end))));
  error_recipients = [];
  document_id = none;
  document_type = none;
}
