-- ===== src/Installation/Scenarios.antt =====
-- The events of one portal: tests of app/bitrix/payload.py, app/bitrix/registration.py and
-- app/api/installation.py, and the theorems at concrete inputs.
use b24_sinedis.Prelude.{
  String, ◌≡◌, refl, true, false, none, some, [], ◌∷◌, if◌then◌else◌, ◌==◌, comparable_texts,
  Bool-cases, inl, inr,
}
use b24_sinedis.Prelude.Text.{lower, upper}
use b24_sinedis.Value.{obj, arr, str, Fields, field, end, cons, nil, get, get_or}
use b24_sinedis.Settings.{defaults}
use b24_sinedis.Runtime.{Result, ok, raised, ◌>>=◌, lift, pure}
use b24_sinedis.Runtime.Results
use b24_sinedis.Runtime.Samples.{willing, accepting, installed, split_portal}
use b24_sinedis.Bitrix.Exceptions.{value_error}
use b24_sinedis.Bitrix.Registration.{robot_codes, has_event_handler, normalize_app_base_url}
use b24_sinedis.Bitrix.Endpoint.{normalize_client_endpoint}
use b24_sinedis.Bitrix.OAuth.Numbers.{positive_optional_int}
use b24_sinedis.Portals.{inactive}
use b24_sinedis.Api.{Request, replied, read_callback_mapping}
use b24_sinedis.Installation.Payload.{
  normalize_event_payload, copy_event, required_text, optional_text, optional_int, validate_domain,
  optional_positive_int,
}
use b24_sinedis.Installation.Service.{
  install_callback, uninstall_callback, uninstall, confirm, write_portals, deactivate,
}
use b24_sinedis.Installation.Answers.{IsAnswered}
use b24_sinedis.Installation.Effects.{Allows, Forbids}
use b24_sinedis.Installation.Callbacks.{install_callback-IsAnswered, uninstall_callback-IsAnswered}

case_changes : (upper "straße µÿ" ≡ "STRASSE ΜŸ") × (lower "ÀÞ×Z" ≡ "àþ×z")
unfolding upper lower
case_changes = (refl, refl)

-- A hash that the sample verification accepts for one token.
abbrev hashing : String → Result String
hashing token = if token == "application" then ok "hash" else raised value_error

abbrev event_fields : String → Fields
event_fields event = field "event" (str event) (
    field "auth[member_id]" (str "m") (
      field "auth[domain]" (str "Portal.example") (
        field "auth[client_endpoint]" (str "https://portal.example/rest/") (
          field "auth[server_endpoint]" (str "https://oauth.example/rest/") (
            field "auth[application_token]" (str "application") (
              field "auth[access_token]" (str "a") (
                field "auth[refresh_token]" (str "r")
                  (field "auth[expires_in]" (str "3600") (field "ts" (str "17") end)))))))))

abbrev event_request : String → Request
event_request event = record {
  content_type = "multipart/form-data";
  json = none;
  form = some (event_fields event);
}

nested_codes :
    robot_codes (
      obj (
        field "result"
          (obj (
            field "robots"
              (arr (cons (str "a") (cons (obj (field "CODE" (str "b") end)) nil)))
              end))
          end))
    ≡ some ("a" ∷ "b" ∷ [])
unfolding robot_codes
nested_codes = refl

endless_codes : robot_codes (obj (field "items" (arr nil) end)) ≡ none
unfolding robot_codes
endless_codes = refl

bound_handler :
    has_event_handler
      (arr (cons (obj (field "EVENT" (str "E") (field "handler" (str "h") end))) nil))
      "E"
      "h"
    ≡ ok true
unfolding has_event_handler
bound_handler = refl

plain_http :
    normalize_app_base_url
      (λ s. some (record split_portal { scheme = "HTTP"; hostname = some "localhost" }))
      "http://localhost"
      "development"
    ≡ ok "http://portal.example/rest/"
unfolding normalize_app_base_url
plain_http = refl

signed_expiry : optional_positive_int (some (str "+5")) ≡ ok (some 5)
unfolding positive_optional_int
signed_expiry = refl

removal :
    (uninstall_callback willing defaults [] "https://app.example/" hashing accepting 9
      (event_request "onAppUninstall")
      installed).0
    ≡ replied
        (record { member_id = "m"; status = inactive; robots = []; activities = []; events = [] })
unfolding uninstall_callback read_callback_mapping normalize_event_payload copy_event required_text
    optional_text optional_int validate_domain get get_or upper Results.◌>>=◌ ◌>>=◌ lift uninstall
    confirm write_portals deactivate pure normalize_client_endpoint positive_optional_int
removal = refl

install_callback-IsAnswered_example :
    IsAnswered willing installed "ONAPPINSTALL" true
      (Allows willing defaults [] "https://app.example/" hashing accepting 9 installed)
      (event_request "ONAPPINSTALL")
      (install_callback willing defaults [] "https://app.example/" hashing accepting 9
        (event_request "ONAPPINSTALL")
        installed)
install_callback-IsAnswered_example =
    install_callback-IsAnswered willing defaults [] "https://app.example/" hashing accepting 9
      installed (event_request "ONAPPINSTALL") law
  where
    law : (token hash : String) → hashing token ≡ ok hash → accepting token hash ≡ ok true
    law token hash h = elim (Bool-cases (token == "application")) [
      | inl e ↦ rw (e) refl
      | inr e ↦ absurd (cc (h, e))
    ]

uninstall_callback-IsAnswered_example :
    IsAnswered willing installed "ONAPPUNINSTALL" false
      (Forbids willing defaults [] "https://app.example/" hashing accepting 9 installed)
      (event_request "ONAPPUNINSTALL")
      (uninstall_callback willing defaults [] "https://app.example/" hashing accepting 9
        (event_request "ONAPPUNINSTALL")
        installed)
uninstall_callback-IsAnswered_example =
    uninstall_callback-IsAnswered willing defaults [] "https://app.example/" hashing accepting 9
      installed (event_request "ONAPPUNINSTALL")
