-- ===== src/Robots/Payload/Scenarios.antt =====
-- Callbacks in both notations: tests of app/robots/payload.py, and its theorems at concrete inputs.
use b24_sinedis.Prelude.{pos, negsuc, ◌≡◌, refl, some, [], ◌∷◌}
use b24_sinedis.Prelude.Text.{length, is_empty}
use b24_sinedis.Value.{arr, str, int, null, field, end, cons, nil, get, get_or, has}
use b24_sinedis.Runtime.{ok, raised}
use b24_sinedis.Runtime.Results.{◌>>=◌}
use b24_sinedis.Bitrix.Exceptions.{value_error, robot_payload_error}
use b24_sinedis.Bitrix.Endpoint.{validate_rest_method}
use b24_sinedis.Robots.Payload.{
  integer, recipients, recipients_onto, recipient, required, copy_onto, bracketed, nested_copy,
}
use b24_sinedis.Robots.Payload.Normalize.{
  common_of, get_either, with_properties, normalize_robot_payload, normalize_rest_request_payload,
  normalize_wait_field_payload,
}
use b24_sinedis.Robots.Payload.Samples.{
  plain_readers, pause_form, pause_json, pause, request_json, request,
}
use b24_sinedis.Robots.Payload.Forms.{normalize-form}

two_minus_signs : integer (some (str "--5")) ≡ raised value_error
unfolding integer
two_minus_signs = refl

spaces_around : integer (some (str " -5 ")) ≡ ok (negsuc 4)
unfolding integer
spaces_around = refl

no_number : integer (some (str "5.0")) ≡ raised robot_payload_error
unfolding integer
no_number = refl

repeated_recipients :
    recipients
      (λ v. "7")
      (some (arr (cons (str "user_7") (cons (int (pos 7)) (cons (str " 3 ") nil)))))
    ≡ ok (7 ∷ 3 ∷ [])
unfolding recipients_onto recipient ◌>>=◌
repeated_recipients = refl

other_brackets_stay :
    nested_copy (field "a[b]" null (field "auth[]" null end))
    ≡ field "a[b]" null (field "auth[]" null end)
unfolding copy_onto
other_brackets_stay = refl

form_is_read : normalize_robot_payload plain_readers 1 3600 pause_form ≡ ok pause
unfolding normalize_robot_payload copy_onto common_of get_either required integer get ◌>>=◌ is_empty
    length
form_is_read = refl

too_long_delay : normalize_robot_payload plain_readers 1 4 pause_form ≡ raised robot_payload_error
unfolding normalize_robot_payload copy_onto common_of get_either required integer get ◌>>=◌ is_empty
    length
too_long_delay = refl

request_is_read : normalize_rest_request_payload plain_readers request_json ≡ ok request
unfolding normalize_rest_request_payload copy_onto common_of get_either required get get_or has
    ◌>>=◌ is_empty length validate_rest_method with_properties recipients_onto recipient
request_is_read = refl

normalize-form_example :
    (normalize_robot_payload plain_readers 1 3600 pause_form
      ≡ normalize_robot_payload plain_readers 1 3600 pause_json)
    × (normalize_rest_request_payload plain_readers pause_form
        ≡ normalize_rest_request_payload plain_readers pause_json)
    × (normalize_wait_field_payload plain_readers pause_form
        ≡ normalize_wait_field_payload plain_readers pause_json)
unfolding bracketed is_empty
normalize-form_example =
    normalize-form plain_readers 1 3600 "member_id" "delay_seconds" (str "m") (str " 5 ")
      (field "application_token" (str "application") end) end
      (field "event_token" (str "event") end) (refl, refl, refl, (refl, refl, refl, tt))
      (refl, refl, refl, tt)
