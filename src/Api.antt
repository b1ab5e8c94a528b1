-- ===== src/Api.antt =====
-- What the handlers of app/api share: the requests, `read_callback_mapping` of app/api/installation.py
-- and the answers.
use b24_sinedis.Prelude.{ℕ, String, ◌||◌, Option, none, some, if◌then◌else◌, ◌==◌, comparable_texts}
use b24_sinedis.Prelude.Text.{before, lower}
use b24_sinedis.Value.{Value, obj, Fields}
use b24_sinedis.Runtime.{Result, ok, raised}
use b24_sinedis.Bitrix.Exceptions.{Failure, payload_error}

-- What the handlers read of a request: the header, empty if it is missing, the body as JSON, absent
-- where `request.json()` raises, and as a form, absent where `request.form()` raises. The values of a
-- form are texts.
pub record Request : Type 0 where
  pub content_type : String
  pub json : Option Value
  pub form : Option Fields

abbrev pub json_mapping : Option Value → Result Fields
json_mapping (some (obj d)) = ok d
json_mapping _ = raised payload_error

abbrev pub form_mapping : Option Fields → Result Fields
form_mapping none = raised payload_error
form_mapping (some d) = ok d

unfoldable pub read_callback_mapping : Request → Result Fields
unfolding before lower
read_callback_mapping request =
    let content_type = lower (before b';' request.content_type) in
    if content_type == "application/json"
    then json_mapping request.json
    else if content_type == "application/x-www-form-urlencoded"
        || content_type == "multipart/form-data"
    then form_mapping request.form
    else raised payload_error

-- The answer to a request: a body with status 200, an HTTPException, or an exception that no clause
-- names, which the framework turns into status 500.
pub data Reply (A : Type 0) : Type 0 where
  replied : A → Reply A
  http_error : ℕ → Reply A
  unhandled : Failure → Reply A
