-- ===== src/Robots/Payload/Normalize.antt =====
-- The three normalisations of app/robots/payload.py. `json.loads`, the parser of `jsonpath_ng` and the
-- Unicode table behind `str.isalnum` are parameters, as is `str` of what is no text.
use b24_sinedis.Prelude.{
  ℕ, ltb, leb, ℤ, pos, negsuc, String, Bool, true, ◌&&◌, ◌||◌, Option, none, some, if◌then◌else◌,
  ◌==◌, comparable_ids, comparable_texts,
}
use b24_sinedis.Prelude.Text.{strip, is_empty, all_char, length}
use b24_sinedis.Value.{Value, obj, str, int, null, Fields, field, end, get, get_or, has}
use b24_sinedis.Runtime.{Result, ok, raised}
use b24_sinedis.Runtime.Results.{◌>>=◌, or_raise}
use b24_sinedis.Bitrix.Exceptions.{robot_payload_error}
use b24_sinedis.Bitrix.Endpoint.{validate_rest_method}
use b24_sinedis.Jobs.Service.{RobotExecutionPayload, SubscriptionPayload}
use b24_sinedis.Robots.Payload.{
  nested_copy, refused, required, integer, positive_integer, text_of, recipients,
}

pub record Readers : Type 0 where
  pub show : Value → String
  -- json.loads, absent where it raises ValueError
  pub loads : String → Option Value
  -- false where `parse_jsonpath` raises JSONPathError
  pub parses : String → Bool
  pub is_alnum : ℕ → Bool

-- the mapping, or an empty one
abbrev pub mapping_of : Option Value → Fields
mapping_of (some (obj d)) = d
mapping_of _ = end

-- data.get(key, data.get(other))
unfoldable pub get_either : String → String → Fields → Option Value
get_either key other callback = elim (get key callback) [
  | none ↦ get other callback
  | some v ↦ some v
]

-- None, as a value or for a missing one
abbrev pub present : Option Value → Option Value
present (some null) = none
present v = v

abbrev pub auth_of : Fields → Fields
auth_of callback = mapping_of (get "auth" callback)

abbrev pub properties_of : Fields → Fields
properties_of callback = mapping_of (get_either "properties" "PROPERTIES" callback)

-- What `_subscription` returns: `common`, without the properties.
pub record Common : Type 0 where
  pub member_id : String
  pub application_token : String
  pub event_token : String
  pub document_id : Option Value
  pub document_type : Option Value

-- what `_subscription` and `normalize_robot_payload` read of the copied data
unfoldable pub common_of : Fields → Result Common
common_of callback = do
  member_id ← required (get "member_id" (auth_of callback))
  application_token ← required (get "application_token" (auth_of callback))
  event_token ← required (get_either "event_token" "EVENT_TOKEN" callback)
  ok (record {
    member_id = member_id;
    application_token = application_token;
    event_token = event_token;
    document_id = present (get_either "document_id" "DOCUMENT_ID" callback);
    document_type = present (get_either "document_type" "DOCUMENT_TYPE" callback);
  })

abbrev pub must : Bool → Result Bool
must b = if b then ok true else refused

-- minimum <= delay <= maximum
abbrev pub within : ℕ → ℕ → ℤ → Result ℕ
within minimum maximum (pos n) = if leb minimum n && leb n maximum then ok n else refused
within minimum maximum (negsuc n) = refused

abbrev pub short_text : String → Result (Option String)
short_text s = if is_empty s then ok none else if ltb 1000 (length s) then refused else ok (some s)

module _ (readers : Readers) where
  abbrev pub comment_of : Option Value → Result (Option String)
  comment_of none = ok none
  comment_of (some null) = ok none
  comment_of (some v) = short_text (strip (text_of readers.show v))

  unfoldable pub normalize_robot_payload : ℕ → ℕ → Fields → Result RobotExecutionPayload
  normalize_robot_payload minimum_delay maximum_delay source =
      let callback = nested_copy source in
      do
        common ← common_of callback
        checked ← must (leb (length common.member_id) 64)
        z ← integer (get "delay_seconds" (properties_of callback))
        delay ← within minimum_delay maximum_delay z
        comment ← comment_of (get "comment" (properties_of callback))
        ok (record {
          member_id = common.member_id;
          application_token = common.application_token;
          event_token = common.event_token;
          delay_seconds = delay;
          comment = comment;
          document_id = common.document_id;
          document_type = common.document_type;
        })

  -- `_with_properties`
  unfoldable pub with_properties : Common → Fields → Fields → Result SubscriptionPayload
  with_properties common normalized raw = do
    error_recipients ← recipients readers.show (get "error_recipients" raw)
    ok (record {
      member_id = common.member_id;
      application_token = common.application_token;
      event_token = common.event_token;
      properties = normalized;
      error_recipients = error_recipients;
      document_id = common.document_id;
      document_type = common.document_type;
    })

  -- a text of at most 100,000 characters, read as JSON
  abbrev pub loaded : Value → Result Value
  loaded (str s) =
      if ltb 100000 (length s) then refused else or_raise robot_payload_error (readers.loads s)
  loaded _ = refused

  abbrev pub params_of : Value → Result Fields
  params_of (obj params) = if has "auth" params then refused else ok params
  params_of _ = refused

  abbrev pub method_of : String → Result String
  method_of method = elim (validate_rest_method method) [ ok m ↦ ok m | raised e ↦ refused ]

  unfoldable pub normalize_rest_request_payload : Fields → Result SubscriptionPayload
  normalize_rest_request_payload source =
      let callback = nested_copy source in
      let properties = properties_of callback in
      do
        common ← common_of callback
        method ← required (get "rest_method" properties)
        valid ← method_of method
        value ← loaded (get_or "request_params_json" (str "{}") properties)
        params ← params_of value
        expression ← required (some (get_or "jsonpath" (str "$") properties))
        parsed ← must (readers.parses expression)
        with_properties common
            (field "rest_method" (str method)
              (field "request_params" (obj params) (field "jsonpath" (str expression) end)))
            properties

  abbrev pub is_field_char : ℕ → Bool
  is_field_char c = readers.is_alnum c || c == b'_'

  unfoldable pub normalize_wait_field_payload : Fields → Result SubscriptionPayload
  normalize_wait_field_payload source =
      let callback = nested_copy source in
      let properties = properties_of callback in
      do
        common ← common_of callback
        entity_type_id ← positive_integer (get "entity_type_id" properties)
        entity_id ← positive_integer (get "entity_id" properties)
        field_name ← required (get "field_name" properties)
        named ← must (leb (length field_name) 128 && all_char is_field_char field_name)
        poll ← positive_integer (some (get_or "poll_interval_seconds" (int (pos 30)) properties))
        timeout ← positive_integer (some (get_or "timeout_seconds" (int (pos 86400)) properties))
        ranged ← must (leb poll 86400 && leb timeout 31536000)
        with_properties common
            (field "entity_type_id" (int (pos entity_type_id)) (
              field "entity_id" (int (pos entity_id)) (
                field "field_name" (str field_name) (
                  field "poll_interval_seconds" (int (pos poll))
                    (field "timeout_seconds" (int (pos timeout)) end)))))
            properties
