-- ===== src/Installation/Payload.antt =====
-- app/bitrix/payload.py: the events of the application's life cycle. Every refusal is `payload_error`.
use b24_sinedis.Prelude.{
  ℕ, ltb, ℤ, String, Bool, true, not, ◌&&◌, ◌||◌, Option, none, some, if◌then◌else◌, ◌==◌,
  comparable_ids, comparable_texts, is_some,
}
use b24_sinedis.Prelude.Text.{strip, is_empty, is_space, any_char, length, lower, upper}
use b24_sinedis.Value.{Value, obj, str, bool, null, Fields, field, end, get, get_or, put}
use b24_sinedis.Runtime.{Result, ok, raised, SplitUrl}
use b24_sinedis.Runtime.Results.{◌>>=◌}
use b24_sinedis.Runtime.Integers.{int_of_value}
use b24_sinedis.Bitrix.Exceptions.{payload_error}
use b24_sinedis.Bitrix.Endpoint.{normalize_client_endpoint}
use b24_sinedis.Bitrix.OAuth.Numbers.{positive_optional_int}
use b24_sinedis.Robots.Payload.{bracketed, put_into}

pub record BitrixAuthPayload : Type 0 where
  pub member_id : String
  pub domain : String
  pub client_endpoint : String
  pub server_endpoint : String
  pub application_token : Option String
  pub access_token : Option String
  pub refresh_token : Option String
  pub expires_in : Option ℕ
  pub expires : Option ℕ
  pub scope : Option String
  pub status : Option String

pub record BitrixEventPayload : Type 0 where
  pub event : String
  pub timestamp : Option ℤ
  pub fields : Fields
  pub auth : BitrixAuthPayload

abbrev pub place_event : String → Option (String × String) → Value → Fields → Fields
place_event key none v result = put key v result
place_event key (some (parent, child)) v result =
    if not (is_empty parent) && not (is_empty child)
    then put_into parent child v (get parent result) result
    else put key v result

-- `_nested_copy`, after what is copied already
unfoldable pub copy_event : Fields → Fields → Fields
unfolding put get bracketed is_empty
copy_event result end = result
copy_event result (field key v source) =
    copy_event (place_event key (bracketed key) v result) source

abbrev pub refused : {A : Type 0} → Result A
refused = raised payload_error

-- a refusal of another module, raised as the module's own
abbrev pub as_payload_error : {A : Type 0} → Result A → Result A
as_payload_error (ok a) = ok a
as_payload_error (raised e) = refused

abbrev pub optional_positive_int : Option Value → Result (Option ℕ)
optional_positive_int v = as_payload_error (positive_optional_int v)

abbrev pub some_of : Result ℤ → Result (Option ℤ)
some_of (ok z) = ok (some z)
some_of (raised e) = refused

unfoldable pub optional_int : Option Value → Result (Option ℤ)
unfolding int_of_value
optional_int none = ok none
optional_int (some null) = ok none
optional_int (some (bool b)) = refused
optional_int (some (str s)) = if s == "" then ok none else some_of (int_of_value (str s))
optional_int (some v) = some_of (int_of_value v)

unfoldable pub required_text : ℕ → Option Value → Result String
unfolding strip is_empty length
required_text maximum (some (str s)) =
    if is_empty (strip s) || ltb maximum (length s) then refused else ok (strip s)
required_text maximum _ = refused

unfoldable pub optional_text : Option Value → Option String
unfolding strip is_empty
optional_text (some (str s)) = if is_empty (strip s) then none else some (strip s)
optional_text _ = none

-- "://" holds a slash
abbrev pub is_foreign : ℕ → Bool
is_foreign c = c == b'/' || c == b'?' || c == b'#' || c == b'@' || is_space c

abbrev checked_domain : String → Result String
checked_domain domain = if any_char is_foreign domain then refused else ok domain

unfoldable pub validate_domain : Option Value → Result String
unfolding required_text lower any_char
validate_domain v = do text ← required_text 255 v; checked_domain (lower text)

abbrev pub must : Bool → Result Bool
must b = if b then ok true else refused

abbrev pub mapping : Option Value → Result Fields
mapping (some (obj d)) = ok d
mapping _ = refused

abbrev or_empty : Value → Fields
or_empty (obj d) = d
or_empty _ = end

module _ (urlsplit : String → Option SplitUrl) where
  unfoldable pub normalize_event_payload : String → Bool → Fields → Result BitrixEventPayload
  normalize_event_payload expected_event require_oauth_tokens source =
      let copied = copy_event end source in
      do
        text ← required_text 64 (get "event" copied)
        named ← must (upper text == expected_event)
        auth ← mapping (get "auth" copied)
        member_id ← required_text 64 (get "member_id" auth)
        domain ← validate_domain (get "domain" auth)
        client ← required_text 500 (get "client_endpoint" auth)
        client_endpoint ← as_payload_error (normalize_client_endpoint urlsplit client)
        server ← required_text 500 (get "server_endpoint" auth)
        server_endpoint ← as_payload_error (normalize_client_endpoint urlsplit server)
        application ← must (is_some (optional_text (get "application_token" auth)))
        tokens ← must (
            not require_oauth_tokens
            || is_some (optional_text (get "access_token" auth))
              && is_some (optional_text (get "refresh_token" auth)))
        expires ← optional_positive_int (get "expires" auth)
        expires_in ← optional_positive_int (get "expires_in" auth)
        timed ← must (not require_oauth_tokens || is_some expires || is_some expires_in)
        timestamp ← optional_int (get "ts" copied)
        ok (record {
          event = upper text;
          timestamp = timestamp;
          fields = or_empty (get_or "data" (obj end) copied);
          auth = record {
            member_id = member_id;
            domain = domain;
            client_endpoint = client_endpoint;
            server_endpoint = server_endpoint;
            application_token = optional_text (get "application_token" auth);
            access_token = optional_text (get "access_token" auth);
            refresh_token = optional_text (get "refresh_token" auth);
            expires_in = expires_in;
            expires = expires;
            scope = optional_text (get "scope" auth);
            status = optional_text (get "status" auth);
          };
        })
