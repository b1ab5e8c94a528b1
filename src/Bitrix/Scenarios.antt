-- ===== src/Bitrix/Scenarios.antt =====
-- Tests of app/bitrix/client.py and app/bitrix/oauth.py, and their theorems at concrete inputs.
use Prim.Native.String.{◌++◌}
use b24_sinedis.Prelude.{
  suc, arith, ℕ, ◌≤◌, String, ◌≡◌, refl, Bool, true, false, Option, none, some, List, [], ◌∷◌, pos,
  if◌then◌else◌, ◌==◌, comparable_ids,
}
use b24_sinedis.Value.{obj, str, int, Fields, field, end, get, put}
use b24_sinedis.Settings.{Settings, defaults}
use b24_sinedis.Portals.{BitrixPortal, get_portal, auth_error, PortalStatus}
use b24_sinedis.Runtime.{
  Result, ok, raised, HttpResponse, Env, World, ◌>>=◌, try_else, pure, raise, lift,
}
use b24_sinedis.Runtime.Samples.{answer, answering, willing, world, portal}
use b24_sinedis.Bitrix.Exceptions.{ApiError, bitrix, configuration_error, security_error}
use b24_sinedis.Bitrix.Client.Classify.{classify_code}
use b24_sinedis.Bitrix.Client.Call.{
  BitrixResponse, BitrixClient, is_success, is_json, parse_response, call,
}
use b24_sinedis.Bitrix.Client.Answers.{
  Consistent, IsSuccess, sends, classify_code-Consistent, parse_response-ok, call-sends,
}
use b24_sinedis.Bitrix.Tokens.{is_hex_digest, hash_application_token, verify_application_token}
use b24_sinedis.Bitrix.Tokens.Keys.{b64decode, configured_hmac_keys, loaded, verify-rotated}
use b24_sinedis.Bitrix.OAuth.Stored.{store_tokens_shared}
use b24_sinedis.Bitrix.OAuth.Refresh.{OAuthRefreshResult, token_expiry}
use b24_sinedis.Bitrix.OAuth.Marks.{is_marked, call_portal_rejected}
use b24_sinedis.Bitrix.OAuth.Portal.{
  store_tokens, get_access_token, refresh_access_token, call_portal,
}
use b24_sinedis.Bitrix.OAuth.Traffic.{call_portal-bounds}

abbrev settings : Settings
settings = record defaults { bitrix_client_id = some "id"; bitrix_client_secret = some "secret" }

-- A server that knows neither the token nor the refresh token.
abbrev refusing : Env
refusing = answering (answer 401 (obj (field "error" (str "expired_token") end)))

abbrev statuses : List BitrixPortal → List PortalStatus
statuses [] = []
statuses (p ∷ ps) = p.status ∷ statuses ps

-- The rejected token is refreshed, the refresh is refused, and the portal is marked.
refusal_marks :
    let (r, w) = call_portal refusing settings 7 "crm.item.get" end (world []) in
    (w.exchanges ≡ 2) × (statuses w.portals ≡ auth_error ∷ [])
unfolding call_portal ◌>>=◌ try_else pure raise lift
refusal_marks = (refl, refl)

call_portal-bounds_example :
    let w = (call_portal refusing settings 7 "crm.item.get" end (world [])).1 in
    (w.exchanges ≤ 4) × (w.jobs ≡ [])
call_portal-bounds_example = call_portal-bounds refusing settings 7 "crm.item.get" end (world [])

abbrev no_time : Option Fields
no_time = none

abbrev half_minute : Option ℕ
half_minute = some 30000000

classify_code-Consistent_example :
    Consistent 503 "crm.item.get" "query_limit_exceeded" no_time half_minute (
      classify_code 503 "crm.item.get" "query_limit_exceeded" no_time "QUERY_LIMIT_EXCEEDED"
        half_minute)
classify_code-Consistent_example =
    classify_code-Consistent 503 "crm.item.get" "query_limit_exceeded" no_time
      "QUERY_LIMIT_EXCEEDED" half_minute

abbrev good : HttpResponse
good = record {
  status_code = 200;
  content_type = some "application/json; charset=utf-8";
  retry_after = none;
  json = some (obj (field "result" (int (pos 3)) end));
}

abbrev three : BitrixResponse
three = record { result = int (pos 3); next = none; total = none; time = none }

parse_response-ok_example :
    (is_success good.status_code ≡ true)
    × (is_json good.content_type ≡ true)
    × IsSuccess good.json three
unfolding parse_response
parse_response-ok_example = parse_response-ok willing 700 "crm.item.get" good {v = three} refl

abbrev client : BitrixClient
client = record { endpoint = "https://portal.example/rest/"; access_token = "token" }

call-sends_example :
    let (r, w) = call willing client "crm.item.get" end (world []) in
    let body = put "auth" (str "token") end in
    (w.sent ≡ (
      if sends willing client "crm.item.get" end (world [])
      then record { url = "https://portal.example/rest/crm.item.get"; body = body } ∷ []
      else []))
    × (sends willing client "crm.item.get" end (world []) ≡ false
        → r ≡ raised (bitrix configuration_error))
    × (get "auth" body ≡ some (str "token"))
call-sends_example = call-sends willing client "crm.item.get" end (world [])

-- A key that prints 64 zeros, and one that prints 64 letters.
abbrev zeros : String
zeros = "0000000000000000000000000000000000000000000000000000000000000000"

abbrev digest_of : Bool → String
digest_of true = zeros
digest_of false = "abcdefabcdefabcdefabcdefabcdefabcdefabcdefabcdefabcdefabcdefabcd"

abbrev printed : Bool → String → String
printed key token = digest_of key

printed-digest : (key : Bool) (token : String) → is_hex_digest (printed key token) ≡ true
unfolding is_hex_digest
printed-digest true token = refl
printed-digest false token = refl

abbrev former_key : String
former_key = "AAAAAAAAAAAAAAAAAAAAAAAAAAAAAAAAAAAAAAAAAAA="

abbrev current_key : String
current_key = "__________________________________________8="

decodes : b64decode "-_8=" ≡ some (251 ∷ 255 ∷ [])
unfolding b64decode
decodes = refl

refuses_short_key :
    configured_hmac_keys (λ raw_key. raw_key) (some "-_8=") none ≡ raised security_error
unfolding configured_hmac_keys
refuses_short_key = refl

-- the first byte tells the two keys apart
abbrev is_former : List ℕ → Bool
is_former [] = false
is_former (b ∷ bs) = b == 0

verify-rotated_example :
    verify_application_token printed
      (loaded (configured_hmac_keys is_former (some current_key) (some former_key)))
      "application"
      ("hmac-sha256:v1:" ++ zeros)
    ≡ ok true
unfolding hash_application_token configured_hmac_keys
verify-rotated_example =
    verify-rotated is_former printed former_key current_key none (true ∷ []) (false ∷ true ∷ [])
      "application" ("hmac-sha256:v1:" ++ zeros) printed-digest refl refl refl

abbrev renewed : Fields
renewed = field "access_token" (str "new access") (
    field "refresh_token" (str "new refresh") (
      field "member_id" (str "m") (
        field "client_endpoint" (str "https://portal.example/rest/") (
          field "server_endpoint" (str "https://oauth.example/rest/")
            (field "expires_in" (int (pos 3600)) end)))))

-- A server that renews the tokens and then rejects the new one too.
abbrev distrustful : Env
distrustful = record refusing {
  server = λ n q.
      if n == 1
      then answer 200 (obj renewed)
      else answer 401 (obj (field "error" (str "expired_token") end));
}

abbrev rejection : ApiError
rejection = record {
  code = "expired_token";
  http_status = 401;
  method = "crm.item.get";
  retryable = false;
  retry_after_seconds = none;
  time = none;
}

call_portal_rejected_example :
    is_marked 7 (call_portal distrustful settings 7 "crm.item.get" end (world [])).1.portals ≡ true
unfolding call_portal ◌>>=◌ try_else pure raise lift
call_portal_rejected_example =
    call_portal_rejected distrustful settings 7 "crm.item.get" end (world []) rejection refl

abbrev pair : OAuthRefreshResult
pair = record {
  member_id = "m";
  client_endpoint = "https://portal.example/rest/";
  server_endpoint = "https://oauth.example/rest/";
  access_token = "new access";
  refresh_token = "new refresh";
  expires = none;
  expires_in = some 3600;
  domain = none;
  scope = none;
  status = none;
  user_id = none;
}

store_tokens_shared_example :
    let w = (store_tokens willing settings 7 pair (world [])).1 in
    let read : Result String × World = (ok "new access", record w { readings = suc w.readings }) in
    (get_access_token willing settings 7 w ≡ read)
    × (refresh_access_token willing settings 7 false w ≡ read)
unfolding get_portal token_expiry
store_tokens_shared_example =
    store_tokens_shared willing settings 7 pair 3600000700 (world []) {p = portal} refl refl refl
      (omega arith)
