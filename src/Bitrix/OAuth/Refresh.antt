-- ===== src/Bitrix/OAuth/Refresh.antt =====
-- `BitrixOAuthService` of app/bitrix/oauth.py: one refresh request and the check of its answer.
use Prim.Native.String.{◌++◌}
use b24_sinedis.Prelude.{
  ℕ, ℤ, pos, ◌*◌, String, Bool, false, not, ◌||◌, ◌&&◌, Option, none, some, if◌then◌else◌, ◌==◌,
  comparable_ids, comparable_texts, ltb, is_some,
}
use b24_sinedis.Prelude.Text.{is_space, any_char, length, lower, show_nat}
use b24_sinedis.Value.{Value, str, null, obj, Fields, field, end, get, has}
use b24_sinedis.Settings.{Settings, second}
use b24_sinedis.Time.{from_timestamp, add_delta}
use b24_sinedis.Runtime.{
  Result, ok, raised, Exchange, response, timeout, request_error, SplitUrl, Env, Action, ◌>>=◌,
  lift, raise, post,
}
use b24_sinedis.Bitrix.OAuth.Numbers.{optional_string, optional_integer, positive_optional_int}
use b24_sinedis.Bitrix.Exceptions.{
  Failure, bitrix, configuration_error, oauth_configuration_error, oauth_temporary_error,
  oauth_refresh_rejected, value_error,
}
use b24_sinedis.Bitrix.Endpoint.{normalize_client_endpoint}
use b24_sinedis.Bitrix.Client.Classify.{is_server_error}
use b24_sinedis.Bitrix.Client.Call.{is_success}

pub record OAuthRefreshResult : Type 0 where
  pub member_id : String
  pub client_endpoint : String
  pub server_endpoint : String
  pub access_token : String
  pub refresh_token : String
  pub expires : Option ℕ
  pub expires_in : Option ℕ
  pub domain : Option String
  pub scope : Option String
  pub status : Option String
  pub user_id : Option ℤ

abbrev is_colon : ℕ → Bool
is_colon c = c == b':'

abbrev bracketed : String → String
bracketed hostname = if any_char is_colon hostname then "[" ++ (hostname ++ "]") else hostname

abbrev with_port : String → Option ℕ → String
with_port host none = host
with_port host (some port) = host ++ (":" ++ show_nat port)

unfoldable pub build_oauth_refresh_url : (String → Option SplitUrl) → String → Result String
unfolding any_char lower show_nat
build_oauth_refresh_url urlsplit server_endpoint = elim (urlsplit server_endpoint) [
  | none ↦ raised (bitrix oauth_configuration_error)
  | some parsed ↦ elim parsed.hostname [
    | none ↦ raised (bitrix oauth_configuration_error)
    | some hostname ↦
        if not (lower parsed.scheme == "https")
          || is_some parsed.username
          || is_some parsed.password
          || not (parsed.query == "")
          || not (parsed.fragment == "")
          || any_char is_space server_endpoint
        then raised (bitrix oauth_configuration_error)
        else ok ("https://" ++ (with_port (bracketed hostname) parsed.port ++ "/oauth/token/"))
  ]
]

abbrev pub after_now : ℕ → Option ℕ → Result ℕ
after_now now none = raised (bitrix oauth_configuration_error)
after_now now (some n) =
    if ltb 0 n then add_delta now (n * second) else raised (bitrix oauth_configuration_error)

-- The absolute time is preferred. Both numbers are positive or absent where the program calls it.
unfoldable pub token_expiry : Option ℕ → Option ℕ → ℕ → Result ℕ
unfolding from_timestamp add_delta
token_expiry none expires_in now = after_now now expires_in
token_expiry (some n) expires_in now =
    if ltb 0 n then from_timestamp (pos (n * second)) else after_now now expires_in

-- `except (ValueError, BitrixConfigurationError, BitrixOAuthConfigurationError)`
abbrev pub as_temporary : Failure → Failure
as_temporary value_error = bitrix oauth_temporary_error
as_temporary (bitrix configuration_error) = bitrix oauth_temporary_error
as_temporary (bitrix oauth_configuration_error) = bitrix oauth_temporary_error
as_temporary e = e

module _ {A B : Type 0} where
  abbrev pub bind : Result A → (A → Result B) → Result B
  bind (ok a) f = f a
  bind (raised e) f = raised e

  -- a step of the guarded block of `_parse_success`
  abbrev pub guarded : Result A → (A → Result B) → Result B
  guarded (ok a) f = f a
  guarded (raised e) f = raised (as_temporary e)

abbrev pub invalid : {A : Type 0} → Result A
invalid = raised (bitrix oauth_temporary_error)

-- a required text of the answer
abbrev pub required : String → Fields → Result String
required name payload = elim (optional_string (get name payload)) [ none ↦ invalid | some s ↦ ok s ]

-- The markers "://", "/", "?", "#" and "@"; the first holds the second.
abbrev pub is_marker : ℕ → Bool
is_marker c = c == b'/' || c == b'?' || c == b'#' || c == b'@'

unfoldable pub optional_domain : Option Value → Result (Option String)
unfolding length any_char lower
optional_domain none = ok none
optional_domain (some null) = ok none
optional_domain (some (str s)) =
    if s == "" || ltb 255 (length s) || any_char is_marker s || any_char is_space s
    then invalid
    else ok (some (lower s))
optional_domain (some _) = invalid

unfoldable pub parse_success :
    (String → Option SplitUrl) → Fields → String → Result OAuthRefreshResult
unfolding get normalize_client_endpoint build_oauth_refresh_url optional_integer
    positive_optional_int optional_domain
parse_success urlsplit payload expected_member_id =
    bind (required "access_token" payload) λ access_token.
      bind (required "refresh_token" payload) λ refresh_token.
        bind (required "member_id" payload) λ member_id.
          bind (required "client_endpoint" payload) λ raw_client.
            bind (required "server_endpoint" payload) λ raw_server.
              if not (member_id == expected_member_id)
              then raised (bitrix oauth_refresh_rejected)
              else guarded (normalize_client_endpoint urlsplit raw_client) λ client_endpoint.
                guarded (build_oauth_refresh_url urlsplit raw_server) λ _.
                  guarded (normalize_client_endpoint urlsplit raw_server) λ server_endpoint.
                    guarded (positive_optional_int (get "expires" payload)) λ expires.
                      guarded (positive_optional_int (get "expires_in" payload)) λ expires_in.
                        if not (is_some expires) && not (is_some expires_in)
                        then invalid
                        else guarded (optional_integer false (get "user_id" payload)) λ user_id.
                          bind (optional_domain (get "domain" payload)) λ domain. ok (record {
                            member_id = member_id;
                            client_endpoint = client_endpoint;
                            server_endpoint = server_endpoint;
                            access_token = access_token;
                            refresh_token = refresh_token;
                            expires = expires;
                            expires_in = expires_in;
                            domain = domain;
                            scope = optional_string (get "scope" payload);
                            status = optional_string (get "status" payload);
                            user_id = user_id;
                          })

unfoldable pub parse_refresh :
    (String → Option SplitUrl) → Exchange → String → Result OAuthRefreshResult
unfolding has parse_success
parse_refresh urlsplit timeout member_id = invalid
parse_refresh urlsplit request_error member_id = invalid
parse_refresh urlsplit (response r) member_id = elim r.json [
  | none ↦ invalid
  | some v ↦ elim v [
    | obj payload ↦
        if has "error" payload || not (is_success r.status_code)
        then raised (
            bitrix (
              if is_server_error r.status_code
              then oauth_temporary_error
              else oauth_refresh_rejected))
        else parse_success urlsplit payload member_id
    | _ ↦ invalid
  ]
]

-- The credentials that `refresh` sends.
abbrev refresh_form : String → String → String → Fields
refresh_form client_id client_secret refresh_token = field "grant_type" (str "refresh_token") (
    field "client_id" (str client_id)
      (field "client_secret" (str client_secret) (field "refresh_token" (str refresh_token) end)))

-- `not bitrix_client_id or bitrix_client_secret is None`
abbrev pub credentials : Settings → Option (String × String)
credentials s = elim s.bitrix_client_id [
  | none ↦ none
  | some client_id ↦
      if client_id == ""
      then none
      else elim s.bitrix_client_secret [ none ↦ none | some secret ↦ some (client_id, secret) ]
]

module _ (env : Env) (settings : Settings) where
  unfoldable pub refresh : String → String → String → Action OAuthRefreshResult
  unfolding build_oauth_refresh_url post parse_refresh
  refresh server_endpoint refresh_token expected_member_id = elim (credentials settings) [
    | none ↦ raise (bitrix oauth_configuration_error)
    | some (client_id, client_secret) ↦
        if refresh_token == "" then raise (bitrix oauth_configuration_error) else do
          url ← lift (build_oauth_refresh_url env.urlsplit server_endpoint)
          answer ←
              post env
                (record { url = url; body = refresh_form client_id client_secret refresh_token })
          lift (parse_refresh env.urlsplit answer expected_member_id)
  ]
