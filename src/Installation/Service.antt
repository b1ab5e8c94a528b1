-- ===== src/Installation/Service.antt =====
-- `ApplicationLifecycleService` of app/api/installation.py and its two handlers. `hash_token` and
-- `verify` are the functions of app/bitrix/security.py under the keys of the settings, `new_id` the
-- `uuid4` of a new row, `base_url` and `registry` what the registration service is built with.
use b24_sinedis.Prelude.{
  ℕ, String, Bool, true, false, Option, none, some, List, [], ◌∷◌, ◌++◌, map, any, find,
  if◌then◌else◌, ◌==◌, comparable_texts,
}
use b24_sinedis.Value.{end}
use b24_sinedis.Settings.{Settings}
use b24_sinedis.Portals.{PortalStatus, active, inactive, BitrixPortal}
use b24_sinedis.Runtime.{
  Result, ok, raised, Env, World, Action, ◌>>=◌, ◌>>◌, pure, raise, lift, read_clock,
}
use b24_sinedis.Bitrix.Exceptions.{
  Failure, bitrix, payload_error, lifecycle_error, authentication_error, permission_error,
  temporary_error, transport_error, timeout_error, rate_limit_error, invalid_response,
  configuration_error, permanent_error,
}
use b24_sinedis.Bitrix.Client.Call.{new_client, call}
use b24_sinedis.Bitrix.OAuth.Refresh.{token_expiry}
use b24_sinedis.Bitrix.Registration.{RobotDefinition}
use b24_sinedis.Bitrix.Registration.Service.{ensure_all}
use b24_sinedis.Api.{Request, read_callback_mapping, Reply, replied, http_error, unhandled}
use b24_sinedis.Installation.Payload.{
  BitrixAuthPayload, BitrixEventPayload, normalize_event_payload,
}

-- LifecycleResponse; `ok` is always true.
pub record LifecycleResponse : Type 0 where
  pub member_id : String
  pub status : PortalStatus
  pub robots : List (String × String)
  pub activities : List (String × String)
  pub events : List (String × String)

-- The columns that an installation writes.
pub record PortalValues : Type 0 where
  pub domain : String
  pub client_endpoint : String
  pub server_endpoint : String
  pub access_token_encrypted : String
  pub refresh_token_encrypted : String
  pub token_expires_at : ℕ
  pub application_token_hash : String

abbrev pub set_values : PortalValues → BitrixPortal → BitrixPortal
set_values v p = record p {
  domain = v.domain;
  client_endpoint = v.client_endpoint;
  server_endpoint = some v.server_endpoint;
  access_token_encrypted = some v.access_token_encrypted;
  refresh_token_encrypted = some v.refresh_token_encrypted;
  token_expires_at = some v.token_expires_at;
  application_token_hash = some v.application_token_hash;
  status = active;
}

abbrev pub new_portal : ℕ → String → PortalValues → BitrixPortal
new_portal id member_id v = record {
  id = id;
  member_id = member_id;
  domain = v.domain;
  client_endpoint = v.client_endpoint;
  server_endpoint = some v.server_endpoint;
  access_token_encrypted = some v.access_token_encrypted;
  refresh_token_encrypted = some v.refresh_token_encrypted;
  token_expires_at = some v.token_expires_at;
  application_token_hash = some v.application_token_hash;
  status = active;
}

abbrev pub is_member : String → BitrixPortal → Bool
is_member member_id p = p.member_id == member_id

-- INSERT … ON CONFLICT (member_id) DO UPDATE
unfoldable pub upsert : ℕ → String → PortalValues → List BitrixPortal → List BitrixPortal
upsert id member_id v portals =
    if any (is_member member_id) portals
    then map (λ p. if is_member member_id p then set_values v p else p) portals
    else portals ++ new_portal id member_id v ∷ []

-- portal.status = "inactive" on the row of the member
unfoldable pub deactivate : String → List BitrixPortal → List BitrixPortal
deactivate member_id =
    map (λ p. if is_member member_id p then record p { status = inactive } else p)

-- One committed write of the portals.
unfoldable pub write_portals : (List BitrixPortal → List BitrixPortal) → Action (Unit {0})
write_portals f w = (ok tt, record w { portals = f w.portals })

-- the three tokens that an installation needs
abbrev pub tokens_of :
    Option String → Option String → Option String → Option (String × String × String)
tokens_of (some access) (some refresh_token) (some application) =
    some (access, refresh_token, application)
tokens_of _ _ _ = none

abbrev pub values_of : Env → BitrixAuthPayload → String → String → ℕ → String → PortalValues
values_of env auth access refresh_token expires_at hash = record {
  domain = auth.domain;
  client_endpoint = auth.client_endpoint;
  server_endpoint = auth.server_endpoint;
  access_token_encrypted = env.encrypt access;
  refresh_token_encrypted = env.encrypt refresh_token;
  token_expires_at = expires_at;
  application_token_hash = hash;
}

-- the except clauses of `install_callback`; what no clause names is unhandled
abbrev pub install_excepted : Failure → Reply LifecycleResponse
install_excepted payload_error = http_error 400
install_excepted (bitrix (authentication_error e)) = http_error 401
install_excepted (bitrix (permission_error e)) = http_error 403
install_excepted (bitrix (temporary_error e)) = http_error 503
install_excepted (bitrix transport_error) = http_error 503
install_excepted (bitrix timeout_error) = http_error 503
install_excepted (bitrix (rate_limit_error e)) = http_error 503
install_excepted (bitrix (invalid_response status)) = http_error 503
install_excepted (bitrix configuration_error) = http_error 500
install_excepted (bitrix (permanent_error e)) = http_error 500
install_excepted e = unhandled e

abbrev pub uninstall_excepted : Failure → Reply LifecycleResponse
uninstall_excepted payload_error = http_error 400
uninstall_excepted lifecycle_error = http_error 403
uninstall_excepted e = unhandled e

abbrev pub answer :
    (Failure → Reply LifecycleResponse)
    → Result LifecycleResponse × World
    → Reply LifecycleResponse × World
answer excepted (ok r, w) = (replied r, w)
answer excepted (raised e, w) = (excepted e, w)

module _ (env : Env) (settings : Settings) (registry : List RobotDefinition) (base_url : String)
    (hash_token : String → Result String) (verify : String → String → Result Bool)
    (new_id : ℕ) where
  unfoldable pub install_with :
      BitrixAuthPayload → String → String → String → Action LifecycleResponse
  install_with auth access refresh_token application = do
    client ← lift (new_client env auth.client_endpoint access)
    info ← call env client "app.info" end
    registration ← ensure_all env client base_url settings registry
    now ← read_clock env
    expires_at ← lift (token_expiry auth.expires auth.expires_in now)
    hash ← lift (hash_token application)
    write_portals
        (upsert new_id auth.member_id (values_of env auth access refresh_token expires_at hash))
    pure (record {
      member_id = auth.member_id;
      status = active;
      robots = registration.robots;
      activities = registration.activities;
      events = registration.events;
    })

  unfoldable pub install : BitrixEventPayload → Action LifecycleResponse
  install payload =
      let auth = payload.auth in
      elim (tokens_of auth.access_token auth.refresh_token auth.application_token) [
        | none ↦ raise payload_error
        | some (access, refresh_token, application) ↦
            install_with auth access refresh_token application
      ]

  abbrev pub verified : BitrixPortal → Result Bool → Result BitrixPortal
  verified portal (ok b) = if b then ok portal else raised lifecycle_error
  verified portal (raised e) = raised e

  -- the guard of `uninstall`
  abbrev pub confirmed : String → Option BitrixPortal → Result BitrixPortal
  confirmed token none = raised lifecycle_error
  confirmed token (some portal) = elim portal.application_token_hash [
    | none ↦ raised lifecycle_error
    | some hash ↦ verified portal (verify token hash)
  ]

  unfoldable pub confirm : String → String → Action BitrixPortal
  confirm member_id token w = (confirmed token (find (is_member member_id) w.portals), w)

  unfoldable pub uninstall : BitrixEventPayload → Action LifecycleResponse
  uninstall payload =
      let auth = payload.auth in
      elim auth.application_token [
        | none ↦ raise payload_error
        | some token ↦ do
          portal ← confirm auth.member_id token
          write_portals (deactivate auth.member_id)
          pure (record {
            member_id = auth.member_id;
            status = inactive;
            robots = [];
            activities = [];
            events = [];
          })
      ]

  unfoldable pub install_callback : Request → World → Reply LifecycleResponse × World
  install_callback request w = answer install_excepted (
      (do
        source ← lift (read_callback_mapping request)
        payload ← lift (normalize_event_payload env.urlsplit "ONAPPINSTALL" true source)
        install payload)
        w)

  unfoldable pub uninstall_callback : Request → World → Reply LifecycleResponse × World
  uninstall_callback request w = answer uninstall_excepted (
      (do
        source ← lift (read_callback_mapping request)
        payload ← lift (normalize_event_payload env.urlsplit "ONAPPUNINSTALL" false source)
        uninstall payload)
        w)
