-- ===== src/Bitrix/OAuth/Portal.antt =====
-- `PortalOAuthService` of app/bitrix/oauth.py over the table of portals. `refresh_access_token` holds
-- the portal's row for the whole exchange and writes it only when its transaction ends without an
-- exception. The clock is read where the code reads it.
use b24_sinedis.Prelude.{
  ℕ, ◌+◌, String, Bool, true, false, not, ◌&&◌, Option, none, some, if◌then◌else◌, ◌==◌,
  comparable_texts, ltb,
}
use b24_sinedis.Value.{Fields}
use b24_sinedis.Settings.{Settings}
use b24_sinedis.Portals.{BitrixPortal, active, auth_error, is_active, get_portal, write_portal}
use b24_sinedis.Runtime.{
  Result, ok, raised, Env, Action, ◌>>=◌, ◌>>◌, pure, raise, lift, try_else, read_clock,
}
use b24_sinedis.Bitrix.Exceptions.{
  Failure, bitrix, authentication_error, oauth_configuration_error, oauth_refresh_rejected,
  encryption_error,
}
use b24_sinedis.Bitrix.Client.Call.{BitrixResponse, new_client, call}
use b24_sinedis.Bitrix.OAuth.Refresh.{OAuthRefreshResult, token_expiry, refresh}

unfoldable pub require_active : Option BitrixPortal → Result BitrixPortal
require_active none = raised (bitrix oauth_configuration_error)
require_active (some portal) =
    if is_active portal.status then ok portal else raised (bitrix oauth_configuration_error)

-- session.get(BitrixPortal, portal_id), and `_require_active`
unfoldable pub active_portal : ℕ → Action BitrixPortal
unfolding require_active get_portal
active_portal portal_id w = (require_active (get_portal portal_id w.portals), w)

-- A committed write of one portal.
unfoldable pub commit_portal : ℕ → (BitrixPortal → BitrixPortal) → Action (Unit {0})
unfolding write_portal
commit_portal portal_id f w = (ok tt, record w { portals = write_portal portal_id f w.portals })

abbrev pub refuse : BitrixPortal → BitrixPortal
refuse p = record p { status = auth_error }

-- portal.token_expires_at is not None and portal.token_expires_at > cutoff
abbrev pub is_fresh : ℕ → Option ℕ → Bool
is_fresh cutoff none = false
is_fresh cutoff (some expires_at) = ltb cutoff expires_at

-- The replacement of the complete token pair.
abbrev pub renew : OAuthRefreshResult → String → String → ℕ → BitrixPortal → BitrixPortal
renew r access refresh_token expires_at p = record p {
  access_token_encrypted = some access;
  refresh_token_encrypted = some refresh_token;
  token_expires_at = some expires_at;
  client_endpoint = r.client_endpoint;
  server_endpoint = some r.server_endpoint;
  domain = elim r.domain [
    | none ↦ p.domain
    | some domain ↦ if domain == "" then p.domain else domain
  ];
  status = active;
}

abbrev pub decrypted : Option String → Result String
decrypted none = raised encryption_error
decrypted (some s) = ok s

-- The credentials that a refresh needs.
abbrev pub refresh_credentials : BitrixPortal → Option (String × String)
refresh_credentials p = elim p.refresh_token_encrypted [
  | none ↦ none
  | some token ↦ elim p.server_endpoint [ none ↦ none | some endpoint ↦ some (token, endpoint) ]
]

module _ (env : Env) (settings : Settings) (portal_id : ℕ) where
  -- The portal is marked, and the exception raised after the commit.
  unfoldable pub reject : Action String
  unfolding commit_portal
  reject = do commit_portal portal_id refuse; raise (bitrix oauth_refresh_rejected)

  unfoldable pub store_tokens : OAuthRefreshResult → Action String
  unfolding read_clock token_expiry commit_portal
  store_tokens r = do
    now ← read_clock env
    expires_at ← lift (token_expiry r.expires r.expires_in now)
    commit_portal portal_id
        (renew r (env.encrypt r.access_token) (env.encrypt r.refresh_token) expires_at)
    pure r.access_token

  -- `except BitrixOAuthRefreshRejectedError`; any other exception rolls back what is not written.
  abbrev pub on_refresh_failure : Failure → Action String
  on_refresh_failure (bitrix oauth_refresh_rejected) = reject
  on_refresh_failure e = raise e

  unfoldable pub exchange_tokens : BitrixPortal → Action String
  unfolding reject refresh store_tokens
  exchange_tokens portal = elim (refresh_credentials portal) [
    | none ↦ reject
    | some (encrypted, server_endpoint) ↦ do
      refresh_token ← lift (decrypted (env.decrypt encrypted))
      try_else (refresh env settings server_endpoint refresh_token portal.member_id)
          on_refresh_failure store_tokens
  ]

  -- The token that needs no refresh, where `force` is not set.
  abbrev pub usable_token : Bool → ℕ → BitrixPortal → Option String
  usable_token force cutoff portal =
      if not force && is_fresh cutoff portal.token_expires_at
      then portal.access_token_encrypted
      else none

  unfoldable pub refresh_access_token : Bool → Action String
  unfolding active_portal read_clock exchange_tokens
  refresh_access_token force = do
    portal ← active_portal portal_id
    now ← read_clock env
    elim (usable_token force (now + settings.bitrix_oauth_expiry_skew) portal) [
      | some encrypted ↦ lift (decrypted (env.decrypt encrypted))
      | none ↦ exchange_tokens portal
    ]

  unfoldable pub get_access_token : Action String
  unfolding active_portal read_clock refresh_access_token
  get_access_token = do
    portal ← active_portal portal_id
    elim portal.access_token_encrypted [
      | none ↦ raise (bitrix oauth_configuration_error)
      | some encrypted ↦ do
        now ← read_clock env
        if is_fresh (now + settings.bitrix_oauth_expiry_skew) portal.token_expires_at
            then lift (decrypted (env.decrypt encrypted))
            else refresh_access_token false
    ]

  unfoldable pub call_once : String → String → Fields → Action BitrixResponse
  unfolding active_portal new_client call
  call_once token method params = do
    portal ← active_portal portal_id
    client ← lift (new_client env portal.client_endpoint token)
    call env client method params

  unfoldable pub mark_auth_error : Action (Unit {0})
  unfolding commit_portal
  mark_auth_error = commit_portal portal_id refuse

  -- The second call: a rejected token marks the portal, and the exception is raised again.
  abbrev pub on_second_failure : Failure → Action BitrixResponse
  on_second_failure (bitrix (authentication_error e)) = do
    mark_auth_error
    raise (bitrix (authentication_error e))
  on_second_failure e = raise e

  -- The first call: only a rejected token is tried again, after a forced refresh.
  abbrev pub on_first_failure : String → Fields → Failure → Action BitrixResponse
  on_first_failure method params (bitrix (authentication_error _)) = do
    token ← refresh_access_token true
    try_else (call_once token method params) on_second_failure pure
  on_first_failure method params e = raise e

  unfoldable pub call_portal : String → Fields → Action BitrixResponse
  unfolding get_access_token call_once refresh_access_token mark_auth_error
  call_portal method params = do
    token ← get_access_token
    try_else (call_once token method params) (on_first_failure method params) pure
