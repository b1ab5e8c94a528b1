-- ===== src/Bitrix/OAuth/Marks.antt =====
-- What a rejected access token leaves in the table of portals: `call_portal` of app/bitrix/oauth.py.
use b24_sinedis.Prelude.{
  ℕ, String, ◌≡◌, refl, Bool, true, false, not, ◌||◌, Option, none, some, List, [], ◌∷◌, all, arith,
  ◌==◌, comparable_ids,
}
use b24_sinedis.Value.{Fields}
use b24_sinedis.Settings.{Settings}
use b24_sinedis.Portals.{
  BitrixPortal, PortalStatus, auth_error, is_active, get_portal, write_portal,
}
use b24_sinedis.Runtime.{
  Result, ok, raised, HttpRequest, Env, World, Action, ◌>>=◌, ◌>>◌, pure, raise, lift, read_clock,
  post,
}
use b24_sinedis.Runtime.Contracts.{
  Meets, Anywhere, Whatever, Meets-pure, Meets-raise, Meets-lift, Meets-if, Meets-option, Meets-any,
  Meets-imp, Meets-bind, Meets-try, outcome-of,
}
use b24_sinedis.Bitrix.Exceptions.{
  Failure, bitrix, authentication_error, oauth_refresh_rejected, ApiError,
}
use b24_sinedis.Bitrix.Client.Call.{BitrixResponse}
use b24_sinedis.Bitrix.OAuth.Refresh.{OAuthRefreshResult, credentials, refresh}
use b24_sinedis.Bitrix.OAuth.Portal.{
  require_active, active_portal, commit_portal, refuse, reject, store_tokens, on_refresh_failure,
  exchange_tokens, refresh_credentials, usable_token, refresh_access_token, get_access_token,
  mark_auth_error, on_first_failure, on_second_failure, call_portal, decrypted,
}
use b24_sinedis.Bitrix.OAuth.Rejection.{
  rejects, Clean, Clean-raised, Clean-ok, Clean-if, Clean-url, Clean-parse_refresh, Clean-expiry,
}

abbrev pub is_refused : PortalStatus → Bool
is_refused auth_error = true
is_refused _ = false

-- Every row with this identifier is in the state `auth_error`.
abbrev pub is_marked : ℕ → List BitrixPortal → Bool
is_marked id ps = all (λ p. not (p.id == id) || is_refused p.status) ps

marked : (id : ℕ) (ps : List BitrixPortal) → is_marked id (write_portal id refuse ps) ≡ true
unfolding write_portal
marked id [] = refl
marked id (p ∷ ps) = ground (arith, marked id ps)

-- What a raised exception leaves: the portal is marked if it is a rejection of the access token.
Left : ℕ → Failure → World → Type 0
Left id e w = rejects e ≡ true → is_marked id w.portals ≡ true

module _ (id : ℕ) where
  -- A run after whose exceptions the portal is marked where it must be.
  abbrev Marks : {A : Type 0} → Action A → Type 0
  Marks m = Meets Anywhere Whatever (Left id) m

  module _ {A : Type 0} where
    unrejected : (r : Result A) (e : Failure) (w : World) → Clean r → r ≡ raised e → Left id e w
    unfolding Left
    unrejected (ok a) e w c h = cc
    unrejected (raised x) e w c h = λ k. ground (arith, c.is_clean, h, k)

    Marks-lift : {r : Result A} → Clean r → Marks (lift r)
    Marks-lift {r} c = Meets-lift r (λ a e w p. tt) (λ e h w p. unrejected r e w c h)

    Marks-pure : (a : A) → Marks (pure a)
    Marks-pure a = Meets-pure a (λ w p. tt)

    Marks-raise : (e : Failure) → not (rejects e) ≡ true → Marks (raise {A = A} e)
    unfolding Left
    Marks-raise e h = Meets-raise e (λ w p k. ground (arith, h, k))

  Marks-clock : (env : Env) → Marks (read_clock env)
  unfolding read_clock
  Marks-clock env = record { run = λ w p. tt }

  Marks-post : (env : Env) (q : HttpRequest) → Marks (post env q)
  unfolding post
  Marks-post env q = record { run = λ w p. tt }

  Marks-commit : (f : BitrixPortal → BitrixPortal) → Marks (commit_portal id f)
  unfolding commit_portal
  Marks-commit f = record { run = λ w p. tt }

  Clean-active : (o : Option BitrixPortal) → Clean (require_active o)
  unfolding require_active
  Clean-active none = Clean-raised _ refl
  Clean-active (some p) = Clean-if (is_active p.status) (Clean-ok _) (Clean-raised _ refl)

  Clean-decrypted : (o : Option String) → Clean (decrypted o)
  Clean-decrypted none = Clean-raised _ refl
  Clean-decrypted (some s) = Clean-ok _

  Marks-portal : Marks (active_portal id)
  unfolding active_portal lift
  Marks-portal = record { run = λ w. (Marks-lift (Clean-active (get_portal id w.portals))).run w }

  module _ (env : Env) (settings : Settings) where
    Marks-refresh :
        (endpoint token member : String) → Marks (refresh env settings endpoint token member)
    unfolding refresh
    Marks-refresh endpoint token member =
        Meets-option (credentials settings) (Marks-raise _ refl) λ c.
          Meets-if _ (Marks-raise _ refl) (
            Meets-bind (Marks-lift (Clean-url env.urlsplit endpoint)) λ url.
              Meets-bind (Marks-post env _)
                λ answer. Marks-lift (Clean-parse_refresh env.urlsplit answer member))

    Marks-reject : Marks (reject env settings id)
    unfolding reject
    Marks-reject = Meets-bind (Marks-commit _) λ u. Marks-raise _ refl

    Marks-store : (r : OAuthRefreshResult) → Marks (store_tokens env settings id r)
    unfolding store_tokens
    Marks-store r = Meets-bind (Marks-clock env) λ now.
        Meets-bind (Marks-lift (Clean-expiry r.expires r.expires_in now))
          λ at. Meets-bind (Marks-commit _) λ u. Marks-pure _

    Marks-refused :
        (e : Failure) → Meets (Left id e) Whatever (Left id) (on_refresh_failure env settings id e)
    Marks-refused (bitrix oauth_refresh_rejected) =
        Meets-imp Marks-reject (λ w p. tt) (λ w a p. p) (λ w e p. p)
    Marks-refused _ = Meets-raise _ (λ w p. p)

    Marks-exchange : (portal : BitrixPortal) → Marks (exchange_tokens env settings id portal)
    unfolding exchange_tokens
    Marks-exchange portal = Meets-option (refresh_credentials portal) Marks-reject λ c.
        Meets-bind (Marks-lift (Clean-decrypted (env.decrypt c.0)))
          λ token. Meets-try (Marks-refresh _ _ _) (λ e. Marks-refused e) (λ r. Marks-store r)

    Marks-access : (force : Bool) → Marks (refresh_access_token env settings id force)
    unfolding refresh_access_token
    Marks-access force = Meets-bind Marks-portal λ portal. Meets-bind (Marks-clock env) λ now.
        Meets-option (usable_token env settings id force _ portal) (Marks-exchange portal)
          λ encrypted. Marks-lift (Clean-decrypted (env.decrypt encrypted))

    Marks-token : Marks (get_access_token env settings id)
    unfolding get_access_token
    Marks-token = Meets-bind Marks-portal λ portal.
        Meets-option portal.access_token_encrypted (Marks-raise _ refl) λ encrypted.
          Meets-bind (Marks-clock env) λ now.
            Meets-if _ (Marks-lift (Clean-decrypted (env.decrypt encrypted))) (Marks-access false)

    Marks-mark :
        (e : ApiError)
        → Marks (
            mark_auth_error env settings id
            >> raise {A = BitrixResponse} (bitrix (authentication_error e)))
    unfolding mark_auth_error commit_portal Left ◌>>=◌ raise
    Marks-mark e = record { run = λ w p k. marked id w.portals }

    Marks-second : (e : Failure) → Marks (on_second_failure env settings id e)
    Marks-second (bitrix (authentication_error e)) = Marks-mark e
    Marks-second _ = Marks-raise _ refl

    Marks-first :
        (method : String) (params : Fields) (e : Failure)
        → Marks (on_first_failure env settings id method params e)
    Marks-first method params (bitrix (authentication_error e)) =
        Meets-bind (Marks-access true) λ token.
          Meets-try (Meets-any _)
            (λ e. Meets-imp (Marks-second e) (λ w p. tt) (λ w a p. p) (λ w x p. p))
            (λ r. Marks-pure r)
    Marks-first method params _ = Marks-raise _ refl

    Marks-call :
        (method : String) (params : Fields) → Marks (call_portal env settings id method params)
    unfolding call_portal
    Marks-call method params = Meets-bind Marks-token λ token.
        Meets-try (Meets-any _)
          (λ e. Meets-imp (Marks-first method params e) (λ w p. tt) (λ w a p. p) (λ w x p. p))
          (λ r. Marks-pure r)

-- When a call of a portal raises the rejection of its access token, after the refresh that it forced,
-- the portal is in the state `auth_error`.
pub call_portal_rejected :
    (env : Env) (settings : Settings) (id : ℕ) (method : String) (params : Fields) (w : World)
    (e : ApiError)
    → (call_portal env settings id method params w).0 ≡ raised (bitrix (authentication_error e))
    → is_marked id (call_portal env settings id method params w).1.portals ≡ true
unfolding Left
call_portal_rejected env settings id method params w e h =
    outcome-of Whatever (Left id) _ h ((Marks-call id env settings method params).run w tt) refl
