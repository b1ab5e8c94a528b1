-- ===== src/Bitrix/OAuth/Traffic.antt =====
-- What `PortalOAuthService.call_portal` of app/bitrix/oauth.py sends, and what it leaves alone.
use b24_sinedis.Prelude.{ℕ, suc, ◌+◌, ◌≤◌, String, ◌≡◌, refl, Bool, true, false, arith}
use b24_sinedis.Value.{Fields}
use b24_sinedis.Settings.{Settings}
use b24_sinedis.Portals.{BitrixPortal, get_portal}
use b24_sinedis.Runtime.{
  Result, HttpRequest, Env, World, Action, ◌>>=◌, pure, raise, lift, post, read_clock,
}
use b24_sinedis.Runtime.Contracts.{
  Meets, Meets-pure, Meets-raise, Meets-lift, Meets-if, Meets-option, outcome-both, Meets-imp,
  Meets-bind, Meets-try,
}
use b24_sinedis.Bitrix.Exceptions.{Failure, bitrix, authentication_error, oauth_refresh_rejected}
use b24_sinedis.Bitrix.Client.Call.{BitrixClient, call}
use b24_sinedis.Bitrix.OAuth.Refresh.{OAuthRefreshResult, credentials, refresh}
use b24_sinedis.Bitrix.OAuth.Portal.{
  require_active, active_portal, commit_portal, refresh_credentials, usable_token, reject,
  store_tokens, on_refresh_failure, on_second_failure, on_first_failure, exchange_tokens,
  refresh_access_token, get_access_token, call_once, call_portal, mark_auth_error,
}

-- At most `n` exchanges more than `b`, and the jobs, the buttons and the launches of `t`.
record Spent (b : ℕ) (t : World) (n : ℕ) (w : World) : Type 0 where
  within : w.exchanges ≤ n + b
  kept : w.jobs ≡ t.jobs
  same_buttons : w.buttons ≡ t.buttons
  same_launches : w.launches ≡ t.launches

module _ (b : ℕ) (t : World) where
  -- A run that starts with `n` exchanges spent and ends with at most `n'`.
  abbrev Spends : {A : Type 0} → ℕ → ℕ → Action A → Type 0
  Spends n n' m = Meets (Spent b t n) (λ a. Spent b t n') (λ e. Spent b t n') m

  Spent-more : (n n' : ℕ) (w : World) → n ≤ n' → Spent b t n w → Spent b t n' w
  Spent-more n n' w h p = record {
    within = omega (arith, p.within);
    kept = p.kept;
    same_buttons = p.same_buttons;
    same_launches = p.same_launches;
  }

  module _ {A : Type 0} where
    Spends-lift : {n : ℕ} (r : Result A) → Spends n n (lift r)
    Spends-lift r = Meets-lift r (λ a e w p. p) (λ x e w p. p)

    Spends-pure : {n : ℕ} (a : A) → Spends n n (pure a)
    Spends-pure a = Meets-pure a (λ w p. p)

    Spends-raise : {n : ℕ} (e : Failure) → Spends n n (raise {A = A} e)
    Spends-raise e = Meets-raise e (λ w p. p)

    Spends-more : {n n' k : ℕ} {m : Action A} → Spends n k m → k ≤ n' → Spends n n' m
    Spends-more {n} {n'} {k} c h =
        Meets-imp c (λ w p. p) (λ w a p. Spent-more k n' w h p) λ w e p. Spent-more k n' w h p

  Spends-bind :
      {A B : Type 0} {n k n' : ℕ} {m : Action A} {f : A → Action B}
      → Spends n k m
      → ((a : A) → Spends k n' (f a))
      → k ≤ n'
      → Spends n n' (m >>= f)
  Spends-bind {k = k} {n'} first rest h =
      Meets-bind (Meets-imp first (λ w p. p) (λ w a p. p) (λ w e p. Spent-more k n' w h p)) rest

  Spends-post : (env : Env) (q : HttpRequest) {n : ℕ} → Spends n (suc n) (post env q)
  unfolding post
  Spends-post env q = record {
    run = λ w p. record {
      within = omega (arith, p.within);
      kept = p.kept;
      same_buttons = p.same_buttons;
      same_launches = p.same_launches;
    };
  }

  Spends-clock : (env : Env) {n : ℕ} → Spends n n (read_clock env)
  unfolding read_clock
  Spends-clock env = record {
    run = λ w p. record {
      within = p.within;
      kept = p.kept;
      same_buttons = p.same_buttons;
      same_launches = p.same_launches;
    };
  }

  Spends-commit :
      (id : ℕ) (f : BitrixPortal → BitrixPortal) {n : ℕ} → Spends n n (commit_portal id f)
  unfolding commit_portal
  Spends-commit id f = record {
    run = λ w p. record {
      within = p.within;
      kept = p.kept;
      same_buttons = p.same_buttons;
      same_launches = p.same_launches;
    };
  }

  Spends-portal : (id : ℕ) {n : ℕ} → Spends n n (active_portal id)
  unfolding active_portal lift
  Spends-portal id {n} = record {
    run = λ w. (Spends-lift {n = n} (require_active (get_portal id w.portals))).run w;
  }

  Spends-call :
      (env : Env) (client : BitrixClient) (method : String) (params : Fields) {n : ℕ}
      → Spends n (suc n) (call env client method params)
  unfolding call
  Spends-call env client method params {n} =
      Spends-bind (Spends-lift _)
        (λ safe. Meets-if _ (Spends-more (Spends-raise _) (omega arith)) (
          Spends-bind (Spends-post env _)
            (λ answer. Spends-bind (Spends-clock env) (λ now. Spends-lift _) (omega arith))
            (omega arith)))
        (omega arith)

  module _ (env : Env) (settings : Settings) where
    Spends-refresh :
        (endpoint token member : String) {n : ℕ}
        → Spends n (suc n) (refresh env settings endpoint token member)
    unfolding refresh
    Spends-refresh endpoint token member {n} =
        Meets-option (credentials settings) (Spends-more (Spends-raise _) (omega arith)) λ c.
          Meets-if _ (Spends-more (Spends-raise _) (omega arith)) (
            Spends-bind (Spends-lift _)
              (λ url. Spends-bind (Spends-post env _) (λ answer. Spends-lift _) (omega arith))
              (omega arith))

    module _ (id : ℕ) where
      Spends-reject : {n : ℕ} → Spends n n (reject env settings id)
      unfolding reject
      Spends-reject = Spends-bind (Spends-commit id _) (λ _. Spends-raise _) (omega arith)

      Spends-store : (r : OAuthRefreshResult) {n : ℕ} → Spends n n (store_tokens env settings id r)
      unfolding store_tokens
      Spends-store r =
          Spends-bind (Spends-clock env)
            (λ now.
              Spends-bind (Spends-lift _)
                (λ at. Spends-bind (Spends-commit id _) (λ _. Spends-pure _) (omega arith))
                (omega arith))
            (omega arith)

      Spends-rejected : (e : Failure) {n : ℕ} → Spends n n (on_refresh_failure env settings id e)
      Spends-rejected (bitrix oauth_refresh_rejected) = Spends-reject
      Spends-rejected _ = Spends-raise _

      Spends-exchange :
          (portal : BitrixPortal) {n : ℕ}
          → Spends n (suc n) (exchange_tokens env settings id portal)
      unfolding exchange_tokens
      Spends-exchange portal =
          Meets-option (refresh_credentials portal) (Spends-more Spends-reject (omega arith)) λ c.
            Spends-bind (Spends-lift _)
              (λ token.
                Meets-try (Spends-refresh _ _ _) (λ e. Spends-rejected e) (λ r. Spends-store r))
              (omega arith)

      Spends-access :
          (force : Bool) {n : ℕ} → Spends n (suc n) (refresh_access_token env settings id force)
      unfolding refresh_access_token
      Spends-access force =
          Spends-bind (Spends-portal id)
            (λ portal.
              Spends-bind (Spends-clock env)
                (λ now.
                  Meets-option (usable_token env settings id force _ portal)
                    (Spends-exchange portal) λ token. Spends-more (Spends-lift _) (omega arith))
                (omega arith))
            (omega arith)

      Spends-token : {n : ℕ} → Spends n (suc n) (get_access_token env settings id)
      unfolding get_access_token
      Spends-token =
          Spends-bind (Spends-portal id)
            (λ portal.
              Meets-option portal.access_token_encrypted
                (Spends-more (Spends-raise _) (omega arith))
                λ encrypted.
                  Spends-bind (Spends-clock env)
                    (λ now.
                      Meets-if _ (Spends-more (Spends-lift _) (omega arith)) (Spends-access false))
                    (omega arith))
            (omega arith)

      Spends-once :
          (token method : String) (params : Fields) {n : ℕ}
          → Spends n (suc n) (call_once env settings id token method params)
      unfolding call_once
      Spends-once token method params =
          Spends-bind (Spends-portal id)
            (λ portal.
              Spends-bind (Spends-lift _) (λ client. Spends-call env client method params)
                (omega arith))
            (omega arith)

      Spends-second : (e : Failure) {n : ℕ} → Spends n n (on_second_failure env settings id e)
      unfolding mark_auth_error
      Spends-second (bitrix (authentication_error e)) =
          Spends-bind (Spends-commit id _) (λ _. Spends-raise _) (omega arith)
      Spends-second _ = Spends-raise _

      Spends-first :
          (method : String) (params : Fields) (e : Failure) {n : ℕ}
          → Spends n (suc (suc n)) (on_first_failure env settings id method params e)
      Spends-first method params (bitrix (authentication_error e)) =
          Spends-bind (Spends-access true)
            (λ token.
              Meets-try (Spends-once token method params) (λ e. Spends-second e)
                (λ r. Spends-pure r))
            (omega arith)
      Spends-first method params _ = Spends-more (Spends-raise _) (omega arith)

      Spends-call_portal :
          (method : String) (params : Fields)
          → Spends 0 4 (call_portal env settings id method params)
      unfolding call_portal
      Spends-call_portal method params =
          Spends-bind Spends-token
            (λ token.
              Meets-try (Spends-once token method params) (λ e. Spends-first method params e)
                (λ r. Spends-more (Spends-pure r) (omega arith)))
            (omega arith)

module _ (env : Env) (method : String) (params : Fields) (w : World) where
  abbrev at_start : Spent w.exchanges w 0 w
  at_start = record { within = omega arith; kept = refl; same_buttons = refl; same_launches = refl }

  call_portal-Spent :
      (settings : Settings) (id : ℕ)
      → Spent w.exchanges w 4 (call_portal env settings id method params w).1
  call_portal-Spent settings id =
      let (r, w') = call_portal env settings id method params w in
      outcome-both (Spent w.exchanges w 4) r w'
        ((Spends-call_portal w.exchanges w env settings id method params).run w at_start)

  -- The buttons and the launches are as before a call of a portal.
  pub call_portal-launches :
      (settings : Settings) (id : ℕ)
      → let w' = (call_portal env settings id method params w).1 in
        (w'.buttons ≡ w.buttons) × (w'.launches ≡ w.launches)
  call_portal-launches settings id =
      let spent = call_portal-Spent settings id in (spent.same_buttons, spent.same_launches)

  -- They are as before a call of a client, too.
  pub call-launches :
      (client : BitrixClient)
      → let w' = (call env client method params w).1 in
        (w'.buttons ≡ w.buttons) × (w'.launches ≡ w.launches)
  call-launches client =
      let (r, w') = call env client method params w in
      let spent =
        outcome-both (Spent w.exchanges w 1) r w'
          ((Spends-call w.exchanges w env client method params {n = 0}).run w at_start) in
      (spent.same_buttons, spent.same_launches)

-- One call of a portal, with the refreshes that it starts, makes at most four exchanges, and it
-- changes no job, whether it returns or raises.
pub call_portal-bounds :
    (env : Env) (settings : Settings) (id : ℕ) (method : String) (params : Fields) (w : World)
    → let w' = (call_portal env settings id method params w).1 in
      (w'.exchanges ≤ 4 + w.exchanges) × (w'.jobs ≡ w.jobs)
call_portal-bounds env settings id method params w =
    let spent = call_portal-Spent env method params w settings id in (spent.within, spent.kept)
