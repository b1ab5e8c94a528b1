-- ===== src/Installation/Lifecycle.antt =====
-- What an installation and its removal do, up to the callbacks that they allow and refuse.
use b24_sinedis.Prelude.{ℕ, String, ◌≡◌, refl, ap, Bool, Option, none, some, List, comparable_texts}
use b24_sinedis.Settings.{Settings}
use b24_sinedis.Runtime.{Result, ok, Env, World, raise}
use b24_sinedis.Runtime.Contracts.{
  Meets, Meets-pure, Meets-raise, Meets-lift, Meets-bind, Meets-imp,
}
use b24_sinedis.Bitrix.Exceptions.{Failure}
use b24_sinedis.Bitrix.Registration.{RobotDefinition}
use b24_sinedis.Installation.Payload.{BitrixAuthPayload, BitrixEventPayload}
use b24_sinedis.Installation.Service.{
  LifecycleResponse, PortalValues, upsert, write_portals, tokens_of, install_with, install,
  values_of,
}
use b24_sinedis.Installation.Steady.{
  IsSteady, Steady-lift, Steady-read_clock, Steady-call, ensure_all-Steady,
}

module _ (env : Env) (settings : Settings) (registry : List RobotDefinition) (base_url : String)
    (hash_token : String → Result String) (verify : String → String → Result Bool) (new_id : ℕ)
    (start : World) where
  -- The row of the member is written, with the hash of the application token, and no job has changed.
  abbrev pub IsWritten : BitrixAuthPayload → String → World → Type 0
  IsWritten auth token w =
      (v : PortalValues) × (hash_token token ≡ ok v.application_token_hash)
      × (w.portals ≡ upsert new_id auth.member_id v start.portals)
      × (w.jobs ≡ start.jobs)

  module _ (auth : BitrixAuthPayload) (access refresh_token token : String) where
    module _ (expires_at : ℕ) where
      abbrev Hashed : String → World → Type 0
      Hashed hash w = (hash_token token ≡ ok hash) × IsSteady start w

      written :
          (hash : String)
          → Meets
              (Hashed hash)
              (λ x. IsWritten auth token)
              (λ e. IsSteady start)
              (write_portals (
                upsert new_id auth.member_id
                  (values_of env auth access refresh_token expires_at hash)))
      unfolding write_portals
      written hash = record {
        run = λ w h. (
          values_of env auth access refresh_token expires_at hash,
          h.0,
          ap
              (upsert new_id auth.member_id
                (values_of env auth access refresh_token expires_at hash))
              h.1.same_portals,
          h.1.same_jobs,
        );
      }

    -- The answer names the member whose row is written.
    abbrev Installed : LifecycleResponse → World → Type 0
    Installed r w = (r.member_id ≡ auth.member_id) × IsWritten auth token w

    with-IsWritten :
        Meets
          (IsSteady start)
          Installed
          (λ e. IsSteady start)
          (install_with env settings registry base_url hash_token verify new_id auth access
            refresh_token token)
    unfolding install_with
    with-IsWritten = Meets-bind (Steady-lift start _) λ client.
        Meets-bind (Steady-call start env client _ _) λ info.
          Meets-bind (ensure_all-Steady start env client base_url settings registry) λ registration.
            Meets-bind (Steady-read_clock start env) λ now.
              Meets-bind (Steady-lift start _) λ expires_at.
                Meets-bind {M = Hashed expires_at}
                  (Meets-lift (hash_token token) (λ hash e w h. (e, h)) (λ x e w h. h))
                  λ hash. Meets-bind (written expires_at hash) λ x. Meets-pure _ (λ w h. (refl, h))

  -- The answer of an installation, and the events that are refused.
  abbrev pub IsInstalled : BitrixAuthPayload → LifecycleResponse → World → Type 0
  IsInstalled auth r w =
      (token : String) × (auth.application_token ≡ some token)
      × (r.member_id ≡ auth.member_id)
      × IsWritten auth token w

  token_kept :
      (a r t : Option String) (x : String × String × String)
      → tokens_of a r t ≡ some x
      → t ≡ some x.2
  token_kept (some a) (some r) (some t) x h = cc h
  token_kept (some a) (some r) none x h = absurd (cc h)
  token_kept (some a) none t x h = absurd (cc h)
  token_kept none r t x h = absurd (cc h)

  module _ (auth : BitrixAuthPayload) where
    from_tokens :
        (o : Option (String × String × String))
        → tokens_of auth.access_token auth.refresh_token auth.application_token ≡ o
        → Meets
            (IsSteady start)
            (IsInstalled auth)
            (λ e. IsSteady start)
            (elim o [
              | none ↦ raise Failure.payload_error
              | some (access, refresh_token, application) ↦
                  install_with env settings registry base_url hash_token verify new_id auth access
                    refresh_token application
            ])
    from_tokens none e = Meets-raise _ (λ w h. h)
    from_tokens (some x) e =
        Meets-imp (with-IsWritten auth x.0 x.1 x.2) (λ w h. h)
          (λ w r h. (x.2, token_kept _ _ _ x e, h.0, h.1)) (λ w f h. h)

  pub install-IsInstalled :
      (payload : BitrixEventPayload)
      → Meets
          (IsSteady start)
          (IsInstalled payload.auth)
          (λ e. IsSteady start)
          (install env settings registry base_url hash_token verify new_id payload)
  unfolding install
  install-IsInstalled payload = from_tokens payload.auth _ refl
