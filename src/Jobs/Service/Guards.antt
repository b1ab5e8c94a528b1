-- ===== src/Jobs/Service/Guards.antt =====
-- What the services of app/jobs/service.py refuse, and what they keep.
use b24_sinedis.Prelude.{
  ℕ, String, ◌≡◌, refl, Bool, true, false, ◌||◌, Option, none, some, [], ◌∷◌, find, ◌==◌,
  comparable_texts, ap, Bool-cases, inl, inr,
}
use b24_sinedis.Value.{Value}
use b24_sinedis.Portals.{BitrixPortal, is_active}
use b24_sinedis.Runtime.{
  Result, ok, raised, Env, World, Action, ◌>>=◌, raise, lift, read_clock, transact,
}
use b24_sinedis.Runtime.Contracts.{
  Meets, Meets-raise, Meets-lift, Meets-if, Meets-bind, outcome-both,
}
use b24_sinedis.Bitrix.Exceptions.{credential_error}
use b24_sinedis.Jobs.Repository.{create_idempotent}
use b24_sinedis.Jobs.Operations.{intake, create, apply, run}
use b24_sinedis.Jobs.Operations.Invariant.{IsSound, run-IsSound}
use b24_sinedis.Jobs.Processor.Persisted.{rest_request_robot_code, wait_field_robot_code}
use b24_sinedis.Jobs.Service.{
  RobotExecutionPayload, SubscriptionPayload, checked_portal, credentials_of, create_pause,
  create_subscription,
}

module _ (env : Env) (verify : String → String → Result Bool) (fingerprint : String → String)
    (new_id : ℕ) where
  refused_active :
      (token : String) (p : BitrixPortal) (b : Bool) (hash : Option String)
      → is_active p.status ≡ b
      → p.application_token_hash ≡ hash
      → ((h : String)
          → is_active p.status ≡ true
          → p.application_token_hash ≡ some h
          → verify token h ≡ ok false)
      → checked_portal env verify token (some p) ≡ raised credential_error
  refused_active token p false hash e f wrong = rw (e) refl
  refused_active token p true none e f wrong = rw (e, f) refl
  refused_active token p true (some h) e f wrong = rw (e, f, wrong h e f) refl

  refused_portal :
      (token : String) (o : Option BitrixPortal)
      → ((p : BitrixPortal) (h : String)
          → is_active p.status ≡ true
          → p.application_token_hash ≡ some h
          → verify token h ≡ ok false)
      → checked_portal env verify token o ≡ raised credential_error
  refused_portal token none wrong = refl
  refused_portal token (some p) wrong =
      refused_active token p (is_active p.status) p.application_token_hash refl refl (wrong p)

  refused_credentials :
      (member_id token : String) (w : World)
      → ((p : BitrixPortal) (h : String)
          → is_active p.status ≡ true
          → p.application_token_hash ≡ some h
          → verify token h ≡ ok false)
      → credentials_of env verify member_id token w ≡ (raised credential_error, w)
  unfolding credentials_of
  refused_credentials member_id token w wrong =
      rw (refused_portal token (find (λ p. p.member_id == member_id) w.portals) wrong) refl

  module _ (id : String) (token : String) (w : World) where
    -- The rest of a do block does not run.
    stopped :
        {A : Type 0} (k : BitrixPortal → Action A)
        → ((p : BitrixPortal) (h : String)
            → is_active p.status ≡ true
            → p.application_token_hash ≡ some h
            → verify token h ≡ ok false)
        → (credentials_of env verify id token >>= k) w ≡ (raised credential_error, w)
    unfolding ◌>>=◌
    stopped k wrong = rw (refused_credentials id token w wrong) refl

  -- A callback whose token is verified for no active portal is refused by both services, and
  -- changes nothing.
  pub create_refused :
      (c : RobotExecutionPayload) (s : SubscriptionPayload) (robot_code : String) (w : World)
      → ((p : BitrixPortal) (h : String)
          → is_active p.status ≡ true
          → p.application_token_hash ≡ some h
          → (verify c.application_token h ≡ ok false) × (verify s.application_token h ≡ ok false))
      → (create_pause env verify fingerprint new_id c w ≡ (raised credential_error, w))
        × ((create_subscription env verify fingerprint new_id s robot_code w).1 ≡ w)
  unfolding create_pause create_subscription raise
  create_refused c s robot_code w wrong = (
    stopped c.member_id c.application_token w _ (λ p h a b. (wrong p h a b).0),
    elim (Bool-cases
        (robot_code == rest_request_robot_code || robot_code == wait_field_robot_code)) [
          | inl e ↦ rw (e) (
              ap (λ r. r.1)
                (stopped s.member_id s.application_token w _ (λ p h a b. (wrong p h a b).1)))
          | inr e ↦ rw (e) refl
        ],
  )

  Sound : World → Type 0
  Sound w = IsSound w.jobs

  kept : {A : Type 0} (r : Result A) → Meets Sound (λ a. Sound) (λ e. Sound) (lift r)
  kept r = Meets-lift r (λ a e w p. p) (λ x e w p. p)

  module _ (portal_id : ℕ) where
    stores :
        (code encrypted hash : String) (payload values : Value) (at : ℕ)
        → Meets Sound
            (λ a. Sound)
            (λ e. Sound)
            (transact env (λ stamp.
              create_idempotent new_id stamp
                (intake portal_id code encrypted hash payload values at)))
    unfolding transact Sound apply run
    stores code encrypted hash payload values at = record {
      run = λ w p.
          run-IsSound
            (create new_id (env.database_clock w.transactions) portal_id code encrypted hash payload
                values at
              ∷ [])
            w.jobs p;
    }

  credentials-Sound :
      (member_id token : String)
      → Meets Sound (λ a. Sound) (λ e. Sound) (credentials_of env verify member_id token)
  unfolding credentials_of lift
  credentials-Sound member_id token = record {
    run = λ w.
        (kept
            (checked_portal env verify token (find (λ p. p.member_id == member_id) w.portals))).run
          w;
  }

  clock-Sound : Meets Sound (λ a. Sound) (λ e. Sound) (read_clock env)
  unfolding read_clock Sound
  clock-Sound = record { run = λ w p. p }

  pause-Sound :
      (c : RobotExecutionPayload)
      → Meets Sound (λ a. Sound) (λ e. Sound) (create_pause env verify fingerprint new_id c)
  unfolding create_pause
  pause-Sound c = Meets-bind (credentials-Sound _ _) λ portal.
      Meets-bind clock-Sound λ at. Meets-bind (kept _) λ run_at. stores portal.id _ _ _ _ _ _

  subscription-Sound :
      (s : SubscriptionPayload) (robot_code : String)
      → Meets Sound
          (λ a. Sound)
          (λ e. Sound)
          (create_subscription env verify fingerprint new_id s robot_code)
  unfolding create_subscription
  subscription-Sound s robot_code = Meets-if _ (Meets-raise _ (λ w p. p)) (
      Meets-bind (credentials-Sound _ _)
        λ portal. Meets-bind clock-Sound λ now. stores portal.id _ _ _ _ _ _)

  -- Whatever a callback holds, both services keep the table of jobs sound.
  pub create-IsSound :
      (c : RobotExecutionPayload) (s : SubscriptionPayload) (robot_code : String) (w : World)
      → IsSound w.jobs
      → IsSound (create_pause env verify fingerprint new_id c w).1.jobs
        × IsSound (create_subscription env verify fingerprint new_id s robot_code w).1.jobs
  unfolding Sound
  create-IsSound c s robot_code w sound = (
    outcome-both (λ w'. IsSound w'.jobs) _ _ ((pause-Sound c).run w sound),
    outcome-both (λ w'. IsSound w'.jobs) _ _ ((subscription-Sound s robot_code).run w sound),
  )
