-- ===== src/Jobs/Service/Promises.antt =====
-- The services of app/jobs/service.py as contracts: from a known world to what they store.
use mathlib.Core.Path.{subst}
use b24_sinedis.Prelude.{
  ℕ, String, ◌≡◌, refl, sym, ap, ◌∙◌, ◌+◌, ◌*◌, Bool, find, Bool-cases, inl, inr, ◌==◌,
  comparable_texts, leb,
}
use b24_sinedis.Value.{Value}
use b24_sinedis.Settings.{second}
use b24_sinedis.Time.{add_delta, last_instant}
use b24_sinedis.Portals.{BitrixPortal}
use b24_sinedis.Runtime.{Result, ok, raised, Env, World, Action, read_clock, transact}
use b24_sinedis.Runtime.Contracts.{Outcome, Meets, Meets-raise, Meets-lift, Meets-if, Meets-bind}
use b24_sinedis.Jobs.Repository.{NewJob, Stored, create_idempotent}
use b24_sinedis.Jobs.Operations.{intake}
use b24_sinedis.Jobs.Service.{
  RobotExecutionPayload, SubscriptionPayload, checked_portal, credentials_of, create_pause,
  create_subscription,
}
use b24_sinedis.Jobs.Service.Acceptance.{IsStored, create-IsStored}

abbrev pub IsVerified :
    Env → (String → String → Result Bool) → World → String → String → BitrixPortal → Type 0
IsVerified env verify w member_id token p =
    checked_portal env verify token (find (λ q. q.member_id == member_id) w.portals) ≡ ok p

add_delta-sum : (now delta at : ℕ) → add_delta now delta ≡ ok at → at ≡ now + delta
unfolding add_delta
add_delta-sum now delta at h = elim (Bool-cases (leb (now + delta) last_instant)) [
  | inl e ↦ cc (h, e)
  | inr e ↦ absurd (cc (h, e))
]

module _ (env : Env) (verify : String → String → Result Bool) (fingerprint : String → String)
    (new_id : ℕ) (start : World) where
  -- Nothing of the queue has changed.
  abbrev pub IsUnchanged : World → Type 0
  IsUnchanged w = w.jobs ≡ start.jobs

  -- The job of a callback is stored for the portal that its token is verified for.
  abbrev pub IsAccepted : String → String → String → ℕ → Stored → World → Type 0
  IsAccepted member_id token event_token run_at s w =
      (p : BitrixPortal) × IsVerified env verify start member_id token p
      × IsStored start.jobs w.jobs p.id (fingerprint event_token) run_at s

  module _ {A : Type 0} (Q : A → World → Type 0) where
    from_start :
        (m : Action A)
        → Outcome Q (λ e. IsUnchanged) (m start).0 (m start).1
        → Meets (λ w. w ≡ start) Q (λ e. IsUnchanged) m
    from_start m h = record {
      run = λ w e. subst (λ v. Outcome Q (λ x. IsUnchanged) (m v).0 (m v).1) (sym e) h;
    }

  known :
      (r : Result BitrixPortal)
      → Outcome
          (λ p w. (r ≡ ok p) × IsUnchanged w × (w.readings ≡ start.readings))
          (λ e. IsUnchanged)
          r
          start
  known (ok p) = (refl, refl, refl)
  known (raised e) = refl

  module _ (member_id token event_token : String) where
    abbrev Checked : BitrixPortal → World → Type 0
    Checked p w =
        IsVerified env verify start member_id token p
        × IsUnchanged w
        × (w.readings ≡ start.readings)

    credentials-Checked :
        Meets
          (λ w. w ≡ start)
          Checked
          (λ e. IsUnchanged)
          (credentials_of env verify member_id token)
    unfolding credentials_of
    credentials-Checked = from_start Checked _ (
        known
          (checked_portal env verify token (find (λ q. q.member_id == member_id) start.portals)))

    module _ (p : BitrixPortal) where
      abbrev Timed : ℕ → World → Type 0
      Timed at w =
          IsVerified env verify start member_id token p
          × IsUnchanged w
          × (at ≡ env.clock start.readings)

      clock-Timed : Meets (Checked p) Timed (λ e. IsUnchanged) (read_clock env)
      unfolding read_clock
      clock-Timed = record { run = λ w h. (h.0, h.1, ap env.clock h.2) }

      -- Before the transaction, which is given the time `at`.
      abbrev Due : ℕ → ℕ → World → Type 0
      Due run_at at w =
          IsVerified env verify start member_id token p × IsUnchanged w × (at ≡ run_at)

      module _ (code encrypted : String) (payload values : Value) (at run_at : ℕ) where
        abbrev new_job : NewJob
        new_job = intake p.id code encrypted (fingerprint event_token) payload values at

        stores :
            Meets
              (Due run_at at)
              (IsAccepted member_id token event_token run_at)
              (λ e. IsUnchanged)
              (transact env (λ stamp. create_idempotent new_id stamp new_job))
        unfolding transact
        stores = record {
          run = λ w h.
              let stamp = env.database_clock w.transactions in
              let kept =
                create-IsStored new_id stamp w.jobs p.id code encrypted (fingerprint event_token)
                  payload values at in
              let (s, t) = create_idempotent new_id stamp new_job w.jobs in
              (
                p,
                h.0,
                rw (← h.2) (
                    subst (λ before. IsStored before t p.id (fingerprint event_token) at s) h.1
                      kept),
              );
        }

  pub pause-IsAccepted :
      (c : RobotExecutionPayload)
      → Meets
          (λ w. w ≡ start)
          (IsAccepted c.member_id c.application_token c.event_token
            (env.clock start.readings + c.delay_seconds * second))
          (λ e. IsUnchanged)
          (create_pause env verify fingerprint new_id c)
  unfolding create_pause
  pause-IsAccepted c =
      let m = c.member_id in
      let t = c.application_token in
      let v = c.event_token in
      Meets-bind (credentials-Checked m t v) λ p. Meets-bind (clock-Timed m t v p) λ at.
        Meets-bind
          (Meets-lift (add_delta at (c.delay_seconds * second))
            (λ run_at e w h.
              (h.0, h.1, add_delta-sum at _ run_at e ∙ ap (λ n. n + c.delay_seconds * second) h.2))
            (λ x e w h. h.1))
          λ run_at. stores m t v p _ _ _ _ run_at _

  pub subscription-IsAccepted :
      (c : SubscriptionPayload) (robot_code : String)
      → Meets
          (λ w. w ≡ start)
          (IsAccepted c.member_id c.application_token c.event_token (env.clock start.readings))
          (λ e. IsUnchanged)
          (create_subscription env verify fingerprint new_id c robot_code)
  unfolding create_subscription
  subscription-IsAccepted c robot_code =
      let m = c.member_id in
      let t = c.application_token in
      let v = c.event_token in
      Meets-if _ (Meets-raise _ (λ w e. ap (λ u. u.jobs) e)) (
        Meets-bind (credentials-Checked m t v)
          λ p. Meets-bind (clock-Timed m t v p) λ at. stores m t v p _ _ _ _ at _)
