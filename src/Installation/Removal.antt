-- ===== src/Installation/Removal.antt =====
-- What the removal of the application does, up to the callbacks that it refuses.
use mathlib.Core.Path.{subst}
use b24_sinedis.Prelude.{
  ℕ, String, ◌≡◌, refl, sym, ap, Bool, Option, none, some, List, [], find, comparable_texts,
}
use b24_sinedis.Settings.{Settings}
use b24_sinedis.Portals.{inactive, BitrixPortal}
use b24_sinedis.Runtime.{Result, ok, raised, Env, World, ◌>>=◌, ◌>>◌, pure, raise}
use b24_sinedis.Runtime.Contracts.{Outcome, Meets, Meets-pure, Meets-raise, Meets-bind}
use b24_sinedis.Bitrix.Exceptions.{Failure}
use b24_sinedis.Bitrix.Registration.{RobotDefinition}
use b24_sinedis.Installation.Payload.{BitrixAuthPayload, BitrixEventPayload}
use b24_sinedis.Installation.Service.{
  LifecycleResponse, is_member, deactivate, write_portals, confirmed, confirm, uninstall,
}
use b24_sinedis.Installation.Steady.{IsSteady}

module _ (env : Env) (settings : Settings) (registry : List RobotDefinition) (base_url : String)
    (hash_token : String → Result String) (verify : String → String → Result Bool) (new_id : ℕ)
    (start : World) where
  abbrev pub Confirms : String → String → BitrixPortal → Type 0
  Confirms member_id token q =
      confirmed env settings registry base_url hash_token verify new_id token
        (find (is_member member_id) start.portals)
      ≡ ok q

  -- The token is confirmed for the row of the member, which is then inactive; no job has changed.
  abbrev pub IsStopped : BitrixAuthPayload → LifecycleResponse → World → Type 0
  IsStopped auth r w =
      (token : String) × (auth.application_token ≡ some token)
      × (q : BitrixPortal) × Confirms auth.member_id token q
      × (r.member_id ≡ auth.member_id)
      × (w.portals ≡ deactivate auth.member_id start.portals)
      × (w.jobs ≡ start.jobs)

  settled :
      (r : Result BitrixPortal) (w : World)
      → IsSteady start w
      → Outcome (λ q v. (r ≡ ok q) × IsSteady start v) (λ e. IsSteady start) r w
  settled (ok q) w h = (refl, h)
  settled (raised e) w h = h

  module _ (auth : BitrixAuthPayload) (token : String)
      (given : auth.application_token ≡ some token) where
    abbrev Confirmed : BitrixPortal → World → Type 0
    Confirmed q w = Confirms auth.member_id token q × IsSteady start w

    confirm-Confirmed :
        Meets
          (IsSteady start)
          Confirmed
          (λ e. IsSteady start)
          (confirm env settings registry base_url hash_token verify new_id auth.member_id token)
    unfolding confirm
    confirm-Confirmed = record {
      run = λ w h.
          subst
            (λ ps.
              Outcome Confirmed (λ e. IsSteady start)
                (confirmed env settings registry base_url hash_token verify new_id token
                  (find (is_member auth.member_id) ps))
                w)
            (sym h.same_portals)
            (settled
              (confirmed env settings registry base_url hash_token verify new_id token
                (find (is_member auth.member_id) start.portals))
              w h);
    }

    abbrev Written : BitrixPortal → World → Type 0
    Written q w =
        Confirms auth.member_id token q
        × (w.portals ≡ deactivate auth.member_id start.portals)
        × (w.jobs ≡ start.jobs)

    stops :
        (q : BitrixPortal)
        → Meets
            (Confirmed q)
            (λ x. Written q)
            (λ e. IsSteady start)
            (write_portals (deactivate auth.member_id))
    unfolding write_portals
    stops q = record {
      run = λ w h. (h.0, ap (deactivate auth.member_id) h.1.same_portals, h.1.same_jobs);
    }

    stops_confirmed :
        Meets
          (IsSteady start)
          (IsStopped auth)
          (λ e. IsSteady start)
          (do
            portal ←
                confirm env settings registry base_url hash_token verify new_id auth.member_id token
            write_portals (deactivate auth.member_id)
            pure (record {
              member_id = auth.member_id;
              status = inactive;
              robots = [];
              activities = [];
              events = [];
            }))
    stops_confirmed =
        Meets-bind confirm-Confirmed λ q.
          Meets-bind (stops q) λ x. Meets-pure _ (λ w h. (token, given, q, h.0, refl, h.1, h.2))

  from_token :
      (auth : BitrixAuthPayload) (o : Option String)
      → auth.application_token ≡ o
      → Meets
          (IsSteady start)
          (IsStopped auth)
          (λ e. IsSteady start)
          (elim o [
            | none ↦ raise Failure.payload_error
            | some token ↦ do
              portal ←
                  confirm env settings registry base_url hash_token verify new_id auth.member_id
                    token
              write_portals (deactivate auth.member_id)
              pure (record {
                member_id = auth.member_id;
                status = inactive;
                robots = [];
                activities = [];
                events = [];
              })
          ])
  from_token auth none e = Meets-raise _ (λ w h. h)
  from_token auth (some token) e = stops_confirmed auth token e

  pub uninstall-IsStopped :
      (payload : BitrixEventPayload)
      → Meets
          (IsSteady start)
          (IsStopped payload.auth)
          (λ e. IsSteady start)
          (uninstall env settings registry base_url hash_token verify new_id payload)
  unfolding uninstall
  uninstall-IsStopped payload = from_token payload.auth payload.auth.application_token refl
