-- ===== src/Robots/Callbacks/Fulfilled.antt =====
-- What the answers of app/api/robots.py are worth.
use b24_sinedis.Prelude.{ℕ, String, ◌≡◌, refl, ap, ◌+◌, ◌*◌, Bool, some}
use b24_sinedis.Value.{Fields}
use b24_sinedis.Settings.{Settings, second}
use b24_sinedis.Portals.{BitrixPortal}
use b24_sinedis.Runtime.{Result, ok, raised, Env, World, Action, ◌>>=◌, lift}
use b24_sinedis.Runtime.Contracts.{Outcome, Meets, Meets-lift, Meets-bind, Meets-imp, Meets-fact}
use b24_sinedis.Bitrix.Exceptions.{Failure, robot_payload_error}
use b24_sinedis.Jobs.Model.{AutomationJob}
use b24_sinedis.Jobs.Repository.{Stored, stored, refused, integrity_error, runtime_error, find_key}
use b24_sinedis.Jobs.Service.{SubscriptionPayload, create_pause, create_subscription}
use b24_sinedis.Jobs.Service.Acceptance.{HasEffect}
use b24_sinedis.Jobs.Service.Promises.{
  IsVerified, IsAccepted, pause-IsAccepted, subscription-IsAccepted,
}
use b24_sinedis.Robots.Payload.Normalize.{Readers, normalize_robot_payload}
use b24_sinedis.Api.{Request, read_callback_mapping, Reply, replied, http_error, unhandled}
use b24_sinedis.Robots.Callbacks.{
  ShortPauseResponse, excepted, reply_of, answer, short_pause_callback, subscription_callback,
}

module _ (env : Env) (readers : Readers) (verify : String → String → Result Bool)
    (fingerprint : String → String) (new_id : ℕ) (start : World) where
  -- The answer names a job that is stored for the portal of the credentials: a new one, pending and due
  -- at `run_at`, or one that the same event had stored before, which changes nothing.
  abbrev pub Names : String → String → String → ℕ → ShortPauseResponse → World → Type 0
  Names member_id token event_token run_at r w =
      (p : BitrixPortal) × IsVerified env verify start member_id token p
      × (j : AutomationJob) × (find_key p.id (fingerprint event_token) w.jobs ≡ some j)
      × (r.job_id ≡ j.id)
      × HasEffect start.jobs w.jobs r.run_at r.status run_at r.existing

  module _ {C : Type 0} (normalizer : Fields → Result C) (member_id token event_token : C → String)
      (run_at : C → ℕ) where
    -- A reply with status 200 comes of a callback that is read, valid and verified; every other answer
    -- leaves the queue as it was.
    abbrev pub IsFulfilled : Request → Reply ShortPauseResponse × World → Type 0
    IsFulfilled request (replied r, w) =
        (source : Fields) × (c : C) × (read_callback_mapping request ≡ ok source)
        × (normalizer source ≡ ok c)
        × Names (member_id c) (token c) (event_token c) (run_at c) r w
    IsFulfilled request (http_error status, w) = w.jobs ≡ start.jobs
    IsFulfilled request (unhandled e, w) = w.jobs ≡ start.jobs

    abbrev Kept : Failure → World → Type 0
    Kept e w = w.jobs ≡ start.jobs

    abbrev Taken : Request → Stored → World → Type 0
    Taken request s w =
        (source : Fields) × (c : C) × (read_callback_mapping request ≡ ok source)
        × (normalizer source ≡ ok c)
        × IsAccepted env verify fingerprint new_id start (member_id c) (token c) (event_token c)
            (run_at c) s w

    module _ (create : C → Action Stored)
        (promise : (c : C)
          → Meets
              (λ w. w ≡ start)
              (IsAccepted env verify fingerprint new_id start
                (member_id c)
                (token c)
                (event_token c)
                (run_at c))
              Kept
              (create c))
        (request : Request) where
      abbrev accept : Action Stored
      accept = do
        source ← lift (read_callback_mapping request)
        callback ← lift (normalizer source)
        create callback

      accept-Taken : Meets (λ w. w ≡ start) (Taken request) Kept accept
      accept-Taken =
          Meets-bind {M = λ source w. (read_callback_mapping request ≡ ok source) × (w ≡ start)}
            (Meets-lift (read_callback_mapping request) (λ source e w h. (e, h))
              (λ x e w h. ap (λ v. v.jobs) h))
            λ source. Meets-fact λ e.
              Meets-bind {M = λ c w. (normalizer source ≡ ok c) × (w ≡ start)}
                (Meets-lift (normalizer source) (λ c f w h. (f, h)) (λ x f w h. ap (λ v. v.jobs) h))
                λ c.
                  Meets-fact λ f.
                    Meets-imp (promise c) (λ w h. h) (λ w s q. (source, c, e, f, q)) (λ w x h. h)

      raised_reply :
          (x : Failure) (w : World) → w.jobs ≡ start.jobs → IsFulfilled request (excepted x, w)
      raised_reply robot_payload_error w h = h
      raised_reply _ w h = h

      outcome-IsFulfilled :
          (r : Result Stored) (w : World)
          → Outcome (Taken request) Kept r w
          → IsFulfilled request (reply_of r, w)
      outcome-IsFulfilled (ok (stored r)) w (source, c, e, f, (p, v, h)) =
          (source, c, e, f, (p, v, r.job, h.0, refl, h.1))
      outcome-IsFulfilled (ok (refused integrity_error)) w (source, c, e, f, (p, v, h)) = h
      outcome-IsFulfilled (ok (refused runtime_error)) w (source, c, e, f, (p, v, h)) = h
      outcome-IsFulfilled (raised x) w h = raised_reply x w h

      accepted-IsFulfilled : IsFulfilled request (answer (accept start))
      accepted-IsFulfilled =
          outcome-IsFulfilled (accept start).0 (accept start).1 (accept-Taken.run start refl)

-- A short pause that is answered with status 200 was read from the request, is valid, has a token that
-- is verified for an active portal, and is stored for that portal under its event token: a new job is
-- pending and due at the time of the callback plus the delay, and an event that is stored already changes
-- nothing. Every other answer leaves the queue as it was.
pub short_pause_callback-IsFulfilled :
    (env : Env) (readers : Readers) (verify : String → String → Result Bool)
    (fingerprint : String → String) (new_id : ℕ) (settings : Settings) (request : Request)
    (start : World)
    → IsFulfilled env readers verify fingerprint new_id start
        (normalize_robot_payload readers settings.short_pause_min_seconds
          settings.short_pause_max_seconds)
        (λ c. c.member_id)
        (λ c. c.application_token)
        (λ c. c.event_token)
        (λ c. env.clock start.readings + c.delay_seconds * second)
        request
        (short_pause_callback env readers verify fingerprint new_id settings request start)
unfolding short_pause_callback
short_pause_callback-IsFulfilled env readers verify fingerprint new_id settings request start =
    accepted-IsFulfilled env readers verify fingerprint new_id start
      (normalize_robot_payload readers settings.short_pause_min_seconds
        settings.short_pause_max_seconds)
      (λ c. c.member_id) (λ c. c.application_token) (λ c. c.event_token)
      (λ c. env.clock start.readings + c.delay_seconds * second)
      (create_pause env verify fingerprint new_id)
      (pause-IsAccepted env verify fingerprint new_id start) request

-- The same of a callback of the two subscription robots, whose new job is due at the time of the
-- callback, for either normalisation and code.
pub subscription_callback-IsFulfilled :
    (env : Env) (readers : Readers) (verify : String → String → Result Bool)
    (fingerprint : String → String) (new_id : ℕ) (normalizer : Fields → Result SubscriptionPayload)
    (robot_code : String) (request : Request) (start : World)
    → IsFulfilled env readers verify fingerprint new_id start normalizer
        (λ c. c.member_id)
        (λ c. c.application_token)
        (λ c. c.event_token)
        (λ c. env.clock start.readings)
        request
        (subscription_callback env readers verify fingerprint new_id normalizer robot_code request
          start)
unfolding subscription_callback
subscription_callback-IsFulfilled env readers verify fingerprint new_id normalizer robot_code
      request start =
    accepted-IsFulfilled env readers verify fingerprint new_id start normalizer (λ c. c.member_id)
      (λ c. c.application_token) (λ c. c.event_token) (λ c. env.clock start.readings)
      (λ c. create_subscription env verify fingerprint new_id c robot_code)
      (λ c. subscription-IsAccepted env verify fingerprint new_id start c robot_code) request
