-- ===== src/Installation/Answers.antt =====
-- What the answers of the two handlers of app/api/installation.py are worth.
use b24_sinedis.Prelude.{String, ◌≡◌, refl, Bool, comparable_texts, comparable_ids}
use b24_sinedis.Value.{Fields}
use b24_sinedis.Runtime.{Result, ok, raised, Env, World, Action, ◌>>=◌, lift}
use b24_sinedis.Runtime.Contracts.{Outcome, Meets, Meets-lift, Meets-bind, Meets-imp, Meets-fact}
use b24_sinedis.Bitrix.Exceptions.{Failure}
use b24_sinedis.Api.{Request, read_callback_mapping, Reply, replied, http_error, unhandled}
use b24_sinedis.Installation.Payload.{
  BitrixAuthPayload, BitrixEventPayload, normalize_event_payload,
}
use b24_sinedis.Installation.Service.{LifecycleResponse, answer}
use b24_sinedis.Installation.Steady.{IsSteady}

module _ (env : Env) (start : World) where
  -- An answer with status 200 comes of an event that is read and valid, and for which `Q` holds; every
  -- other answer leaves portals and jobs as they were.
  module _ (event : String) (require_oauth_tokens : Bool)
      (Q : BitrixAuthPayload → LifecycleResponse → World → Type 0) where
    abbrev pub IsAnswered : Request → Reply LifecycleResponse × World → Type 0
    IsAnswered request (replied r, w) =
        (source : Fields) × (payload : BitrixEventPayload) × (read_callback_mapping request
          ≡ ok source)
        × (normalize_event_payload env.urlsplit event require_oauth_tokens source ≡ ok payload)
        × Q payload.auth r w
    IsAnswered request (http_error status, w) = (w.portals ≡ start.portals) × (w.jobs ≡ start.jobs)
    IsAnswered request (unhandled e, w) = (w.portals ≡ start.portals) × (w.jobs ≡ start.jobs)

    abbrev Taken : Request → LifecycleResponse → World → Type 0
    Taken request r w =
        (source : Fields) × (payload : BitrixEventPayload) × (read_callback_mapping request
          ≡ ok source)
        × (normalize_event_payload env.urlsplit event require_oauth_tokens source ≡ ok payload)
        × Q payload.auth r w

    module _ (run : BitrixEventPayload → Action LifecycleResponse)
        (promise : (payload : BitrixEventPayload)
          → Meets (IsSteady start) (Q payload.auth) (λ e. IsSteady start) (run payload))
        (request : Request) where
      abbrev accept : Action LifecycleResponse
      accept = do
        source ← lift (read_callback_mapping request)
        payload ← lift (normalize_event_payload env.urlsplit event require_oauth_tokens source)
        run payload

      accept-Taken : Meets (IsSteady start) (Taken request) (λ e. IsSteady start) accept
      accept-Taken =
          Meets-bind
            {M = λ source w. (read_callback_mapping request ≡ ok source) × IsSteady start w}
            (Meets-lift (read_callback_mapping request) (λ source e w h. (e, h)) (λ x e w h. h))
            λ source. Meets-fact λ e.
              Meets-bind
                {M = λ payload w.
                  (normalize_event_payload env.urlsplit event require_oauth_tokens source
                    ≡ ok payload)
                  × IsSteady start w}
                (Meets-lift (normalize_event_payload env.urlsplit event require_oauth_tokens source)
                  (λ payload f w h. (f, h)) (λ x f w h. h))
                λ payload. Meets-fact λ f.
                  Meets-imp (promise payload) (λ w h. h) (λ w r q. (source, payload, e, f, q))
                    (λ w x h. h)

      -- What any of the handlers makes of an exception.
      abbrev Silent : (Failure → Reply LifecycleResponse) → Type 0
      Silent excepted =
          (x : Failure) (w : World) → IsSteady start w → IsAnswered request (excepted x, w)

      pub accepted-IsAnswered :
          (excepted : Failure → Reply LifecycleResponse)
          → Silent excepted
          → IsAnswered request (answer excepted (accept start))
      accepted-IsAnswered excepted silent =
          go (accept start).0 (accept start).1
            (accept-Taken.run start (record { same_portals = refl; same_jobs = refl }))
        where
          go :
              (r : Result LifecycleResponse) (w : World)
              → Outcome (Taken request) (λ e. IsSteady start) r w
              → IsAnswered request (answer excepted (r, w))
          go (ok r) w h = h
          go (raised x) w h = silent x w h
