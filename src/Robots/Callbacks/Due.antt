-- ===== src/Robots/Callbacks/Due.antt =====
-- When the job of a short pause is due, by the bounds of the settings.
use mathlib.Core.Path.{subst}
use b24_sinedis.Prelude.{ℕ, String, ◌≡◌, ◌+◌, ◌*◌, ◌≤◌, Bool, false, arith}
use b24_sinedis.Jobs.Model.{JobStatus, pending, Table}
use b24_sinedis.Jobs.Service.Acceptance.{HasEffect}
use b24_sinedis.Settings.{Settings, second}
use b24_sinedis.Runtime.{Result, Env, World}
use b24_sinedis.Robots.Payload.Normalize.{Readers, normalize_robot_payload}
use b24_sinedis.Robots.Payload.Bounds.{normalize_robot_payload-IsPause}
use b24_sinedis.Api.{Request, Reply, replied, http_error, unhandled}
use b24_sinedis.Robots.Callbacks.{ShortPauseResponse, short_pause_callback}
use b24_sinedis.Robots.Callbacks.Fulfilled.{IsFulfilled, short_pause_callback-IsFulfilled}

module _ (env : Env) (readers : Readers) (verify : String → String → Result Bool)
    (fingerprint : String → String) (new_id : ℕ) (start : World) (settings : Settings)
    (request : Request) (r : ShortPauseResponse) where
  fresh_effect :
      (before after : Table) {due : ℕ} {status : JobStatus} {run_at : ℕ} {existing : Bool}
      → existing ≡ false
      → HasEffect before after due status run_at existing
      → (due ≡ run_at) × (status ≡ pending)
  fresh_effect before after {due} {status} {run_at} e h =
      subst (HasEffect before after due status run_at) e h

  due_of :
      (x : Reply ShortPauseResponse × World)
      → IsFulfilled env readers verify fingerprint new_id start
          (normalize_robot_payload readers settings.short_pause_min_seconds
            settings.short_pause_max_seconds)
          (λ c. c.member_id)
          (λ c. c.application_token)
          (λ c. c.event_token)
          (λ c. env.clock start.readings + c.delay_seconds * second)
          request
          x
      → x.0 ≡ replied r
      → r.existing ≡ false
      → (env.clock start.readings + settings.short_pause_min_seconds * second ≤ r.run_at)
        × (r.run_at ≤ env.clock start.readings + settings.short_pause_max_seconds * second)
  due_of (replied s, w) (source, c, read, valid, (p, v, j, found, named, effect)) e new =
      let same : s ≡ r = cc e in
      let bounds =
        normalize_robot_payload-IsPause readers settings.short_pause_min_seconds
          settings.short_pause_max_seconds source c valid in
      let due = (fresh_effect start.jobs w.jobs (cc (same, new)) effect).0 in
      let at : r.run_at ≡ env.clock start.readings + c.delay_seconds * second = rw (← same) due in
      let (low, high) = bounds.0 in (omega (arith, at, low), omega (arith, at, high))
  due_of (http_error status, w) h e new = absurd (cc e)
  due_of (unhandled x, w) h e new = absurd (cc e)

-- The job of a short pause that is new is due between the smallest and the largest configured delay
-- after the time of the callback.
pub short_pause_callback-due :
    (env : Env) (readers : Readers) (verify : String → String → Result Bool)
    (fingerprint : String → String) (new_id : ℕ) (settings : Settings) (request : Request)
    (start : World) (r : ShortPauseResponse)
    → (short_pause_callback env readers verify fingerprint new_id settings request start).0
      ≡ replied r
    → r.existing ≡ false
    → (env.clock start.readings + settings.short_pause_min_seconds * second ≤ r.run_at)
      × (r.run_at ≤ env.clock start.readings + settings.short_pause_max_seconds * second)
short_pause_callback-due env readers verify fingerprint new_id settings request start r e new =
    due_of env readers verify fingerprint new_id start settings request r
      (short_pause_callback env readers verify fingerprint new_id settings request start)
      (short_pause_callback-IsFulfilled env readers verify fingerprint new_id settings request
        start)
      e new
