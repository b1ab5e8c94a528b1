-- ===== src/Jobs/Processor/Waiting.antt =====
-- The checks of `_process_wait_field` of app/jobs/processor.py that find the field empty.
use b24_sinedis.Prelude.{
  ℕ, ℤ, pos, ◌+◌, ◌*◌, ◌≤◌, ◌<◌, ◌≡◌, refl, true, Option, none, some, List, [], ◌∷◌, length, arith,
  All, leb, ltb, Bool-cases, inl, inr, ◌==◌, comparable_ids, comparable_texts,
}
use b24_sinedis.Value.{obj, int, Fields, get}
use b24_sinedis.Settings.{Settings, second}
use b24_sinedis.Time.{add_signed, add_delta, last_instant}
use b24_sinedis.Jobs.Model.{processing, AutomationJob}
use b24_sinedis.Jobs.Repository.{find_job}
use b24_sinedis.Jobs.Operations.{poll, apply}
use b24_sinedis.Jobs.Operations.Lookup.{find_job-id, find_job-apply}
use b24_sinedis.Jobs.Processor.Outcome.{poll_again, notify}
use b24_sinedis.Jobs.Processor.WaitField.{Check, put_back, deliver, on_blank}
use b24_sinedis.Bitrix.Exceptions.{Failure, overflow_error}
use b24_sinedis.Runtime.{
  Result, ok, raised, Env, World, Action, then_do, ◌>>=◌, ◌>>◌, pure, lift, transact,
}

-- A check that found the field empty: the row and the world before, the payload and the time.
pub record BlankCheck : Type 0 where
  pub row : AutomationJob
  pub before : World
  pub payload : Fields
  pub now : ℕ
  pub count : ℤ

abbrev run_at_of : Option AutomationJob → ℕ
run_at_of none = 0
run_at_of (some k) = k.run_at

not-ok : (e : Failure) (x : Check) → ¬ (raised e ≡ ok x)
not-ok e x = λ h. cc

-- What is answered after an action that succeeds is the answer of the whole.
ends :
    {A : Type 0} {x y : A} (m : Action (Unit {0})) (w : World) → ((m >> pure x) w).0 ≡ ok y → x ≡ y
unfolding ◌>>=◌ pure
ends {x = x} {y} m w h = outcome (m w) h
  where
    outcome : (r : Result (Unit {0}) × World) → (then_do r.0 (λ a. pure x) r.1).0 ≡ ok y → x ≡ y
    outcome (ok a, v) h = cc
    outcome (raised e, v) h = absurd (cc h)

not-delivered : {values : Fields} → ¬ (deliver values ≡ put_back)
not-delivered = λ h. cc

same_id : (n : ℕ) → (n == n) ≡ true
same_id n = ground arith

module _ (env : Env) (settings : Settings) (job : AutomationJob)
    (created timeout interval : ℕ) where
  abbrev after : BlankCheck → Result Check × World
  after c = on_blank env settings job c.payload created c.now c.count c.before

  -- The checks of one job, each of which puts it back, and none of which is before the time that the
  -- row was put back to.
  abbrev pub ArePolls : ℕ → List BlankCheck → Type 0
  ArePolls from [] = Unit
  ArePolls from (c ∷ cs) =
      (from ≤ c.now)
      × (get "timeout_seconds" c.payload ≡ some (int (pos timeout)))
      × (get "poll_interval_seconds" c.payload ≡ some (int (pos interval)))
      × (find_job job.id c.before.jobs ≡ some c.row)
      × (c.row.status ≡ processing)
      × ((after c).0 ≡ ok put_back)
      × ArePolls (run_at_of (find_job job.id (after c).1.jobs)) cs

  -- The write of the next time.
  abbrev stored : BlankCheck → World
  stored c = (poll_again env job (c.now + interval * second) c.payload c.before).1

  run_at-stored :
      (c : BlankCheck)
      → find_job job.id c.before.jobs ≡ some c.row
      → c.row.status ≡ processing
      → run_at_of (find_job job.id (stored c).jobs) ≡ c.now + interval * second
  unfolding poll_again transact apply ◌>>=◌ pure
  run_at-stored c f p =
      let o =
        poll (env.database_clock c.before.transactions) job.id (c.now + interval * second)
          (obj c.payload) in
      let named = find_job-id job.id c.before.jobs f in
      rw (find_job-apply o c.before.jobs job.id f, named, p, same_id job.id) refl

  module _ (c : BlankCheck) (t : get "timeout_seconds" c.payload ≡ some (int (pos timeout)))
      (i : get "poll_interval_seconds" c.payload ≡ some (int (pos interval))) where
    -- A check that puts the job back is before the deadline.
    put-back :
        (after c).0 ≡ ok put_back → (c.now < created + timeout * second) × ((after c).1 ≡ stored c)
    unfolding on_blank add_signed add_delta ◌>>=◌ lift pure
    put-back kept = elim (Bool-cases (leb (created + timeout * second) last_instant)) [
      | inr beyond ↦ absurd (not-ok overflow_error put_back (rw (t, beyond) at kept))
      | inl within ↦ elim (Bool-cases (ltb c.now (created + timeout * second))) [
        | inl early ↦ elim (Bool-cases (leb (c.now + interval * second) last_instant)) [
          | inl later ↦ (ground arith, rw (t, i, within, early, later) refl)
          | inr far ↦
              absurd (not-ok overflow_error put_back (rw (t, i, within, early, far) at kept))
        ]
        | inr late ↦ absurd (
            not-delivered
              (ends (notify env settings job c.payload _) c.before (rw (t, within, late) at kept)))
      ]
    ]

  bounded_from :
      (cs : List BlankCheck) (from : ℕ)
      → ArePolls from cs
      → from < created + timeout * second + interval * second
      → length cs * (interval * second) + from < created + timeout * second + interval * second
  bounded_from [] from h early = omega (arith, early)
  bounded_from (c ∷ cs) from (not_before, t, i, f, p, kept, rest) early =
      let (ahead, same) = put-back c t i kept in
      let later : ArePolls (c.now + interval * second) cs =
        rw (same, run_at-stored c f p) at rest in
      let more = bounded_from cs (c.now + interval * second) later (omega (arith, ahead)) in
      omega (arith, more, not_before)

  early_checks :
      (cs : List BlankCheck) (from : ℕ)
      → ArePolls from cs
      → All (λ c. c.now < created + timeout * second) cs
  early_checks [] from h = tt
  early_checks (c ∷ cs) from (not_before, t, i, f, p, kept, rest) =
      ((put-back c t i kept).0, early_checks cs _ rest)

  -- A wait ends: while the field stays empty, every check that puts the job back is before the deadline,
  -- which is the creation plus the timeout, and such checks, times the interval, stay below the timeout
  -- and one interval. The payloads keep the timeout and a positive interval, and each check comes at or
  -- after the time that the row was put back to, the first one after the creation.
  pub waits_bounded :
      (cs : List BlankCheck)
      → 1 ≤ interval
      → ArePolls created cs
      → All (λ c. c.now < created + timeout * second) cs
        × (length cs * (interval * second) < timeout * second + interval * second)
  waits_bounded cs positive h =
      let b = bounded_from cs created h (omega (arith, positive)) in
      (early_checks cs created h, omega (arith, b))
