-- ===== src/Jobs/Scenarios.antt =====
-- Small tables: tests of the queue of app/jobs/repository.py, and its theorems at concrete inputs.
use mathlib.Core.List.{Memᴰ}
use b24_sinedis.Prelude.{
  ℕ, ◌+◌, ◌≤◌, String, ◌≡◌, refl, Bool, true, false, none, some, List, [], ◌∷◌, any, All, length,
  leb, ◌⊎◌, arith,
}
use b24_sinedis.Value.{obj, end}
use b24_sinedis.Jobs.Model.{processing, completed, failed, AutomationJob, Table}
use b24_sinedis.Jobs.Repository.{
  NewJob, stored, row, has_id, earlier, find_job, create_idempotent, claim_due_jobs,
}
use b24_sinedis.Jobs.Repository.Claim.{claim-IsLeased, claim_earliest}
use b24_sinedis.Jobs.Operations.{
  Operation, create, claim_due, complete, poll, fail, recover_stale, intake, apply, run,
}
use b24_sinedis.Jobs.Operations.Invariant.{IsSound, run-IsSound, empty-IsSound}
use b24_sinedis.Jobs.Operations.Lifecycle.{
  Moves, apply-Moves, final_absorbs, claims, polls, claims_bounded,
}
use b24_sinedis.Jobs.Operations.Intake.{redelivery}
use b24_sinedis.Jobs.Operations.Leases.{IsSameLease, lease_exclusive}
use b24_sinedis.Jobs.Operations.Progress.{
  IsLeaseOf, Batch, claims_of, due_claimed, abandoned_returns,
}

abbrev free : ℕ → Bool
free id = false

abbrev submission : ℕ → String → ℕ → NewJob
submission portal_id hash run_at =
    intake portal_id "sinedis.short_pause.v1" "fernet:v1:abc" hash (obj end) (obj end) run_at

abbrev new_pause : ℕ → String → ℕ → Operation
new_pause id hash run_at =
    create id 100 7 "sinedis.short_pause.v1" "fernet:v1:abc" hash (obj end) (obj end) run_at

-- Two pauses, both claimed; one is done, the other lost its worker and is recovered.
abbrev day : List Operation
day =
    new_pause 1 "h1" 200
    ∷ new_pause 2 "h2" 150
    ∷ new_pause 3 "h1" 999
    ∷ claim_due free "w1" 50 300 300
    ∷ complete 301 1 301 (obj end)
    ∷ recover_stale 900 900 120
    ∷ []

abbrev done : AutomationJob
done = record (row 1 100 (submission 7 "h1" 200)) {
  status = completed;
  completed_at = some 301;
  attempts = 1;
  started_at = some 300;
  updated_at = 301;
}

day_ends : (find_job 1 (run day []) ≡ some done) × (find_job 3 (run day []) ≡ none)
unfolding run apply find_job
day_ends = (refl, refl)

run-IsSound_example : IsSound (run day [])
run-IsSound_example = run-IsSound day [] empty-IsSound

final_absorbs_example : find_job 1 (run day (run day [])) ≡ some done
final_absorbs_example =
    final_absorbs day (run day []) 1 (run-IsSound day [] empty-IsSound) day_ends.0 refl

abbrev one : Table
one = row 1 100 (submission 7 "h1" 200) ∷ []

one-IsSound : IsSound one
unfolding run apply
one-IsSound = run-IsSound (new_pause 1 "h1" 200 ∷ []) [] empty-IsSound

apply-Moves_example :
    Moves (row 1 100 (submission 7 "h1" 200)) (record (row 1 100 (submission 7 "h1" 200)) {
      status = processing;
      locked_at = some 300;
      locked_by = some "w1";
      started_at = some 300;
      attempts = 1;
      updated_at = 300;
    })
unfolding apply find_job
apply-Moves_example = apply-Moves (claim_due free "w1" 50 300 300) one 1 one-IsSound refl refl

abbrev polling : List Operation
polling =
    claim_due free "w1" 50 300 300
    ∷ poll 310 1 400 (obj end)
    ∷ claim_due free "w1" 50 500 500
    ∷ fail 510 1 "field_check_failed"
    ∷ []

polling_counts : (claims 1 polling one ≡ 2) × (polls 1 polling one ≡ 1)
unfolding apply
polling_counts = (refl, refl)

claims_bounded_example : 0 + claims 1 polling one ≤ 10 + polls 1 polling one
unfolding find_job
claims_bounded_example = claims_bounded polling one 1 one-IsSound refl

redelivery_example :
    let later = run polling one in
    (k : AutomationJob) × (create_idempotent 9 600 (submission 7 "h1" 999) later
      ≡ (stored (record { job = k; existing = true }), later))
    × (k.id ≡ 1)
unfolding create_idempotent run apply
redelivery_example =
    redelivery 1 100 (submission 7 "h1" 200) []
      {r = record { job = row 1 100 (submission 7 "h1" 200); existing = false }} refl polling 9 600
      (submission 7 "h1" 999) refl refl refl refl

abbrev two : Table
two = row 1 100 (submission 7 "h1" 200) ∷ row 2 100 (submission 7 "h2" 150) ∷ []

claim-IsLeased_example :
    let jobs = (claim_due_jobs free "w1" 1 300 300 two).0 in
    (length jobs ≤ 1)
    × All
        (λ j.
          (j.status ≡ processing)
          × (j.locked_at ≡ some 300)
          × (j.locked_by ≡ some "w1")
          × (j.run_at ≤ 300)
          × (1 ≤ j.attempts)
          × (j.attempts ≤ j.max_attempts))
        jobs
claim-IsLeased_example = claim-IsLeased free "w1" 1 300 300 two

claim_earliest_example :
    let jobs = (claim_due_jobs free "w1" 1 300 300 two).0 in
    (length jobs ≡ 1) × All (λ k. earlier (row 1 100 (submission 7 "h1" 200)) k ≡ false) jobs
unfolding claim_due_jobs
claim_earliest_example =
    claim_earliest free "w1" 1 300 300 two (row 1 100 (submission 7 "h1" 200)) (Memᴰ.head refl) refl
      refl refl

-- The first job waits behind the second one, and both workers take one job at a time.
abbrev waiting_room : List Operation
waiting_room = new_pause 1 "h1" 200 ∷ new_pause 2 "h2" 150 ∷ []

abbrev single : String → ℕ → Batch
single worker_id now = record { worker_id = worker_id; limit = 1; now = now; stamp = now }

abbrev singles : List Batch
singles = single "w1" 300 ∷ single "w2" 310 ∷ []

due_claimed_example :
    (k : AutomationJob) × (find_job 1 (run (claims_of singles) (run waiting_room [])) ≡ some k)
    × (k.status ≡ processing)
    × (k.attempts ≡ 1)
unfolding run apply find_job
due_claimed_example =
    due_claimed singles (run waiting_room []) 1 (row 1 100 (submission 7 "h1" 200))
      (run-IsSound waiting_room [] empty-IsSound) refl refl (omega arith)
      ((omega arith, omega arith), ((omega arith, omega arith), tt)) (omega arith)

abbrev abandoned : AutomationJob
abandoned = record (row 1 100 (submission 7 "h1" 200)) {
  status = processing;
  locked_at = some 300;
  locked_by = some "w1";
  started_at = some 300;
  attempts = 1;
  updated_at = 300;
}

abbrev crash : List Operation
crash = new_pause 1 "h1" 200 ∷ claim_due free "w1" 50 300 300 ∷ []

abandoned_returns_example :
    (k : AutomationJob) × (find_job 1
        (run (recover_stale 900 900 120 ∷ claims_of (single "w2" 910 ∷ [])) (run crash []))
      ≡ some k)
    × (((leb 3 1 ≡ true) × (k.status ≡ failed) × (k.attempts ≡ 1) × (k.locked_by ≡ none))
        ⊎ ((leb 3 1 ≡ false)
            × (k.status ≡ processing)
            × (k.attempts ≡ 2)
            × IsLeaseOf (single "w2" 910 ∷ []) k))
unfolding run apply find_job
abandoned_returns_example =
    abandoned_returns 900 900 120 (single "w2" 910 ∷ []) (run crash []) 1 abandoned
      (run-IsSound crash [] empty-IsSound) refl refl ((omega arith, omega arith), tt) (omega arith)

-- Another worker, another job and a recovery that comes too early.
abbrev bustle : List Operation
bustle =
    new_pause 2 "h2" 350
    ∷ claim_due free "w2" 50 400 400
    ∷ complete 410 2 410 (obj end)
    ∷ recover_stale 410 410 120
    ∷ []

lease_exclusive_example :
    let t = run bustle (run crash []) in
    ((k : AutomationJob) × (find_job 1 t ≡ some k) × IsSameLease abandoned k)
    × (any (has_id 1) (claim_due_jobs free "w3" 50 420 420 t).0 ≡ false)
unfolding run apply find_job
lease_exclusive_example =
    lease_exclusive bustle (run crash []) 1 abandoned free "w3" 50 420 420
      (run-IsSound crash [] empty-IsSound) refl refl (refl, (refl, (refl, (refl, tt))))
