-- ===== src/Jobs/Worker/Scenarios.antt =====
-- One pass of the worker of app/jobs/worker.py over a request whose portal has a server error.
use b24_sinedis.Prelude.{ℕ, ◌≡◌, refl, Bool, true, false, some, List, [], ◌∷◌}
use b24_sinedis.Value.{obj, str, Fields, field, end}
use b24_sinedis.Settings.{defaults}
use b24_sinedis.Jobs.Model.{AutomationJob, Table, JobStatus, processing, completed}
use b24_sinedis.Jobs.Repository.{row}
use b24_sinedis.Jobs.Operations.{intake, Operation, create, claim_due, complete, run}
use b24_sinedis.Runtime.{Env, ◌>>=◌, try_else, pure, raise, lift}
use b24_sinedis.Runtime.Samples.{willing, broken, world}
use b24_sinedis.Jobs.Worker.{Loop, worker_loop}
use b24_sinedis.Jobs.Worker.Refinement.{worker_loop_refines}

-- A clock that stands still.
abbrev at_noon : Env → Env
at_noon env = record env { clock = λ n. 700 }

abbrev running : ℕ → Bool
running n = false

abbrev free : ℕ → ℕ → Bool
free n id = false

abbrev start : Loop
start = record { next_recovery = 0; tests = 0 }

abbrev request : Fields
request =
    field "rest_method" (str "crm.item.list")
      (field "request_params" (obj end) (field "jsonpath" (str "$") end))

abbrev queue : Table
queue =
    row 1 100 (intake 7 "sinedis.rest_request.robot.v1" "token" "hash" (obj request) (obj end) 200)
    ∷ []

abbrev states : Table → List JobStatus
states [] = []
states (j ∷ js) = j.status ∷ states js

-- The job is completed where the portal answers, and stays held where its server fails.
one_pass :
    (states
        (worker_loop (at_noon willing) defaults running 1 true "w1" free start (world queue)).1.jobs
      ≡ completed ∷ [])
    × (states
          (worker_loop
            (at_noon broken)
            defaults
            running
            1
            true
            "w1"
            free
            start
            (world queue)).1.jobs
        ≡ processing ∷ [])
unfolding worker_loop ◌>>=◌ try_else pure raise lift
one_pass = (refl, refl)

worker_loop_refines_example :
    (os : List Operation) × (run os queue
      ≡ (worker_loop
          (at_noon broken)
          defaults
          running
          2
          false
          "w1"
          free
          start
          (world queue)).1.jobs)
worker_loop_refines_example =
    worker_loop_refines (at_noon broken) defaults running 2 false "w1" free start (world queue)

-- A job that was claimed and completed before.
abbrev past : List Operation
past =
    create 1 100 7 "sinedis.rest_request.robot.v1" "token" "hash" (obj request) (obj end) 200
    ∷ claim_due (free 0) "w1" 50 300 300
    ∷ complete 301 1 301 (obj end)
    ∷ []

abbrev finished : AutomationJob
finished =
    record (row 1 100
      (intake 7 "sinedis.rest_request.robot.v1" "token" "hash" (obj request) (obj end) 200)) {
        status = completed;
        completed_at = some 301;
        attempts = 1;
        started_at = some 300;
        updated_at = 301;
      }
