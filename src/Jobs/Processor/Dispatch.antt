-- ===== src/Jobs/Processor/Dispatch.antt =====
-- `process` of app/jobs/processor.py: the choice by the robot's code.
use b24_sinedis.Prelude.{ℕ, Option, none, some, if◌then◌else◌, ◌==◌, comparable_texts}
use b24_sinedis.Settings.{Settings}
use b24_sinedis.Portals.{BitrixPortal}
use b24_sinedis.Jobs.Model.{AutomationJob}
use b24_sinedis.Jobs.Processor.Persisted.{load, rest_request_robot_code, wait_field_robot_code}
use b24_sinedis.Jobs.Processor.ShortPause.{process_short_pause}
use b24_sinedis.Jobs.Processor.RestRequest.{process_rest_request}
use b24_sinedis.Jobs.Processor.WaitField.{process_wait_field}
use b24_sinedis.Runtime.{Env, Action, ◌>>=◌, pure}

module _ (env : Env) (settings : Settings) where
  unfoldable pub process_job : AutomationJob → Option BitrixPortal → Action (Unit {0})
  unfolding process_short_pause process_rest_request process_wait_field
  process_job job portal =
      if job.robot_code == rest_request_robot_code
      then process_rest_request env settings job portal
      else if job.robot_code == wait_field_robot_code
      then process_wait_field env settings job portal
      else process_short_pause env settings job portal

  abbrev pub process_loaded : Option (AutomationJob × Option BitrixPortal) → Action (Unit {0})
  process_loaded none = pure tt
  process_loaded (some (job, portal)) = process_job job portal

  unfoldable pub process : ℕ → Action (Unit {0})
  unfolding load process_job
  process job_id = do loaded ← load job_id; process_loaded loaded
