-- ===== src/Jobs/Model.antt =====
-- app/models/job.py with the time stamps of app/models/base.py. An instant is a number of
-- microseconds since the first instant of `datetime`, an identifier is a number.
use b24_sinedis.Prelude.{ℕ, ◌≤◌, String, ◌≡◌, ◌≢◌, Bool, true, false, Option, none, List}
use b24_sinedis.Value.{Value}

pub data JobStatus : Type 0 where
  pending processing retry completed failed expired cancelled : JobStatus

pub record AutomationJob : Type 0 where
  pub id : ℕ
  pub portal_id : ℕ
  pub robot_code : String
  pub event_token_encrypted : String
  pub event_token_hash : String
  pub payload : Value
  pub return_values : Value
  pub run_at : ℕ
  pub status : JobStatus
  pub attempts : ℕ
  pub max_attempts : ℕ
  pub locked_at : Option ℕ
  pub locked_by : Option String
  pub last_error : Option String
  pub started_at : Option ℕ
  pub completed_at : Option ℕ
  pub created_at : ℕ
  pub updated_at : ℕ

abbrev pub Table : Type 0
Table = List AutomationJob

abbrev pub is_processing : JobStatus → Bool
is_processing processing = true
is_processing _ = false

-- status IN ('pending', 'retry')
abbrev pub is_waiting : JobStatus → Bool
is_waiting pending = true
is_waiting retry = true
is_waiting _ = false

-- The states that no operation of the program leaves.
abbrev pub is_final : JobStatus → Bool
is_final completed = true
is_final failed = true
is_final expired = true
is_final cancelled = true
is_final _ = false

-- The check constraints of the table, and the lease: a row is locked exactly while it is processed.
pub record IsValid (j : AutomationJob) : Type 0 where
  pub max_attempts_positive : 1 ≤ j.max_attempts
  pub attempts_within_limit : j.attempts ≤ j.max_attempts
  pub leased : j.status ≡ processing → j.locked_at ≢ none
  pub released : j.status ≢ processing → (j.locked_at ≡ none) × (j.locked_by ≡ none)
