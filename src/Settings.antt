-- ===== src/Settings.antt =====
-- The settings of app/config.py that the modelled code reads, with their validators. Times in
-- seconds, fractions included, are held in microseconds.
use b24_sinedis.Prelude.{ℕ, String, Bool, false, ◌&&◌, Option, none, leb, ltb, ◌*◌}

pub record Settings : Type 0 where
  pub workflow_buttons_enabled : Bool
  pub bitrix_client_id : Option String
  pub bitrix_client_secret : Option String
  pub worker_batch_size : ℕ
  pub worker_lock_timeout : ℕ
  pub worker_recovery_interval : ℕ
  pub worker_retry_base : ℕ
  pub worker_retry_max : ℕ
  pub worker_retry_jitter : ℕ
  pub short_pause_min_seconds : ℕ
  pub short_pause_max_seconds : ℕ
  pub bitrix_oauth_expiry_skew : ℕ

-- The field constraints, and the model validator `validate_short_pause_range`.
unfoldable pub accepts : Settings → Bool
accepts s =
    leb 1 s.worker_batch_size
    && leb 1 s.worker_lock_timeout
    && ltb 0 s.worker_recovery_interval
    && ltb 0 s.worker_retry_base
    && leb 1 s.short_pause_min_seconds
    && leb s.short_pause_min_seconds s.short_pause_max_seconds
    && leb s.worker_retry_base s.worker_retry_max

abbrev pub second : ℕ
second = 1000000

-- The defaults.
abbrev pub defaults : Settings
defaults = record {
  workflow_buttons_enabled = false;
  bitrix_client_id = none;
  bitrix_client_secret = none;
  worker_batch_size = 50;
  worker_lock_timeout = 120 * second;
  worker_recovery_interval = 60 * second;
  worker_retry_base = 5 * second;
  worker_retry_max = 300 * second;
  worker_retry_jitter = 2 * second;
  short_pause_min_seconds = 1;
  short_pause_max_seconds = 3600;
  bitrix_oauth_expiry_skew = 60 * second;
}
