-- ===== src/Jobs/Processor/Retry.antt =====
-- The retry times of app/jobs/processor.py, in microseconds; a random value is a number of millionths.
use b24_sinedis.Prelude.{
  ℕ, ℤ, pos, ◌+◌, ◌-◌, ◌*◌, ◌/◌, ◌^◌, min, max, String, Bool, true, Option, none, some,
  if◌then◌else◌,
}
use b24_sinedis.Prelude.Int.{to_nat, scale}
use b24_sinedis.Value.{Value, str, int, float, bool, Fields, get}
use b24_sinedis.Settings.{Settings, second}
use b24_sinedis.Time.{add_delta, from_timestamp}
use b24_sinedis.Runtime.{Result, ok, raised, Env}
use b24_sinedis.Bitrix.Exceptions.{
  ApiError, Failure, bitrix, authentication_error, permission_error, rate_limit_error,
  temporary_error, permanent_error,
}

abbrev pub million : ℕ
million = 1000000

-- min(maximum, base * 2 ** max(0, attempts - 1)), and the jitter on top
unfoldable pub retry_delay_seconds : ℕ → ℕ → ℕ → ℕ → ℤ → ℕ
retry_delay_seconds attempts base maximum jitter random_value =
    let exponential = min maximum (base * 2 ^ (attempts - 1)) in
    min maximum (exponential + min million (to_nat random_value) * jitter / million)

module _ {A B : Type 0} where
  abbrev pub bind : Result A → (A → Result B) → Result B
  bind (ok a) f = f a
  bind (raised e) f = raised e

-- max(calculated, now + timedelta(seconds=retry_after_seconds))
abbrev pub at_least_after : ℕ → Option ℕ → ℕ → Result ℕ
at_least_after now none calculated = ok calculated
at_least_after now (some delay) calculated =
    bind (add_delta now delay) (λ other. ok (max calculated other))

abbrev pub at_least : Option ℕ → ℕ → ℕ
at_least none calculated = calculated
at_least (some reset) calculated = max calculated reset

unfoldable pub retry_at : ℕ → ℕ → Settings → ℤ → Option ℕ → Option ℕ → Result ℕ
unfolding retry_delay_seconds add_delta
retry_at now attempts settings random_value retry_after operating_reset_at =
    bind
      (add_delta now (
        retry_delay_seconds attempts settings.worker_retry_base settings.worker_retry_max
          settings.worker_retry_jitter random_value))
      λ delayed.
        bind (at_least_after now retry_after delayed)
          λ calculated. ok (at_least operating_reset_at calculated)

-- The attributes that `getattr` finds on the API errors.
abbrev pub api_error : Failure → Option ApiError
api_error (bitrix (authentication_error e)) = some e
api_error (bitrix (permission_error e)) = some e
api_error (bitrix (rate_limit_error e)) = some e
api_error (bitrix (temporary_error e)) = some e
api_error (bitrix (permanent_error e)) = some e
api_error _ = none

abbrev pub retry_after_of : Failure → Option ℕ
retry_after_of error = elim (api_error error) [ none ↦ none | some e ↦ e.retry_after_seconds ]

abbrev time_of : Failure → Option Fields
time_of error = elim (api_error error) [ none ↦ none | some e ↦ e.time ]

abbrev present : Result ℕ → Result (Option ℕ)
present (ok t) = ok (some t)
present (raised e) = raised e

abbrev zoned : Option (ℕ × Bool) → Option ℕ
zoned (some (t, true)) = some t
zoned _ = none

-- A Boolean is an `int` here too.
abbrev pub reset_of : (String → Option (ℕ × Bool)) → Option Value → Result (Option ℕ)
reset_of from_iso (some (int z)) = present (from_timestamp (scale second z))
reset_of from_iso (some (float f)) = present (from_timestamp f)
reset_of from_iso (some (bool b)) = present (from_timestamp (pos (if b then second else 0)))
reset_of from_iso (some (str s)) = ok (zoned (from_iso s))
reset_of from_iso _ = ok none

unfoldable pub operating_reset : Env → Failure → Result (Option ℕ)
unfolding get from_timestamp
operating_reset env error = elim (time_of error) [
  | none ↦ ok none
  | some time ↦ reset_of env.from_iso_format (get "operating_reset_at" time)
]
