-- ===== src/Time.antt =====
-- `datetime` and `timedelta`: instants and durations in microseconds, instants since the first one.
use b24_sinedis.Prelude.{ℕ, suc, ℤ, pos, negsuc, ◌+◌, ◌-◌, ◌*◌, ◌^◌, if◌then◌else◌, leb}
use b24_sinedis.Settings.{second}
use b24_sinedis.Runtime.{Result, ok, raised}
use b24_sinedis.Bitrix.Exceptions.{Failure, value_error, overflow_error}

-- 1970-01-01
abbrev pub epoch : ℕ
epoch = 719162 * 86400 * second

-- The last microsecond of the year 9999.
abbrev pub last_instant : ℕ
last_instant = 3652059 * 86400 * second - 1

-- now + timedelta(…)
unfoldable pub add_delta : ℕ → ℕ → Result ℕ
add_delta now delta =
    if leb (now + delta) last_instant then ok (now + delta) else raised overflow_error

-- A time beyond the platform's `time_t` is an OverflowError, one beyond the calendar a ValueError.
abbrev pub refuse_timestamp : ℕ → Failure
refuse_timestamp n = if leb (2 ^ 63 * second) n then overflow_error else value_error

-- datetime.fromtimestamp(…, tz=UTC)
unfoldable pub from_timestamp : ℤ → Result ℕ
from_timestamp (pos n) =
    if leb (epoch + n) last_instant then ok (epoch + n) else raised (refuse_timestamp n)
from_timestamp (negsuc n) =
    if leb (suc n) epoch then ok (epoch - suc n) else raised (refuse_timestamp (suc n))

-- now + timedelta(…) of either sign
unfoldable pub add_signed : ℕ → ℤ → Result ℕ
unfolding add_delta
add_signed now (pos n) = add_delta now n
add_signed now (negsuc n) = if leb (suc n) now then ok (now - suc n) else raised overflow_error
