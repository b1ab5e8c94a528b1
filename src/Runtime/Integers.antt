-- ===== src/Runtime/Integers.antt =====
-- What `int` makes of a text and of a JSON value.
use Prim.Native.Char.{code}
use Prim.Native.String.{[], ◌∷◌}
use b24_sinedis.Prelude.{
  ℕ, ℤ, pos, negsuc, ◌+◌, ◌/◌, String, false, Option, none, some, if◌then◌else◌, ◌==◌,
  comparable_ids,
}
use b24_sinedis.Prelude.Int.{neg}
use b24_sinedis.Prelude.Text.{strip, decimal, length, without_underscores}
use b24_sinedis.Value.{Value, str, int, float, bool, null, obj, arr}
use b24_sinedis.Settings.{second}
use b24_sinedis.Runtime.{Result, ok, raised}
use b24_sinedis.Runtime.Results.{or_raise}
use b24_sinedis.Bitrix.Exceptions.{value_error, type_error}
use b24_sinedis.Bitrix.Client.Classify.{int_of_digits}

abbrev signed_by : (ℕ → ℤ) → Option String → Option ℤ
signed_by sign none = none
signed_by sign (some digits) = elim (int_of_digits digits) [ none ↦ none | some n ↦ some (sign n) ]

abbrev int_of_stripped : String → Option ℤ
int_of_stripped [] = none
int_of_stripped (c ∷ s) =
    if code c == b'-'
    then signed_by neg (without_underscores false s)
    else if code c == b'+'
    then signed_by pos (without_underscores false s)
    else signed_by pos (without_underscores false (c ∷ s))

-- int(text), `none` where it raises ValueError
unfoldable pub int_of_text : String → Option ℤ
unfolding strip without_underscores decimal length
int_of_text text = int_of_stripped (strip text)

-- the whole part of a float
abbrev truncated : ℤ → ℤ
truncated (pos n) = pos (n / second)
truncated (negsuc n) = neg ((n + 1) / second)

-- int(value)
unfoldable pub int_of_value : Value → Result ℤ
unfolding int_of_text
int_of_value (int z) = ok z
int_of_value (float z) = ok (truncated z)
int_of_value (bool b) = ok (pos (if b then 1 else 0))
int_of_value (str s) = or_raise value_error (int_of_text s)
int_of_value null = raised type_error
int_of_value (arr vs) = raised type_error
int_of_value (obj d) = raised type_error
