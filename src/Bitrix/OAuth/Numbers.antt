-- ===== src/Bitrix/OAuth/Numbers.antt =====
-- `_optional_integer`, `_positive_optional_int` and `_optional_string` of app/bitrix/oauth.py.
use Prim.Native.Char.{code}
use Prim.Native.String.{[], ◌∷◌, ◌++◌}
use b24_sinedis.Prelude.{
  ℕ, suc, ℤ, pos, negsuc, String, Bool, true, not, ◌||◌, ◌&&◌, Option, none, some, if◌then◌else◌,
  ◌==◌, comparable_ids, comparable_texts,
}
use b24_sinedis.Prelude.Int.{neg, is_positive}
use b24_sinedis.Prelude.Text.{strip, decimal, length, show_nat, is_empty}
use b24_sinedis.Value.{Value, str, int, float, bool, null, obj, arr}
use b24_sinedis.Runtime.{Result, ok, raised}
use b24_sinedis.Bitrix.Exceptions.{value_error, type_error}
use b24_sinedis.Bitrix.Client.Classify.{int_of_digits}

-- int(text) of an optional sign and decimal digits; `none` stands for ValueError. (Python also reads
-- underscores between digits, which the callers' test of the spelling then refuses.)
abbrev pub signed : (ℕ → ℤ) → String → Option ℤ
signed sign digits =
    if is_empty digits
    then none
    else elim (int_of_digits digits) [ none ↦ none | some n ↦ some (sign n) ]

abbrev pub int_of_stripped : String → Option ℤ
int_of_stripped [] = none
int_of_stripped (c ∷ s) =
    if code c == b'-'
    then signed neg s
    else if code c == b'+'
    then signed pos s
    else signed pos (c ∷ s)

unfoldable pub show_int : ℤ → String
unfolding show_nat
show_int (pos n) = show_nat n
show_int (negsuc n) = "-" ++ show_nat (suc n)

-- str(value).strip() in {str(parsed), f"+{parsed}"}
abbrev pub spelled : String → ℤ → Bool
spelled stripped z = stripped == show_int z || stripped == "+" ++ show_int z

abbrev pub check_integer : Bool → String → Result (Option ℤ)
check_integer positive stripped = elim (int_of_stripped stripped) [
  | none ↦ raised value_error
  | some z ↦
      if positive && not (is_positive z) || not (spelled stripped z)
      then raised value_error
      else ok (some z)
]

-- `_optional_integer`, and `_positive_optional_int` where `positive`. No float is spelled like an
-- integer, so each raises ValueError; `int` of a container raises TypeError.
unfoldable pub optional_integer : Bool → Option Value → Result (Option ℤ)
unfolding strip decimal length show_int is_empty
optional_integer positive none = ok none
optional_integer positive (some null) = ok none
optional_integer positive (some (bool b)) = raised value_error
optional_integer positive (some (float f)) = raised value_error
optional_integer positive (some (int z)) =
    if positive && not (is_positive z) then raised value_error else ok (some z)
optional_integer positive (some (str s)) =
    if s == "" then ok none else check_integer positive (strip s)
optional_integer positive (some (arr vs)) = raised type_error
optional_integer positive (some (obj d)) = raised type_error

abbrev pub magnitude : Option ℤ → Option ℕ
magnitude (some (pos n)) = some n
magnitude _ = none

abbrev pub optional_string : Option Value → Option String
optional_string (some (str s)) = if s == "" then none else some s
optional_string _ = none

-- `_positive_optional_int`
unfoldable pub positive_optional_int : Option Value → Result (Option ℕ)
unfolding optional_integer
positive_optional_int v = elim (optional_integer true v) [
  | raised e ↦ raised e
  | ok z ↦ ok (magnitude z)
]
