-- ===== src/Robots/Payload.antt =====
-- app/robots/payload.py: the helpers that copy and validate the data of a callback. The data are the
-- mapping that a JSON body or a form gives; every refusal is `robot_payload_error`.
mod Brackets
pub mod Notation
pub mod Normalize
pub mod Forms
pub mod Recipients
pub mod Bounds
pub mod Requests
pub mod Samples
mod Scenarios
use Prim.Native.Char.{code}
use b24_sinedis.Prelude.{
  ℕ, ltb, leb, ℤ, pos, negsuc, String, Bool, true, false, not, ◌&&◌, ◌||◌, Option, none, some, List,
  [], ◌∷◌, ◌++◌, any, or_else, if◌then◌else◌, ◌==◌, comparable_ids, comparable_texts,
}
use b24_sinedis.Prelude.Text.{strip, is_empty, isdigit, drop_last, split_once, ends_with}
use b24_sinedis.Prelude.Prefix.{after_prefix}
use b24_sinedis.Value.{
  Value, obj, arr, str, int, float, bool, null, Fields, field, end, Items, nil, cons, get, put,
  items,
}
use b24_sinedis.Runtime.{Result, ok, raised}
use b24_sinedis.Runtime.Results.{◌>>=◌, or_raise}
use b24_sinedis.Runtime.Integers.{int_of_text}
use b24_sinedis.Bitrix.Exceptions.{robot_payload_error, value_error}

-- text[:-1].split("[", 1) of a key that holds "[" and ends with "]"
unfoldable pub bracketed : String → Option (String × String)
unfolding ends_with drop_last split_once
bracketed text = if ends_with text "]" then split_once b'[' (drop_last text) else none

abbrev pub is_group : String → Bool
is_group group = group == "auth" || group == "properties" || group == "PROPERTIES"

-- target = copied.setdefault(group, {}); if isinstance(target, dict): target[child] = value
abbrev pub put_into : String → String → Value → Option Value → Fields → Fields
put_into group child v none copied = put group (obj (field child v end)) copied
put_into group child v (some (obj target)) copied = put group (obj (put child v target)) copied
put_into group child v (some w) copied = copied

-- copied[text] = value, or the value goes into one of the three groups
abbrev pub place : String → Option (String × String) → Value → Fields → Fields
place text none v copied = put text v copied
place text (some (group, child)) v copied =
    if is_group group && not (is_empty child)
    then put_into group child v (get group copied) copied
    else put text v copied

-- The entries of the source, in their order, after what is copied already.
unfoldable pub copy_onto : Fields → Fields → Fields
unfolding put get bracketed is_empty
copy_onto copied end = copied
copy_onto copied (field key (obj d) source) =
    copy_onto (put key (obj (copy_onto end d)) copied) source
copy_onto copied (field key v source) = copy_onto (place key (bracketed key) v copied) source

abbrev pub nested_copy : Fields → Fields
nested_copy source = copy_onto end source

abbrev pub refused : {A : Type 0} → Result A
refused = raised robot_payload_error

unfoldable pub required : Option Value → Result String
unfolding strip is_empty
required (some (str s)) = if is_empty (strip s) then refused else ok (strip s)
required _ = refused

-- value.lstrip("-")
unfoldable pub lstrip_minus : String → String
lstrip_minus (String.[]) = ""
lstrip_minus (String.◌∷◌ c s) =
    let rest = lstrip_minus s in if code c == b'-' then rest else String.◌∷◌ c s

-- The last step is `int(value)`, whose ValueError is none of the module's own.
unfoldable pub integer : Option Value → Result ℤ
unfolding strip isdigit lstrip_minus int_of_text is_empty
integer (some (int z)) = ok z
integer (some (str s)) =
    if not (is_empty (strip s)) && isdigit (lstrip_minus (strip s))
    then or_raise value_error (int_of_text s)
    else refused
integer _ = refused

abbrev pub above_zero : ℤ → Result ℕ
above_zero (pos n) = if ltb 0 n then ok n else refused
above_zero (negsuc n) = refused

unfoldable pub positive_integer : Option Value → Result ℕ
unfolding integer
positive_integer v = do result ← integer v; above_zero result

-- str(value), where `show` is `str` of what is no text
abbrev pub text_of : (Value → String) → Value → String
text_of show (str s) = s
text_of show v = show v

abbrev pub recipient_values : Option Value → List Value
recipient_values none = []
recipient_values (some null) = []
recipient_values (some (arr vs)) = items vs
recipient_values (some (str s)) = if s == "" then [] else str s ∷ []
recipient_values (some v) = v ∷ []

-- one item of `_recipients`
unfoldable pub recipient : (Value → String) → Value → Result ℕ
unfolding strip after_prefix int_of_text
recipient show item =
    let text = strip (text_of show item) in
    do
      user_id ←
          or_raise robot_payload_error (int_of_text (or_else (after_prefix "user_" text) text))
      above_zero user_id

-- if user_id not in result: result.append(user_id)
abbrev pub appended : List ℕ → ℕ → List ℕ
appended result user_id = if any (λ n. n == user_id) result then result else result ++ user_id ∷ []

unfoldable pub recipients_onto : (Value → String) → List ℕ → List Value → Result (List ℕ)
recipients_onto show result [] = ok result
recipients_onto show result (item ∷ values) = do
  user_id ← recipient show item
  recipients_onto show (appended result user_id) values

abbrev pub recipients : (Value → String) → Option Value → Result (List ℕ)
recipients show v = recipients_onto show [] (recipient_values v)
