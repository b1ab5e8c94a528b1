-- ===== src/Security/Logged.antt =====
-- `redact_sensitive_data` and `SensitiveDataFilter` of app/security/redaction.py: the objects that are
-- logged, and the records that the filter rewrites.
pub mod Secrecy
mod Scenarios
use Prim.Native.String.{◌++◌}
use b24_sinedis.Prelude.{
  ℕ, String, Bool, true, false, not, ◌&&◌, Option, none, some, if◌then◌else◌, ◌==◌, comparable_ids,
  comparable_texts,
}
use b24_sinedis.Prelude.Text.{is_empty}
use b24_sinedis.Security.Redaction.{redaction_mask, is_sensitive_key, redact_string}

-- Python objects as far as they are told apart: SecretStr, mappings, lists, tuples, sets, texts and the
-- others, which a number stands for. A key is held as the text that `str` gives; a set as its distinct
-- elements.
mutual
  pub data Datum : Type 0 where
    secret text : String → Datum
    mapping : Entries → Datum
    list_of tuple_of set_of : Elements → Datum
    other : ℕ → Datum

  pub data Entries : Type 0 where
    entry : String → Datum → Entries → Entries
    no_entry : Entries

  pub data Elements : Type 0 where
    element : Datum → Elements → Elements
    no_element : Elements

-- == on what a set can hold; other elements are equal only to none
abbrev mutual
  pub is_equal : Datum → Datum → Bool
  is_equal (secret s) (secret t) = s == t
  is_equal (text s) (text t) = s == t
  is_equal (tuple_of xs) (tuple_of ys) = are_equal xs ys
  is_equal (other n) (other m) = n == m
  is_equal _ _ = false

  pub are_equal : Elements → Elements → Bool
  are_equal no_element no_element = true
  are_equal (element x xs) (element y ys) = is_equal x y && are_equal xs ys
  are_equal _ _ = false

unfoldable pub holds : Datum → Elements → Bool
holds x no_element = false
holds x (element y ys) = let later = holds x ys in if is_equal x y then true else later

-- the elements of a set that is built from these
unfoldable pub distinct : Elements → Elements
unfolding holds
distinct no_element = no_element
distinct (element x xs) = let rest = distinct xs in if holds x rest then rest else element x rest

unfoldable mutual
  unfolding is_sensitive_key redact_string distinct

  pub redact_sensitive_data : Datum → Datum
  redact_sensitive_data (secret s) = text redaction_mask
  redact_sensitive_data (mapping d) = mapping (redact_entries d)
  redact_sensitive_data (list_of xs) = list_of (redact_elements xs)
  redact_sensitive_data (tuple_of xs) = tuple_of (redact_elements xs)
  redact_sensitive_data (set_of xs) = set_of (distinct (redact_elements xs))
  redact_sensitive_data (text s) = text (redact_string s)
  redact_sensitive_data (other n) = other n

  pub redact_entries : Entries → Entries
  redact_entries no_entry = no_entry
  redact_entries (entry key v d) =
      let shown = redact_sensitive_data v in
      entry key (if is_sensitive_key key then text redaction_mask else shown) (redact_entries d)

  pub redact_elements : Elements → Elements
  redact_elements no_element = no_element
  redact_elements (element x xs) = element (redact_sensitive_data x) (redact_elements xs)

-- The attributes of a LogRecord that the filter reads: `extras` are those that are not standard, and an
-- exception is held as the text that `str` gives.
pub record LogRecord : Type 0 where
  pub msg : Datum
  pub args : Datum
  pub extras : Entries
  pub exc_info : Option (Option String)
  pub exc_text : Option String
  pub stack_info : Option String

abbrev no_args : Datum
no_args = tuple_of no_element

-- redact_sensitive_data of each value, whatever its name
unfoldable pub redact_extras : Entries → Entries
unfolding redact_sensitive_data
redact_extras no_entry = no_entry
redact_extras (entry name v d) = entry name (redact_sensitive_data v) (redact_extras d)

abbrev safe_exception : Option String → String
safe_exception none = ""
safe_exception (some message) = redact_string message

abbrev with_exception : Option (Option String) → String → String
with_exception none message = message
with_exception (some raised) message = message ++ (" | exception=" ++ safe_exception raised)

abbrev exc_text_of : Option (Option String) → Option String → Option String
exc_text_of none exc_text = exc_text
exc_text_of (some raised) exc_text = none

abbrev safe_stack : Option String → Option String
safe_stack none = none
safe_stack (some stack) = if is_empty stack then some stack else some (redact_string stack)

-- the record when the message could not be formatted, with the extras as they are
abbrev pub unrendered : LogRecord → LogRecord
unrendered r = record r {
  msg = text "Log message redacted after sanitization failure";
  args = no_args;
  exc_info = none;
  exc_text = none;
  stack_info = none;
}

abbrev pub rendered : LogRecord → String → LogRecord
rendered r message = record {
  msg = text (with_exception r.exc_info (redact_string message));
  args = no_args;
  extras = redact_extras r.extras;
  exc_info = none;
  exc_text = exc_text_of r.exc_info r.exc_text;
  stack_info = safe_stack r.stack_info;
}

-- `get_message` is LogRecord.getMessage, the formatting of a message by its arguments; `none` stands for
-- an exception that it raises.
module _ (get_message : Datum → Datum → Option String) where
  unfoldable pub filter : LogRecord → LogRecord
  unfolding redact_sensitive_data redact_extras
  filter r = elim (get_message r.msg (redact_sensitive_data r.args)) [
    | none ↦ unrendered r
    | some message ↦ rendered r message
  ]
