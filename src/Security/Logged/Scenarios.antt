-- ===== src/Security/Logged/Scenarios.antt =====
-- Objects and texts that are logged, and what the filter makes of them.
use b24_sinedis.Prelude.{String, true, false, Option, none, some, ◌≡◌, refl, [], ◌∷◌, map}
use b24_sinedis.Security.Redaction.{is_sensitive_key, redact_string}
use b24_sinedis.Security.Logged.{
  Datum, secret, text, mapping, tuple_of, set_of, Entries, entry, no_entry, element, no_element,
  redact_sensitive_data, LogRecord, filter,
}
use b24_sinedis.Security.Logged.Secrecy.{
  mappings, tuples, hidden, shown, same, no_entries, elements, no_elements, filter-Alike,
}

sensitive :
    map is_sensitive_key (
      "ACCESS_TOKEN" ∷ "accessToken" ∷ "auth[access_token]" ∷ "headers.Authorization"
      ∷ "refresh-token" ∷ [])
    ≡ true ∷ true ∷ true ∷ true ∷ true ∷ []
unfolding is_sensitive_key
sensitive = refl

harmless : map is_sensitive_key ("safe" ∷ "secretary" ∷ "tokens" ∷ []) ≡ false ∷ false ∷ false ∷ []
unfolding is_sensitive_key
harmless = refl

header : redact_string "Authorization: Bearer test-bearer-value" ≡ "Authorization: ***REDACTED***"
unfolding redact_string
header = refl

query :
    redact_string "url=https://example.test/callback?access_token=test-query-token&safe=yes"
    ≡ "url=https://example.test/callback?access_token=***REDACTED***&safe=yes"
unfolding redact_string
query = refl

dsn :
    redact_string "postgresql+asyncpg://test_user:test-password@db:5432/test_db"
    ≡ "postgresql+asyncpg://test_user:***REDACTED***@db:5432/test_db"
unfolding redact_string
dsn = refl

bearer : redact_string "sent bearer abc; done" ≡ "sent bearer ***REDACTED***; done"
unfolding redact_string
bearer = refl

abbrev credentials : String → Entries
credentials token = entry "accessToken" (text token) (entry "safe" (text "visible") no_entry)

masked_set :
    redact_sensitive_data
      (set_of (element (secret "a") (element (secret "b") (element (text "safe") no_element))))
    ≡ set_of (element (text "***REDACTED***") (element (text "safe") no_element))
unfolding redact_sensitive_data
masked_set = refl

-- An extra attribute is redacted by its value only, so that a name such as access_token hides nothing.
abbrev record_of : Datum → LogRecord
record_of args = record {
  msg = text "payload=%s";
  args = args;
  extras = entry "access_token" (text "test-extra-token") no_entry;
  exc_info = some (some "password=test");
  exc_text = none;
  stack_info = none;
}

-- a message that shows only its text
abbrev text_of_message : Datum → Datum → Option String
text_of_message (text s) args = some s
text_of_message _ args = none

extras_kept :
    (filter text_of_message (record_of (tuple_of no_element))).extras
    ≡ entry "access_token" (text "test-extra-token") no_entry
unfolding filter
extras_kept = refl

exception_masked :
    (filter text_of_message (record_of (tuple_of no_element))).msg
    ≡ text "payload=%s | exception=password=***REDACTED***"
unfolding filter
exception_masked = refl

filter-Alike_example :
    filter text_of_message (record_of (tuple_of (element (mapping (credentials "one")) no_element)))
    ≡ filter text_of_message
        (record_of (tuple_of (element (mapping (credentials "two")) no_element)))
unfolding is_sensitive_key
filter-Alike_example =
    filter-Alike text_of_message
      (record_of (tuple_of (element (mapping (credentials "one")) no_element)))
      (tuple_of (element (mapping (credentials "two")) no_element))
      (tuples (
        elements
          (mappings (
            hidden "accessToken" (text "one") (text "two") refl
              (shown "safe" (same (text "visible")) no_entries)))
          no_elements))
