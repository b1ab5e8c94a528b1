-- ===== src/Security/Redaction.antt =====
-- app/security/redaction.py: what is masked before it is logged.
use Prim.Native.Char.{code}
use Prim.Native.String.{◌++◌}
use b24_sinedis.Prelude.{
  ℕ, zero, String, Bool, true, false, not, ◌&&◌, ◌||◌, none, some, List, [], ◌∷◌, any, leb,
  if◌then◌else◌, ◌==◌, comparable_ids, comparable_texts,
}
use b24_sinedis.Prelude.Text.{is_decimal, is_letter, is_space, lower, rstrip_by, ends_with}
use b24_sinedis.Security.Patterns.{
  is_word_char, Re, word, one, many, many1, opt, seq, either, Pattern, sub,
}

abbrev pub redaction_mask : String
redaction_mask = "***REDACTED***"

abbrev pub sensitive_names : List String
sensitive_names =
    "access_token" ∷ "refresh_token" ∷ "event_token" ∷ "application_token" ∷ "client_secret"
    ∷ "authorization" ∷ "cookie" ∷ "set_cookie" ∷ "password" ∷ "passwd" ∷ "secret"
    ∷ "encryption_key" ∷ "admin_api_token" ∷ "database_url" ∷ []

abbrev is_upper : ℕ → Bool
is_upper c = leb b'A' c && leb c b'Z'

-- [a-z0-9]
abbrev is_key_char : ℕ → Bool
is_key_char c = is_decimal c || leb b'a' c && leb c b'z'

-- _CAMEL_BOUNDARY.sub("_", s), where `after` says that [a-z0-9] stands in front
unfoldable pub split_camel : Bool → String → String
split_camel after (String.[]) = ""
split_camel after (String.◌∷◌ c s) =
    let rest = String.◌∷◌ c (split_camel (is_key_char (code c)) s) in
    if after && is_upper (code c) then "_" ++ rest else rest

-- _NON_ALNUM.sub("_", s), where `inside` says that a run is being replaced
unfoldable pub join_runs : Bool → String → String
join_runs inside (String.[]) = ""
join_runs inside (String.◌∷◌ c s) =
    let kept = String.◌∷◌ c (join_runs false s) in
    let skipped = join_runs true s in
    if is_key_char (code c) then kept else if inside then skipped else "_" ++ skipped

abbrev is_underscore : ℕ → Bool
is_underscore c = c == b'_'

unfoldable pub lstrip_underscores : String → String
lstrip_underscores (String.[]) = ""
lstrip_underscores (String.◌∷◌ c s) =
    let rest = lstrip_underscores s in if is_underscore (code c) then rest else String.◌∷◌ c s

unfoldable pub normalized_key : String → String
unfolding split_camel join_runs lstrip_underscores rstrip_by lower
normalized_key key =
    rstrip_by is_underscore (lstrip_underscores (join_runs false (lower (split_camel false key))))

unfoldable pub is_sensitive_key : String → Bool
unfolding normalized_key ends_with
is_sensitive_key key =
    let normalized = normalized_key key in
    any (λ name. normalized == name || ends_with normalized ("_" ++ name)) sensitive_names

abbrev is_quote : ℕ → Bool
is_quote c = c == b'"' || c == 39

-- [_-]?
abbrev gap : Re
gap = opt (one (λ c. c == b'_' || c == b'-'))

abbrev user_char : ℕ → Bool
user_char c = not (is_space c || c == b':' || c == b'/' || c == b'@')

-- "postgres(?:ql)?(?:\\+asyncpg)?|mysql(?:\\+\\w+)?|mariadb(?:\\+\\w+)?"
abbrev scheme : Re
scheme = either (seq (word "postgres") (seq (opt (word "ql")) (opt (word "+asyncpg")))) (
    either (seq (word "mysql") (opt (seq (word "+") (many1 is_word_char))))
      (seq (word "mariadb") (opt (seq (word "+") (many1 is_word_char)))))

abbrev pub dsn_pattern : Pattern
dsn_pattern = record {
  bars = is_word_char;
  prefix = seq scheme (seq (word "://") (seq (many1 user_char) (word ":")));
  value = many1 (λ c. not (is_space c || c == b'/' || c == b'@'));
  suffix = some (word "@");
}

abbrev pub header_pattern : Pattern
header_pattern = record {
  bars = is_word_char;
  prefix =
      seq (either (word "authorization") (either (word "cookie") (word "set-cookie")))
        (seq (many is_space) (seq (word ":") (many is_space)));
  value = many1 (λ c. not (c == 13 || c == 10));
  suffix = none;
}

abbrev pub bearer_pattern : Pattern
bearer_pattern = record {
  bars = is_word_char;
  prefix = seq (word "bearer") (many1 is_space);
  value = many1 (λ c. not (is_space c || c == b',' || c == b';'));
  suffix = none;
}

abbrev spaced : String → String → Re
spaced left right = seq (word left) (seq gap (word right))

abbrev secret_name : Re
secret_name = either (spaced "access" "token") (
    either (spaced "refresh" "token") (
      either (spaced "event" "token") (
        either (spaced "application" "token") (
          either (spaced "client" "secret") (
            either (word "password") (
              either (word "passwd") (
                either (spaced "encryption" "key")
                  (seq (word "admin") (seq gap (spaced "api" "token"))))))))))

abbrev pub key_value_pattern : Pattern
key_value_pattern = record {
  bars = λ c. is_letter c || is_decimal c || is_underscore c;
  prefix = seq (opt (one is_quote)) (
      seq secret_name (
        seq (opt (one is_quote)) (
          seq (many is_space)
            (seq (one (λ c. c == b'=' || c == b':')) (seq (many is_space) (opt (one is_quote)))))));
  value = many1 (λ c.
      not (
        is_space c || c == b'&' || c == b'#' || c == b',' || c == b';' || is_quote c || c == b'}'));
  suffix = none;
}

abbrev masked : Pattern → String → String
masked p s = sub redaction_mask p none zero s

unfoldable pub redact_string : String → String
unfolding sub
redact_string value =
    masked key_value_pattern
      (masked bearer_pattern (masked header_pattern (masked dsn_pattern value)))
