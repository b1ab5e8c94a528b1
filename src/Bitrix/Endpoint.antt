-- ===== src/Bitrix/Endpoint.antt =====
-- The addresses of app/bitrix/client.py: `normalize_client_endpoint` and `validate_rest_method`.
use Prim.Native.Char.{code}
use Prim.Native.String.{[], ◌∷◌, ◌++◌}
use b24_sinedis.Prelude.{
  ℕ, String, Bool, false, not, ◌&&◌, ◌||◌, Option, none, some, if◌then◌else◌, ◌==◌, comparable_ids,
  comparable_texts, is_some,
}
use b24_sinedis.Prelude.Text.{is_space, is_letter, is_decimal, any_char, rstrip_by, lower}
use b24_sinedis.Runtime.{Result, ok, raised, SplitUrl}
use b24_sinedis.Bitrix.Exceptions.{bitrix, configuration_error}

abbrev is_slash : ℕ → Bool
is_slash c = c == b'/'

-- urlunsplit(("https", netloc, path, "", ""))
abbrev pub unsplit_https : String → String → String
unsplit_https netloc [] = "https://" ++ netloc
unsplit_https netloc (c ∷ path) =
    "https://" ++ (netloc ++ (if is_slash (code c) then c ∷ path else "/" ++ (c ∷ path)))

unfoldable pub normalize_client_endpoint : (String → Option SplitUrl) → String → Result String
unfolding any_char rstrip_by lower
normalize_client_endpoint urlsplit endpoint =
    if any_char is_space endpoint
    then raised (bitrix configuration_error)
    else elim (urlsplit endpoint) [
      | none ↦ raised (bitrix configuration_error)
      | some parsed ↦
          if not (lower parsed.scheme == "https")
            || parsed.netloc == ""
            || not (is_some parsed.hostname)
            || is_some parsed.username
            || is_some parsed.password
            || not (parsed.query == "")
            || not (parsed.fragment == "")
          then raised (bitrix configuration_error)
          else ok (unsplit_https parsed.netloc (rstrip_by is_slash parsed.path ++ "/"))
    ]

-- [A-Za-z0-9_]
abbrev pub is_word : ℕ → Bool
is_word c = is_letter c || is_decimal c || c == b'_'

-- ^[A-Za-z0-9_]+(?:\.[A-Za-z0-9_]+)*$ after a character (`inside`) or at the start of a word
unfoldable pub words_from : Bool → String → Bool
words_from inside [] = inside
words_from inside (c ∷ s) =
    let dot = code c == b'.' in (is_word (code c) || dot && inside) && words_from (not dot) s

unfoldable pub matches_method : String → Bool
unfolding words_from
matches_method s = words_from false s

unfoldable pub validate_rest_method : String → Result String
unfolding matches_method
validate_rest_method method =
    if matches_method method then ok method else raised (bitrix configuration_error)
