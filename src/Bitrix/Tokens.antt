-- ===== src/Bitrix/Tokens.antt =====
-- app/bitrix/security.py: the keyed hash of an application token, for the keys that Keys reads from the
-- settings. HMAC and SHA-256 of the Python library are parameters; `none` stands for keys that are
-- missing or malformed.
pub mod Keys
use Prim.Native.String.{◌++◌}
use mathlib.Core.List.{Memᴰ}
use mathlib.Core.Path.{subst}
use text.Mathlib.TextEquality.{eq_iff}
use b24_sinedis.Prelude.{
  ℕ, String, ◌≡◌, ap, Bool, true, false, ◌&&◌, ◌||◌, Option, none, some, List, any, first, arith,
  if◌then◌else◌, ◌==◌, comparable_ids, comparable_texts, leb, any-of-mem,
}
use b24_sinedis.Prelude.Text.{is_decimal, all_char, length}
use b24_sinedis.Prelude.Prefix.{after_prefix, after_prefix-append}
use b24_sinedis.Runtime.{Result, ok, raised}
use b24_sinedis.Bitrix.Exceptions.{value_error, security_error}

abbrev pub application_token_hash_prefix : String
application_token_hash_prefix = "hmac-sha256:v1:"

-- [0-9a-f]
abbrev pub is_hex : ℕ → Bool
is_hex c = is_decimal c || leb b'a' c && leb c b'f'

-- ^[0-9a-f]{64}$
unfoldable pub is_hex_digest : String → Bool
unfolding all_char length
is_hex_digest s = length s == 64 && all_char is_hex s

module _ {Key : Type 0} (hmac : Key → String → String) where
  abbrev pub keyed : Option Key → String → Result String
  keyed none token = raised security_error
  keyed (some key) token = ok (application_token_hash_prefix ++ hmac key token)

  -- with the current key, the first one
  unfoldable pub hash_application_token : Option (List Key) → String → Result String
  hash_application_token keys token =
      if token == ""
      then raised value_error
      else keyed (elim keys [ none ↦ none | some ks ↦ first ks ]) token

  abbrev pub matches_digest : Option (List Key) → String → String → Result Bool
  matches_digest none token digest = raised security_error
  matches_digest (some ks) token digest = ok (any (λ key. hmac key token == digest) ks)

  unfoldable pub verify_application_token : Option (List Key) → String → String → Result Bool
  unfolding after_prefix is_hex_digest
  verify_application_token keys token stored_hash =
      if token == ""
      then ok false
      else elim (after_prefix application_token_hash_prefix stored_hash) [
        | none ↦ ok false
        | some digest ↦ if is_hex_digest digest then matches_digest keys token digest else ok false
      ]

same_text : (s : String) → (s == s) ≡ true
same_text s = ground (arith, eq_iff s s)

module _ {Key : Type 0} (hmac : Key → String → String) (keys : List Key) (key : Key)
    (token : String) where
  hashed :
      {stored_hash : String}
      → first keys ≡ some key
      → hash_application_token hmac (some keys) token ≡ ok stored_hash
      → ((token == "") ≡ false) × (application_token_hash_prefix ++ hmac key token ≡ stored_hash)
  unfolding hash_application_token
  hashed f h = ground (arith, f, h)

  verified :
      (later : List Key)
      → is_hex_digest (hmac key token) ≡ true
      → Memᴰ key later
      → (token == "") ≡ false
      → verify_application_token hmac
          (some later)
          token
          (application_token_hash_prefix ++ hmac key token)
        ≡ ok true
  unfolding verify_application_token
  verified later hex m e =
      rw (e, after_prefix-append application_token_hash_prefix (hmac key token), hex)
        (ap ok (any-of-mem _ later m (same_text (hmac key token))))

-- A hashed token verifies against its hash under every list of keys that holds the key that hashed
-- it, as after a rotation that keeps it as the previous key. HMAC prints 64 hexadecimal digits.
pub verify-hash_application_token :
    {Key : Type 0} (hmac : Key → String → String)
    → ((k : Key) (t : String) → is_hex_digest (hmac k t) ≡ true)
    → (keys later : List Key) (key : Key) (token stored_hash : String) → first keys ≡ some key
    → Memᴰ key later
    → hash_application_token hmac (some keys) token ≡ ok stored_hash
    → verify_application_token hmac (some later) token stored_hash ≡ ok true
verify-hash_application_token hmac hex keys later key token stored_hash f m h =
    let (full, same) = hashed hmac keys key token f h in
    subst (λ s. verify_application_token hmac (some later) token s ≡ ok true) same
      (verified hmac keys key token later (hex key token) m full)
