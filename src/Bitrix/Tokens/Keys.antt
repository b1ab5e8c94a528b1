-- ===== src/Bitrix/Tokens/Keys.antt =====
-- `_configured_hmac_keys` of app/bitrix/security.py, with `base64.b64decode` of the Python library as it
-- is called there: with `-` and `_` as further digits, and strict. An encoded key of 32 bytes is 43 digits
-- and one `=`, so that every other use of `=` is refused here or by the length.
use mathlib.Core.List.{Memᴰ}
use mathlib.Core.Path.{sym, subst}
use Prim.Native.Char.{code}
use b24_sinedis.Prelude.{
  ℕ, ◌+◌, ◌-◌, ◌*◌, ◌/◌, ◌%◌, String, ◌≡◌, refl, ap, ◌∙◌, Bool, true, not, ◌&&◌, ◌||◌, Option, none,
  some, List, [], ◌∷◌, first, length, leb, if◌then◌else◌, ◌==◌, comparable_ids,
}
use b24_sinedis.Runtime.{Result, ok, raised}
use b24_sinedis.Runtime.Results.{◌>>=◌, ok_of_then, or_raise}
use b24_sinedis.Bitrix.Exceptions.{security_error}
use b24_sinedis.Bitrix.Tokens.{
  is_hex_digest, hash_application_token, verify_application_token, verify-hash_application_token,
}

abbrev codes : String → List ℕ
codes (String.[]) = []
codes (String.◌∷◌ c s) = code c ∷ codes s

-- the six bits of a digit
abbrev sextet : ℕ → Option ℕ
sextet c =
    if leb b'A' c && leb c b'Z'
    then some (c - b'A')
    else if leb b'a' c && leb c b'z'
    then some (c - b'a' + 26)
    else if leb b'0' c && leb c b'9'
    then some (c - b'0' + 52)
    else if c == b'+' || c == b'-'
    then some 62
    else if c == b'/' || c == b'_'
    then some 63
    else none

abbrev sextets : List ℕ → Option (List ℕ)
sextets [] = some []
sextets (c ∷ cs) = elim (sextet c) [
  | none ↦ none
  | some n ↦ elim (sextets cs) [ none ↦ none | some ns ↦ some (n ∷ ns) ]
]

-- the bytes of whole groups, and of the two or three digits of a last group that is filled up
abbrev bytes_of : List ℕ → List ℕ
bytes_of (a ∷ b ∷ c ∷ d ∷ rest) =
    (a * 4 + b / 16) ∷ (b % 16 * 16 + c / 4) ∷ (c % 4 * 64 + d) ∷ bytes_of rest
bytes_of (a ∷ b ∷ c ∷ []) = (a * 4 + b / 16) ∷ (b % 16 * 16 + c / 4) ∷ []
bytes_of (a ∷ b ∷ []) = (a * 4 + b / 16) ∷ []
bytes_of _ = []

-- the digits before the padding, and its length
abbrev unpadded : List ℕ → List ℕ × ℕ
unpadded [] = ([], 0)
unpadded (c ∷ cs) =
    let rest = unpadded cs in
    if c == b'=' && length rest.0 == 0 then ([], rest.1 + 1) else (c ∷ rest.0, rest.1)

-- digits and padding fill whole groups
abbrev is_filled : ℕ → ℕ → Bool
is_filled digits padding = (digits + padding) % 4 == 0 && leb padding 2 && not (digits % 4 == 1)

unfoldable pub b64decode : String → Option (List ℕ)
b64decode s =
    let (digits, padding) = unpadded (codes s) in
    if is_filled (length digits) padding
    then elim (sextets digits) [ none ↦ none | some ns ↦ some (bytes_of ns) ]
    else none

abbrev pub loaded : {Key : Type 0} → Result (List Key) → Option (List Key)
loaded (ok keys) = some keys
loaded (raised e) = none

ok-eq : {A : Type 0} {a b : A} → ok a ≡ ok b → a ≡ b
ok-eq h = cc

module _ {Key : Type 0} (derive : List ℕ → Key) where
  -- what HMAC of the context under the raw key gives
  abbrev derived : List ℕ → Result Key
  derived raw_key = if length raw_key == 32 then ok (derive raw_key) else raised security_error

  abbrev key_of : String → Result Key
  key_of secret = or_raise security_error (b64decode secret) >>= derived

  abbrev with_key : Option String → Result (List Key) → Result (List Key)
  with_key none keys = keys
  with_key (some secret) keys = key_of secret >>= λ key. keys >>= λ later. ok (key ∷ later)

  abbrev some_key : List Key → Result (List Key)
  some_key [] = raised security_error
  some_key (key ∷ keys) = ok (key ∷ keys)

  -- the keys of the settings `encryption_key` and `encryption_key_previous`, in this order
  unfoldable pub configured_hmac_keys : Option String → Option String → Result (List Key)
  unfolding b64decode ◌>>=◌
  configured_hmac_keys current previous = with_key current (with_key previous (ok [])) >>= some_key

  some_key-ok : (keys : List Key) {loads : List Key} → some_key keys ≡ ok loads → keys ≡ loads
  some_key-ok [] h = absurd (cc h)
  some_key-ok (key ∷ keys) h = cc

  -- What the settings give when they are accepted: the current key in front, then the previous one.
  accepted :
      (secret : String) (previous : Option String) {keys : List Key}
      → configured_hmac_keys (some secret) previous ≡ ok keys
      → (key : Key) × (later : List Key) × (key_of secret ≡ ok key)
        × (with_key previous (ok []) ≡ ok later)
        × (key ∷ later ≡ keys)
  unfolding configured_hmac_keys
  accepted secret previous h =
      let (all, given, named) =
        ok_of_then (with_key (some secret) (with_key previous (ok []))) some_key h in
      let (key, current, rest) = ok_of_then (key_of secret) _ given in
      let (later, before, made) = ok_of_then (with_key previous (ok [])) _ rest in
      (key, later, current, before, ok-eq made ∙ some_key-ok all named)

  -- The key that the settings name first is the one that hashes.
  first_key :
      (secret : String) (previous : Option String) {keys : List Key}
      → configured_hmac_keys (some secret) previous ≡ ok keys
      → (key : Key) × (key_of secret ≡ ok key) × (first keys ≡ some key)
  first_key secret previous {keys} h =
      let (key, later, current, before, made) = accepted secret previous h in
      (key, current, ap first (sym made))

  -- A key that is valid stays in the ring as the previous one.
  second_key :
      (next secret : String) (key : Key) {keys : List Key}
      → configured_hmac_keys (some next) (some secret) ≡ ok keys
      → key_of secret ≡ ok key
      → Memᴰ key keys
  unfolding ◌>>=◌
  second_key next secret key {keys} h given =
      let (top, later, current, before, made) = accepted next (some secret) h in
      let kept : with_key (some secret) (ok []) ≡ ok (key ∷ []) = rw given refl in
      let same : later ≡ key ∷ [] = ok-eq (sym before ∙ kept) in
      subst (Memᴰ key) made (Memᴰ.tail (subst (Memᴰ key) (sym same) (Memᴰ.head refl)))

module _ {Key : Type 0} (derive : List ℕ → Key) (hmac : Key → String → String) where
  -- After a rotation of the encryption key that keeps the former one as the previous key, a token still
  -- verifies against the hash that was stored before. Both settings are accepted, and HMAC prints 64
  -- hexadecimal digits.
  pub verify-rotated :
      (secret next : String) (previous : Option String) (keys later : List Key)
      (token stored_hash : String)
      → ((k : Key) (t : String) → is_hex_digest (hmac k t) ≡ true)
      → configured_hmac_keys derive (some secret) previous ≡ ok keys
      → configured_hmac_keys derive (some next) (some secret) ≡ ok later
      → hash_application_token hmac
          (loaded (configured_hmac_keys derive (some secret) previous))
          token
        ≡ ok stored_hash
      → verify_application_token hmac
          (loaded (configured_hmac_keys derive (some next) (some secret)))
          token
          stored_hash
        ≡ ok true
  verify-rotated secret next previous keys later token stored_hash hex former latter h =
      let (key, given, front) = first_key derive secret previous former in
      rw latter (
        verify-hash_application_token hmac hex keys later key token stored_hash front
          (second_key derive next secret key latter given) (rw former at h))
