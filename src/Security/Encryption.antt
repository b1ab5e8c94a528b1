-- ===== src/Security/Encryption.antt =====
-- app/security/encryption.py: the envelope of secrets and the rotation of keys. `Fernet` and
-- `MultiFernet` are a package outside the repository, and a parameter here, as is UTF-8. A refusal of
-- any of the three classes of encryption errors is `encryption_error`.
pub mod Rotation
mod Scenarios
use Prim.Native.String.{◌++◌}
use b24_sinedis.Prelude.{
  ℕ, ltb, String, Bool, true, false, Option, none, some, List, [], ◌∷◌, if◌then◌else◌,
}
use b24_sinedis.Prelude.Text.{all_char, is_empty}
use b24_sinedis.Prelude.Prefix.{after_prefix}
use b24_sinedis.Runtime.{Result, ok, raised}
use b24_sinedis.Runtime.Results.{◌>>=◌, or_raise}
use b24_sinedis.Bitrix.Exceptions.{encryption_error, security_error}

-- The package: a key is what `Fernet(text)` accepts, `none` is `InvalidToken`, and the number that
-- `encrypt` and `rotate` take stands for the random bytes and the time of the call.
pub record Fernet (Key Bytes : Type 0) : Type 0 where
  pub build : String → Option Key
  pub encrypt : Key → ℕ → Bytes → String
  pub decrypt : Key → String → Option Bytes
  pub decrypt_any : List Key → String → Option Bytes
  pub rotate_any : List Key → ℕ → String → Option String
  pub to_utf8 : String → Bytes
  pub from_utf8 : Bytes → Option String

abbrev pub encryption_prefix : String
encryption_prefix = "fernet:v1:"

pub record EncryptionService (Key : Type 0) : Type 0 where
  pub current : Key
  pub keyring : List Key

unfoldable pub is_ascii : String → Bool
unfolding all_char
is_ascii = all_char (λ c. ltb c 128)

-- the text behind the prefix, if it is not empty and ASCII
unfoldable pub token_of : String → Result String
unfolding after_prefix is_ascii is_empty
token_of ciphertext = elim (after_prefix encryption_prefix ciphertext) [
  | none ↦ raised encryption_error
  | some token ↦
      if is_empty token
      then raised encryption_error
      else if is_ascii token
      then ok token
      else raised encryption_error
]

abbrev pub enveloped : Option String → Result String
enveloped none = raised encryption_error
enveloped (some rotated) = ok (encryption_prefix ++ rotated)

module _ {Key Bytes : Type 0} (fernet : Fernet Key Bytes) where
  abbrev build_fernet : String → Result Key
  build_fernet key = or_raise encryption_error (fernet.build key)

  abbrev pub keyring_of : Key → Option String → Result (List Key)
  keyring_of current none = ok (current ∷ [])
  keyring_of current (some previous_key) = do
    previous ← build_fernet previous_key
    ok (current ∷ previous ∷ [])

  unfoldable pub new_service : String → Option String → Result (EncryptionService Key)
  new_service current_key previous_key = do
    current ← build_fernet current_key
    keyring ← keyring_of current previous_key
    ok (record { current = current; keyring = keyring })

  unfoldable pub encrypt : EncryptionService Key → ℕ → String → String
  encrypt service nonce plaintext =
      encryption_prefix ++ fernet.encrypt service.current nonce (fernet.to_utf8 plaintext)

  abbrev pub decrypted : Option Bytes → Result String
  decrypted none = raised encryption_error
  decrypted (some bytes) = or_raise encryption_error (fernet.from_utf8 bytes)

  unfoldable pub decrypt : EncryptionService Key → String → Result String
  unfolding token_of
  decrypt service ciphertext = do
    token ← token_of ciphertext
    decrypted (fernet.decrypt_any service.keyring token)

  -- what both readings of a token say: by the current key, and by the whole ring
  abbrev pub needed : Option Bytes → Option Bytes → Result Bool
  needed (some bytes) any = ok false
  needed none none = raised encryption_error
  needed none (some bytes) = ok true

  unfoldable pub needs_rotation : EncryptionService Key → String → Result Bool
  unfolding token_of
  needs_rotation service ciphertext = do
    token ← token_of ciphertext
    needed (fernet.decrypt service.current token) (fernet.decrypt_any service.keyring token)

  unfoldable pub rotate : EncryptionService Key → ℕ → String → Result String
  unfolding token_of
  rotate service nonce ciphertext = do
    token ← token_of ciphertext
    enveloped (fernet.rotate_any service.keyring nonce token)

  -- the service that the two settings ask for; the cache of the first one built is left out
  unfoldable pub get_encryption_service :
      Option String → Option String → Result (EncryptionService Key)
  unfolding new_service
  get_encryption_service none previous_key = raised security_error
  get_encryption_service (some current_key) previous_key = new_service current_key previous_key
