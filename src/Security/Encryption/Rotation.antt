-- ===== src/Security/Encryption/Rotation.antt =====
-- app/security/encryption.py: what a secret is worth after the keys have changed.
use Prim.Native.String.{◌++◌}
use mathlib.Core.List.{Memᴰ}
use mathlib.Core.Path.{subst}
use b24_sinedis.Prelude.{
  ℕ, String, ◌≡◌, refl, ◌∙◌, ◌⊎◌, inl, inr, true, false, Option, none, some, List, [], ◌∷◌,
  Option-cases,
}
use b24_sinedis.Prelude.Text.{is_empty}
use b24_sinedis.Prelude.Prefix.{after_prefix-append}
use b24_sinedis.Runtime.{Result, ok, raised}
use b24_sinedis.Bitrix.Exceptions.{encryption_error}
use b24_sinedis.Runtime.Results.{◌>>=◌, or_raise}
use b24_sinedis.Security.Encryption.{
  Fernet, EncryptionService, encryption_prefix, is_ascii, token_of, encrypt, decrypt, decrypted,
  needs_rotation, rotate, enveloped, keyring_of, new_service, get_encryption_service,
}

-- A token is not empty, and base64.
abbrev pub IsToken : String → Type 0
IsToken token = (is_empty token ≡ false) × (is_ascii token ≡ true)

-- What the package documents: a key opens what it sealed, and another key that is not the same in
-- effect refuses it; a ring tries its keys in turn and seals anew with the first.
pub record IsAuthentic {Key Bytes : Type 0} (fernet : Fernet Key Bytes) : Type 0 where
  pub opens : (k : Key) (n : ℕ) (b : Bytes) → fernet.decrypt k (fernet.encrypt k n b) ≡ some b
  pub sealed :
      (j k : Key) (n : ℕ) (b : Bytes)
      → (fernet.decrypt j (fernet.encrypt k n b) ≡ some b)
        ⊎ (fernet.decrypt j (fernet.encrypt k n b) ≡ none)
  pub ring_first :
      (k : Key) (ks : List Key) (t : String) (b : Bytes)
      → fernet.decrypt k t ≡ some b
      → fernet.decrypt_any (k ∷ ks) t ≡ some b
  pub ring_next :
      (k : Key) (ks : List Key) (t : String)
      → fernet.decrypt k t ≡ none
      → fernet.decrypt_any (k ∷ ks) t ≡ fernet.decrypt_any ks t
  pub rotates :
      (k : Key) (ks : List Key) (n : ℕ) (t : String) (b : Bytes)
      → fernet.decrypt_any (k ∷ ks) t ≡ some b
      → (s : String) × (fernet.rotate_any (k ∷ ks) n t ≡ some s)
        × (fernet.decrypt k s ≡ some b)
        × IsToken s
  pub tokens : (k : Key) (n : ℕ) (b : Bytes) → IsToken (fernet.encrypt k n b)

token_of-envelope :
    (token : String) → IsToken token → token_of (encryption_prefix ++ token) ≡ ok token
unfolding token_of
token_of-envelope token h =
    rw (token_of, after_prefix-append encryption_prefix token, h.0, h.1) refl

module _ {Key Bytes : Type 0} (fernet : Fernet Key Bytes) (laws : IsAuthentic fernet) where
  ring_opens :
      (k : Key) (n : ℕ) (b : Bytes) (ring : List Key)
      → Memᴰ k ring
      → fernet.decrypt_any ring (fernet.encrypt k n b) ≡ some b
  ring_opens k n b [] m = elim m [ ]
  ring_opens k n b (j ∷ ring) (Memᴰ.head e) =
      laws.ring_first j ring (fernet.encrypt k n b) b (rw (← e) (laws.opens k n b))
  ring_opens k n b (j ∷ ring) (Memᴰ.tail m) = elim (laws.sealed j k n b) [
    | inl e ↦ laws.ring_first j ring (fernet.encrypt k n b) b e
    | inr e ↦ laws.ring_next j ring (fernet.encrypt k n b) e ∙ ring_opens k n b ring m
  ]

  opened :
      (service : EncryptionService Key) (token plaintext : String)
      → IsToken token
      → fernet.decrypt_any service.keyring token ≡ some (fernet.to_utf8 plaintext)
      → fernet.from_utf8 (fernet.to_utf8 plaintext) ≡ some plaintext
      → decrypt fernet service (encryption_prefix ++ token) ≡ ok plaintext
  unfolding decrypt ◌>>=◌
  opened service token plaintext t h u = rw (decrypt, token_of-envelope token t, h, u) refl

-- A secret that one service encrypted is decrypted by every service whose ring holds the key that
-- sealed it, as after a change of keys that keeps the former key as the previous one, provided UTF-8
-- gives the plaintext back and the package keeps its laws.
pub decrypt-encrypt :
    {Key Bytes : Type 0} (fernet : Fernet Key Bytes)
    → IsAuthentic fernet
    → (service later : EncryptionService Key) (nonce : ℕ) (plaintext : String)
    → Memᴰ service.current later.keyring
    → fernet.from_utf8 (fernet.to_utf8 plaintext) ≡ some plaintext
    → decrypt fernet later (encrypt fernet service nonce plaintext) ≡ ok plaintext
unfolding encrypt
decrypt-encrypt fernet laws service later nonce plaintext m u =
    let bytes = fernet.to_utf8 plaintext in
    opened fernet laws later (fernet.encrypt service.current nonce bytes) plaintext
      (laws.tokens service.current nonce bytes)
      (ring_opens fernet laws service.current nonce bytes later.keyring m) u

-- The ring of a service starts with its current key.
abbrev pub IsRing : {Key : Type 0} → EncryptionService Key → Type 0
IsRing {Key} service = (former : List Key) × (service.keyring ≡ service.current ∷ former)

module _ {Key Bytes : Type 0} (fernet : Fernet Key Bytes) where
  abbrev Ringed : Result (EncryptionService Key) → Type 0
  Ringed (ok service) = IsRing service
  Ringed (raised e) = Unit

  abbrev service_of : Key → List Key → Result (EncryptionService Key)
  service_of current keyring = ok (record { current = current; keyring = keyring })

  two_keys :
      (current : Key) (built : Option Key)
      → Ringed (
          (or_raise encryption_error built >>= λ previous. ok (current ∷ previous ∷ []))
          >>= service_of current)
  unfolding ◌>>=◌
  two_keys current none = tt
  two_keys current (some previous) = (previous ∷ [], refl)

  any_keys :
      (built : Option Key) (previous_key : Option String)
      → Ringed (
          or_raise encryption_error built >>= λ current.
          keyring_of fernet current previous_key >>= service_of current)
  unfolding ◌>>=◌
  any_keys none previous_key = tt
  any_keys (some current) none = ([], refl)
  any_keys (some current) (some key) = two_keys current (fernet.build key)

  new_service-IsRing :
      (current_key : String) (previous_key : Option String)
      → Ringed (new_service fernet current_key previous_key)
  unfolding new_service
  new_service-IsRing current_key previous_key = any_keys (fernet.build current_key) previous_key

  configured-IsRing :
      (current_key previous_key : Option String) (service : EncryptionService Key)
      → get_encryption_service fernet current_key previous_key ≡ ok service
      → IsRing service
  unfolding get_encryption_service
  configured-IsRing none previous_key service h = absurd (cc h)
  configured-IsRing (some current_key) previous_key service h =
      subst Ringed h (new_service-IsRing current_key previous_key)

  -- What one token is worth, once the envelope is open.
  module _ (laws : IsAuthentic fernet) (service : EncryptionService Key) (ring : IsRing service)
      (plaintext : String) where
    abbrev Renewed : Result String → Type 0
    Renewed r =
        (fresh : String) × (r ≡ ok fresh)
        × (decrypt fernet service fresh ≡ ok plaintext)
        × (needs_rotation fernet service fresh ≡ ok false)

    renewed :
        (nonce : ℕ) (token : String) (bytes : Bytes)
        → fernet.decrypt_any service.keyring token ≡ some bytes
        → fernet.from_utf8 bytes ≡ some plaintext
        → Renewed (enveloped (fernet.rotate_any service.keyring nonce token))
    unfolding decrypt needs_rotation ◌>>=◌
    renewed nonce token bytes h u =
        let (fresh, r, d, t) =
          laws.rotates service.current ring.0 nonce token bytes (rw (← ring.1) h) in
        (
          encryption_prefix ++ fresh,
          rw (ring.1, r) refl,
          rw
              (
                decrypt,
                token_of-envelope fresh t,
                ring.1,
                laws.ring_first service.current ring.0 fresh bytes d,
                u,
              )
              refl,
          rw (needs_rotation, token_of-envelope fresh t, d) refl,
        )

    token_renewed :
        (nonce : ℕ) (token : String)
        → decrypted fernet (fernet.decrypt_any service.keyring token) ≡ ok plaintext
        → Renewed (enveloped (fernet.rotate_any service.keyring nonce token))
    token_renewed nonce token h = elim (Option-cases (fernet.decrypt_any service.keyring token)) [
      | inl e ↦ absurd (cc (h, e))
      | inr (bytes, e) ↦ elim (Option-cases (fernet.from_utf8 bytes)) [
        | inl u ↦ absurd (cc (h, e, u))
        | inr (text, u) ↦ renewed nonce token bytes e (cc (h, e, u))
      ]
    ]

    rotated :
        (nonce : ℕ) (token : Result String)
        → (token >>= λ t. decrypted fernet (fernet.decrypt_any service.keyring t)) ≡ ok plaintext
        → Renewed ((token >>= λ t. enveloped (fernet.rotate_any service.keyring nonce t)))
    unfolding ◌>>=◌
    rotated nonce (ok token) h = token_renewed nonce token h
    rotated nonce (raised e) h = absurd (cc h)

-- Rotation under a configured service keeps the secret, and what it returns needs no further
-- rotation, provided the envelope is decrypted before and the package keeps its laws.
pub decrypt-rotate :
    {Key Bytes : Type 0} (fernet : Fernet Key Bytes)
    → IsAuthentic fernet
    → (current_key previous_key : Option String) (service : EncryptionService Key) (nonce : ℕ)
      (ciphertext plaintext : String)
    → get_encryption_service fernet current_key previous_key ≡ ok service
    → decrypt fernet service ciphertext ≡ ok plaintext
    → (fresh : String) × (rotate fernet service nonce ciphertext ≡ ok fresh)
      × (decrypt fernet service fresh ≡ ok plaintext)
      × (needs_rotation fernet service fresh ≡ ok false)
unfolding rotate decrypt ◌>>=◌
decrypt-rotate fernet laws current_key previous_key service nonce ciphertext plaintext s h =
    let ring = configured-IsRing fernet current_key previous_key service s in
    rotated fernet laws service ring plaintext nonce (token_of ciphertext) h
