-- ===== src/Security/Encryption/Scenarios.antt =====
-- Tests of the encryption service over a toy cipher with two keys, which seals numbers in unary.
use Prim.Native.Char.{Char, code}
use mathlib.Core.List.{Memᴰ}
use b24_sinedis.Prelude.{
  ℕ, zero, suc, String, ◌≡◌, refl, ap, ◌⊎◌, inl, inr, Bool, true, false, Option, none, some, List,
  [], ◌∷◌, ◌==◌, comparable_texts, comparable_ids, if◌then◌else◌,
}
use b24_sinedis.Prelude.Text.{is_empty, length}
use b24_sinedis.Runtime.{ok, raised}
use b24_sinedis.Bitrix.Exceptions.{encryption_error, security_error}
use b24_sinedis.Runtime.Results.{◌>>=◌}
use b24_sinedis.Security.Encryption.{
  Fernet, EncryptionService, encrypt, decrypt, needs_rotation, rotate, get_encryption_service,
  is_ascii,
}
use b24_sinedis.Security.Encryption.Rotation.{IsAuthentic, IsToken, decrypt-encrypt, decrypt-rotate}

abbrev unary : ℕ → String
unary zero = ""
unary (suc n) = String.◌∷◌ "x" (unary n)

abbrev letter : Bool → Char
letter true = "A"
letter false = "B"

abbrev seal : Bool → ℕ → ℕ → String
seal k n b = String.◌∷◌ (letter k) (unary b)

abbrev open_with : Bool → String → Option ℕ
open_with k (String.[]) = none
open_with k (String.◌∷◌ c s) = if code c == code (letter k) then some (length s) else none

abbrev or_try : Option ℕ → Option ℕ → Option ℕ
or_try none later = later
or_try (some b) later = some b

abbrev open_any : List Bool → String → Option ℕ
open_any [] t = none
open_any (k ∷ ks) t = or_try (open_with k t) (open_any ks t)

abbrev sealed_again : Bool → ℕ → Option ℕ → Option String
sealed_again k n none = none
sealed_again k n (some b) = some (seal k n b)

abbrev seal_any : List Bool → ℕ → String → Option String
seal_any [] n t = none
seal_any (k ∷ ks) n t = sealed_again k n (open_any (k ∷ ks) t)

abbrev toy : Fernet Bool ℕ
toy = record {
  build = λ key. if key == "new" then some true else if key == "old" then some false else none;
  encrypt = seal;
  decrypt = open_with;
  decrypt_any = open_any;
  rotate_any = seal_any;
  to_utf8 = λ s. if s == "secret" then 3 else 0;
  from_utf8 = λ b. if b == 3 then some "secret" else none;
}

length-unary : (b : ℕ) → length (unary b) ≡ b
unfolding length
length-unary zero = refl
length-unary (suc b) = ap suc (length-unary b)

unary-is_ascii : (b : ℕ) → is_ascii (unary b) ≡ true
unfolding is_ascii
unary-is_ascii zero = refl
unary-is_ascii (suc b) = unary-is_ascii b

seal-IsToken : (k : Bool) (n b : ℕ) → IsToken (seal k n b)
unfolding is_ascii is_empty
seal-IsToken true n b = (refl, unary-is_ascii b)
seal-IsToken false n b = (refl, unary-is_ascii b)

open_with-seal : (k : Bool) (n b : ℕ) → open_with k (seal k n b) ≡ some b
open_with-seal true n b = ap some (length-unary b)
open_with-seal false n b = ap some (length-unary b)

open_with-other :
    (j k : Bool) (n b : ℕ) → (open_with j (seal k n b) ≡ some b) ⊎ (open_with j (seal k n b) ≡ none)
open_with-other true true n b = inl (open_with-seal true n b)
open_with-other true false n b = inr refl
open_with-other false true n b = inr refl
open_with-other false false n b = inl (open_with-seal false n b)

toy-IsAuthentic : IsAuthentic toy
toy-IsAuthentic = record {
  opens = open_with-seal;
  sealed = open_with-other;
  ring_first = λ k ks t b e. rw (e) refl;
  ring_next = λ k ks t e. rw (e) refl;
  rotates = λ k ks n t b e. (seal k n b, rw (e) refl, open_with-seal k n b, seal-IsToken k n b);
  tokens = seal-IsToken;
}

abbrev before_change : EncryptionService Bool
before_change = record { current = false; keyring = false ∷ [] }

abbrev after_change : EncryptionService Bool
after_change = record { current = true; keyring = true ∷ false ∷ [] }

configured : get_encryption_service toy (some "new") (some "old") ≡ ok after_change
unfolding get_encryption_service ◌>>=◌
configured = refl

malformed_previous :
    get_encryption_service toy (some "new") (some "short") ≡ raised encryption_error
unfolding get_encryption_service ◌>>=◌
malformed_previous = refl

missing_key : get_encryption_service toy none (some "old") ≡ raised security_error
unfolding get_encryption_service ◌>>=◌
missing_key = refl

old_secret : encrypt toy before_change 0 "secret" ≡ "fernet:v1:Bxxx"
unfolding encrypt
old_secret = refl

old_needs_rotation : needs_rotation toy after_change "fernet:v1:Bxxx" ≡ ok true
unfolding needs_rotation ◌>>=◌
old_needs_rotation = refl

no_envelope : decrypt toy after_change "Bxxx" ≡ raised encryption_error
unfolding decrypt ◌>>=◌
no_envelope = refl

wrong_key : rotate toy before_change 0 "fernet:v1:Axxx" ≡ raised encryption_error
unfolding rotate ◌>>=◌
wrong_key = refl

decrypt-encrypt_example :
    decrypt toy after_change (encrypt toy before_change 0 "secret") ≡ ok "secret"
decrypt-encrypt_example =
    decrypt-encrypt toy toy-IsAuthentic before_change after_change 0 "secret"
      (Memᴰ.tail (Memᴰ.head refl)) refl

decrypt-rotate_example :
    (fresh : String) × (rotate toy after_change 0 "fernet:v1:Bxxx" ≡ ok fresh)
    × (decrypt toy after_change fresh ≡ ok "secret")
    × (needs_rotation toy after_change fresh ≡ ok false)
unfolding decrypt length get_encryption_service ◌>>=◌
decrypt-rotate_example =
    decrypt-rotate toy toy-IsAuthentic (some "new") (some "old") after_change 0 "fernet:v1:Bxxx"
      "secret" refl refl
