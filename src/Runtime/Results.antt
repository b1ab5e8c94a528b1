-- ===== src/Runtime/Results.antt =====
-- Results of plain functions: what follows a raised exception does not run.
use b24_sinedis.Prelude.{◌≡◌, refl, Option, none, some}
use b24_sinedis.Runtime.{Result, ok, raised}
use b24_sinedis.Bitrix.Exceptions.{Failure}

module _ {A B : Type 0} where
  infixl 5 ◌>>=◌
  unfoldable pub ◌>>=◌ : Result A → (A → Result B) → Result B
  ok a >>= k = k a
  raised e >>= k = raised e

  -- What a chain that succeeds went through.
  pub ok_of_then :
      (r : Result A) (k : A → Result B) {b : B}
      → (r >>= k) ≡ ok b
      → (a : A) × (r ≡ ok a) × (k a ≡ ok b)
  unfolding ◌>>=◌
  ok_of_then (ok a) k h = (a, refl, h)
  ok_of_then (raised e) k h = absurd (cc h)

abbrev pub or_raise : {A : Type 0} → Failure → Option A → Result A
or_raise e none = raised e
or_raise e (some a) = ok a

abbrev pub OfValue : {A : Type 0} → (A → Type 0) → Result A → Type 0
OfValue P (ok a) = P a
OfValue P (raised e) = Unit

-- What holds of the value that is returned, if one is.
pub record Returns {A : Type 0} (P : A → Type 0) (r : Result A) : Type 0 where
  pub value : OfValue P r

module _ {A : Type 0} (P : A → Type 0) where
  pub Returns-ok : (a : A) → P a → Returns P (ok a)
  Returns-ok a p = record { value = p }

  pub Returns-raised : (e : Failure) → Returns P (raised e)
  Returns-raised e = record { value = tt }

  pub of_ok : (r : Result A) (a : A) → Returns P r → r ≡ ok a → P a
  of_ok (ok b) a h e = let same : b ≡ a = cc e in rw (← same) h.value
  of_ok (raised f) a h e = absurd (cc e)

module _ {A B : Type 0} {Q : B → Type 0} where
  -- A chain returns what its rest returns.
  pub Returns-then :
      {P : A → Type 0} {r : Result A} {k : A → Result B}
      → Returns P r
      → ((a : A) → P a → Returns Q (k a))
      → Returns Q (r >>= k)
  unfolding ◌>>=◌
  Returns-then {r = ok a} h f = f a h.value
  Returns-then {r = raised e} h f = record { value = tt }

  pub Returns-any :
      (r : Result A) {k : A → Result B} → ((a : A) → Returns Q (k a)) → Returns Q (r >>= k)
  unfolding ◌>>=◌
  Returns-any (ok a) f = f a
  Returns-any (raised e) f = record { value = tt }
