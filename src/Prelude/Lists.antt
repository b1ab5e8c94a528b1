-- ===== src/Prelude/Lists.antt =====
-- Lists measured by native numbers, and predicates over lists by recursion.
use Prim.Native.Nat.{ℕ, zero, suc, ◌≤◌}
use mathlib.Core.Path.{◌≡◌, refl, ap, sym, subst}
use mathlib.Core.Bool.{Bool, true, false, ◌&&◌, ◌||◌}
use mathlib.Core.List.{Memᴰ, List, [], ◌∷◌, map}
use mathlib.Core.Option.{Option, none, some}
use native.Mathlib.Omega.{arith}
use b24_sinedis.Prelude.Tests.{if◌then◌else◌}

module _ {ℓ} {A : Type ℓ} where
  abbrev pub length : List A → ℕ
  length [] = 0
  length (x ∷ xs) = suc (length xs)

  abbrev pub take : ℕ → List A → List A
  take zero xs = []
  take (suc n) [] = []
  take (suc n) (x ∷ xs) = x ∷ take n xs

  abbrev pub any : (A → Bool) → List A → Bool
  any p [] = false
  any p (x ∷ xs) = p x || any p xs

  abbrev pub all : (A → Bool) → List A → Bool
  all p [] = true
  all p (x ∷ xs) = p x && all p xs

  -- the list comprehension `[x for x in xs if p(x)]`
  abbrev pub select : (A → Bool) → List A → List A
  select p [] = []
  select p (x ∷ xs) = if p x then x ∷ select p xs else select p xs

  -- the first element that passes
  abbrev pub find : (A → Bool) → List A → Option A
  find p [] = none
  find p (x ∷ xs) = if p x then some x else find p xs

  abbrev pub first : List A → Option A
  first [] = none
  first (x ∷ xs) = some x

  abbrev pub All {κ} : (A → Type κ) → List A → Type κ
  All P [] = Unit
  All P (x ∷ xs) = P x × All P xs

  pub length-take-le : (n : ℕ) (xs : List A) → length (take n xs) ≤ n
  length-take-le zero xs = omega arith
  length-take-le (suc n) [] = omega arith
  length-take-le (suc n) (x ∷ xs) = omega (arith, length-take-le n xs)

module _ {ℓ κ} {A : Type ℓ} {B : Type κ} where
  pub length-map : (f : A → B) (xs : List A) → length (map f xs) ≡ length xs
  length-map f [] = refl
  length-map f (x ∷ xs) = ap suc (length-map f xs)

module _ {ℓ κ} {A : Type ℓ} (P : A → Type κ) where
  pub All-take : (n : ℕ) (xs : List A) → All P xs → All P (take n xs)
  All-take zero xs h = tt
  All-take (suc n) [] h = tt
  All-take (suc n) (x ∷ xs) h = (h.0, All-take n xs h.1)

module _ {ℓ κ μ} {A : Type ℓ} (P : A → Type κ) (Q : A → Type μ) where
  pub All-imp : (imp : (a : A) → P a → Q a) (xs : List A) → All P xs → All Q xs
  All-imp imp [] h = tt
  All-imp imp (x ∷ xs) h = (imp x h.0, All-imp imp xs h.1)

module _ {ℓ} {A : Type ℓ} (p : A → Bool) where
  pub any-take : (n : ℕ) (xs : List A) → any p (take n xs) ≡ true → any p xs ≡ true
  any-take zero xs h = cc
  any-take (suc n) [] h = cc
  any-take (suc n) (x ∷ xs) h = ground (arith, any-take n xs)

  pub any-select : (q : A → Bool) (xs : List A) → any p (select q xs) ≡ true → any p xs ≡ true
  any-select q [] h = cc
  any-select q (x ∷ xs) h = ground (arith, any-select q xs)

  pub any-of-mem : {a : A} (xs : List A) → Memᴰ a xs → p a ≡ true → any p xs ≡ true
  any-of-mem [] m h = elim m [ ]
  any-of-mem {a} (x ∷ xs) (Memᴰ.head e) h = ground arith
  any-of-mem (x ∷ xs) (Memᴰ.tail m) h = ground (arith, any-of-mem xs m h)

module _ {ℓ κ} {A : Type ℓ} (P : A → Type κ) where
  pub at_mem : {a : A} (xs : List A) → All P xs → Memᴰ a xs → P a
  at_mem [] h m = elim m [ ]
  at_mem (x ∷ xs) h (Memᴰ.head e) = subst P (sym e) h.0
  at_mem (x ∷ xs) h (Memᴰ.tail m) = at_mem xs h.1 m

  pub All-of-mem : (xs : List A) → ((a : A) → Memᴰ a xs → P a) → All P xs
  All-of-mem [] h = tt
  All-of-mem (x ∷ xs) h = (h x (Memᴰ.head refl), All-of-mem xs (λ a m. h a (Memᴰ.tail m)))

module _ {ℓ κ μ} {A : Type ℓ} {B : Type κ} (P : B → Type μ) (f : A → B) where
  pub All-map : (xs : List A) → All (λ a. P (f a)) xs → All P (map f xs)
  All-map [] h = tt
  All-map (x ∷ xs) h = (h.0, All-map xs h.1)
