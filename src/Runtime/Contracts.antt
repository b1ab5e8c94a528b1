-- ===== src/Runtime/Contracts.antt =====
-- Contracts of coroutines: what holds after a run, of the value that it returns or of the exception
-- that it raises, when `P` holds before it.
use mathlib.Core.Path.{subst}
use b24_sinedis.Prelude.{◌≡◌, refl, Bool, true, false, Option, none, some, if◌then◌else◌}
use b24_sinedis.Bitrix.Exceptions.{Failure}
use b24_sinedis.Runtime.{
  Result, ok, raised, World, Action, settle, then_do, ◌>>=◌, try_else, pure, raise, lift,
}

module _ {A : Type 0} (Q : A → World → Type 0) (X : Failure → World → Type 0) where
  abbrev pub Outcome : Result A → World → Type 0
  Outcome (ok a) w = Q a w
  Outcome (raised e) w = X e w

pub record Meets {A : Type 0} (P : World → Type 0) (Q : A → World → Type 0)
    (X : Failure → World → Type 0) (m : Action A) : Type 0 where
  pub run : (w : World) → P w → Outcome Q X (m w).0 (m w).1

-- No condition.
abbrev pub Anywhere : World → Type 0
Anywhere w = Unit

abbrev pub Whatever : {A : Type 0} → A → World → Type 0
Whatever a w = Unit

module _ {A : Type 0} (Q : A → World → Type 0) (X : Failure → World → Type 0) where
  outcome-lift :
      (r : Result A) (w : World)
      → ((a : A) → r ≡ ok a → Q a w)
      → ((e : Failure) → r ≡ raised e → X e w)
      → Outcome Q X r w
  outcome-lift (ok a) w f g = f a refl
  outcome-lift (raised e) w f g = g e refl

  outcome-imp :
      (Q' : A → World → Type 0) (X' : Failure → World → Type 0) (r : Result A) (w : World)
      → ((a : A) → Q a w → Q' a w)
      → ((e : Failure) → X e w → X' e w)
      → Outcome Q X r w
      → Outcome Q' X' r w
  outcome-imp Q' X' (ok a) w f g h = f a h
  outcome-imp Q' X' (raised e) w f g h = g e h

  -- What a run that meets a contract gives once its outcome is known.
  pub outcome-of : {r r' : Result A} (w : World) → r ≡ r' → Outcome Q X r w → Outcome Q X r' w
  outcome-of w e h = subst (λ s. Outcome Q X s w) e h

module _ {A : Type 0} where
  outcome-any : (r : Result A) (w : World) → Outcome Whatever Whatever r w
  outcome-any (ok a) w = tt
  outcome-any (raised e) w = tt

  pub Meets-any : {P : World → Type 0} (m : Action A) → Meets P Whatever Whatever m
  Meets-any m = record { run = λ w p. outcome-any (m w).0 (m w).1 }

  -- A condition that is the same for both ends.
  pub outcome-both :
      (R : World → Type 0) (r : Result A) (w : World) → Outcome (λ a. R) (λ e. R) r w → R w
  outcome-both R (ok a) w h = h
  outcome-both R (raised e) w h = h

module _ {A : Type 0} {P : World → Type 0} {Q : A → World → Type 0}
    {X : Failure → World → Type 0} where
  pub Meets-pure : (a : A) → ((w : World) → P w → Q a w) → Meets P Q X (pure a)
  unfolding pure
  Meets-pure a keep = record { run = keep }

  pub Meets-raise : (e : Failure) → ((w : World) → P w → X e w) → Meets P Q X (raise e)
  unfolding raise
  Meets-raise e keep = record { run = keep }

  pub Meets-lift :
      (r : Result A)
      → ((a : A) → r ≡ ok a → (w : World) → P w → Q a w)
      → ((e : Failure) → r ≡ raised e → (w : World) → P w → X e w)
      → Meets P Q X (lift r)
  unfolding lift
  Meets-lift r f g = record {
    run = λ w p. outcome-lift Q X r w (λ a h. f a h w p) (λ e h. g e h w p);
  }

  pub Meets-if :
      (b : Bool) {m n : Action A} → Meets P Q X m → Meets P Q X n → Meets P Q X (if b then m else n)
  Meets-if true first second = first
  Meets-if false first second = second

  pub Meets-option :
      {C : Type 0} (o : Option C) {m : Action A} {f : C → Action A}
      → Meets P Q X m
      → ((c : C) → Meets P Q X (f c))
      → Meets P Q X (elim o [ none ↦ m | some c ↦ f c ])
  Meets-option none first rest = first
  Meets-option (some c) first rest = rest c

  -- A stronger condition before, weaker ones after.
  pub Meets-imp :
      {P' : World → Type 0} {Q' : A → World → Type 0} {X' : Failure → World → Type 0} {m : Action A}
      → Meets P Q X m
      → ((w : World) → P' w → P w)
      → ((w : World) (a : A) → Q a w → Q' a w)
      → ((w : World) (e : Failure) → X e w → X' e w)
      → Meets P' Q' X' m
  Meets-imp {Q'} {X'} {m = m} c before f g = record {
    run =
        λ w p. outcome-imp Q X Q' X' (m w).0 (m w).1 (f (m w).1) (g (m w).1) (c.run w (before w p));
  }

  -- A fact that does not depend on the world.
  pub Meets-fact : {F : Type 0} {m : Action A} → (F → Meets P Q X m) → Meets (λ w. F × P w) Q X m
  Meets-fact f = record { run = λ w h. (f h.0).run w h.1 }

module _ {A B : Type 0} (M : A → World → Type 0) (Q : B → World → Type 0)
    (X : Failure → World → Type 0) where
  outcome-then :
      (r : Result A) (w : World) (k : A → Action B)
      → Outcome M X r w
      → ((a : A) → Meets (M a) Q X (k a))
      → Outcome Q X (then_do r k w).0 (then_do r k w).1
  outcome-then (ok a) w k h q = (q a).run w h
  outcome-then (raised e) w k h q = h

  outcome-settle :
      (E : Failure → World → Type 0) (r : Result A) (w : World) (k : A → Action B)
      (x : Failure → Action B)
      → Outcome M E r w
      → ((e : Failure) → Meets (E e) Q X (x e))
      → ((a : A) → Meets (M a) Q X (k a))
      → Outcome Q X (settle k x r w).0 (settle k x r w).1
  outcome-settle E (ok a) w k x h f q = (q a).run w h
  outcome-settle E (raised e) w k x h f q = (f e).run w h

module _ {A B : Type 0} {M : A → World → Type 0} {Q : B → World → Type 0}
    {X : Failure → World → Type 0} where
  pub Meets-bind :
      {P : World → Type 0} {m : Action A} {k : A → Action B}
      → Meets P M X m
      → ((a : A) → Meets (M a) Q X (k a))
      → Meets P Q X (m >>= k)
  unfolding ◌>>=◌
  Meets-bind {m = m} {k = k} first rest = record {
    run = λ w p. outcome-then M Q X (m w).0 (m w).1 k (first.run w p) rest;
  }

  pub Meets-try :
      {P : World → Type 0} {E : Failure → World → Type 0} {m : Action A} {x : Failure → Action B}
      {k : A → Action B}
      → Meets P M E m
      → ((e : Failure) → Meets (E e) Q X (x e))
      → ((a : A) → Meets (M a) Q X (k a))
      → Meets P Q X (try_else m x k)
  unfolding try_else
  Meets-try {E = E} {m = m} {x = x} {k = k} first failing rest = record {
    run = λ w p. outcome-settle M Q X E (m w).0 (m w).1 k x (first.run w p) failing rest;
  }
