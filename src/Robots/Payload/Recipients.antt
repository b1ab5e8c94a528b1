-- ===== src/Robots/Payload/Recipients.antt =====
-- `_recipients` and `_positive_integer` of app/robots/payload.py.
use b24_sinedis.Prelude.{
  ℕ, ltb, ◌<◌, ℤ, pos, negsuc, String, ◌≡◌, refl, false, Option, List, [], ◌∷◌, ◌++◌, any, All,
  arith, Bool-cases, inl, inr, ltb→lt, ◌==◌, comparable_ids,
}
use b24_sinedis.Value.{Value}
use b24_sinedis.Runtime.Results.{Returns, Returns-ok, Returns-raised, Returns-then, Returns-any}
use b24_sinedis.Robots.Payload.{
  integer, positive_integer, above_zero, appended, recipient, recipient_values, recipients,
  recipients_onto,
}

abbrev pub IsPositive : ℕ → Type 0
IsPositive n = 0 < n

abbrev pub IsDistinct : List ℕ → Type 0
IsDistinct [] = Unit
IsDistinct (x ∷ xs) = (any (λ n. n == x) xs ≡ false) × IsDistinct xs

abbrev pub IsAudience : List ℕ → Type 0
IsAudience ids = IsDistinct ids × All IsPositive ids

above_zero-IsPositive : (z : ℤ) → Returns IsPositive (above_zero z)
above_zero-IsPositive (pos n) = elim (Bool-cases (ltb 0 n)) [
  | inl e ↦ rw (e) (Returns-ok IsPositive n (ltb→lt 0 n e))
  | inr e ↦ rw (e) (Returns-raised IsPositive _)
]
above_zero-IsPositive (negsuc n) = Returns-raised IsPositive _

pub positive_integer-IsPositive : (v : Option Value) → Returns IsPositive (positive_integer v)
unfolding positive_integer
positive_integer-IsPositive v = Returns-any (integer v) above_zero-IsPositive

any-snoc :
    (x u : ℕ) (xs : List ℕ)
    → any (λ n. n == x) xs ≡ false
    → (u == x) ≡ false
    → any (λ n. n == x) (xs ++ u ∷ []) ≡ false
any-snoc x u [] h e = ground arith
any-snoc x u (y ∷ xs) h e = ground (arith, any-snoc x u xs)

All-snoc : (u : ℕ) (xs : List ℕ) → All IsPositive xs → IsPositive u → All IsPositive (xs ++ u ∷ [])
All-snoc u [] h p = (p, tt)
All-snoc u (x ∷ xs) h p = (h.0, All-snoc u xs h.1 p)

IsDistinct-snoc :
    (u : ℕ) (xs : List ℕ) → IsDistinct xs → any (λ n. n == u) xs ≡ false → IsDistinct (xs ++ u ∷ [])
IsDistinct-snoc u [] h e = (refl, tt)
IsDistinct-snoc u (x ∷ xs) h e =
    (any-snoc x u xs h.0 (ground arith), IsDistinct-snoc u xs h.1 (ground arith))

appended-IsAudience :
    (ids : List ℕ) (u : ℕ) → IsAudience ids → IsPositive u → IsAudience (appended ids u)
appended-IsAudience ids u h p = elim (Bool-cases (any (λ n. n == u) ids)) [
  | inl e ↦ rw (e) h
  | inr e ↦ rw (e) (IsDistinct-snoc u ids h.0 e, All-snoc u ids h.1 p)
]

module _ (show : Value → String) where
  recipient-IsPositive : (item : Value) → Returns IsPositive (recipient show item)
  unfolding recipient
  recipient-IsPositive item = Returns-any _ above_zero-IsPositive

  recipients_onto-IsAudience :
      (values : List Value) (ids : List ℕ)
      → IsAudience ids
      → Returns IsAudience (recipients_onto show ids values)
  unfolding recipients_onto
  recipients_onto-IsAudience [] ids h = Returns-ok IsAudience ids h
  recipients_onto-IsAudience (item ∷ values) ids h =
      Returns-then (recipient-IsPositive item)
        λ u p. recipients_onto-IsAudience values (appended ids u) (appended-IsAudience ids u h p)

  pub recipients-IsAudience : (v : Option Value) → Returns IsAudience (recipients show v)
  recipients-IsAudience v = recipients_onto-IsAudience (recipient_values v) [] (tt, tt)
