-- ===== src/Installation/Rows.antt =====
-- The rows of the portals after an installation and after its removal.
use text.Mathlib.TextEquality.{eq_iff}
use b24_sinedis.Prelude.{
  ℕ, String, ◌≡◌, refl, ◌∙◌, Bool, true, false, Option, none, some, List, [], ◌∷◌, ◌++◌, map, any,
  find, or_else, arith, Bool-cases, inl, inr, if◌then◌else◌, ◌==◌, comparable_texts,
}
use b24_sinedis.Portals.{inactive, BitrixPortal}
use b24_sinedis.Installation.Service.{
  PortalValues, set_values, new_portal, is_member, upsert, deactivate,
}

abbrev pub changed : {A : Type 0} → (A → A) → Option A → Option A
changed f none = none
changed f (some a) = some (f a)

module _ {A : Type 0} (p : A → Bool) (f : A → A) where
  abbrev rewritten : List A → List A
  rewritten xs = map (λ x. if p x then f x else x) xs

  find-rewritten :
      ((x : A) → p x ≡ true → p (f x) ≡ true)
      → (xs : List A) → find p (rewritten xs) ≡ changed f (find p xs)
  find-rewritten keep [] = refl
  find-rewritten keep (x ∷ xs) = elim (Bool-cases (p x)) [
    | inl e ↦ rw (e, keep x e) refl
    | inr e ↦ rw (e, e) (find-rewritten keep xs)
  ]

  find-elsewhere :
      (q : A → Bool)
      → ((x : A) → p x ≡ true → (q x ≡ false) × (q (f x) ≡ false))
      → (xs : List A) → find q (rewritten xs) ≡ find q xs
  find-elsewhere q apart [] = refl
  find-elsewhere q apart (x ∷ xs) = elim (Bool-cases (p x)) [
    | inl e ↦ rw (e, (apart x e).0, (apart x e).1) (find-elsewhere q apart xs)
    | inr e ↦ elim (Bool-cases (q x)) [
      | inl g ↦ rw (e, g) refl
      | inr g ↦ rw (e, g) (find-elsewhere q apart xs)
    ]
  ]

  find-absent : (xs : List A) → any p xs ≡ false → find p xs ≡ none
  find-absent [] h = refl
  find-absent (x ∷ xs) h = ground (arith, find-absent xs)

  find-present : (xs : List A) → any p xs ≡ true → (a : A) × (find p xs ≡ some a)
  find-present [] h = absurd (cc h)
  find-present (x ∷ xs) h = elim (Bool-cases (p x)) [
    | inl e ↦ (x, rw (e) refl)
    | inr e ↦ let (a, g) = find-present xs (ground arith) in (a, rw (e) g)
  ]

  find-added :
      (xs : List A) (a : A) → any p xs ≡ false → p a ≡ true → find p (xs ++ a ∷ []) ≡ some a
  find-added [] a h k = rw (k) refl
  find-added (x ∷ xs) a h k = ground (arith, find-added xs a)

  find-unadded : (xs : List A) (a : A) → p a ≡ false → find p (xs ++ a ∷ []) ≡ find p xs
  find-unadded [] a k = rw (k) refl
  find-unadded (x ∷ xs) a k = ground (arith, find-unadded xs a)

same_text : (s : String) → (s == s) ≡ true
same_text s = ground (arith, eq_iff s s)

apart :
    (m n : String)
    → (m == n) ≡ false
    → (p : BitrixPortal) → is_member m p ≡ true
    → is_member n p ≡ false
apart m n h p e = ground (arith, eq_iff p.member_id m, eq_iff p.member_id n, eq_iff m n)

-- The row of the member holds the values, under the identifier that the member had, or a new one.
pub find-upsert :
    (id : ℕ) (m : String) (v : PortalValues) (ps : List BitrixPortal)
    → find (is_member m) (upsert id m v ps)
      ≡ some (set_values v (or_else (find (is_member m) ps) (new_portal id m v)))
unfolding upsert
find-upsert id m v ps = elim (Bool-cases (any (is_member m) ps)) [
  | inl e ↦
      let (q, g) = find-present (is_member m) (set_values v) ps e in
      rw (e, g) (find-rewritten (is_member m) (set_values v) (λ x h. h) ps ∙ rw (g) refl)
  | inr e ↦
      rw (e, find-absent (is_member m) (set_values v) ps e)
        (find-added (is_member m) (set_values v) ps (new_portal id m v) e (same_text m))
]

pub find-upsert_other :
    (id : ℕ) (m n : String) (v : PortalValues) (ps : List BitrixPortal)
    → (m == n) ≡ false
    → find (is_member n) (upsert id m v ps) ≡ find (is_member n) ps
unfolding upsert
find-upsert_other id m n v ps h = elim (Bool-cases (any (is_member m) ps)) [
  | inl e ↦ rw (e) (
      find-elsewhere (is_member m) (set_values v) (is_member n)
        (λ x k. (apart m n h x k, apart m n h x k)) ps)
  | inr e ↦ rw (e) (find-unadded (is_member n) (set_values v) ps (new_portal id m v) h)
]

abbrev pub stopped : BitrixPortal → BitrixPortal
stopped p = record p { status = inactive }

pub find-deactivate :
    (m : String) (ps : List BitrixPortal)
    → find (is_member m) (deactivate m ps) ≡ changed stopped (find (is_member m) ps)
unfolding deactivate
find-deactivate m ps = find-rewritten (is_member m) stopped (λ x h. h) ps

pub find-deactivate_other :
    (m n : String) (ps : List BitrixPortal)
    → (m == n) ≡ false
    → find (is_member n) (deactivate m ps) ≡ find (is_member n) ps
unfolding deactivate
find-deactivate_other m n ps h =
    find-elsewhere (is_member m) stopped (is_member n) (λ x k. (apart m n h x k, apart m n h x k))
      ps

-- What every look-up by a member finds afterwards.
pub find-upsert_any :
    (id : ℕ) (m : String) (v : PortalValues) (ps : List BitrixPortal) (n : String)
    → find (is_member n) (upsert id m v ps) ≡ (
        if m == n
        then some (set_values v (or_else (find (is_member m) ps) (new_portal id m v)))
        else find (is_member n) ps)
find-upsert_any id m v ps n = elim (Bool-cases (m == n)) [
  | inl e ↦ let same = (eq_iff m n).0 e in rw (e, ← same) (find-upsert id m v ps)
  | inr e ↦ rw (e) (find-upsert_other id m n v ps e)
]

pub find-deactivate_any :
    (m : String) (ps : List BitrixPortal) (n : String)
    → find (is_member n) (deactivate m ps)
      ≡ (if m == n then changed stopped (find (is_member m) ps) else find (is_member n) ps)
find-deactivate_any m ps n = elim (Bool-cases (m == n)) [
  | inl e ↦ let same = (eq_iff m n).0 e in rw (e, ← same) (find-deactivate m ps)
  | inr e ↦ rw (e) (find-deactivate_other m n ps e)
]
