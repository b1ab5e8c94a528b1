-- ===== src/Value.antt =====
-- The values of `json` and of JSONB columns, on which the program branches by `isinstance`.
-- A float is held as its whole number of millionths.
use b24_sinedis.Prelude.{
  String, ◌≡◌, refl, Bool, true, false, Option, none, some, List, [], ◌∷◌, arith, ℤ, ◌==◌,
  comparable_texts, if◌then◌else◌, is_some,
}
use text.Mathlib.TextEquality.{eq_iff}

mutual
  pub data Value : Type 0 where
    obj : Fields → Value
    arr : Items → Value
    str : String → Value
    int float : ℤ → Value
    bool : Bool → Value
    null : Value

  pub data Fields : Type 0 where
    field : String → Value → Fields → Fields
    end : Fields

  pub data Items : Type 0 where
    cons : Value → Items → Items
    nil : Items

-- d.get(key)
unfoldable pub get : String → Fields → Option Value
get k end = none
get k (field j v d) = if j == k then some v else get k d

-- d[key] = value keeps the place of an old key and appends a new one
unfoldable pub put : String → Value → Fields → Fields
put k v end = field k v end
put k v (field j w d) = if j == k then field j v d else field j w (put k v d)

-- key in d
unfoldable pub has : String → Fields → Bool
unfolding get
has k d = is_some (get k d)

-- d.get(key, default)
unfoldable pub get_or : String → Value → Fields → Value
unfolding get
get_or k v d = elim (get k d) [ none ↦ v | some w ↦ w ]

pub get-put :
    (k j : String) (v : Value) (d : Fields)
    → get j (put k v d) ≡ (if k == j then some v else get j d)
unfolding get put
get-put k j v end = refl
get-put k j v (field i w d) = ground (arith, eq_iff k j, eq_iff i k, eq_iff i j, get-put k j v d)

-- the list that a JSON array holds
abbrev pub items : Items → List Value
items nil = []
items (cons v vs) = v ∷ items vs

abbrev pub of_list : List Value → Items
of_list [] = nil
of_list (v ∷ vs) = cons v (of_list vs)

abbrev pub is_text : Value → Bool
is_text (str s) = true
is_text _ = false

-- isinstance(v, Mapping)
abbrev pub is_mapping : Value → Bool
is_mapping (obj d) = true
is_mapping _ = false
