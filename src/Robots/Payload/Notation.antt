-- ===== src/Robots/Payload/Notation.antt =====
-- The two notations of a callback, nested JSON and a form with bracketed names, carry the same data.
use text.Mathlib.TextEquality.{eq_iff}
use b24_sinedis.Prelude.{
  String, ◌≡◌, refl, sym, ap, ◌∙◌, true, false, none, some, arith, comparable_ids, comparable_texts,
}
use b24_sinedis.Prelude.Text.{is_empty, all_char}
use b24_sinedis.Value.{
  Value, obj, arr, str, int, float, bool, null, Fields, field, end, get, put, get-put, is_mapping,
}
use b24_sinedis.Robots.Payload.{bracketed, is_group, place, copy_onto}
use b24_sinedis.Robots.Payload.Brackets.{bracket, bracketed-bracket, is_plain_char}

-- A name that no bracket ends, with a value that is no mapping; a form has no other values.
abbrev pub IsPlain : Fields → Type 0
IsPlain end = Unit
IsPlain (field key v d) =
    (is_empty key ≡ false) × (bracketed key ≡ none) × (is_mapping v ≡ false) × IsPlain d

-- The entries of a group as a form writes them, before the rest of the form.
abbrev pub form : String → Fields → Fields → Fields
form group end rest = rest
form group (field key v d) rest = field (bracket group key) v (form group d rest)

-- One entry whose value is no mapping.
copy_onto-field :
    (copied source : Fields) (key : String) (v : Value)
    → is_mapping v ≡ false
    → copy_onto copied (field key v source) ≡ copy_onto (place key (bracketed key) v copied) source
unfolding copy_onto
copy_onto-field copied source key (obj d) h = absurd (cc h)
copy_onto-field copied source key (arr vs) h = refl
copy_onto-field copied source key (str s) h = refl
copy_onto-field copied source key (int z) h = refl
copy_onto-field copied source key (float z) h = refl
copy_onto-field copied source key (bool b) h = refl
copy_onto-field copied source key null h = refl

put-put : (key : String) (v w : Value) (d : Fields) → put key w (put key v d) ≡ put key w d
unfolding put
put-put key v w end = ground (arith, eq_iff key key)
put-put key v w (field j u d) = ground (arith, eq_iff j key, put-put key v w d)

put-get : (key : String) (v : Value) (d : Fields) → get key d ≡ some v → put key v d ≡ d
unfolding put get
put-get key v end h = absurd (cc h)
put-get key v (field j u d) h = ground (arith, eq_iff j key, put-get key v d)

get-put_self : (key : String) (v : Value) (d : Fields) → get key (put key v d) ≡ some v
get-put_self key v d = ground (arith, get-put key key v d, eq_iff key key)

plain_entry :
    (key : String) (v : Value) (d acc : Fields)
    → bracketed key ≡ none
    → is_mapping v ≡ false
    → copy_onto acc (field key v d) ≡ copy_onto (put key v acc) d
plain_entry key v d acc b m = copy_onto-field acc d key v m ∙ ap (λ c. copy_onto c d) (rw (b) refl)

module _ (group : String) (known : is_group group ≡ true)
    (plain : all_char is_plain_char group ≡ true) where
  placed :
      (key : String) (v : Value) (acc copied : Fields)
      → is_empty key ≡ false
      → get group copied ≡ some (obj acc)
      → place (bracket group key) (bracketed (bracket group key)) v copied
        ≡ put group (obj (put key v acc)) copied
  placed key v acc copied k h = rw (bracketed-bracket group key plain, known, k, h) refl

  placed_first :
      (key : String) (v : Value) (copied : Fields)
      → is_empty key ≡ false
      → get group copied ≡ none
      → place (bracket group key) (bracketed (bracket group key)) v copied
        ≡ put group (obj (field key v end)) copied
  placed_first key v copied k h = rw (bracketed-bracket group key plain, known, k, h) refl

  -- The entries go on into a group that is there.
  form-onto :
      (d acc copied rest : Fields)
      → IsPlain d
      → get group copied ≡ some (obj acc)
      → copy_onto copied (form group d rest)
        ≡ copy_onto (put group (obj (copy_onto acc d)) copied) rest
  unfolding copy_onto
  form-onto end acc copied rest p h = rw (put-get group (obj acc) copied h) refl
  form-onto (field key v d) acc copied rest p h =
      let (k, b, m, q) = p in
      let entered = put group (obj (put key v acc)) copied in
      copy_onto-field copied (form group d rest) (bracket group key) v m
      ∙ ap (λ c. copy_onto c (form group d rest)) (placed key v acc copied k h)
      ∙ form-onto d (put key v acc) entered rest q (get-put_self group (obj (put key v acc)) copied)
      ∙ ap (λ c. copy_onto c rest)
          (put-put group (obj (put key v acc)) (obj (copy_onto (put key v acc) d)) copied)
      ∙ ap (λ t. copy_onto (put group (obj t) copied) rest) (sym (plain_entry key v d acc b m))

  -- A group that is not there yet is made by its first entry.
  pub form-copied :
      (key : String) (v : Value) (d copied rest : Fields)
      → IsPlain (field key v d)
      → get group copied ≡ none
      → copy_onto copied (form group (field key v d) rest)
        ≡ copy_onto copied (field group (obj (field key v d)) rest)
  unfolding copy_onto
  form-copied key v d copied rest p h =
      let (k, b, m, q) = p in
      let entered = put group (obj (field key v end)) copied in
      copy_onto-field copied (form group d rest) (bracket group key) v m
      ∙ ap (λ c. copy_onto c (form group d rest)) (placed_first key v copied k h)
      ∙ form-onto d (field key v end) entered rest q
          (get-put_self group (obj (field key v end)) copied)
      ∙ ap (λ c. copy_onto c rest)
          (put-put group (obj (field key v end)) (obj (copy_onto (field key v end) d)) copied)
      ∙ ap (λ t. copy_onto (put group (obj t) copied) rest) (sym (plain_entry key v d end b m))
