-- ===== src/Robots/Payload/Brackets.antt =====
-- `_nested_copy` of app/robots/payload.py: names such as `auth[member_id]` read as nested entries.
use Prim.Native.String.{[], ◌∷◌, ◌++◌}
use text.Mathlib.TextLemmas.{nil-append, cons-append}
use b24_sinedis.Prelude.{
  ℕ, String, ◌≡◌, refl, Bool, true, false, not, some, arith, ◌==◌, comparable_ids, comparable_texts,
}
use b24_sinedis.Prelude.Text.{is_empty, drop_last, split_once, ends_with, all_char}
use b24_sinedis.Robots.Payload.{bracketed}

appended_is_full : (s : String) → is_empty (s ++ "]") ≡ false
unfolding is_empty
appended_is_full [] = refl
appended_is_full (c ∷ s) = rw (cons-append c s "]") refl

ends_with-append : (s : String) → ends_with (s ++ "]") "]" ≡ true
unfolding ends_with is_empty
ends_with-append [] = refl
ends_with-append (c ∷ s) = rw (cons-append c s "]") (ground (arith, ends_with-append s))

drop_last-append : (s : String) → drop_last (s ++ "]") ≡ s
unfolding drop_last is_empty
drop_last-append [] = refl
drop_last-append (c ∷ s) = rw (cons-append c s "]", appended_is_full s, drop_last-append s) refl

abbrev pub is_plain_char : ℕ → Bool
is_plain_char c = not (c == b'[')

split_once-append :
    (g k : String)
    → all_char is_plain_char g ≡ true
    → split_once b'[' (g ++ ("[" ++ k)) ≡ some (g, k)
unfolding split_once all_char
split_once-append [] k h = rw (nil-append ("[" ++ k), cons-append "[" "" k, nil-append k) refl
split_once-append (c ∷ g) k h =
    rw (cons-append c g ("[" ++ k)) (ground (arith, split_once-append g k))

-- "group[key]"
abbrev pub bracket : String → String → String
bracket group key = (group ++ ("[" ++ key)) ++ "]"

pub bracketed-bracket :
    (group key : String)
    → all_char is_plain_char group ≡ true
    → bracketed (bracket group key) ≡ some (group, key)
unfolding bracketed
bracketed-bracket group key h =
    rw
      (
        bracketed,
        ends_with-append (group ++ ("[" ++ key)),
        drop_last-append (group ++ ("[" ++ key)),
      )
      (split_once-append group key h)
