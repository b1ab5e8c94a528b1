-- ===== src/Security/Patterns.antt =====
-- The part of Python's `re` that app/security/redaction.py uses: literals in either case, classes of
-- characters, greedy repetition, options and alternatives. A match is what is taken and what is left; the
-- matches are listed in the order in which backtracking finds them. Exact for the characters below U+0100.
use Prim.Native.Char.{code}
use Prim.Native.String.{◌++◌}
use b24_sinedis.Prelude.{
  ℕ, zero, suc, ◌+◌, ◌-◌, String, Bool, false, ◌&&◌, ◌||◌, Option, none, some, List, [], ◌∷◌,
  ◌++◌ as append, map, first, leb, if◌then◌else◌, ◌==◌, comparable_ids,
}
use b24_sinedis.Prelude.Text.{is_decimal, is_letter, length}

-- \w
abbrev pub is_word_char : ℕ → Bool
is_word_char c =
    is_letter c
    || is_decimal c
    || c == b'_'
    || c == 170
    || c == 178
    || c == 179
    || c == 181
    || c == 185
    || c == 186
    || leb 188 c && leb c 190
    || leb 192 c && leb c 214
    || leb 216 c && leb c 246
    || leb 248 c && leb c 255

-- a letter in lower case
abbrev pub fold : ℕ → ℕ
fold c = if leb b'A' c && leb c b'Z' then c + 32 else c

pub data Re : Type 0 where
  -- a literal in lower case, which matches either case
  word : String → Re
  -- [p], [p]* and [p]+
  one many many1 : (ℕ → Bool) → Re
  -- r?
  opt : Re → Re
  seq either : Re → Re → Re

-- what a match takes, and what it leaves
abbrev pub Taken : Type 0
Taken = String × String

abbrev pub take_char : Prim.Native.Char.Char → Taken → Taken
take_char c m = (String.◌∷◌ c m.0, m.1)

unfoldable pub match_word : String → String → List Taken
match_word (String.[]) s = ("", s) ∷ []
match_word (String.◌∷◌ a w) (String.[]) = []
match_word (String.◌∷◌ a w) (String.◌∷◌ c s) =
    let rest = match_word w s in if fold (code c) == code a then map (take_char c) rest else []

-- the longest first
unfoldable pub match_many : (ℕ → Bool) → String → List Taken
match_many p (String.[]) = ("", "") ∷ []
match_many p (String.◌∷◌ c s) =
    let more = match_many p s in
    if p (code c)
    then append (map (take_char c) more) (("", String.◌∷◌ c s) ∷ [])
    else ("", String.◌∷◌ c s) ∷ []

unfoldable pub match_many1 : (ℕ → Bool) → String → List Taken
unfolding match_many
match_many1 p (String.[]) = []
match_many1 p (String.◌∷◌ c s) = if p (code c) then map (take_char c) (match_many p s) else []

unfoldable pub match_one : (ℕ → Bool) → String → List Taken
match_one p (String.[]) = []
match_one p (String.◌∷◌ c s) = if p (code c) then (String.◌∷◌ c "", s) ∷ [] else []

abbrev pub flat_map {ℓ κ} : {A : Type ℓ} {B : Type κ} → (A → List B) → List A → List B
flat_map f [] = []
flat_map f (x ∷ xs) = append (f x) (flat_map f xs)

abbrev pub join : Taken → List Taken → List Taken
join m = map (λ n. (m.0 ++ n.0, n.1))

unfoldable pub matches : Re → String → List Taken
unfolding match_word match_many match_many1 match_one
matches (word w) s = match_word w s
matches (one p) s = match_one p s
matches (many p) s = match_many p s
matches (many1 p) s = match_many1 p s
matches (opt r) s = append (matches r s) (("", s) ∷ [])
matches (seq r q) s = flat_map (λ m. join m (matches q m.1)) (matches r s)
matches (either r q) s = append (matches r s) (matches q s)

-- A pattern of three groups, the middle one of which is masked, and the characters before which it does
-- not start.
pub record Pattern : Type 0 where
  pub bars : ℕ → Bool
  pub prefix : Re
  pub value : Re
  pub suffix : Option Re

-- what a match writes, and how many characters it takes
abbrev pub Written : Type 0
Written = String × ℕ

abbrev written : String → Taken → Taken → Taken → Written
written mask before inner after =
    (before.0 ++ (mask ++ after.0), length before.0 + length inner.0 + length after.0)

abbrev after_value : Option Re → String → List Taken
after_value none s = ("", s) ∷ []
after_value (some r) s = matches r s

unfoldable pub match_pattern : String → Pattern → String → Option Written
unfolding matches length
match_pattern mask p s = first (
    flat_map
      (λ before.
        flat_map
          (λ inner. map (λ after. written mask before inner after) (after_value p.suffix inner.1))
          (matches p.value before.1))
      (matches p.prefix s))

abbrev pub is_barred : Pattern → Option ℕ → Bool
is_barred p none = false
is_barred p (some c) = p.bars c

-- p.sub(…, s): `skip` characters of a match that is written are passed over, and `before` is the
-- character in front.
unfoldable pub sub : String → Pattern → Option ℕ → ℕ → String → String
unfolding match_pattern
sub mask p before skip (String.[]) = ""
sub mask p before (suc skip) (String.◌∷◌ c s) = sub mask p (some (code c)) skip s
sub mask p before zero (String.◌∷◌ c s) =
    let unmatched = String.◌∷◌ c (sub mask p (some (code c)) zero s) in
    if is_barred p before then unmatched else elim (match_pattern mask p (String.◌∷◌ c s)) [
      | none ↦ unmatched
      | some m ↦ m.0 ++ sub mask p (some (code c)) (m.1 - 1) s
    ]
