-- ===== src/Prelude/Text.antt =====
-- Python's methods on `str`, for the texts that the program walks. Exact for the characters below
-- U+0100; white space and digits of other scripts are taken for ordinary characters.
use Prim.Native.Nat.{ℕ, zero, suc, ◌+◌, ◌-◌, ◌*◌, ◌/◌, ◌%◌}
use Prim.Native.Char.{Char, code}
use Prim.Native.String.{String, [], ◌∷◌, ◌++◌}
use mathlib.Core.Bool.{Bool, true, false, ◌&&◌, ◌||◌, not}
use mathlib.Core.Option.{Option, none, some}
use b24_sinedis.Prelude.Tests.{leb, ◌==◌, comparable_ids, comparable_texts, if◌then◌else◌}

-- c.isspace()
abbrev pub is_space : ℕ → Bool
is_space c = leb 9 c && leb c 13 || leb 28 c && leb c 32 || c == 133 || c == 160

abbrev pub is_decimal : ℕ → Bool
is_decimal c = leb b'0' c && leb c b'9'

-- c.isdigit(): the superscripts ² ³ ¹ are digits that `int` refuses
abbrev pub is_digit : ℕ → Bool
is_digit c = is_decimal c || c == 178 || c == 179 || c == 185

abbrev pub is_letter : ℕ → Bool
is_letter c = leb b'a' c && leb c b'z' || leb b'A' c && leb c b'Z'

unfoldable pub any_char : (ℕ → Bool) → String → Bool
any_char p [] = false
any_char p (c ∷ s) = p (code c) || any_char p s

unfoldable pub all_char : (ℕ → Bool) → String → Bool
all_char p [] = true
all_char p (c ∷ s) = p (code c) && all_char p s

unfoldable pub is_empty : String → Bool
is_empty [] = true
is_empty (c ∷ s) = false

-- s.isdigit() is false on the empty text
unfoldable pub isdigit : String → Bool
unfolding all_char is_empty
isdigit s = not (is_empty s) && all_char is_digit s

unfoldable pub lstrip : String → String
lstrip [] = []
lstrip (c ∷ s) = let rest = lstrip s in if is_space (code c) then rest else c ∷ s

-- drops the characters that pass from the right end
unfoldable pub rstrip_by : (ℕ → Bool) → String → String
unfolding is_empty
rstrip_by p [] = []
rstrip_by p (c ∷ s) =
    let rest = rstrip_by p s in if p (code c) && is_empty rest then [] else c ∷ rest

unfoldable pub strip : String → String
unfolding lstrip rstrip_by
strip s = rstrip_by is_space (lstrip s)

-- the number that a text of decimal digits writes; `none` where `int` raises ValueError
unfoldable pub decimal : ℕ → String → Option ℕ
decimal n [] = some n
decimal n (c ∷ s) =
    let rest = decimal (n * 10 + (code c - b'0')) s in if is_decimal (code c) then rest else none

-- s.translate(str.maketrans(old, new)) for one character
unfoldable pub translate : String → String → Char → Char
translate (a ∷ old) (b ∷ new) c =
    let rest = translate old new c in if code a == code c then b else rest
translate _ _ c = c

abbrev capitals : String
capitals = "ABCDEFGHIJKLMNOPQRSTUVWXYZÀÁÂÃÄÅÆÇÈÉÊËÌÍÎÏÐÑÒÓÔÕÖØÙÚÛÜÝÞ"

abbrev small_letters : String
small_letters = "abcdefghijklmnopqrstuvwxyzàáâãäåæçèéêëìíîïðñòóôõöøùúûüýþ"

-- s.upper() and s.lower(); µ and ÿ have their capitals beyond U+0100, and ß has two letters
unfoldable pub upper : String → String
unfolding translate
upper [] = []
upper (c ∷ s) =
    let rest = upper s in
    if code c == 223
    then "SS" ++ rest
    else translate (small_letters ++ "µÿ") (capitals ++ "ΜŸ") c ∷ rest

unfoldable pub lower : String → String
unfolding translate
lower [] = []
lower (c ∷ s) = translate capitals small_letters c ∷ lower s

-- s.split(sep, 1)[0]
unfoldable pub before : ℕ → String → String
before sep [] = []
before sep (c ∷ s) = let rest = before sep s in if code c == sep then [] else c ∷ rest

unfoldable pub ends_with : String → String → Bool
ends_with [] t = is_empty t
ends_with (c ∷ s) t = (c ∷ s) == t || ends_with s t

-- len(s)
unfoldable pub length : String → ℕ
length [] = 0
length (c ∷ s) = suc (length s)

-- str(n) of a natural number: the decimal digits of n before the text, with fuel for each digit
abbrev digit_text : ℕ → String
digit_text n =
    if n == 0
    then "0"
    else if n == 1
    then "1"
    else if n == 2
    then "2"
    else if n == 3
    then "3"
    else if n == 4
    then "4"
    else if n == 5
    then "5"
    else if n == 6
    then "6"
    else if n == 7
    then "7"
    else if n == 8
    then "8"
    else "9"

show_from : ℕ → ℕ → String → String
show_from zero n rest = rest
show_from (suc fuel) n rest =
    let digit = digit_text (n % 10) ++ rest in
    let more = show_from fuel (n / 10) digit in if leb 10 n then more else digit

-- A number has at most as many digits as its successor counts.
unfoldable pub show_nat : ℕ → String
unfolding show_from
show_nat n = show_from (suc n) n []

-- s[:-1]
unfoldable pub drop_last : String → String
unfolding is_empty
drop_last [] = []
drop_last (c ∷ s) = let rest = drop_last s in if is_empty s then [] else c ∷ rest

-- the two parts of s.split(sep, 1), if the separator occurs
unfoldable pub split_once : ℕ → String → Option (String × String)
split_once sep [] = none
split_once sep (c ∷ s) =
    let rest = split_once sep s in
    if code c == sep
    then some ([], s)
    else elim rest [ none ↦ none | some parts ↦ some (c ∷ parts.0, parts.1) ]

-- The digits of a number that Python reads with single underscores between them.
unfoldable pub without_underscores : Bool → String → Option String
without_underscores after_digit [] = if after_digit then some [] else none
without_underscores after_digit (c ∷ s) =
    let skipped = without_underscores false s in
    let kept = without_underscores true s in
    if code c == b'_'
    then (if after_digit then skipped else none)
    else elim kept [ none ↦ none | some digits ↦ some (c ∷ digits) ]
