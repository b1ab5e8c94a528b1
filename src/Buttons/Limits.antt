-- ===== src/Buttons/Limits.antt =====
-- The limits that `ButtonSettings` of app/api/workflow_buttons.py puts on its fields, for a form whose
-- numbers are not negative (a negative one is refused like zero). `dumped_length` is the length of
-- `json.dumps`.
use Prim.Native.Char.{code}
use b24_sinedis.Prelude.{
  ℕ, leb, ltb, String, Bool, false, ◌&&◌, ◌||◌, Option, none, some, List, [], ◌∷◌, all,
  if◌then◌else◌, ◌==◌, comparable_ids, length,
}
use b24_sinedis.Prelude.Text
use b24_sinedis.Prelude.Text.{all_char, is_decimal}
use b24_sinedis.Value.{Fields}
use b24_sinedis.Buttons.Model.{ButtonSettings}

abbrev is_color_digit : ℕ → Bool
is_color_digit c = is_decimal c || leb b'a' c && leb c b'f' || leb b'A' c && leb c b'F'

-- ^#[0-9a-fA-F]{6}$
unfoldable pub is_color : String → Bool
unfolding all_char Text.length
is_color (String.[]) = false
is_color (String.◌∷◌ c s) = code c == b'#' && Text.length s == 6 && all_char is_color_digit s

-- sorted(set(values))
unfoldable pub insert_user : ℕ → List ℕ → List ℕ
insert_user n [] = n ∷ []
insert_user n (m ∷ ms) =
    let rest = insert_user n ms in
    if n == m then m ∷ ms else if ltb n m then n ∷ m ∷ ms else m ∷ rest

unfoldable pub sorted_users : List ℕ → List ℕ
unfolding insert_user
sorted_users [] = []
sorted_users (n ∷ ns) = insert_user n (sorted_users ns)

module _ (dumped_length : Fields → ℕ) where
  unfoldable pub accepts_settings : ButtonSettings → Bool
  unfolding is_color Text.length
  accepts_settings s =
      leb 1 (Text.length s.label)
      && leb (Text.length s.label) 100
      && ltb 0 s.template_id
      && leb (dumped_length s.parameters) 100000
      && leb (length s.allowed_user_ids) 1000
      && all (λ n. ltb 0 n) s.allowed_user_ids
      && is_color s.color
      && leb 80 s.width
      && leb s.width 800
      && leb 24 s.height
      && leb s.height 80
      && leb 10 s.cooldown_seconds
      && leb s.cooldown_seconds 86400

  -- the settings as the validators leave them
  unfoldable pub validated : ButtonSettings → Option ButtonSettings
  unfolding accepts_settings sorted_users
  validated s =
      if accepts_settings s
      then some (record s { allowed_user_ids = sorted_users s.allowed_user_ids })
      else none
