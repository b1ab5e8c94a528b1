-- ===== src/Bitrix/Registration.antt =====
-- app/bitrix/registration.py, app/bitrix/workflow_fields.py and app/robots/base.py: what the
-- application registers with a portal. The definitions of the robots are the constructor's argument.
pub mod Service
pub mod Portals
use Prim.Native.Char.{code}
use Prim.Native.String.{◌++◌}
use b24_sinedis.Prelude.{
  ℕ, String, Bool, true, false, not, ◌&&◌, ◌||◌, Option, none, some, List, [], ◌∷◌, any, select,
  if◌then◌else◌, ◌==◌, comparable_ids, comparable_texts, is_some,
}
use b24_sinedis.Prelude.Text.{is_space, any_char, rstrip_by, lower, is_empty}
use b24_sinedis.Value.{
  Value, obj, arr, str, int, float, bool, null, Fields, field, end, Items, nil, cons, get,
}
use b24_sinedis.Runtime.{Result, ok, raised, SplitUrl, Env, Action, ◌>>=◌, ◌>>◌, pure, raise, lift}
use b24_sinedis.Bitrix.Exceptions.{bitrix, configuration_error, other_error, attribute_error}
use b24_sinedis.Bitrix.Client.Call.{BitrixClient, BitrixResponse, call}

-- RobotDefinition
pub record RobotDefinition : Type 0 where
  pub code : String
  pub handler_path : String
  pub name : Fields
  pub description : Fields
  pub properties : Fields
  pub return_properties : Fields
  pub use_subscription : Bool
  pub use_placement : Bool

abbrev pub yes_or_no : Bool → Value
yes_or_no b = str (if b then "Y" else "N")

abbrev pub fields_of : RobotDefinition → String → Fields
fields_of d handler_url = field "HANDLER" (str handler_url) (
    field "NAME" (obj d.name) (
      field "DESCRIPTION" (obj d.description) (
        field "PROPERTIES" (obj d.properties) (
          field "RETURN_PROPERTIES" (obj d.return_properties) (
            field "USE_SUBSCRIPTION" (yes_or_no d.use_subscription)
              (field "USE_PLACEMENT" (yes_or_no d.use_placement) end))))))

abbrev pub add_payload : RobotDefinition → String → Fields
add_payload d handler_url = field "CODE" (str d.code) (fields_of d handler_url)

abbrev is_local : String → Option String → Bool
is_local environment none = false
is_local environment (some hostname) =
    environment == "development"
    && (hostname == "localhost" || hostname == "127.0.0.1" || hostname == "::1")

-- urlunsplit((scheme, netloc, path, "", "")) of a path that starts with a slash, or is "/"
abbrev pub unsplit : String → String → String → String
unsplit scheme netloc path = scheme ++ ("://" ++ (netloc ++ path))

unfoldable pub normalize_app_base_url : (String → Option SplitUrl) → String → String → Result String
unfolding any_char rstrip_by lower
normalize_app_base_url urlsplit value environment = elim (urlsplit value) [
  | none ↦ raised (bitrix configuration_error)
  | some parsed ↦
      let scheme = lower parsed.scheme in
      if not (is_some parsed.hostname)
        || not (scheme == "http" || scheme == "https")
        || not (scheme == "https") && not (is_local environment parsed.hostname)
        || is_some parsed.username
        || is_some parsed.password
        || not (parsed.query == "")
        || not (parsed.fragment == "")
        || any_char is_space value
      then raised (bitrix configuration_error)
      else ok (unsplit scheme parsed.netloc (rstrip_by (λ c. c == b'/') parsed.path ++ "/"))
]

-- the code of one listed robot
abbrev pub code_of_item : Value → Option String
code_of_item (str s) = some s
code_of_item (obj d) = elim (get "CODE" d) [
  | some (str s) ↦ some s
  | some _ ↦ none
  | none ↦ elim (get "code" d) [ some (str s) ↦ some s | _ ↦ none ]
]
code_of_item _ = none

abbrev with_code : Option String → List String → List String
with_code none codes = codes
with_code (some code) codes = code ∷ codes

unfoldable pub item_codes : Items → List String
unfolding get
item_codes nil = []
item_codes (cons v vs) = with_code (code_of_item v) (item_codes vs)

-- the first of three keys that is there
abbrev first_of :
    Option (Option (List String))
    → Option (Option (List String))
    → Option (Option (List String))
    → Option (List String)
first_of (some r) _ _ = r
first_of none (some r) _ = r
first_of none none (some r) = r
first_of none none none = none

-- `_robot_codes`; `none` stands for RecursionError, since a mapping without the three keys is looked
-- into again and again.
unfoldable mutual
  unfolding item_codes

  pub robot_codes : Value → Option (List String)
  robot_codes (arr vs) = some (item_codes vs)
  robot_codes (obj d) =
      first_of (codes_under "result" d) (codes_under "activities" d) (codes_under "robots" d)
  robot_codes _ = some []

  pub codes_under : String → Fields → Option (Option (List String))
  codes_under key end = none
  codes_under key (field j v d) =
      let here = robot_codes v in
      let later = codes_under key d in if j == key then some here else later

abbrev pub read_codes : Option (List String) → Result (List String)
read_codes none = raised other_error
read_codes (some codes) = ok codes

-- [item for item in candidates if isinstance(item, Mapping)]
abbrev mappings : Items → List Fields
mappings nil = []
mappings (cons (obj d) vs) = d ∷ mappings vs
mappings (cons v vs) = mappings vs

-- list(candidates.values()) if all are mappings, else []
abbrev values_of : Fields → Option (List Fields)
values_of end = some []
values_of (field k (obj d) rest) = elim (values_of rest) [ none ↦ none | some ds ↦ some (d ∷ ds) ]
values_of (field k v rest) = none

abbrev items_in : Value → Result (List Fields)
items_in (arr vs) = ok (mappings vs)
items_in (obj d) = ok (elim (values_of d) [ none ↦ [] | some ds ↦ ds ])
items_in _ = raised attribute_error

-- `_items`; what has no `values` raises AttributeError
unfoldable pub items_of : Value → Result (List Fields)
unfolding get
items_of (arr vs) = ok (mappings vs)
items_of (obj d) = items_in (elim (get "result" d) [
  | some v ↦ v
  | none ↦ elim (get "events" d) [
    | some v ↦ v
    | none ↦ elim (get "robots" d) [ some v ↦ v | none ↦ obj d ]
  ]
])
items_of _ = ok []

abbrev pub is_text_at : String → String → String → Fields → Bool
is_text_at key other text d = elim (get key d) [
  | some (str s) ↦ s == text
  | some _ ↦ false
  | none ↦ elim (get other d) [ some (str s) ↦ s == text | _ ↦ false ]
]

-- `_has_event_handler`
unfoldable pub has_event_handler : Value → String → String → Result Bool
unfolding items_of get
has_event_handler value event handler = elim (items_of value) [
  | raised e ↦ raised e
  | ok items ↦ ok (
      any
        (λ item.
          is_text_at "event" "EVENT" event item && is_text_at "handler" "HANDLER" handler item)
        items)
]

abbrev pub member_of : String → List String → Bool
member_of code codes = any (λ c. c == code) codes
