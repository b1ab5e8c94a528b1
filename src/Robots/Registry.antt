-- ===== src/Robots/Registry.antt =====
-- `RobotRegistry` of app/robots/registry.py, with the registry of the application's robots.
use b24_sinedis.Prelude.{
  String, Bool, true, ◌≡◌, refl, List, [], ◌∷◌, Option, none, some, find, map, not, ◌&&◌,
  if◌then◌else◌, ◌==◌, comparable_texts,
}
use b24_sinedis.Runtime.{Result, ok, raised}
use b24_sinedis.Bitrix.Exceptions.{value_error, key_error}
use b24_sinedis.Bitrix.Registration.{RobotDefinition, member_of}
use b24_sinedis.Robots.Definitions.{short_pause_robot, rest_request_robot, wait_field_robot}

-- len(codes) == len(set(codes))
unfoldable pub are_unique : List String → Bool
are_unique [] = true
are_unique (code ∷ codes) = not (member_of code codes) && are_unique codes

unfoldable pub new_registry : List RobotDefinition → Result (List RobotDefinition)
unfolding are_unique
new_registry definitions =
    if are_unique (map (λ d. d.code) definitions) then ok definitions else raised value_error

abbrev found : Option RobotDefinition → Result RobotDefinition
found none = raised key_error
found (some definition) = ok definition

unfoldable pub get_robot : String → List RobotDefinition → Result RobotDefinition
get_robot code definitions = found (find (λ d. d.code == code) definitions)

abbrev pub robots : List RobotDefinition
robots = short_pause_robot ∷ rest_request_robot ∷ wait_field_robot ∷ []

registry_accepted : new_registry robots ≡ ok robots
unfolding new_registry
registry_accepted = refl

wait_found : get_robot "sinedis.wait_field.robot.v1" robots ≡ ok wait_field_robot
unfolding get_robot
wait_found = refl
