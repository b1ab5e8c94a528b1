-- ===== src/Bitrix/Registration/Portals.antt =====
-- `synchronize` of app/bitrix/register_extensions.py: the registration for every active portal. What is
-- printed for a portal is the result of its registration.
use b24_sinedis.Prelude.{ℕ, String, Option, none, some, List, [], ◌∷◌, map, select}
use b24_sinedis.Settings.{Settings}
use b24_sinedis.Portals.{BitrixPortal, is_active, get_portal}
use b24_sinedis.Runtime.{Result, ok, raised, Env, World, Action, ◌>>=◌, pure, lift}
use b24_sinedis.Bitrix.Exceptions.{other_error}
use b24_sinedis.Bitrix.Client.Call.{new_client}
use b24_sinedis.Bitrix.OAuth.Portal.{get_access_token}
use b24_sinedis.Bitrix.Registration.{RobotDefinition, normalize_app_base_url}
use b24_sinedis.Bitrix.Registration.Service.{RegistrationResult, ensure_all}

-- SELECT id FROM bitrix_portals WHERE status = 'active'
unfoldable pub active_ids : World → Result (List ℕ) × World
active_ids w = (ok (map (λ p. p.id) (select (λ p. is_active p.status) w.portals)), w)

-- assert portal is not None
abbrev asserted : Option BitrixPortal → Result BitrixPortal
asserted none = raised other_error
asserted (some portal) = ok portal

unfoldable pub stored_portal : ℕ → Action BitrixPortal
stored_portal portal_id w = (asserted (get_portal portal_id w.portals), w)

module _ (env : Env) (settings : Settings) (app_base_url app_env : String)
    (registry : List RobotDefinition) where
  unfoldable pub synchronize_portal : ℕ → Action RegistrationResult
  synchronize_portal portal_id = do
    token ← get_access_token env settings portal_id
    portal ← stored_portal portal_id
    client ← lift (new_client env portal.client_endpoint token)
    base_url ← lift (normalize_app_base_url env.urlsplit app_base_url app_env)
    ensure_all env client base_url settings registry

  unfoldable pub synchronize_each : List ℕ → Action (List RegistrationResult)
  synchronize_each [] = pure []
  synchronize_each (portal_id ∷ portal_ids) = do
    result ← synchronize_portal portal_id
    results ← synchronize_each portal_ids
    pure (result ∷ results)

  unfoldable pub synchronize : Action (List RegistrationResult)
  synchronize = do portal_ids ← active_ids; synchronize_each portal_ids
