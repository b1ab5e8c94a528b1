-- ===== src/Installation/Callbacks.antt =====
-- The handlers of app/api/installation.py: what their answers promise.
use b24_sinedis.Prelude.{ℕ, String, ◌≡◌, Bool, true, false, List}
use b24_sinedis.Settings.{Settings}
use b24_sinedis.Runtime.{Result, ok, Env, World}
use b24_sinedis.Runtime.Contracts.{Meets-imp}
use b24_sinedis.Bitrix.Exceptions.{Failure, bitrix, configuration_error, payload_error}
use b24_sinedis.Bitrix.Registration.{RobotDefinition}
use b24_sinedis.Api.{Request}
use b24_sinedis.Installation.Service.{
  install, uninstall, install_callback, uninstall_callback, install_excepted, uninstall_excepted,
}
use b24_sinedis.Installation.Steady.{IsSteady}
use b24_sinedis.Installation.Lifecycle.{install-IsInstalled}
use b24_sinedis.Installation.Removal.{uninstall-IsStopped}
use b24_sinedis.Installation.Answers.{IsAnswered, accepted-IsAnswered}
use b24_sinedis.Installation.Effects.{Allows, Forbids, Allows-of_installed, Forbids-of_stopped}

module _ (env : Env) (settings : Settings) (registry : List RobotDefinition) (base_url : String)
    (hash_token : String → Result String) (verify : String → String → Result Bool) (new_id : ℕ)
    (start : World) (request : Request) where
  install_silent :
      (x : Failure) (w : World)
      → IsSteady start w
      → IsAnswered env start "ONAPPINSTALL" true
          (Allows env settings registry base_url hash_token verify new_id start)
          request
          (install_excepted x, w)
  install_silent (bitrix configuration_error) w h = (h.same_portals, h.same_jobs)
  install_silent (bitrix _) w h = (h.same_portals, h.same_jobs)
  install_silent _ w h = (h.same_portals, h.same_jobs)

  uninstall_silent :
      (x : Failure) (w : World)
      → IsSteady start w
      → IsAnswered env start "ONAPPUNINSTALL" false
          (Forbids env settings registry base_url hash_token verify new_id start)
          request
          (uninstall_excepted x, w)
  uninstall_silent payload_error w h = (h.same_portals, h.same_jobs)
  uninstall_silent _ w h = (h.same_portals, h.same_jobs)

-- An installation that is answered with status 200 replaces the row of its member, or adds one, and no
-- other: the row keeps its identifier, is active, and from then on the application token of the event is
-- verified for it, so that the callbacks of the portal are accepted; no job changes. Every other answer
-- leaves portals and jobs as they were. A token that is hashed verifies against its hash.
pub install_callback-IsAnswered :
    (env : Env) (settings : Settings) (registry : List RobotDefinition) (base_url : String)
    (hash_token : String → Result String) (verify : String → String → Result Bool) (new_id : ℕ)
    (start : World) (request : Request)
    → ((token hash : String) → hash_token token ≡ ok hash → verify token hash ≡ ok true)
    → IsAnswered env start "ONAPPINSTALL" true
        (Allows env settings registry base_url hash_token verify new_id start)
        request
        (install_callback env settings registry base_url hash_token verify new_id request start)
unfolding install_callback
install_callback-IsAnswered env settings registry base_url hash_token verify new_id start request
      law =
    accepted-IsAnswered env start "ONAPPINSTALL" true
      (Allows env settings registry base_url hash_token verify new_id start)
      (install env settings registry base_url hash_token verify new_id)
      (λ payload.
        Meets-imp
          (install-IsInstalled env settings registry base_url hash_token verify new_id start
            payload)
          (λ w h. h)
          (λ w r q.
            Allows-of_installed env settings registry base_url hash_token verify new_id start law
              payload.auth r w q)
          (λ w x h. h))
      request install_excepted
      (install_silent env settings registry base_url hash_token verify new_id start request)

-- A removal that is answered with status 200 had an application token that is verified for the row of
-- its member; it makes this row inactive, changes no other row and no job, and from then on every
-- callback of the member is refused whatever its token. Every other answer leaves portals and jobs as
-- they were.
pub uninstall_callback-IsAnswered :
    (env : Env) (settings : Settings) (registry : List RobotDefinition) (base_url : String)
    (hash_token : String → Result String) (verify : String → String → Result Bool) (new_id : ℕ)
    (start : World) (request : Request)
    → IsAnswered env start "ONAPPUNINSTALL" false
        (Forbids env settings registry base_url hash_token verify new_id start)
        request
        (uninstall_callback env settings registry base_url hash_token verify new_id request start)
unfolding uninstall_callback
uninstall_callback-IsAnswered env settings registry base_url hash_token verify new_id start
      request =
    accepted-IsAnswered env start "ONAPPUNINSTALL" false
      (Forbids env settings registry base_url hash_token verify new_id start)
      (uninstall env settings registry base_url hash_token verify new_id)
      (λ payload.
        Meets-imp
          (uninstall-IsStopped env settings registry base_url hash_token verify new_id start
            payload)
          (λ w h. h)
          (λ w r q.
            Forbids-of_stopped env settings registry base_url hash_token verify new_id start
              payload.auth r w q)
          (λ w x h. h))
      request uninstall_excepted
      (uninstall_silent env settings registry base_url hash_token verify new_id start request)
