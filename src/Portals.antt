-- ===== src/Portals.antt =====
-- app/models/portal.py: the installations of the application and their OAuth material.
use b24_sinedis.Prelude.{
  ℕ, String, Bool, true, false, Option, List, map, if◌then◌else◌, ◌==◌, comparable_ids, find,
}

pub data PortalStatus : Type 0 where
  active inactive auth_error : PortalStatus

pub record BitrixPortal : Type 0 where
  pub id : ℕ
  pub member_id : String
  pub domain : String
  pub client_endpoint : String
  pub server_endpoint : Option String
  pub access_token_encrypted : Option String
  pub refresh_token_encrypted : Option String
  pub token_expires_at : Option ℕ
  pub application_token_hash : Option String
  pub status : PortalStatus

abbrev pub is_active : PortalStatus → Bool
is_active active = true
is_active _ = false

-- session.get(BitrixPortal, portal_id)
unfoldable pub get_portal : ℕ → List BitrixPortal → Option BitrixPortal
get_portal portal_id = find (λ p. p.id == portal_id)

-- The rows after a commit that writes one portal.
unfoldable pub write_portal :
    ℕ → (BitrixPortal → BitrixPortal) → List BitrixPortal → List BitrixPortal
write_portal portal_id f = map (λ p. if p.id == portal_id then f p else p)
