-- ===== src/Bitrix/OAuth/Stored.antt =====
-- The token pair that a refresh stores, as app/bitrix/oauth.py reads it back.
use mathlib.Core.Path.{subst, sym}
use b24_sinedis.Prelude.{
  ℕ, suc, ◌+◌, ◌<◌, String, ◌≡◌, refl, true, false, some, List, [], ◌∷◌, arith, comparable_ids, ltb,
}
use b24_sinedis.Settings.{Settings}
use b24_sinedis.Portals.{BitrixPortal, is_active, get_portal, write_portal}
use b24_sinedis.Runtime.{Result, ok, Env, World, ◌>>=◌, pure, lift, read_clock}
use b24_sinedis.Bitrix.OAuth.Refresh.{OAuthRefreshResult, token_expiry}
use b24_sinedis.Bitrix.OAuth.Portal.{
  active_portal, require_active, commit_portal, renew, store_tokens, get_access_token,
  refresh_access_token,
}

get-write :
    (id : ℕ) (f : BitrixPortal → BitrixPortal) (ps : List BitrixPortal) {p : BitrixPortal}
    → ((q : BitrixPortal) → (f q).id ≡ q.id)
    → get_portal id ps ≡ some p
    → get_portal id (write_portal id f ps) ≡ some (f p)
unfolding get_portal write_portal
get-write id f [] keep h = cc
get-write id f (q ∷ ps) {p} keep h = ground (arith, keep q, get-write id f ps {p = p} keep)

lt-ltb : (a b : ℕ) → a < b → ltb a b ≡ true
lt-ltb a b h = ground arith

module _ (env : Env) (settings : Settings) (id : ℕ) (r : OAuthRefreshResult) where
  -- The row after a refresh.
  abbrev pub refreshed : ℕ → BitrixPortal → BitrixPortal
  refreshed at = renew r (env.encrypt r.access_token) (env.encrypt r.refresh_token) at

  stored :
      (at : ℕ) (w : World)
      → token_expiry r.expires r.expires_in (env.clock w.readings) ≡ ok at
      → store_tokens env settings id r w ≡ (
        ok r.access_token,
        record w { readings = suc w.readings; portals = write_portal id (refreshed at) w.portals },
      )
  unfolding store_tokens ◌>>=◌ pure lift read_clock commit_portal
  stored at w h = rw (h) refl

  fetched :
      (at : ℕ) (w : World) {p : BitrixPortal}
      → get_portal id w.portals ≡ some p
      → is_active p.status ≡ true
      → p.access_token_encrypted ≡ some (env.encrypt r.access_token)
      → p.token_expires_at ≡ some at
      → env.decrypt (env.encrypt r.access_token) ≡ some r.access_token
      → env.clock w.readings + settings.bitrix_oauth_expiry_skew < at
      → get_access_token env settings id w
        ≡ (ok r.access_token, record w { readings = suc w.readings })
  unfolding get_access_token active_portal require_active ◌>>=◌ lift read_clock
  fetched at w found status token expires back fresh =
      rw (found, status, token, expires, lt-ltb _ at fresh, back) refl

  -- After a refresh of a portal in the table the service hands out the new access token without
  -- another exchange, until the stored time less the safety margin; it reads the token back that
  -- it stored, provided decryption undoes encryption.
  pub get_access_token-store_tokens :
      (at : ℕ) (w : World) {p : BitrixPortal}
      → get_portal id w.portals ≡ some p
      → token_expiry r.expires r.expires_in (env.clock w.readings) ≡ ok at
      → env.decrypt (env.encrypt r.access_token) ≡ some r.access_token
      → env.clock (suc w.readings) + settings.bitrix_oauth_expiry_skew < at
      → let w' = (store_tokens env settings id r w).1 in
        get_access_token env settings id w'
        ≡ (ok r.access_token, record w' { readings = suc w'.readings })
  get_access_token-store_tokens at w {p} found expiry back fresh =
      subst
        (λ v.
          get_access_token env settings id v.1
          ≡ (ok r.access_token, record v.1 { readings = suc v.1.readings }))
        (sym (stored at w expiry))
        (fetched at _ {p = refreshed at p} (get-write id (refreshed at) w.portals (λ q. refl) found)
          refl refl refl back fresh)

  refetched :
      (at : ℕ) (w : World) {p : BitrixPortal}
      → get_portal id w.portals ≡ some p
      → is_active p.status ≡ true
      → p.access_token_encrypted ≡ some (env.encrypt r.access_token)
      → p.token_expires_at ≡ some at
      → env.decrypt (env.encrypt r.access_token) ≡ some r.access_token
      → env.clock w.readings + settings.bitrix_oauth_expiry_skew < at
      → refresh_access_token env settings id false w
        ≡ (ok r.access_token, record w { readings = suc w.readings })
  unfolding refresh_access_token active_portal require_active ◌>>=◌ lift read_clock
  refetched at w found status token expires back fresh =
      rw (found, status, token, expires, lt-ltb _ at fresh, back) refl

  -- After the tokens of a portal in the table are renewed, a reader and a refresh that is not forced
  -- hand out the new access token without another exchange, while the stored time of expiry is ahead of
  -- the clock by more than the safety margin. Decryption undoes encryption.
  pub store_tokens_shared :
      (at : ℕ) (w : World) {p : BitrixPortal}
      → get_portal id w.portals ≡ some p
      → token_expiry r.expires r.expires_in (env.clock w.readings) ≡ ok at
      → env.decrypt (env.encrypt r.access_token) ≡ some r.access_token
      → env.clock (suc w.readings) + settings.bitrix_oauth_expiry_skew < at
      → let w' = (store_tokens env settings id r w).1 in
        let read : Result String × World =
          (ok r.access_token, record w' { readings = suc w'.readings }) in
        (get_access_token env settings id w' ≡ read)
        × (refresh_access_token env settings id false w' ≡ read)
  store_tokens_shared at w {p} found expiry back fresh = (
    get_access_token-store_tokens at w {p = p} found expiry back fresh,
    subst
        (λ v.
          refresh_access_token env settings id false v.1
          ≡ (ok r.access_token, record v.1 { readings = suc v.1.readings }))
        (sym (stored at w expiry))
        (refetched at _ {p = refreshed at p}
          (get-write id (refreshed at) w.portals (λ q. refl) found) refl refl refl back fresh),
  )
