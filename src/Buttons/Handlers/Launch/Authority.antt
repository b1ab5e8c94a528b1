-- ===== src/Buttons/Handlers/Launch/Authority.antt =====
-- Who may release which launch: `release` of app/api/workflow_buttons.py.
use b24_sinedis.Prelude.{
  ℕ, suc, ◌+◌, ◌*◌, ◌≤◌, ltb, ◌≡◌, refl, true, false, ◌&&◌, some, List, [], ◌∷◌, find, arith, ◌⊎◌,
  inl, inr, Bool-cases, Option-cases, ◌==◌, comparable_ids,
}
use b24_sinedis.Settings.{Settings, second}
use b24_sinedis.Runtime.{Env, World, ◌>>=◌, raise, lift, read_clock}
use b24_sinedis.Buttons.Model.{WorkflowLaunch}
use b24_sinedis.Buttons.Launches.Reservation.{releases, step}
use b24_sinedis.Buttons.Handlers.{Actor}
use b24_sinedis.Buttons.Handlers.Launch.{find_launch, commit_launch, release}
use b24_sinedis.Buttons.Handlers.Launch.Refinement.{returns}

found-id :
    (portal_id launch_id : ℕ) (ls : List WorkflowLaunch) (l : WorkflowLaunch)
    → find (λ l. l.id == launch_id && l.portal_id == portal_id) ls ≡ some l
    → l.id ≡ launch_id
found-id portal_id launch_id [] l h = absurd (cc h)
found-id portal_id launch_id (k ∷ ls) l h =
    elim (Bool-cases (k.id == launch_id && k.portal_id == portal_id)) [
      | inl e ↦
          let same : k ≡ l = ground (arith, h, e) in
          let here : k.id ≡ launch_id = ground (arith, e) in rw (← same) here
      | inr e ↦ found-id portal_id launch_id ls l (rw (e) at h)
    ]

-- A launch is released by an administrator only, in the administrator's own portal, and when it is at
-- least five minutes old; the release marks this row with the administrator and the time, and no other. A
-- release that is refused leaves the launches as they are.
pub release_refines :
    (env : Env) (settings : Settings) (who : Actor) (launch_id : ℕ) (w : World)
    → let (r, w') = release env settings who launch_id w in
      ((returns r ≡ false) × (w'.launches ≡ w.launches))
      ⊎ ((returns r ≡ true)
          × (who.admin ≡ true)
          × (l : WorkflowLaunch) × (find
                (λ l. l.id == launch_id && l.portal_id == who.portal.id)
                w.launches
              ≡ some l)
          × (l.created_at + 300 * second ≤ env.clock w.readings)
          × (w'.launches
              ≡ step (releases launch_id (env.clock (suc w.readings)) who.user_id) w.launches))
unfolding release find_launch read_clock commit_launch ◌>>=◌ lift raise step
release_refines env settings who launch_id w = elim (Bool-cases who.admin) [
  | inr e ↦ rw (e) (inl (refl, refl))
  | inl e ↦
      elim (Option-cases
        (find (λ l. l.id == launch_id && l.portal_id == who.portal.id) w.launches)) [
          | inl f ↦ rw (e, f) (inl (refl, refl))
          | inr (l, f) ↦
              elim (Bool-cases (ltb (env.clock w.readings) (l.created_at + 300 * second))) [
                | inl t ↦ rw (e, f, t) (inl (refl, refl))
                | inr t ↦
                    let own = found-id who.portal.id launch_id w.launches l f in
                    let old : l.created_at + 300 * second ≤ env.clock w.readings =
                      ground (arith, t) in
                    rw (e, f, t) (inr (refl, refl, l, refl, old, rw (own) refl))
              ]
        ]
]
