-- ===== src/Installation/Effects.antt =====
-- Which callbacks an installation allows, and which its removal refuses.
use text.Mathlib.TextEquality.{eq_iff}
use mathlib.Core.Path.{subst}
use b24_sinedis.Prelude.{
  ℕ, String, ◌≡◌, refl, ap, ◌∙◌, Bool, true, false, Option, none, some, List, find, or_else, arith,
  if◌then◌else◌, ◌==◌, comparable_texts,
}
use b24_sinedis.Settings.{Settings}
use b24_sinedis.Portals.{BitrixPortal}
use b24_sinedis.Runtime.{Result, ok, raised, Env, World}
use b24_sinedis.Bitrix.Exceptions.{credential_error, lifecycle_error}
use b24_sinedis.Bitrix.Registration.{RobotDefinition}
use b24_sinedis.Jobs.Service.{credentials_of}
use b24_sinedis.Jobs.Service.Promises.{IsVerified}
use b24_sinedis.Installation.Payload.{BitrixAuthPayload}
use b24_sinedis.Installation.Service.{
  verified, LifecycleResponse, PortalValues, set_values, new_portal, is_member, verified, confirmed,
}
use b24_sinedis.Installation.Rows.{stopped, find-upsert_any, find-deactivate_any}
use b24_sinedis.Installation.Lifecycle.{IsInstalled}
use b24_sinedis.Installation.Removal.{IsStopped}

module _ (env : Env) (settings : Settings) (registry : List RobotDefinition) (base_url : String)
    (hash_token : String → Result String) (verify : String → String → Result Bool) (new_id : ℕ)
    (start : World) where
  -- What a look-up by any member finds: one row in place of the member's, the others as before.
  abbrev pub Replaces : String → BitrixPortal → World → Type 0
  Replaces member_id p w =
      (n : String)
      → find (is_member n) w.portals
        ≡ (if member_id == n then some p else find (is_member n) start.portals)

  -- The row that an installation leaves: that of the member, or a new one, with the new values.
  abbrev pub installed_row : String → PortalValues → BitrixPortal
  installed_row member_id v =
      set_values v
        (or_else (find (is_member member_id) start.portals) (new_portal new_id member_id v))

  abbrev pub Allows : BitrixAuthPayload → LifecycleResponse → World → Type 0
  Allows auth r w =
      (token : String) × (auth.application_token ≡ some token)
      × (r.member_id ≡ auth.member_id)
      × (v : PortalValues) × Replaces auth.member_id (installed_row auth.member_id v) w
      × IsVerified env verify w auth.member_id token (installed_row auth.member_id v)
      × (w.jobs ≡ start.jobs)

  abbrev pub Forbids : BitrixAuthPayload → LifecycleResponse → World → Type 0
  Forbids auth r w =
      (token : String) × (auth.application_token ≡ some token)
      × (r.member_id ≡ auth.member_id)
      × (q : BitrixPortal) × (find (is_member auth.member_id) start.portals ≡ some q)
      × (hash : String) × (q.application_token_hash ≡ some hash)
      × (verify token hash ≡ ok true)
      × Replaces auth.member_id (stopped q) w
      × ((any_token : String)
          → credentials_of env verify auth.member_id any_token w ≡ (raised credential_error, w))
      × (w.jobs ≡ start.jobs)

  at_member :
      (m : String) (p : BitrixPortal) (w : World)
      → Replaces m p w
      → find (is_member m) w.portals ≡ some p
  at_member m p w h = h m ∙ rw (same m) refl
    where
      same : (s : String) → (s == s) ≡ true
      same s = ground (arith, eq_iff s s)

  pub Allows-of_installed :
      ((t h : String) → hash_token t ≡ ok h → verify t h ≡ ok true)
      → (auth : BitrixAuthPayload) (r : LifecycleResponse) (w : World)
      → IsInstalled env settings registry base_url hash_token verify new_id start auth r w
      → Allows auth r w
  Allows-of_installed law auth r w (token, given, member, (v, hashed, rows, jobs)) =
      let replaced : Replaces auth.member_id (installed_row auth.member_id v) w =
        λ n. rw (rows) (find-upsert_any new_id auth.member_id v start.portals n) in
      (
        token,
        given,
        member,
        v,
        replaced,
        rw
            (
              at_member auth.member_id (installed_row auth.member_id v) w replaced,
              law token v.application_token_hash hashed,
            )
            refl,
        jobs,
      )

  abbrev Went : String → BitrixPortal → BitrixPortal → Type 0
  Went token p q =
      (p ≡ q)
      × (hash : String) × (q.application_token_hash ≡ some hash)
      × (verify token hash ≡ ok true)

  verified_row :
      (token : String) (p q : BitrixPortal) (hash : String) (b : Result Bool)
      → p.application_token_hash ≡ some hash
      → verify token hash ≡ b
      → verified env settings registry base_url hash_token verify new_id p b ≡ ok q
      → Went token p q
  verified_row token p q hash (ok true) e g h =
      let same : p ≡ q = cc h in
      (same, hash, subst (λ x. x.application_token_hash ≡ some hash) same e, g)
  verified_row token p q hash (ok false) e g h = absurd (cc h)
  verified_row token p q hash (raised x) e g h = absurd (cc h)

  hashed_row :
      (token : String) (p q : BitrixPortal) (s : Option String)
      → p.application_token_hash ≡ s
      → (elim s [
        | none ↦ raised lifecycle_error
        | some hash ↦
            verified env settings registry base_url hash_token verify new_id p (verify token hash)
      ])
        ≡ ok q
      → Went token p q
  hashed_row token p q none e h = absurd (cc h)
  hashed_row token p q (some hash) e h = verified_row token p q hash (verify token hash) e refl h

  -- What a confirmed token went through.
  confirmed_row :
      (token : String) (o : Option BitrixPortal) (q : BitrixPortal)
      → confirmed env settings registry base_url hash_token verify new_id token o ≡ ok q
      → (o ≡ some q)
        × (hash : String) × (q.application_token_hash ≡ some hash)
        × (verify token hash ≡ ok true)
  confirmed_row token none q h = absurd (cc h)
  confirmed_row token (some p) q h =
      let (same, hash, stored, checked) = hashed_row token p q p.application_token_hash refl h in
      (ap some same, hash, stored, checked)

  pub Forbids-of_stopped :
      (auth : BitrixAuthPayload) (r : LifecycleResponse) (w : World)
      → IsStopped env settings registry base_url hash_token verify new_id start auth r w
      → Forbids auth r w
  unfolding credentials_of
  Forbids-of_stopped auth r w (token, given, q, confirms, member, rows, jobs) =
      let (found, hash, stored, checked) = confirmed_row token _ q confirms in
      let replaced : Replaces auth.member_id (stopped q) w =
        λ n. rw (rows) (find-deactivate_any auth.member_id start.portals n ∙ rw (found) refl) in
      (
        token,
        given,
        member,
        q,
        found,
        hash,
        stored,
        checked,
        replaced,
        λ t. rw (at_member auth.member_id (stopped q) w replaced) refl,
        jobs,
      )
