-- ===== src/Buttons/Handlers/Launch/Refinement.antt =====
-- `launch` of app/api/workflow_buttons.py by the steps of Buttons.Launches.Reservation.
use b24_sinedis.Prelude.{
  ℕ, pos, String, ◌≡◌, refl, ◌∙◌, Bool, true, false, Option, none, some, List, find, arith, ◌⊎◌,
  inl, inr, Bool-cases, ◌==◌, comparable_ids,
}
use b24_sinedis.Value.{Fields, field, end, int}
use b24_sinedis.Settings.{Settings}
use b24_sinedis.Runtime.{
  Result, ok, raised, Env, World, Action, ◌>>=◌, then_do, settle, try_else, pure, raise,
}
use b24_sinedis.Runtime.Contracts.{Outcome, Meets, Meets-raise, Meets-try}
use b24_sinedis.Bitrix.Exceptions.{Failure, bitrix}
use b24_sinedis.Bitrix.Client.Call.{BitrixResponse, call}
use b24_sinedis.Bitrix.OAuth.Portal.{call_portal}
use b24_sinedis.Bitrix.OAuth.Traffic.{call-launches, call_portal-launches}
use b24_sinedis.Buttons.Model.{ButtonSettings, WorkflowButton, WorkflowLaunch}
use b24_sinedis.Buttons.Launches.{
  LaunchRequest, Decision, again, reserved, reserve, conclude, uncertain, write_launch, decide_for,
  decide_with, decide_new, button_for, can_launch, has_request, is_same, must_wait, latest, targets,
}
use b24_sinedis.Buttons.Launches.Reservation.{Step, reserves, concludes, fails, step}
use b24_sinedis.Buttons.Handlers.{Actor}
use b24_sinedis.Buttons.Handlers.Launch.{
  request_of, take_reservation, commit_launch, finish, on_start_failure, start_workflow, proceed,
  deny, launch,
}

-- The outcome of one row.
abbrev pub is_outcome : ℕ → Step → Bool
is_outcome id (concludes i block result) = i == id
is_outcome id (fails i) = i == id
is_outcome id _ = false

abbrev pub returns : {A : Type 0} → Result A → Bool
returns (ok a) = true
returns (raised e) = false

outcome-all :
    {A : Type 0} (R : World → Type 0) (r : Result A) (w : World)
    → R w
    → Outcome (λ a. R) (λ e. R) r w
outcome-all R (ok a) w h = h
outcome-all R (raised e) w h = h

-- The row that a request reserves has the request's new identifier.
module _ (id stamp now : ℕ) (q : LaunchRequest) (ls : List WorkflowLaunch) (l : WorkflowLaunch)
    (s : ButtonSettings) where
  new-id : (b : WorkflowButton) → decide_new id stamp now q ls b ≡ ok (reserved l s) → l.id ≡ id
  new-id b h =
      elim (Bool-cases
        (must_wait now b.settings.cooldown_seconds (latest (targets b.id q.deal_id) ls))) [
          | inl e ↦ absurd (cc (h, e))
          | inr e ↦ cc (h, e)
        ]

  with-id :
      (b : WorkflowButton) (o : Option WorkflowLaunch)
      → decide_with id stamp now q ls b o ≡ ok (reserved l s)
      → l.id ≡ id
  with-id b none h = new-id b h
  with-id b (some k) h = elim (Bool-cases (is_same b.id q k)) [
    | inl e ↦ absurd (cc (h, e))
    | inr e ↦ absurd (cc (h, e))
  ]

  for-id :
      (o : Option WorkflowButton) → decide_for id stamp now q ls o ≡ ok (reserved l s) → l.id ≡ id
  for-id none h = absurd (cc h)
  for-id (some b) h = elim (Bool-cases (can_launch b.settings q.admin q.user_id)) [
    | inl e ↦ with-id b (find (has_request q.portal_id q.request_id) ls) (rw (e) at h)
    | inr e ↦ absurd (cc (h, e))
  ]

module _ (env : Env) (settings : Settings) (id : ℕ) (ls : List WorkflowLaunch) where
  abbrev IsAt : World → Type 0
  IsAt w = w.launches ≡ ls

  abbrev pub IsWritten : List WorkflowLaunch → Type 0
  IsWritten after = (s : Step) × (is_outcome id s ≡ true) × (after ≡ step s ls)

  -- A run that returns has written the outcome of the row, and one that raises has written nothing.
  abbrev Ends : {A : Type 0} → Action A → Type 0
  Ends m = Meets IsAt (λ a w. IsWritten w.launches) (λ e. IsAt) m

  Ends-finish :
      (l : WorkflowLaunch) (f : WorkflowLaunch → WorkflowLaunch) (s : Step)
      → is_outcome id s ≡ true
      → write_launch l.id f ls ≡ step s ls
      → Ends (finish env settings l f)
  unfolding finish commit_launch ◌>>=◌ pure
  Ends-finish l f s own same = record { run = λ w h. (s, own, rw (h) same) }

  Ends-failure :
      (l : WorkflowLaunch) → l.id ≡ id → (e : Failure) → Ends (on_start_failure env settings l e)
  unfolding step
  Ends-failure l own (bitrix e) = Ends-finish l uncertain (fails l.id) (ground (arith, own)) refl
  Ends-failure l own _ = Meets-raise _ (λ w h. h)

  module _ (who : Actor) (deal_id : ℕ) where
    answered :
        (portal_id : ℕ) (method : String) (params : Fields)
        → Meets IsAt (λ a. IsAt) (λ e. IsAt) (call_portal env settings portal_id method params)
    answered portal_id method params = record {
      run = λ w h.
          outcome-all IsAt (call_portal env settings portal_id method params w).0
            (call_portal env settings portal_id method params w).1
            ((call_portal-launches env method params w settings portal_id).1 ∙ h);
    }

    Ends-start :
        (l : WorkflowLaunch) (s : ButtonSettings)
        → l.id ≡ id
        → Ends (start_workflow env settings who deal_id l s)
    unfolding start_workflow step
    Ends-start l s own =
        Meets-try (answered who.portal.id _ _) (λ e. Ends-failure l own e)
          λ response.
            Ends-finish l (conclude s.block_until_released response.result)
              (concludes l.id s.block_until_released response.result) (ground (arith, own)) refl

    -- What a request does after the guards.
    abbrev pub IsConcluded : Result Decision → Result WorkflowLaunch → List WorkflowLaunch → Type 0
    IsConcluded (ok (reserved l s)) (ok k) after = IsWritten after
    IsConcluded _ _ after = after ≡ ls

    proceed-IsConcluded :
        (d : Decision) (w : World)
        → IsAt w
        → ((l : WorkflowLaunch) (s : ButtonSettings) → d ≡ reserved l s → l.id ≡ id)
        → let (r, w') = proceed env settings who deal_id d w in IsConcluded (ok d) r w'.launches
    unfolding pure
    proceed-IsConcluded (again previous) w h own = h
    proceed-IsConcluded (reserved l s) w h own =
        let (r, w') = start_workflow env settings who deal_id l s w in
        ended r w' ((Ends-start l s (own l s refl)).run w h)
      where
        ended :
            (r : Result WorkflowLaunch) (w' : World)
            → Outcome (λ a v. IsWritten v.launches) (λ e. IsAt) r w'
            → IsConcluded (ok (reserved l s)) r w'.launches
        ended (ok k) w' h = h
        ended (raised e) w' h = h

module _ (env : Env) (settings : Settings) (new_id : ℕ) (who : Actor) (field_name : String)
    (deal_id request_id : ℕ) where
  abbrev asked : LaunchRequest
  asked = request_of who field_name deal_id request_id

  -- A reservation stamped with the start of the request's transaction, and what follows from its outcome.
  abbrev pub IsReserved :
      List WorkflowButton
      → List WorkflowLaunch
      → Result WorkflowLaunch
      → List WorkflowLaunch
      → Type 0
  IsReserved buttons before result after =
      (now : ℕ) × IsConcluded env settings new_id
        (step (reserves new_id who.began now asked buttons) before) who deal_id
        (reserve new_id who.began now asked buttons before).0 result after

  take_reservation-IsReserved :
      (v : World)
      → let (r, w) =
          (take_reservation env settings new_id who.began asked
              >>= proceed env settings who deal_id)
            v in
        IsReserved v.buttons v.launches r w.launches
  unfolding take_reservation ◌>>=◌ reserve step
  take_reservation-IsReserved v = (env.clock v.readings, proceeds decision refl)
    where
      decision : Result Decision
      decision =
          decide_for new_id who.began (env.clock v.readings) asked v.launches
            (button_for asked.portal_id asked.field_name v.buttons)

      proceeds :
          (d : Result Decision)
          → decision ≡ d
          → let v' = (take_reservation env settings new_id who.began asked v).1 in
            let (r, w) = then_do d (proceed env settings who deal_id) v' in
            IsConcluded env settings new_id v'.launches who deal_id d r w.launches
      proceeds (raised e) h = refl
      proceeds (ok d) h =
          let v' = (take_reservation env settings new_id who.began asked v).1 in
          proceed-IsConcluded env settings new_id v'.launches who deal_id d v' refl λ l s e.
            for-id new_id who.began (env.clock v.readings) asked v.launches l s
              (button_for asked.portal_id asked.field_name v.buttons) (rw (← e) h)

  abbrev check_deal : World → Result BitrixResponse × World
  check_deal = call env who.client "crm.deal.get" (field "id" (int (pos deal_id)) end)

  launch-IsReserved :
      (w : World)
      → let (r, w') = launch env settings new_id who field_name deal_id request_id w in
        ((returns (check_deal w).0 ≡ false) × (returns r ≡ false) × (w'.launches ≡ w.launches))
        ⊎ ((returns (check_deal w).0 ≡ true) × IsReserved w.buttons w.launches r w'.launches)
  unfolding launch try_else raise
  launch-IsReserved w =
      let kept =
        call-launches env "crm.deal.get" (field "id" (int (pos deal_id)) end) w who.client in
      checked (check_deal w).0 (check_deal w).1 kept.0 kept.1
    where
      checked :
          (d : Result BitrixResponse) (v : World)
          → v.buttons ≡ w.buttons
          → v.launches ≡ w.launches
          → let (r, w') =
              settle
                (λ deal.
                  take_reservation env settings new_id who.began asked
                  >>= proceed env settings who deal_id)
                (λ e. raise (deny env settings e))
                d
                v in
            ((returns d ≡ false) × (returns r ≡ false) × (w'.launches ≡ w.launches))
            ⊎ ((returns d ≡ true) × IsReserved w.buttons w.launches r w'.launches)
      checked (raised e) v bs ls = inl (refl, refl, ls)
      checked (ok deal) v bs ls = inr (refl, rw (← bs, ← ls) (take_reservation-IsReserved v))

-- Whatever the portal answers, a launch whose caller cannot read the deal is refused and leaves the
-- launches as they are; any other one makes one reservation, stamped with the start of the request's
-- transaction. If a row is reserved, a launch that returns has then written the outcome of this row and
-- no other, and one that raises has written nothing more; if none is reserved, nothing more is written.
pub launch_refines :
    (env : Env) (settings : Settings) (new_id : ℕ) (who : Actor) (field_name : String)
    (deal_id request_id : ℕ) (w : World)
    → let (r, w') = launch env settings new_id who field_name deal_id request_id w in
      let readable =
        returns (call env who.client "crm.deal.get" (field "id" (int (pos deal_id)) end) w).0 in
      ((readable ≡ false) × (returns r ≡ false) × (w'.launches ≡ w.launches))
      ⊎ ((readable ≡ true)
          × IsReserved env settings new_id who field_name deal_id request_id w.buttons w.launches r
              w'.launches)
launch_refines env settings new_id who field_name deal_id request_id w =
    launch-IsReserved env settings new_id who field_name deal_id request_id w
