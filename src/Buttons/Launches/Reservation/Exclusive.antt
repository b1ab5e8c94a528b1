-- ===== src/Buttons/Launches/Reservation/Exclusive.antt =====
-- What a new row and a write of a row do to the order of the launches.
use b24_sinedis.Prelude.{
  ℕ, leb, ◌≡◌, refl, Bool, true, false, not, ◌&&◌, List, [], ◌∷◌, ◌++◌, map, any, All, arith,
  Bool-cases, inl, inr, if◌then◌else◌, ◌==◌, comparable_ids,
}
use b24_sinedis.Value.{Value, str}
use b24_sinedis.Buttons.Model.{LaunchStatus, starting, WorkflowLaunch}
use b24_sinedis.Buttons.Launches.{conclude, uncertain, release_by, targets, is_open}
use b24_sinedis.Buttons.Launches.Reservation.Serial.{IsSerial, IsOrdered, any_open}

any-added :
    (p : WorkflowLaunch → Bool) (ls : List WorkflowLaunch) (n : WorkflowLaunch)
    → any p ls ≡ false
    → p n ≡ false
    → any p (ls ++ n ∷ []) ≡ false
any-added p [] n h k = ground arith
any-added p (l ∷ ls) n h k = ground (arith, any-added p ls n)

module _ (n : WorkflowLaunch) where
  pub IsSerial-added :
      (ls : List WorkflowLaunch)
      → IsSerial ls
      → any_open n.button_id n.deal_id ls ≡ false
      → IsSerial (ls ++ n ∷ [])
  IsSerial-added [] s h = (ground arith, tt)
  IsSerial-added (l ∷ ls) s h = (first, IsSerial-added ls s.1 (ground (arith, h)))
    where
      first : (is_open l && any (targets l.button_id l.deal_id) (ls ++ n ∷ [])) ≡ false
      first = elim (Bool-cases (is_open l)) [
        | inr e ↦ rw (e) refl
        | inl e ↦
            let others : any (targets l.button_id l.deal_id) ls ≡ false = ground (arith, s.0, e) in
            let apart : targets l.button_id l.deal_id n ≡ false = ground (arith, h, e) in
            rw (e) (any-added (targets l.button_id l.deal_id) ls n others apart)
      ]

  All-added :
      (l : WorkflowLaunch) (ls : List WorkflowLaunch)
      → All (λ k. (targets l.button_id l.deal_id k && leb k.created_at l.created_at) ≡ false) ls
      → (targets l.button_id l.deal_id n && leb n.created_at l.created_at) ≡ false
      → All
          (λ k. (targets l.button_id l.deal_id k && leb k.created_at l.created_at) ≡ false)
          (ls ++ n ∷ [])
  All-added l [] a h = (h, tt)
  All-added l (k ∷ ls) a h = (a.0, All-added l ls a.1 h)

  pub IsOrdered-added :
      (ls : List WorkflowLaunch)
      → IsOrdered ls
      → All (λ l. (targets n.button_id n.deal_id l && leb n.created_at l.created_at) ≡ false) ls
      → IsOrdered (ls ++ n ∷ [])
  IsOrdered-added [] o a = (tt, tt)
  IsOrdered-added (l ∷ ls) o a =
      (All-added l ls o.0 (ground (arith, a.0)), IsOrdered-added ls o.1 a.1)

-- A write that keeps the target and the time of a row, and opens none.
pub record IsMild (g : WorkflowLaunch → WorkflowLaunch) : Type 0 where
  pub keeps_button : (l : WorkflowLaunch) → (g l).button_id ≡ l.button_id
  pub keeps_deal : (l : WorkflowLaunch) → (g l).deal_id ≡ l.deal_id
  pub keeps_time : (l : WorkflowLaunch) → (g l).created_at ≡ l.created_at
  pub opens_none : (l : WorkflowLaunch) → (is_open (g l) && not (is_open l)) ≡ false

module _ (g : WorkflowLaunch → WorkflowLaunch) (mild : IsMild g) where
  any-written :
      (b d : ℕ) (ls : List WorkflowLaunch) → any (targets b d) (map g ls) ≡ any (targets b d) ls
  any-written b d [] = refl
  any-written b d (l ∷ ls) = rw (mild.keeps_button l, mild.keeps_deal l, any-written b d ls) refl

  pub IsSerial-written : (ls : List WorkflowLaunch) → IsSerial ls → IsSerial (map g ls)
  IsSerial-written [] s = tt
  IsSerial-written (l ∷ ls) s = (
    rw (mild.keeps_button l, mild.keeps_deal l, any-written l.button_id l.deal_id ls)
        (ground (arith, s.0, mild.opens_none l)),
    IsSerial-written ls s.1,
  )

  All-written :
      (l : WorkflowLaunch) (ls : List WorkflowLaunch)
      → All (λ k. (targets l.button_id l.deal_id k && leb k.created_at l.created_at) ≡ false) ls
      → All
          (λ k. (targets l.button_id l.deal_id k && leb k.created_at l.created_at) ≡ false)
          (map g ls)
  All-written l [] a = tt
  All-written l (k ∷ ls) a =
      (rw (mild.keeps_time k, mild.keeps_button k, mild.keeps_deal k) a.0, All-written l ls a.1)

  pub IsOrdered-written : (ls : List WorkflowLaunch) → IsOrdered ls → IsOrdered (map g ls)
  IsOrdered-written [] o = tt
  IsOrdered-written (l ∷ ls) o = (
    rw (mild.keeps_time l, mild.keeps_button l, mild.keeps_deal l) (All-written l ls o.0),
    IsOrdered-written ls o.1,
  )

-- One row is written.
pub IsMild-at :
    (id : ℕ) (f : WorkflowLaunch → WorkflowLaunch)
    → IsMild f
    → IsMild (λ l. if l.id == id then f l else l)
IsMild-at id f mild = record {
  keeps_button = λ l. ground (arith, mild.keeps_button l);
  keeps_deal = λ l. ground (arith, mild.keeps_deal l);
  keeps_time = λ l. ground (arith, mild.keeps_time l);
  opens_none = λ l. ground (arith, mild.opens_none l);
}

pub IsMild-release_by : (now user_id : ℕ) → IsMild (release_by now user_id)
IsMild-release_by now user_id = record {
  keeps_button = λ l. refl;
  keeps_deal = λ l. refl;
  keeps_time = λ l. refl;
  opens_none = λ l. refl;
}

abbrev pub is_starting : LaunchStatus → Bool
is_starting starting = true
is_starting _ = false

-- A write of a row that is starting.
abbrev pub once : (WorkflowLaunch → WorkflowLaunch) → WorkflowLaunch → WorkflowLaunch
once f l = if is_starting l.status then f l else l

pub IsMild-uncertain : IsMild (once uncertain)
IsMild-uncertain = record {
  keeps_button = λ l. ground arith;
  keeps_deal = λ l. ground arith;
  keeps_time = λ l. ground arith;
  opens_none = λ l. ground arith;
}

pub IsMild-conclude : (block : Bool) (result : Value) → IsMild (once (conclude block result))
IsMild-conclude block (str s) = record {
  keeps_button = λ l. ground arith;
  keeps_deal = λ l. ground arith;
  keeps_time = λ l. ground arith;
  opens_none = λ l. ground arith;
}
IsMild-conclude block _ = record {
  keeps_button = λ l. ground arith;
  keeps_deal = λ l. ground arith;
  keeps_time = λ l. ground arith;
  opens_none = λ l. ground arith;
}
