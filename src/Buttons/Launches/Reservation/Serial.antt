-- ===== src/Buttons/Launches/Reservation/Serial.antt =====
-- The launches of one button and deal by their times: the latest of them and the open one.
use b24_sinedis.Prelude.{
  ℕ, ◌+◌, ◌*◌, ◌<◌, ltb, leb, ◌≡◌, refl, ◌∙◌, Bool, true, false, ◌&&◌, Option, none, some, List, [],
  ◌∷◌, any, All, arith, Bool-cases, inl, inr, comparable_ids, comparable_texts,
}
use b24_sinedis.Settings.{second}
use b24_sinedis.Buttons.Model.{WorkflowLaunch}
use b24_sinedis.Buttons.Launches.{targets, is_open, must_wait, latest, later}

-- An open launch is the last of its button and deal.
abbrev pub IsSerial : List WorkflowLaunch → Type 0
IsSerial [] = Unit
IsSerial (l ∷ ls) = ((is_open l && any (targets l.button_id l.deal_id) ls) ≡ false) × IsSerial ls

-- The launches of one button and deal are in the order of their times.
abbrev pub IsOrdered : List WorkflowLaunch → Type 0
IsOrdered [] = Unit
IsOrdered (l ∷ ls) =
    All (λ k. (targets l.button_id l.deal_id k && leb k.created_at l.created_at) ≡ false) ls
    × IsOrdered ls

module _ (p : WorkflowLaunch → Bool) where
  latest-none : (ls : List WorkflowLaunch) → latest p ls ≡ none → any p ls ≡ false
  unfolding latest
  latest-none [] h = refl
  latest-none (l ∷ ls) h = ground (arith, latest-none ls)

  latest-some :
      (ls : List WorkflowLaunch) {k : WorkflowLaunch} → latest p ls ≡ some k → any p ls ≡ true
  unfolding latest
  latest-some [] h = absurd (cc h)
  latest-some (l ∷ ls) {k} h = elim (Bool-cases (p l)) [
    | inl e ↦ rw (e) refl
    | inr e ↦ rw (e) (latest-some ls {k = k} (cc (h, e)))
  ]

  later_after :
      (c : ℕ) (l : WorkflowLaunch) (r : Option WorkflowLaunch)
      → c < l.created_at
      → ((k : WorkflowLaunch) → r ≡ some k → c < k.created_at)
      → c < (later r l).created_at
  later_after c l none h f = h
  later_after c l (some k) h f = elim (Bool-cases (ltb l.created_at k.created_at)) [
    | inl e ↦ rw (e) (f k refl)
    | inr e ↦ rw (e) h
  ]

  latest_after :
      (c : ℕ) (ls : List WorkflowLaunch)
      → All (λ l. (p l && leb l.created_at c) ≡ false) ls
      → (k : WorkflowLaunch) → latest p ls ≡ some k
      → c < k.created_at
  unfolding latest
  latest_after c [] a k h = absurd (cc h)
  latest_after c (l ∷ ls) a k h = elim (Bool-cases (p l)) [
    | inl e ↦
        let same : later (latest p ls) l ≡ k = cc (h, e) in
        let here : c < l.created_at = ground (arith, a.0, e) in
        rw (← same) (later_after c l (latest p ls) here (latest_after c ls a.1))
    | inr e ↦ latest_after c ls a.1 k (cc (h, e))
  ]

  abbrev is_before : ℕ → Option WorkflowLaunch → Bool
  is_before m none = true
  is_before m (some k) = ltb k.created_at m

  later_before :
      (m : ℕ) (l : WorkflowLaunch) (r : Option WorkflowLaunch)
      → is_before m (some (later r l)) ≡ true
      → (is_before m r && ltb l.created_at m) ≡ true
  later_before m l none h = h
  later_before m l (some k) h = ground (arith, h)

  -- No launch that passes is later than the latest.
  latest_covers :
      (m : ℕ) (ls : List WorkflowLaunch)
      → is_before m (latest p ls) ≡ true
      → All (λ l. (p l && leb m l.created_at) ≡ false) ls
  unfolding latest
  latest_covers m [] h = tt
  latest_covers m (l ∷ ls) h = elim (Bool-cases (p l)) [
    | inl e ↦
        let both = later_before m l (latest p ls) (rw (e) at h) in
        (ground (arith, both), latest_covers m ls (ground (arith, both)))
    | inr e ↦ (rw (e) refl, latest_covers m ls (rw (e) at h))
  ]

  -- Once the cooldown of the latest launch has passed, a reservation within the same cooldown from the
  -- start of its transaction is stamped later than every launch before it.
  pub stamped_later :
      (now cooldown stamp : ℕ) (ls : List WorkflowLaunch)
      → must_wait now cooldown (latest p ls) ≡ false
      → now < stamp + cooldown * second
      → All (λ l. (p l && leb stamp l.created_at) ≡ false) ls
  stamped_later now cooldown stamp ls h prompt = latest_covers stamp ls (passed (latest p ls) h)
    where
      passed :
          (r : Option WorkflowLaunch) → must_wait now cooldown r ≡ false → is_before stamp r ≡ true
      passed none h = refl
      passed (some k) h = ground (arith, h, prompt)

module _ (b d : ℕ) where
  abbrev pub any_open : List WorkflowLaunch → Bool
  any_open ls = any (λ l. targets b d l && is_open l) ls

  none_target : (ls : List WorkflowLaunch) → any (targets b d) ls ≡ false → any_open ls ≡ false
  none_target [] h = refl
  none_target (l ∷ ls) h = ground (arith, none_target ls)

  same_target :
      (l : WorkflowLaunch) (ls : List WorkflowLaunch)
      → targets b d l ≡ true
      → any (targets l.button_id l.deal_id) ls ≡ any (targets b d) ls
  same_target l ls h =
      let e : l.button_id ≡ b = ground (arith, h) in
      let f : l.deal_id ≡ d = ground (arith, h) in rw (e, f) refl

  module _ (now cooldown : ℕ) where
    first_of_target :
        (l : WorkflowLaunch) (ls : List WorkflowLaunch)
        → (is_open l && any (targets l.button_id l.deal_id) ls) ≡ false
        → All (λ k. (targets l.button_id l.deal_id k && leb k.created_at l.created_at) ≡ false) ls
        → targets b d l ≡ true
        → must_wait now cooldown (some (later (latest (targets b d) ls) l)) ≡ false
        → (must_wait now cooldown (latest (targets b d) ls) ≡ false → any_open ls ≡ false)
        → (r : Option WorkflowLaunch) → latest (targets b d) ls ≡ r
        → any_open (l ∷ ls) ≡ false
    first_of_target l ls s o e h rest none f =
        let waits : must_wait now cooldown (some l) ≡ false = cc (h, f) in
        let closed : is_open l ≡ false = ground (arith, waits) in
        let empty = none_target ls (latest-none (targets b d) ls f) in rw (closed, e) empty
    first_of_target l ls s o e h rest (some k) f =
        let one : l.button_id ≡ b = ground (arith, e) in
        let two : l.deal_id ≡ d = ground (arith, e) in
        let here : All (λ k. (targets b d k && leb k.created_at l.created_at) ≡ false) ls =
          rw (one, two) at o in
        let after : ltb l.created_at k.created_at ≡ true =
          ground (arith, latest_after (targets b d) l.created_at ls here k f) in
        let waits : must_wait now cooldown (latest (targets b d) ls) ≡ false = cc (h, after, f) in
        let taken : any (targets l.button_id l.deal_id) ls ≡ true =
          same_target l ls e ∙ latest-some (targets b d) ls {k = k} f in
        let closed : is_open l ≡ false = ground (arith, s, taken) in rw (closed, e) (rest waits)

    -- A launch that need not wait finds no open launch of its target.
    pub none_open :
        (ls : List WorkflowLaunch)
        → IsSerial ls
        → IsOrdered ls
        → must_wait now cooldown (latest (targets b d) ls) ≡ false
        → any_open ls ≡ false
    unfolding latest
    none_open [] s o h = refl
    none_open (l ∷ ls) s o h = elim (Bool-cases (targets b d l)) [
      | inr e ↦ rw (e) (none_open ls s.1 o.1 (cc (h, e)))
      | inl e ↦
          let waits : must_wait now cooldown (some (later (latest (targets b d) ls) l)) ≡ false =
            cc (h, e) in
          first_of_target l ls s.0 o.0 e waits (none_open ls s.1 o.1) (latest (targets b d) ls) refl
    ]
