-- ===== src/Robots/Payload/Bounds.antt =====
-- What the normalisations of app/robots/payload.py promise of a payload that they accept.
use b24_sinedis.Prelude.{
  ℕ, leb, ◌≤◌, ℤ, pos, negsuc, String, ◌≡◌, true, false, ◌&&◌, Option, none, some, Bool-cases, inl,
  inr, leb→le, arith, if◌then◌else◌, comparable_ids, comparable_texts,
}
use b24_sinedis.Prelude.Text.{is_empty, length, strip}
use b24_sinedis.Value.{Value, str, null, Fields}
use b24_sinedis.Runtime.{ok}
use b24_sinedis.Runtime.Results.{
  Returns, Returns-ok, Returns-raised, Returns-then, Returns-any, of_ok,
}
use b24_sinedis.Jobs.Service.{RobotExecutionPayload}
use b24_sinedis.Robots.Payload.{refused, required}
use b24_sinedis.Robots.Payload.Normalize.{
  Readers, Common, common_of, must, within, short_text, comment_of, normalize_robot_payload,
}

abbrev pub IsFull : String → Type 0
IsFull s = is_empty s ≡ false

IsFull-if : (t : String) → Returns IsFull (if is_empty t then refused else ok t)
IsFull-if t = elim (Bool-cases (is_empty t)) [
  | inl e ↦ rw (e) (Returns-raised IsFull _)
  | inr e ↦ rw (e) (Returns-ok IsFull t e)
]

pub required-IsFull : (v : Option Value) → Returns IsFull (required v)
unfolding required
required-IsFull (some (str s)) = IsFull-if (strip s)
required-IsFull _ = Returns-raised IsFull _

-- The credentials of a callback are not blank.
abbrev pub IsComplete : Common → Type 0
IsComplete c = IsFull c.member_id × IsFull c.application_token × IsFull c.event_token

pub common_of-IsComplete : (callback : Fields) → Returns IsComplete (common_of callback)
unfolding common_of
common_of-IsComplete callback = Returns-then (required-IsFull _) λ member m.
    Returns-then (required-IsFull _)
      λ application a. Returns-then (required-IsFull _) λ event e. Returns-ok IsComplete _ (m, a, e)

at_most_Returns : (a b : ℕ) → Returns (λ t. a ≤ b) (must (leb a b))
at_most_Returns a b = elim (Bool-cases (leb a b)) [
  | inl e ↦ rw (e) (Returns-ok (λ t. a ≤ b) true (leb→le a b e))
  | inr e ↦ rw (e) (Returns-raised (λ t. a ≤ b) _)
]

abbrev pub IsWithin : ℕ → ℕ → ℕ → Type 0
IsWithin minimum maximum n = (minimum ≤ n) × (n ≤ maximum)

within-IsWithin :
    (minimum maximum : ℕ) (z : ℤ) → Returns (IsWithin minimum maximum) (within minimum maximum z)
within-IsWithin minimum maximum (pos n) = elim (Bool-cases (leb minimum n && leb n maximum)) [
  | inl e ↦ rw (e) (Returns-ok (IsWithin minimum maximum) n (ground arith))
  | inr e ↦ rw (e) (Returns-raised (IsWithin minimum maximum) _)
]
within-IsWithin minimum maximum (negsuc n) = Returns-raised (IsWithin minimum maximum) _

-- A comment is absent, or neither blank nor too long.
abbrev pub IsComment : Option String → Type 0
IsComment none = Unit
IsComment (some s) = IsFull s × (length s ≤ 1000)

short_text-IsComment : (s : String) → Returns IsComment (short_text s)
short_text-IsComment s = record { value = ground arith }

module _ (readers : Readers) where
  comment_of-IsComment : (v : Option Value) → Returns IsComment (comment_of readers v)
  comment_of-IsComment none = Returns-ok IsComment none tt
  comment_of-IsComment (some null) = Returns-ok IsComment none tt
  comment_of-IsComment (some _) = short_text-IsComment _

  -- A short pause that is accepted.
  abbrev pub IsPause : ℕ → ℕ → RobotExecutionPayload → Type 0
  IsPause minimum_delay maximum_delay c =
      IsWithin minimum_delay maximum_delay c.delay_seconds
      × (length c.member_id ≤ 64)
      × IsFull c.member_id
      × IsFull c.application_token
      × IsFull c.event_token
      × IsComment c.comment

  pub robot_payload-IsPause :
      (minimum_delay maximum_delay : ℕ) (source : Fields)
      → Returns
          (IsPause minimum_delay maximum_delay)
          (normalize_robot_payload readers minimum_delay maximum_delay source)
  unfolding normalize_robot_payload
  robot_payload-IsPause minimum_delay maximum_delay source =
      Returns-then (common_of-IsComplete _) λ common whole.
        Returns-then (at_most_Returns _ _) λ checked short. Returns-any _ λ z.
          Returns-then (within-IsWithin minimum_delay maximum_delay z) λ delay inside.
            Returns-then (comment_of-IsComment _) λ comment brief.
              Returns-ok (IsPause minimum_delay maximum_delay) _
                (inside, short, whole.0, whole.1, whole.2, brief)

pub normalize_robot_payload-IsPause :
    (readers : Readers) (minimum_delay maximum_delay : ℕ) (source : Fields)
    (c : RobotExecutionPayload)
    → normalize_robot_payload readers minimum_delay maximum_delay source ≡ ok c
    → IsPause readers minimum_delay maximum_delay c
normalize_robot_payload-IsPause readers minimum_delay maximum_delay source c e =
    of_ok (IsPause readers minimum_delay maximum_delay) _ c
      (robot_payload-IsPause readers minimum_delay maximum_delay source) e
