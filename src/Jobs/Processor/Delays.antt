-- ===== src/Jobs/Processor/Delays.antt =====
-- `retry_delay_seconds` and `retry_at` of app/jobs/processor.py: the bounds of a delay.
use native.Mathlib.Nat.{mul-le-mul_left, pow-le-pow_right}
use b24_sinedis.Prelude.{ℕ, ℤ, ◌+◌, ◌-◌, ◌≤◌, min, ◌≡◌, Option, none, some, arith}
use b24_sinedis.Settings.{Settings}
use b24_sinedis.Time.{add_delta}
use b24_sinedis.Runtime.{ok}
use b24_sinedis.Jobs.Processor.Retry.{retry_delay_seconds, retry_at, at_least, at_least_after, bind}

-- Delays grow with the attempts, from the base, and never pass the maximum.
pub retry_delay_seconds-bounds :
    (a b base maximum jitter : ℕ) (random_value : ℤ)
    → a ≤ b
    → let delay = λ (n : ℕ). retry_delay_seconds n base maximum jitter random_value in
      (min maximum base ≤ delay a) × (delay a ≤ delay b) × (delay b ≤ maximum)
unfolding retry_delay_seconds
retry_delay_seconds-bounds a b base maximum jitter v h =
    let grown =
      mul-le-mul_left base
        (pow-le-pow_right {n = 2} (omega arith) (let h' : a - 1 ≤ b - 1 = omega arith in h')) in
    let start =
      mul-le-mul_left base
        (pow-le-pow_right {n = 2} (omega arith) (let h' : 0 ≤ a - 1 = omega arith in h')) in
    (omega (arith, start), omega (arith, grown), omega arith)

add_delta-eq : (now d : ℕ) {at : ℕ} → add_delta now d ≡ ok at → at ≡ now + d
unfolding add_delta
add_delta-eq now d h = ground arith

module _ (now d : ℕ) where
  -- The three bounds from below, for each of the four ways.
  raised_to :
      (retry_after reset : Option ℕ) {at : ℕ}
      → bind
          (add_delta now d)
          (λ delayed. bind (at_least_after now retry_after delayed) (λ c. ok (at_least reset c)))
        ≡ ok at
      → (now ≤ at)
        × ((n : ℕ) → retry_after ≡ some n → now + n ≤ at)
        × ((r : ℕ) → reset ≡ some r → r ≤ at)
        × (retry_after ≡ none → reset ≡ none → at ≤ now + d)
  unfolding add_delta
  raised_to none none h = (ground arith, (λ n e. cc), (λ r e. cc), λ e f. ground arith)
  raised_to none (some r) h = (ground arith, (λ n e. cc), (λ r' e. ground arith), λ e f. cc)
  raised_to (some n) none h = (ground arith, (λ n' e. ground arith), (λ r e. cc), λ e f. cc)
  raised_to (some n) (some r) h =
      (ground arith, (λ n' e. ground arith), (λ r' e. ground arith), λ e f. cc)

-- A retry is never earlier than the present, than the portal's `Retry-After`, or than the reset of
-- its operating limit; where the portal gives neither, it is at most the maximal delay away.
pub retry_at-bounds :
    (now attempts : ℕ) (settings : Settings) (random_value : ℤ) (retry_after reset : Option ℕ)
    (at : ℕ)
    → retry_at now attempts settings random_value retry_after reset ≡ ok at
    → (now ≤ at)
      × ((d : ℕ) → retry_after ≡ some d → now + d ≤ at)
      × ((r : ℕ) → reset ≡ some r → r ≤ at)
      × (retry_after ≡ none → reset ≡ none → at ≤ now + settings.worker_retry_max)
unfolding retry_at
retry_at-bounds now attempts settings v retry_after reset at h =
    let delay =
      retry_delay_seconds attempts settings.worker_retry_base settings.worker_retry_max
        settings.worker_retry_jitter v in
    let low = raised_to now delay retry_after reset h in
    let bound =
      (retry_delay_seconds-bounds attempts attempts settings.worker_retry_base
        settings.worker_retry_max settings.worker_retry_jitter v (omega arith)).2 in
    (low.0, low.1, low.2, λ e f. omega (arith, low.3 e f, bound))
