-- ===== src/Shared/Utils/Retries.antt =====
-- The loop of retries ends, and what it comes to.
use netsentry_sensor.Common.{
  ℕ, zero, suc, ◌+◌, ◌-◌, ◌*◌, ◌/◌, ◌%◌, u64_mod, ◌≤◌, ◌<◌, ◌≡◌, List, [], ◌∷◌, length, All, leb,
  arith, if◌then◌else◌, inl, inr,
}
use netsentry_sensor.Common.Outcome.{Result, ok, err, Result-cases}
use netsentry_sensor.Shared.Utils.{Retried, rounds, retry_with_backoff, duration_max, lesser}

module _ {T E S : Type 0} (operation : S → Result T E × S) where
  -- At most `more + 1` calls: the first success, or else the last failure.
  unfoldable pub tries : (more : ℕ) → S → Result T E × S
  tries zero s = operation s
  tries (suc more) s =
      let rest = tries more (operation s).1 in
      elim ((operation s).0) [ ok t ↦ (ok t, (operation s).1) | err e ↦ rest ]

  module _ (max_attempts max_delay : ℕ) where
    rounds-tries :
        (more fuel attempt delay limit : ℕ) (s : S)
        → more < fuel
        → attempt + 1 + more ≡ (if leb max_attempts 1 then 1 else max_attempts)
        → delay ≤ limit
        → max_delay ≤ limit
        → limit * 2 ≤ duration_max
        → (waits : List ℕ) × (rounds operation max_attempts max_delay fuel attempt delay s
            ≡ Retried.returned (tries more s).0 (tries more s).1 waits)
          × (length waits ≤ more)
          × All (λ w. w ≤ limit / 1000000) waits
    unfolding rounds tries
    rounds-tries more zero attempt delay limit s f n d m b = absurd (omega (arith, f))
    rounds-tries zero (suc fuel) attempt delay limit s f n d m b =
        elim (Result-cases (operation s).0) [
          | inl (t, good) ↦ ([], ground (arith, good), omega arith, tt)
          | inr (e, bad) ↦ ([], ground (arith, bad, n), omega arith, tt)
        ]
    rounds-tries (suc more) (suc fuel) attempt delay limit s f n d m b =
        let next = lesser (delay * 2) max_delay in
        let (waits, e, few, small) =
          rounds-tries more fuel (attempt + 1) next limit (operation s).1 (omega (arith, f))
            (ground (arith, n)) (ground (arith, m)) m b in
        elim (Result-cases (operation s).0) [
          | inl (t, good) ↦ ([], ground (arith, good), omega arith, tt)
          | inr (x, bad) ↦ (
            delay / 1000000 % u64_mod ∷ waits,
            ground (arith, bad, n, e, d, b),
            omega (arith, few),
            (ground (arith, d), small),
          )
        ]

  -- For at most 255 attempts and delays far from the largest duration, the loop ends: it calls the
  -- operation until the first success, at most `max_attempts` times but once at least, and returns the
  -- first success or the last failure. No wait may be longer than `limit`, which holds both delays.
  pub retry_with_backoff-tries :
      (max_attempts base_delay max_delay limit : ℕ) (s : S)
      → max_attempts < 256
      → base_delay ≤ limit
      → max_delay ≤ limit
      → limit * 2 ≤ duration_max
      → (waits : List ℕ) × (retry_with_backoff operation max_attempts max_delay base_delay s
          ≡ Retried.returned (tries (max_attempts - 1) s).0 (tries (max_attempts - 1) s).1 waits)
        × (length waits ≤ max_attempts - 1)
        × All (λ w. w ≤ limit / 1000000) waits
  unfolding retry_with_backoff
  retry_with_backoff-tries max_attempts base_delay max_delay limit s few base most far =
      rounds-tries max_attempts max_delay (max_attempts - 1) 256 0 base_delay limit s
        (omega (arith, few)) (ground (arith, few)) base most far
