-- ===== src/Retry/Backoff/Delay.antt =====
-- The waiting times that source/exponential_backoff_retry_strategy.c computes.
use aws_c_io.Base.{ℕ, ◌*◌, ◌^◌, ◌≤◌, ◌<◌, ◌≡◌, ◌⊎◌, ◌≢◌, min, max, refl, arith, u64_max}
use aws_c_io.Common.{Common}
use aws_c_io.Retry.Backoff.{
  Token, Env, JitterMode, no_jitter, decorrelated_jitter, random_in_range, compute_no_jitter,
  compute_full_jitter, compute_decorrelated_jitter, compute_backoff,
}

-- The two durations of a token are uint64_t.
pub record HasWords (t : Token) : Type 0 where
  pub scale_word : t.backoff_scale_factor_ns ≤ u64_max
  pub maximum_word : t.maximum_backoff_ns ≤ u64_max

module _ (c : Common) (env : Env) where
  pub random_in_range_bounds :
      (from to : ℕ) (t : Token)
      → from ≤ u64_max
      → to ≤ u64_max
      → ((from ≡ to) × (random_in_range c env from to t ≡ 0))
        ⊎ ((from ≢ to)
            × (min from to ≤ random_in_range c env from to t)
            × (random_in_range c env from to t < max from to))
  unfolding random_in_range
  random_in_range_bounds from to t hf ht = simp (c.max_u64_lem, c.min_u64_lem) (ground arith)

  pub compute_no_jitter_lem :
      (t : Token)
      → t.maximum_backoff_ns ≤ u64_max
      → compute_no_jitter c t
        ≡ min (2 ^ min t.current_retry_count 63 * t.backoff_scale_factor_ns) t.maximum_backoff_ns
  unfolding compute_no_jitter
  compute_no_jitter_lem t h = simp (c.min_u64_lem, c.mul_u64_saturating_lem) (omega arith)

  compute_full_jitter_bounds :
      (t : Token)
      → HasWords t
      → (compute_full_jitter c env t ≡ 0) ⊎ (compute_full_jitter c env t < compute_no_jitter c t)
  unfolding compute_full_jitter
  compute_full_jitter_bounds t w = ground (
    arith,
    compute_no_jitter_lem t w.maximum_word,
    random_in_range_bounds 0 (compute_no_jitter c t) t,
  )

  -- In every jitter mode and whatever the random source answers, the computed wait is at most the
  -- longer of the scale factor and the maximum backoff.
  pub compute_backoff-le-max :
      (mode : JitterMode) (t : Token)
      → HasWords t
      → compute_backoff c env mode t ≤ max t.backoff_scale_factor_ns t.maximum_backoff_ns
  unfolding compute_backoff compute_decorrelated_jitter
  compute_backoff-le-max mode t w = ground (
    arith,
    compute_no_jitter_lem t w.maximum_word,
    compute_full_jitter_bounds t w,
    c.min_u64_lem t.maximum_backoff_ns (c.mul_u64_saturating t.last_backoff 3),
    random_in_range_bounds t.backoff_scale_factor_ns
        (c.min_u64 t.maximum_backoff_ns (c.mul_u64_saturating t.last_backoff 3)) t,
  )

  -- After a first backoff, decorrelated jitter draws below one end and from the other, where the
  -- ends are the scale factor and the lesser of the maximum and three times the last backoff; where
  -- the ends are equal it does not wait at all.
  pub decorrelated_range :
      (t : Token) (upper : ℕ)
      → HasWords t
      → t.last_backoff ≢ 0
      → upper ≡ min t.maximum_backoff_ns (t.last_backoff * 3)
      → let b = compute_backoff c env decorrelated_jitter t in
        let scale = t.backoff_scale_factor_ns in
        ((scale < upper) × (scale ≤ b) × (b < upper))
        ⊎ ((upper < scale) × (upper ≤ b) × (b < scale))
        ⊎ ((scale ≡ upper) × (b ≡ 0))
  unfolding compute_backoff compute_decorrelated_jitter
  decorrelated_range t upper w h e = ground (
    arith,
    c.mul_u64_saturating_lem t.last_backoff 3,
    c.min_u64_lem t.maximum_backoff_ns (c.mul_u64_saturating t.last_backoff 3),
    random_in_range_bounds t.backoff_scale_factor_ns
        (c.min_u64 t.maximum_backoff_ns (c.mul_u64_saturating t.last_backoff 3)) t,
  )

module _ (c : Common) where
  -- Without jitter the wait is the scale factor doubled once per retry, up to the maximum; no
  -- saturation of the 64-bit product is ever visible in it.
  pub no_jitter_exact :
      (env : Env) (t : Token)
      → HasWords t
      → t.current_retry_count ≤ 63
      → compute_backoff c env no_jitter t
        ≡ min (2 ^ t.current_retry_count * t.backoff_scale_factor_ns) t.maximum_backoff_ns
  unfolding compute_backoff
  no_jitter_exact env t w h =
      let e : min t.current_retry_count 63 ≡ t.current_retry_count = omega arith in
      rw (compute_no_jitter_lem c env t w.maximum_word, e) refl
