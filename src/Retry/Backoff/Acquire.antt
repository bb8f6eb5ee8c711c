-- ===== src/Retry/Backoff/Acquire.antt =====
-- Strategies and tokens of source/exponential_backoff_retry_strategy.c as they are made, and the
-- answers of schedule_retry.
use aws_c_io.Base.{
  ℕ, ◌+◌, ◌≤◌, ◌<◌, ◌≡◌, ◌≢◌, ◌⊎◌, ◌↔◌, arith, true, none, some, is_some, success, failure,
  max_retries_exceeded, invalid_state, TaskStatus,
}
use aws_c_io.Common.{Common}
use aws_c_io.Retry.{RetryErrorType, client_error}
use aws_c_io.Retry.Backoff.{
  Token, Env, Event, acquired, task_error, Config, Strategy, new_exponential_backoff, acquire_token,
  schedule_retry, token_acquire, retry_task, invoke, clear, out_of_range,
}
use aws_c_io.Retry.Backoff.Delay.{HasWords}
use aws_c_io.Retry.Backoff.Lifetime.{Accounts, Respects, drop_internal-Accounts}

-- A strategy is refused exactly when it is given more than 63 retries, no event loop group or a
-- jitter mode that does not exist.
pub new_exponential_backoff-none_iff :
    (config : Config)
    → (new_exponential_backoff config ≡ none)
      ↔ ((63 < config.max_retries) ⊎ (config.el_group ≡ none) ⊎ (config.jitter_mode ≡ out_of_range))
unfolding new_exponential_backoff
new_exponential_backoff-none_iff config = (λ h. ground arith, λ h. ground arith)

-- A strategy that is made has one reference, allows between 1 and 63 retries, and has a scale factor
-- and a maximum that are not 0.
pub new_exponential_backoff_limits :
    (config : Config) (s : Strategy)
    → new_exponential_backoff config ≡ some s
    → (1 ≤ s.config.max_retries)
      × (s.config.max_retries ≤ 63)
      × (1 ≤ s.config.backoff_scale_factor_ms)
      × (1 ≤ s.config.max_backoff_secs)
      × (s.ref_count ≡ 1)
unfolding new_exponential_backoff
new_exponential_backoff_limits config s h = ground arith

module _ (c : Common) where
  -- The durations of a token fit a uint64_t, whatever its strategy.
  pub acquire_token-HasWords :
      (fn user_data : ℕ) (s : Strategy) → HasWords (acquire_token c fn user_data s).1
  unfolding acquire_token
  acquire_token-HasWords fn user_data s = ground (
    arith,
    c.millis_to_nanos_lem s.config.backoff_scale_factor_ms,
    c.secs_to_nanos_lem s.config.max_backoff_secs,
  )

  cleared-Accounts :
      (fn user_data : ℕ) (s : Strategy)
      → s.config.max_retries ≤ 63
      → Accounts 1 1 (token_acquire (clear (acquire_token c fn user_data s).1))
  unfolding acquire_token token_acquire clear
  cleared-Accounts fn user_data s h = ground arith

  -- The first task hands the user the one reference that acquire_token made: behind it the accounts
  -- of the token hold, if they are kept by the user's function.
  pub acquire_token-Accounts :
      (on_event : Event → Token → Token) (status : TaskStatus) (fn user_data held' more : ℕ)
      (s : Strategy)
      → s.config.max_retries ≤ 63
      → Respects on_event (acquired fn (task_error status) user_data) 1 1 held' more
      → Accounts held' 0 (retry_task on_event status (acquire_token c fn user_data s).1)
  unfolding retry_task invoke acquire_token
  acquire_token-Accounts on_event status fn user_data held' more s h r =
      drop_internal-Accounts held' 0 _ (r.accounts _ (cleared-Accounts fn user_data s h))

  module _ (env : Env) where
    -- Every answer of schedule_retry: a retry beyond the limit is refused and changes nothing; a
    -- token that waits for its retry refuses another and keeps its schedule, though an error that is
    -- not the client's has been counted by then; in all other cases the retry is scheduled, the
    -- reference for it taken and such an error counted.
    pub schedule_retry_cases :
        (held : ℕ) (t : Token) (error_type : RetryErrorType) (fn user_data : ℕ)
        → Accounts held 0 t
        → error_type ≢ client_error
        → let r = schedule_retry c env error_type fn user_data t in
          ((t.max_retries ≤ t.current_retry_count) × (r ≡ (t, failure max_retries_exceeded)))
          ⊎ ((t.current_retry_count < t.max_retries)
              × (is_some t.task ≡ true)
              × (r.1 ≡ failure invalid_state)
              × (r.0.task ≡ t.task)
              × (r.0.ref_count ≡ t.ref_count)
              × (r.0.current_retry_count ≡ t.current_retry_count + 1))
          ⊎ ((t.current_retry_count < t.max_retries)
              × (t.task ≡ none)
              × (r.1 ≡ success)
              × (is_some r.0.task ≡ true)
              × (r.0.retry_ready_fn ≡ some fn)
              × (r.0.ref_count ≡ held + 1)
              × (r.0.current_retry_count ≡ t.current_retry_count + 1))
    unfolding schedule_retry token_acquire
    schedule_retry_cases held t error_type fn user_data a h = ground arith

    -- A retry scheduled with a NULL user_data is not remembered: the token accepts a second one
    -- before the first has run, and takes two references for its one task.
    pub schedule_null_twice :
        (held : ℕ) (t : Token) (fn again user_data : ℕ)
        → Accounts held 0 t
        → t.task ≡ none
        → let first = schedule_retry c env client_error fn 0 t in
          let second = schedule_retry c env client_error again user_data first.0 in
          (first.1 ≡ success)
          × (second.1 ≡ success)
          × (second.0.ref_count ≡ held + 2)
          × (second.0.retry_ready_fn ≡ some again)
    unfolding schedule_retry token_acquire
    schedule_null_twice held t fn again user_data a e = ground arith
