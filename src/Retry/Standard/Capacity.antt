-- ===== src/Retry/Standard/Capacity.antt =====
-- The capacity of the buckets of source/standard_retry_strategy.c.
use aws_c_io.Base.{
  ℕ, ◌+◌, ◌≤◌, ◌<◌, ◌≡◌, ◌≢◌, ◌⊎◌, arith, some, u64, u64_max, u64_mod, min, success, failure,
  retry_permission_denied, OpResult, AwsError,
}
use aws_c_io.Common.{Common}
use aws_c_io.Retry.{RetryErrorType, transient, client_error}
use aws_c_io.Retry.Backoff
use aws_c_io.Retry.Backoff.{Env}
use aws_c_io.Retry.Standard.{Account, put_back, schedule_retry, record_success, on_retry_ready_fn}

-- What holds of a bucket with a token of it.
pub record IsSound (max_capacity : ℕ) (a : Account) : Type 0 where
  pub within : a.current_capacity ≤ max_capacity
  pub priced : a.token.last_retry_cost ≤ 10

-- An amount put back never lifts a bucket above its maximum; where the sum does not wrap it
-- is the sum, up to the maximum.
pub put_back_lem :
    (max_capacity current amount : ℕ)
    → (put_back max_capacity current amount ≤ max_capacity)
      × (current + amount < u64_mod
          → put_back max_capacity current amount ≡ min (current + amount) max_capacity)
unfolding put_back
put_back_lem max_capacity current amount = ground arith

abbrev pub cost : RetryErrorType → ℕ
cost transient = 10
cost _ = 5

module _ (c : Common) (env : Env) (others : ℕ → ℕ) (max_capacity : ℕ) where
  -- Whatever the error, the answer of the backing strategy and what other threads do to the bucket
  -- meanwhile, schedule_retry leaves the bucket at or below its maximum, and the price that a success
  -- would pay back at or below 10.
  pub schedule_retry-IsSound :
      (error_type : RetryErrorType) (fn user_data : ℕ) (a a' : Account) (r : OpResult)
      → IsSound max_capacity a
      → schedule_retry c env others max_capacity error_type fn user_data a ≡ some (a', r)
      → IsSound max_capacity a'
  unfolding schedule_retry
  schedule_retry-IsSound error_type fn user_data a a' r s h = ground arith

  -- An error of the client, and a bucket that is empty, are refused and change nothing.
  pub schedule_retry_denied :
      (error_type : RetryErrorType) (fn user_data : ℕ) (a : Account)
      → (error_type ≡ client_error) ⊎ (a.current_capacity ≡ 0)
      → schedule_retry c env others max_capacity error_type fn user_data a
        ≡ some (a, failure retry_permission_denied)
  unfolding schedule_retry
  schedule_retry_denied error_type fn user_data a h = ground arith

  module _ (error_type : RetryErrorType) (fn user_data : ℕ) (a a' : Account) (b b' : Backoff.Token)
      (r : OpResult) (not_client : error_type ≢ client_error)
      (backing : a.token.exp_backoff_token ≡ some b)
      (scheduled : schedule_retry c env others max_capacity error_type fn user_data a
        ≡ some (a', r)) where
    -- A retry that the backing strategy takes costs the bucket 10 units for a transient error and 5
    -- for another, or all it has left; the token remembers what it paid, holds one more reference and
    -- has the new function to call.
    pub schedule_retry_granted :
        a.current_capacity ≢ 0
        → Backoff.schedule_retry c env error_type on_retry_ready_fn a.token.self b ≡ (b', success)
        → (r ≡ success)
          × (a'.current_capacity + a'.token.last_retry_cost ≡ a.current_capacity)
          × (a'.token.last_retry_cost ≡ min a.current_capacity (cost error_type))
          × (a'.token.ref_count ≡ u64 (a.token.ref_count + 1))
          × (a'.token.original_on_ready ≡ some fn)
          × (a'.token.original_user_data ≡ user_data)
    unfolding schedule_retry
    schedule_retry_granted h k = ground arith

module _ (c : Common) (env : Env) (max_capacity : ℕ) where
  -- Where the backing strategy refuses and no other thread touches the bucket meanwhile, the capacity,
  -- the price remembered and the references are what they were; but the token calls the function of
  -- the refused call from then on, also for a retry that was scheduled before.
  pub schedule_retry_refused :
      (error_type : RetryErrorType) (fn user_data : ℕ) (a : Account) (b b' : Backoff.Token)
      (e : AwsError)
      → error_type ≢ client_error
      → a.current_capacity ≢ 0
      → a.current_capacity ≤ max_capacity
      → max_capacity < u64_mod
      → 0 < a.token.ref_count
      → a.token.ref_count < u64_max
      → a.token.exp_backoff_token ≡ some b
      → Backoff.schedule_retry c env error_type on_retry_ready_fn a.token.self b ≡ (b', failure e)
      → schedule_retry c env (λ n. n) max_capacity error_type fn user_data a
        ≡ some (
          record {
            current_capacity = a.current_capacity;
            token = record a.token {
              exp_backoff_token = some b';
              original_on_ready = some fn;
              original_user_data = user_data;
            };
          },
          failure e,
        )
  unfolding schedule_retry
  schedule_retry_refused error_type fn user_data a b b' e h k l m n o p q = ground arith

-- Recording a success gives the bucket back what the token last paid, up to the maximum, once: a
-- second record changes nothing.
pub record_success_cases :
    (max_capacity : ℕ) (a : Account)
    → IsSound max_capacity a
    → max_capacity + 10 < u64_mod
    → let a' = (record_success max_capacity a).0 in
      (a'.current_capacity ≡ min (a.current_capacity + a.token.last_retry_cost) max_capacity)
      × (a'.token.last_retry_cost ≡ 0)
      × (record_success max_capacity a' ≡ (a', success))
unfolding record_success
record_success_cases max_capacity a s h = ground arith

-- A bucket whose maximum is within 10 of SIZE_MAX loses its capacity to the overflow: a success that
-- pays back past SIZE_MAX leaves less than 10 units.
pub record_success_wraps :
    (max_capacity : ℕ) (a : Account)
    → IsSound max_capacity a
    → max_capacity ≤ u64_max
    → u64_max < a.current_capacity + a.token.last_retry_cost
    → (record_success max_capacity a).0.current_capacity < 10
unfolding record_success
record_success_wraps max_capacity a s h k = ground arith

module _ (c : Common) (env : Env) (max_capacity : ℕ) where
  -- A retry that is granted and then recorded as a success leaves the bucket as it was.
  pub record_success-schedule_retry :
      (error_type : RetryErrorType) (fn user_data : ℕ) (a a' : Account) (b b' : Backoff.Token)
      → error_type ≢ client_error
      → a.current_capacity ≤ max_capacity
      → max_capacity < u64_mod
      → a.token.exp_backoff_token ≡ some b
      → Backoff.schedule_retry c env error_type on_retry_ready_fn a.token.self b ≡ (b', success)
      → schedule_retry c env (λ n. n) max_capacity error_type fn user_data a ≡ some (a', success)
      → (record_success max_capacity a').0.current_capacity ≡ a.current_capacity
  unfolding schedule_retry record_success
  record_success-schedule_retry error_type fn user_data a a' b b' h k l m n o = ground arith
