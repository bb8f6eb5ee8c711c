-- ===== src/Retry/Standard/Tests.antt =====
-- Runs of source/standard_retry_strategy.c at concrete values.
use aws_c_io.Base.{
  ℕ, ◌+◌, ◌<◌, ◌≡◌, inl, ◌==◌, min, refl, arith, Bool, true, false, Option, none, some, List, [],
  ◌∷◌, success, failure, retry_permission_denied, max_retries_exceeded, operation_cancelled,
  u64_max, if◌then◌else◌,
}
use aws_c_io.Common.{common}
use aws_c_io.Retry.{transient, client_error}
use aws_c_io.Retry.Backoff
use aws_c_io.Retry.Backoff.{Env, default_gen_rand, no_jitter}
use aws_c_io.Retry.Standard.{
  BucketToken, Account, Strategy, acquire_token, on_token_acquired, schedule_retry, record_success,
  on_retry_ready_fn, find,
}
use aws_c_io.Retry.Standard.Capacity.{
  IsSound, schedule_retry_denied, record_success_cases, record_success_wraps,
}
use aws_c_io.Retry.Standard.Buckets.{
  acquire_token_shares, acquire_token_destroys, on_token_acquired_canceled,
}

abbrev env : Env
env = record { random_impl = λ f d. 7; random = 5; current_time = 1000 }

-- A backing token with `used` of its three retries behind it.
abbrev backing : ℕ → Backoff.Token
backing used = record {
  ref_count = 1;
  current_retry_count = used;
  last_backoff = 0;
  max_retries = 3;
  backoff_scale_factor_ns = 100000000;
  maximum_backoff_ns = 20000000000;
  jitter_mode = no_jitter;
  generate_random_impl = some default_gen_rand;
  generate_random_user_data = 0;
  acquired_fn = none;
  retry_ready_fn = none;
  user_data = 0;
  task = none;
  freed = false;
}

abbrev token : Option Backoff.Token → BucketToken
token b = record {
  self = 77;
  ref_count = 1;
  strategy_bucket = 0;
  exp_backoff_token = b;
  original_on_acquired = 20;
  original_on_ready = none;
  last_retry_cost = 1;
  original_user_data = 4;
  freed = false;
}

-- 8 units are left of 500.
abbrev low : ℕ → Account
low used = record { current_capacity = 8; token = token (some (backing used)) }

low-IsSound : (used : ℕ) → IsSound 500 (low used)
low-IsSound used = omega arith

abbrev backed : ℕ → Backoff.Token
backed used = (Backoff.schedule_retry common env transient on_retry_ready_fn 77 (backing used)).0

abbrev paid : Account
paid = record {
  current_capacity = 0;
  token = record (token (some (backed 2))) {
    ref_count = 2;
    last_retry_cost = 8;
    original_on_ready = some 30;
    original_user_data = 5;
  };
}

granted : schedule_retry common env (λ n. n) 500 transient 30 5 (low 2) ≡ some (paid, success)
unfolding schedule_retry Backoff.schedule_retry
granted = ground arith

schedule_retry_denied_example :
    schedule_retry common env (λ n. n) 500 client_error 30 5 (low 2)
    ≡ some (low 2, failure retry_permission_denied)
schedule_retry_denied_example =
    schedule_retry_denied common env (λ n. n) 500 client_error 30 5 (low 2) (inl refl)

backing_takes :
    Backoff.schedule_retry common env transient on_retry_ready_fn 77 (backing 2)
    ≡ (backed 2, success)
unfolding Backoff.schedule_retry
backing_takes = refl

backing_refuses :
    Backoff.schedule_retry common env transient on_retry_ready_fn 77 (backing 3)
    ≡ (backing 3, failure max_retries_exceeded)
unfolding Backoff.schedule_retry
backing_refuses = refl

record_success_cases_example : (record_success 500 (low 2)).0.current_capacity ≡ min (8 + 1) 500
record_success_cases_example = (record_success_cases 500 (low 2) (low-IsSound 2) (omega arith)).0

abbrev brimful : Account
brimful = record { current_capacity = u64_max; token = token none }

record_success_wraps_example : (record_success u64_max brimful).0.current_capacity < 10
record_success_wraps_example =
    record_success_wraps u64_max brimful (omega arith) (omega arith) (omega arith)

-- Bytes are equal here if they agree in their lengths.
abbrev same : List ℕ → List ℕ → Bool
same [] [] = true
same (x ∷ p) (y ∷ q) = same p q
same _ _ = false

abbrev stocked : Strategy
stocked = record {
  max_capacity = 500;
  ref_count = 2;
  token_buckets = (97 ∷ [], 0) ∷ [];
  capacity = λ i. if i == 0 then some 500 else none;
  next_bucket = 1;
}

abbrev handed : ℕ → BucketToken
handed self = record (token none) { self = self }

same_congr : (r : List ℕ) → same r (97 ∷ []) ≡ same r (65 ∷ [])
same_congr [] = refl
same_congr (x ∷ []) = refl
same_congr (x ∷ y ∷ r) = refl

acquire_token_shares_example : (handed 78).strategy_bucket ≡ (handed 77).strategy_bucket
unfolding acquire_token find
acquire_token_shares_example =
    acquire_token_shares same (97 ∷ []) (65 ∷ []) 77 20 4 78 20 4 stocked
      (record stocked { ref_count = 3 }) (record stocked { ref_count = 4 }) (handed 77) (handed 78)
      refl same_congr refl refl

acquire_token_destroys_example :
    let r = acquire_token same false (some (97 ∷ [])) 77 20 4 stocked in
    (r.1 ≡ none) × (r.0.capacity 0 ≡ none)
unfolding find
acquire_token_destroys_example =
    acquire_token_destroys same (97 ∷ []) 77 20 4 stocked (97 ∷ [], 0) refl

on_token_acquired_canceled_example :
    on_token_acquired (λ e t. t) (failure operation_cancelled) (backing 0) (token none) ≡ token none
on_token_acquired_canceled_example =
    on_token_acquired_canceled (λ e t. t) operation_cancelled (backing 0) (token none)
      (λ error fn user_data u. refl) refl refl refl
