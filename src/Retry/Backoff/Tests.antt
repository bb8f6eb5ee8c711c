-- ===== src/Retry/Backoff/Tests.antt =====
-- Runs of source/exponential_backoff_retry_strategy.c at concrete values.
use aws_c_io.Base.{
  ℕ, ◌+◌, ◌≤◌, ◌<◌, ◌≡◌, ◌⊎◌, ◌↔◌, refl, arith, true, false, none, some, is_some, success, failure,
  max_retries_exceeded, invalid_state, run_ready,
}
use aws_c_io.Common.{common}
use aws_c_io.Retry.{transient, client_error}
use aws_c_io.Retry.Backoff.{
  Token, Env, Config, Strategy, default_gen_rand, no_jitter, decorrelated_jitter, out_of_range,
  new_exponential_backoff, acquire_token, schedule_retry, compute_backoff,
  compute_decorrelated_jitter, random_in_range, retry_task,
}
use aws_c_io.Retry.Backoff.Delay.{compute_backoff-le-max}
use aws_c_io.Retry.Backoff.Lifetime.{Accounts, System, Inv, Step, Reach, schedule, here, next}
use aws_c_io.Retry.Backoff.Acquire.{
  new_exponential_backoff-none_iff, acquire_token-Accounts, schedule_retry_cases,
  schedule_null_twice,
}

-- 100 ms doubled up to 20 s, two retries used, the last backoff 150 ms.
abbrev token : Token
token = record {
  ref_count = 1;
  current_retry_count = 2;
  last_backoff = 150000000;
  max_retries = 3;
  backoff_scale_factor_ns = 100000000;
  maximum_backoff_ns = 20000000000;
  jitter_mode = decorrelated_jitter;
  generate_random_impl = some default_gen_rand;
  generate_random_user_data = 0;
  acquired_fn = none;
  retry_ready_fn = none;
  user_data = 0;
  task = none;
  freed = false;
}

abbrev env : Env
env = record { random_impl = λ f d. 7; random = 5; current_time = 1000 }

token-Accounts : Accounts 1 0 token
token-Accounts = ground arith

compute_backoff-le-max_example : compute_backoff common env decorrelated_jitter token ≤ 20000000000
compute_backoff-le-max_example =
    compute_backoff-le-max common env decorrelated_jitter token (omega arith)

decorrelated_run : compute_backoff common env decorrelated_jitter token ≡ 100000007
unfolding compute_backoff compute_decorrelated_jitter random_in_range
decorrelated_run = refl

abbrev scale : ℕ
scale = 100000000

abbrev upper : ℕ
upper = 450000000

-- The user schedules one more retry, which runs; the user's function only looks at the token.
abbrev start : System
start = record { held = 1; granted = 2; token = token }

start-Inv : Inv start
start-Inv = record { accounts = token-Accounts; paid = omega arith }

abbrev scheduled : System
scheduled = record {
  held = 1;
  granted = 3;
  token = (schedule_retry common env transient 40 9 token).0;
}

scheduling : Step common start scheduled
unfolding schedule_retry
scheduling = schedule env transient 40 9 (omega arith) (omega arith)

run : Reach common start scheduled
run = next here scheduling

schedule_retry_cases_example :
    let r = schedule_retry common env transient 40 9 token in
    ((token.max_retries ≤ token.current_retry_count) × (r ≡ (token, failure max_retries_exceeded)))
    ⊎ ((token.current_retry_count < token.max_retries)
        × (is_some token.task ≡ true)
        × (r.1 ≡ failure invalid_state)
        × (r.0.task ≡ token.task)
        × (r.0.ref_count ≡ token.ref_count)
        × (r.0.current_retry_count ≡ token.current_retry_count + 1))
    ⊎ ((token.current_retry_count < token.max_retries)
        × (token.task ≡ none)
        × (r.1 ≡ success)
        × (is_some r.0.task ≡ true)
        × (r.0.retry_ready_fn ≡ some 40)
        × (r.0.ref_count ≡ 2)
        × (r.0.current_retry_count ≡ token.current_retry_count + 1))
schedule_retry_cases_example =
    schedule_retry_cases common env 1 token transient 40 9 token-Accounts (λ e. cc)

schedule_null_twice_example :
    (schedule_retry common env client_error 41 9
      (schedule_retry common env client_error 40 0 token).0).1
    ≡ success
schedule_null_twice_example = (schedule_null_twice common env 1 token 40 41 9 token-Accounts refl).1

abbrev config : Config
config = record {
  el_group = some 1;
  max_retries = 64;
  backoff_scale_factor_ms = 0;
  max_backoff_secs = 0;
  jitter_mode = no_jitter;
  has_generate_random = false;
  generate_random_impl = none;
  generate_random_user_data = 0;
}

new_exponential_backoff-none_iff_example :
    (new_exponential_backoff config ≡ none)
    ↔ ((63 < config.max_retries) ⊎ (config.el_group ≡ none) ⊎ (config.jitter_mode ≡ out_of_range))
new_exponential_backoff-none_iff_example = new_exponential_backoff-none_iff config

abbrev strategy : Strategy
strategy = record {
  ref_count = 1;
  config = record config { max_retries = 5; backoff_scale_factor_ms = 500; max_backoff_secs = 20 };
  destroyed = false;
}

acquire_token-Accounts_example :
    Accounts 1 0 (retry_task (λ e u. u) run_ready (acquire_token common 30 8 strategy).1)
acquire_token-Accounts_example =
    acquire_token-Accounts common (λ e u. u) run_ready 30 8 1 0 strategy (omega arith)
      (record { accounts = λ u a. a; limit = λ u. refl; paid = λ u. omega arith })
