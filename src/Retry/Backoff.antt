-- ===== src/Retry/Backoff.antt =====
-- source/exponential_backoff_retry_strategy.c. A pointer to a function is the number of the
-- function, a `void *` a number with 0 for NULL; atomics and what the mutex protects are fields.
-- The functions of retry_strategy.c that count a token's references stand here with their vtable.
pub mod Delay
pub mod Lifetime
pub mod Acquire
mod Tests
use aws_c_io.Base.{
  ℕ, ◌+◌, ◌-◌, ◌%◌, ◌^◌, Bool, true, false, not, ◌||◌, Option, none, some, ltb, leb, ◌==◌,
  if◌then◌else◌, is_some, u64, u64_max, invalid_state, operation_cancelled, max_retries_exceeded,
  OpResult, success, failure, TaskStatus, run_ready, canceled,
}
use aws_c_io.Common.{Common}
use aws_c_io.Retry.{RetryErrorType, client_error}

-- enum aws_exponential_backoff_jitter_mode; `out_of_range` is any greater number.
pub data JitterMode : Type 0 where
  default_jitter no_jitter full_jitter decorrelated_jitter out_of_range : JitterMode

-- What generate_random_impl points to.
pub data RandomImpl : Type 0 where
  default_gen_rand user_impl : RandomImpl

-- struct aws_exponential_backoff_retry_options
pub record Config : Type 0 where
  pub el_group : Option ℕ
  pub max_retries : ℕ
  pub backoff_scale_factor_ms : ℕ
  pub max_backoff_secs : ℕ
  pub jitter_mode : JitterMode
  pub has_generate_random : Bool
  pub generate_random_impl : Option RandomImpl
  pub generate_random_user_data : ℕ

-- struct exponential_backoff_strategy; `destroyed` says that its `destroy` has run.
pub record Strategy : Type 0 where
  pub ref_count : ℕ
  pub config : Config
  pub destroyed : Bool

-- struct exponential_backoff_retry_token; `task` is the time at which retry_task is due, while the
-- event loop has it, and `freed` says that release_token has run.
pub record Token : Type 0 where
  pub ref_count : ℕ
  pub current_retry_count : ℕ
  pub last_backoff : ℕ
  pub max_retries : ℕ
  pub backoff_scale_factor_ns : ℕ
  pub maximum_backoff_ns : ℕ
  pub jitter_mode : JitterMode
  pub generate_random_impl : Option RandomImpl
  pub generate_random_user_data : ℕ
  pub acquired_fn : Option ℕ
  pub retry_ready_fn : Option ℕ
  pub user_data : ℕ
  pub task : Option ℕ
  pub freed : Bool

-- The answers that one call gets from outside: the next number of each random source, and the time.
pub record Env : Type 0 where
  pub random_impl : RandomImpl → ℕ → ℕ
  pub random : ℕ
  pub current_time : ℕ

abbrev or_default : ℕ → ℕ → ℕ
or_default n d = if n == 0 then d else n

abbrev is_out_of_range : JitterMode → Bool
is_out_of_range out_of_range = true
is_out_of_range _ = false

abbrev random_or_default : Bool → Option RandomImpl → Option RandomImpl
random_or_default false none = some RandomImpl.default_gen_rand
random_or_default _ impl = impl

-- aws_retry_strategy_new_exponential_backoff
pub new_exponential_backoff : Config → Option Strategy
new_exponential_backoff config =
    if ltb 63 config.max_retries
      || (not (is_some config.el_group) || is_out_of_range config.jitter_mode)
    then none
    else some (record {
      ref_count = 1;
      config = record config {
        generate_random_impl =
            random_or_default config.has_generate_random config.generate_random_impl;
        max_retries = or_default config.max_retries 5;
        backoff_scale_factor_ms = or_default config.backoff_scale_factor_ms 500;
        max_backoff_secs = or_default config.max_backoff_secs 20;
      };
      destroyed = false;
    })

-- aws_retry_strategy_acquire and aws_retry_strategy_release
pub strategy_acquire : Strategy → Strategy
strategy_acquire s = record s { ref_count = u64 (s.ref_count + 1) }

pub strategy_release : Strategy → Strategy
strategy_release s =
    let t = record s { ref_count = u64 (s.ref_count + u64_max) } in
    if s.ref_count == 1 then record t { destroyed = true } else t

-- aws_retry_token_acquire and aws_retry_token_release
pub token_acquire : Token → Token
token_acquire t = record t { ref_count = u64 (t.ref_count + 1) }

pub token_release : Token → Token
token_release t =
    let t' = record t { ref_count = u64 (t.ref_count + u64_max) } in
    if t.ref_count == 1 then record t' { freed = true } else t'

module _ (c : Common) where
  -- s_exponential_retry_acquire_token
  pub acquire_token : ℕ → ℕ → Strategy → Strategy × Token
  unfolding strategy_acquire
  acquire_token on_acquired user_data s = (
    strategy_acquire s,
    record {
      ref_count = 1;
      current_retry_count = 0;
      last_backoff = 0;
      max_retries = s.config.max_retries;
      backoff_scale_factor_ns = c.millis_to_nanos s.config.backoff_scale_factor_ms;
      maximum_backoff_ns = c.secs_to_nanos s.config.max_backoff_secs;
      jitter_mode = s.config.jitter_mode;
      generate_random_impl = s.config.generate_random_impl;
      generate_random_user_data = s.config.generate_random_user_data;
      acquired_fn = some on_acquired;
      retry_ready_fn = none;
      user_data = user_data;
      task = some 0;
      freed = false;
    },
  )

module _ (c : Common) where
  -- s_compute_no_jitter
  pub compute_no_jitter : Token → ℕ
  compute_no_jitter t =
      let retry_count = c.min_u64 t.current_retry_count 63 in
      let backoff_ns = c.mul_u64_saturating (2 ^ retry_count) t.backoff_scale_factor_ns in
      c.min_u64 backoff_ns t.maximum_backoff_ns

abbrev draw : Env → ℕ → Option RandomImpl → ℕ
draw env user_data (some impl) = env.random_impl impl user_data
draw env user_data none = env.random

module _ (c : Common) (env : Env) where
  -- s_random_in_range
  pub random_in_range : ℕ → ℕ → Token → ℕ
  random_in_range from to t =
      let hi = c.max_u64 from to in
      let lo = c.min_u64 from to in
      let diff = hi - lo in
      if diff == 0
      then 0
      else u64 (lo + draw env t.generate_random_user_data t.generate_random_impl % diff)

  -- s_compute_full_jitter
  pub compute_full_jitter : Token → ℕ
  compute_full_jitter t = random_in_range 0 (compute_no_jitter c t) t

  -- s_compute_deccorelated_jitter
  pub compute_decorrelated_jitter : Token → ℕ
  compute_decorrelated_jitter t =
      if t.last_backoff == 0
      then compute_full_jitter t
      else random_in_range t.backoff_scale_factor_ns
          (c.min_u64 t.maximum_backoff_ns (c.mul_u64_saturating t.last_backoff 3)) t

  -- s_backoff_compute_table; new_exponential_backoff lets no token have the last mode.
  pub compute_backoff : JitterMode → Token → ℕ
  compute_backoff default_jitter t = compute_full_jitter t
  compute_backoff no_jitter t = compute_no_jitter c t
  compute_backoff full_jitter t = compute_full_jitter t
  compute_backoff decorrelated_jitter t = compute_decorrelated_jitter t
  compute_backoff out_of_range t = 0

  -- The part of schedule_retry that charges the budget: the token, and the time to retry at.
  pub charge : RetryErrorType → Token → Option (Token × ℕ)
  charge client_error t = some (t, 0)
  charge _ t =
      if leb t.max_retries t.current_retry_count
      then none
      else (let backoff = compute_backoff t.jitter_mode t in
          some (
            record t {
              last_backoff = backoff;
              current_retry_count = u64 (t.current_retry_count + 1);
            },
            u64 (backoff + env.current_time),
          ))

-- The critical section of schedule_retry, and the scheduling of the task behind it.
pub arm : ℕ → ℕ → ℕ → Token → Token × OpResult
unfolding token_acquire
arm retry_ready user_data schedule_at t =
    if t.user_data == 0
    then (
      token_acquire (record t {
        retry_ready_fn = some retry_ready;
        user_data = user_data;
        task = some schedule_at;
      }),
      success,
    )
    else (t, failure invalid_state)

module _ (c : Common) (env : Env) where
  -- s_exponential_retry_schedule_retry, for calls on one token that do not overlap: the source reads the count of
  -- retries and adds to it in two steps, before it takes the lock.
  unfoldable pub schedule_retry : RetryErrorType → ℕ → ℕ → Token → Token × OpResult
  unfolding charge arm
  schedule_retry error_type retry_ready user_data t = elim (charge c env error_type t) [
    | none ↦ (t, failure max_retries_exceeded)
    | some (t', schedule_at) ↦ arm retry_ready user_data schedule_at t'
  ]

-- s_exponential_backoff_record_success
pub record_success : Token → Token × OpResult
record_success t = (t, success)

-- The call of a user's function that s_exponential_retry_task makes.
pub data Event : Type 0 where
  acquired : ℕ → OpResult → ℕ → Event
  ready : ℕ → OpResult → ℕ → Event

abbrev task_error : TaskStatus → OpResult
task_error run_ready = success
task_error canceled = failure operation_cancelled

-- What s_exponential_retry_task takes out of the token under the lock; the event loop has run the
-- task.
pub clear : Token → Token
clear t = record t { user_data = 0; retry_ready_fn = none; acquired_fn = none; task = none }

-- `on_event` is what the user's function does with the token while it is called.
module _ (on_event : Event → Token → Token) where
  pub invoke : Option ℕ → Option ℕ → ℕ → OpResult → Token → Token
  invoke (some fn) _ user_data error t = on_event (acquired fn error user_data) t
  invoke none (some fn) user_data error t = token_release (on_event (ready fn error user_data) t)
  invoke none none _ _ t = t

  -- s_exponential_retry_task
  pub retry_task : TaskStatus → Token → Token
  retry_task status t = token_release (
      invoke t.acquired_fn t.retry_ready_fn t.user_data (task_error status)
        (token_acquire (clear t)))
