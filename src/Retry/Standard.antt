-- ===== src/Retry/Standard.antt =====
-- source/standard_retry_strategy.c. Buckets live in a store by number, since tokens and the table
-- share them; allocations succeed. What a mutex protects is changed in one definition for each of
-- its critical sections, and what other threads do to a bucket between two of them is an argument.
pub mod Capacity
pub mod Buckets
mod Tests
use aws_c_io.Base.{
  ℕ, ◌+◌, ◌-◌, ◌%◌, Bool, true, false, not, ◌&&◌, ◌||◌, Option, none, some, List, [], ◌∷◌, ltb, leb,
  ◌==◌, if◌then◌else◌, is_some, u64, u64_max, min, OpResult, success, failure,
  retry_permission_denied, length,
}
use mathlib.Core.Option
use aws_c_io.Common.{Common}
use aws_c_io.Retry.{RetryErrorType, transient, client_error}
use aws_c_io.Retry.Backoff
use aws_c_io.Retry.Backoff.{Env}

abbrev pub initial_retry_bucket_capacity : ℕ
initial_retry_bucket_capacity = 500

abbrev pub standard_retry_cost : ℕ
standard_retry_cost = 5

abbrev pub standard_transient_cost : ℕ
standard_transient_cost = 10

abbrev pub standard_no_retry_cost : ℕ
standard_no_retry_cost = 1

-- struct retry_bucket_token; `self` is its address, and `freed` says that release_token has run.
pub record BucketToken : Type 0 where
  pub self : ℕ
  pub ref_count : ℕ
  pub strategy_bucket : ℕ
  pub exp_backoff_token : Option Backoff.Token
  pub original_on_acquired : ℕ
  pub original_on_ready : Option ℕ
  pub last_retry_cost : ℕ
  pub original_user_data : ℕ
  pub freed : Bool

-- aws_retry_token_acquire and aws_retry_token_release on a standard token
pub token_acquire : BucketToken → BucketToken
token_acquire t = record t { ref_count = u64 (t.ref_count + 1) }

-- s_standard_retry_strategy_release_token: the backing token loses its reference.
pub release_token : BucketToken → BucketToken
release_token t = record t { freed = true; exp_backoff_token = released t.exp_backoff_token }
  where
    released : Option Backoff.Token → Option Backoff.Token
    released none = none
    released (some b) = some (Backoff.token_release b)

pub token_release : BucketToken → BucketToken
unfolding release_token
token_release t =
    let t' = record t { ref_count = u64 (t.ref_count + u64_max) } in
    if t.ref_count == 1 then release_token t' else t'

-- The number of s_standard_retry_strategy_on_retry_ready among the functions.
abbrev pub on_retry_ready_fn : ℕ
on_retry_ready_fn = 1

-- A bucket's capacity with a token of it.
pub record Account : Type 0 where
  pub current_capacity : ℕ
  pub token : BucketToken

-- aws_min_size of the capacity and the price of the error
pub capacity_consumed : RetryErrorType → ℕ → ℕ
capacity_consumed transient current_capacity = min current_capacity standard_transient_cost
capacity_consumed _ current_capacity = min current_capacity standard_retry_cost

-- The first critical section of schedule_retry, and the reference taken behind it.
pub reserve : RetryErrorType → ℕ → ℕ → Account → Account
unfolding capacity_consumed token_acquire
reserve error_type retry_ready user_data a =
    let consumed = capacity_consumed error_type a.current_capacity in
    record {
      current_capacity = a.current_capacity - consumed;
      token = token_acquire (record token {
        original_user_data = user_data;
        original_on_ready = some retry_ready;
        last_retry_cost = consumed;
      });
    }
  where
    open a use {token}

-- `desired < max ? desired : max`, where the sum wraps
pub put_back : ℕ → ℕ → ℕ → ℕ
put_back max_capacity current_capacity amount =
    let desired = u64 (current_capacity + amount) in
    if ltb desired max_capacity then desired else max_capacity

-- The critical section that takes the reservation back when the backing strategy refuses.
pub roll_back : ℕ → ℕ → ℕ → Account → Account
unfolding token_release put_back
roll_back max_capacity previous_cost consumed a = record {
  current_capacity = put_back max_capacity a.current_capacity consumed;
  token = record (token_release a.token) { last_retry_cost = previous_cost };
}

module _ (c : Common) (env : Env) (others : ℕ → ℕ) (max_capacity : ℕ) where
  -- What follows on the answer of the backing strategy.
  pub settle : ℕ → ℕ → Account → Backoff.Token × OpResult → Account × OpResult
  unfolding roll_back
  settle previous_cost consumed a (b, success) =
      (record a { token = record a.token { exp_backoff_token = some b } }, success)
  settle previous_cost consumed a (b, failure e) = (
    roll_back max_capacity previous_cost consumed (record {
      current_capacity = others a.current_capacity;
      token = record a.token { exp_backoff_token = some b };
    }),
    failure e,
  )

  -- s_standard_retry_strategy_schedule_retry; `none` is the read through a NULL exp_backoff_token.
  pub schedule_retry : RetryErrorType → ℕ → ℕ → Account → Option (Account × OpResult)
  unfolding reserve settle capacity_consumed
  schedule_retry client_error retry_ready user_data a = some (a, failure retry_permission_denied)
  schedule_retry error_type retry_ready user_data a =
      if a.current_capacity == 0
      then some (a, failure retry_permission_denied)
      else Option.map
          (λ b.
            settle a.token.last_retry_cost (capacity_consumed error_type a.current_capacity)
              (reserve error_type retry_ready user_data a)
              (Backoff.schedule_retry c env error_type on_retry_ready_fn a.token.self b))
          a.token.exp_backoff_token

-- s_standard_retry_strategy_record_success
pub record_success : ℕ → Account → Account × OpResult
unfolding put_back
record_success max_capacity a = (
  record {
    current_capacity = put_back max_capacity a.current_capacity a.token.last_retry_cost;
    token = record token { last_retry_cost = 0 };
  },
  success,
)
  where
    open a use {token}

-- struct standard_strategy: the table maps the partition that a bucket was made for to the bucket's
-- number, and `capacity` holds the buckets that are alive.
pub record Strategy : Type 0 where
  pub max_capacity : ℕ
  pub ref_count : ℕ
  pub token_buckets : List (List ℕ × ℕ)
  pub capacity : ℕ → Option ℕ
  pub next_bucket : ℕ

abbrev pub update : (ℕ → Option ℕ) → ℕ → Option ℕ → ℕ → Option ℕ
update f i v j = if i == j then v else f j

-- aws_retry_strategy_new_standard, where the backing strategy is made: the limit it is given and
-- the empty table.
pub backing_max_retries : ℕ → ℕ
backing_max_retries max_retries = if max_retries == 0 then 3 else max_retries

pub new_standard : ℕ → Strategy
new_standard initial_bucket_capacity = record {
  max_capacity =
      if initial_bucket_capacity == 0
      then initial_retry_bucket_capacity
      else initial_bucket_capacity;
  ref_count = 1;
  token_buckets = [];
  capacity = λ i. none;
  next_bucket = 0;
}

-- The partition that a call names; NULL is the empty one.
pub partition_or_empty : Option (List ℕ) → List ℕ
partition_or_empty none = []
partition_or_empty (some partition_id) = partition_id

-- aws_byte_cursor_eq_ignore_case is a parameter.
module _ (eq_ignore_case : List ℕ → List ℕ → Bool) where
  -- aws_hash_table_find and aws_hash_table_remove by that equality
  pub find : List ℕ → List (List ℕ × ℕ) → Option (List ℕ × ℕ)
  find partition [] = none
  find partition ((p, bucket) ∷ table) =
      if eq_ignore_case p partition then some (p, bucket) else find partition table

  pub remove : List ℕ → List (List ℕ × ℕ) → List (List ℕ × ℕ)
  remove partition [] = []
  remove partition ((p, bucket) ∷ table) =
      if eq_ignore_case p partition then table else (p, bucket) ∷ remove partition table

  -- The critical section of acquire_token: the bucket of the partition with its own partition_id,
  -- made if it is not there.
  pub bucket_for : List ℕ → Strategy → Strategy × (List ℕ × ℕ)
  unfolding find
  bucket_for partition s = elim (find partition s.token_buckets) [
    | some entry ↦ (s, entry)
    | none ↦ (
      record s {
        token_buckets = (partition, s.next_bucket) ∷ s.token_buckets;
        capacity = update s.capacity s.next_bucket (some s.max_capacity);
        next_bucket = s.next_bucket + 1;
      },
      (partition, s.next_bucket),
    )
  ]

  -- table_updated: the bucket leaves the table, which destroys it.
  pub drop_bucket : List ℕ → ℕ → Strategy → Strategy
  unfolding remove
  drop_bucket partition bucket s = record s {
    token_buckets = remove partition s.token_buckets;
    capacity = update s.capacity bucket none;
  }

  -- s_standard_retry_acquire_token; `backing` says whether the backing strategy takes the call.
  pub acquire_token : Bool → Option (List ℕ) → ℕ → ℕ → ℕ → Strategy → Strategy × Option BucketToken
  unfolding bucket_for drop_bucket partition_or_empty
  acquire_token backing partition_id self on_acquired user_data s =
      let partition = partition_or_empty partition_id in
      let (s', entry) = bucket_for partition s in
      let token : BucketToken = record {
        self = self;
        ref_count = 1;
        strategy_bucket = entry.1;
        exp_backoff_token = none;
        original_on_acquired = on_acquired;
        original_on_ready = none;
        last_retry_cost = standard_no_retry_cost;
        original_user_data = user_data;
        freed = false;
      } in
      let s'' = record s' { ref_count = u64 (s'.ref_count + 1) } in
      if backing
      then (s'', some token)
      else (record (drop_bucket entry.0 entry.1 s'') { ref_count = s.ref_count }, none)

-- The call of the user's function that s_on_standard_retry_token_acquired makes: the token it is
-- given, or NULL.
pub data Acquired : Type 0 where
  acquired : ℕ → OpResult → Option ℕ → ℕ → Acquired

-- s_on_standard_retry_token_acquired, with the token of the backing strategy and what the user's
-- function does with the token meanwhile.
module _ (on_event : Acquired → BucketToken → BucketToken) where
  pub on_token_acquired : OpResult → Backoff.Token → BucketToken → BucketToken
  unfolding token_acquire token_release
  on_token_acquired success token t = token_release (
      on_event (acquired t.original_on_acquired success (some t.self) t.original_user_data)
        (token_acquire (record t { exp_backoff_token = some token })))
  on_token_acquired (failure e) token t = token_release (
      on_event (acquired t.original_on_acquired (failure e) none t.original_user_data)
        (token_acquire t))

-- s_standard_retry_strategy_on_retry_ready; `none` is the call of a NULL function.
pub on_retry_ready :
    (ℕ → OpResult → ℕ → BucketToken → BucketToken) → OpResult → BucketToken → Option BucketToken
unfolding token_release
on_retry_ready call result t =
    Option.map (λ fn. token_release (call fn result t.original_user_data t)) t.original_on_ready
