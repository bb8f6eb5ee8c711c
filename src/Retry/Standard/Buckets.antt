-- ===== src/Retry/Standard/Buckets.antt =====
-- The buckets and tokens that source/standard_retry_strategy.c hands out.
use aws_c_io.Base.{
  ℕ, ◌+◌, ◌≤◌, ◌<◌, ◌≡◌, inl, inr, refl, arith, Bool, true, false, Option, none, some, List, [],
  ◌∷◌, failure, AwsError, Option-cases,
}
use aws_c_io.Retry.Backoff
use aws_c_io.Retry.Standard.{
  BucketToken, Strategy, Acquired, acquired, find, bucket_for, acquire_token, on_token_acquired,
  token_acquire, token_release, update, partition_or_empty,
}

module _ (eq_ignore_case : List ℕ → List ℕ → Bool) where
  -- Every bucket of the table is alive, below the next number, and not above the maximum.
  abbrev pub Alive : (ℕ → Option ℕ) → ℕ → ℕ → List (List ℕ × ℕ) → Type 0
  Alive capacity max_capacity next [] = Unit {0}
  Alive capacity max_capacity next ((p, b) ∷ table) =
      (b < next)
      × ((n : ℕ) × (capacity b ≡ some n) × (n ≤ max_capacity))
      × Alive capacity max_capacity next table

  -- The partitions of the table differ, and each is found under its own name.
  abbrev pub Distinct : List (List ℕ × ℕ) → Type 0
  Distinct [] = Unit {0}
  Distinct ((p, b) ∷ table) = (find eq_ignore_case p table ≡ none) × Distinct table

  pub record IsSound (s : Strategy) : Type 0 where
    pub alive : Alive s.capacity s.max_capacity s.next_bucket s.token_buckets
    pub distinct : Distinct s.token_buckets

  Alive-update :
      (capacity : ℕ → Option ℕ) (max_capacity next : ℕ) (table : List (List ℕ × ℕ))
      → Alive capacity max_capacity next table
      → Alive (update capacity next (some max_capacity)) max_capacity (next + 1) table
  Alive-update capacity max_capacity next [] a = tt
  Alive-update capacity max_capacity next ((p, b) ∷ table) a =
      (omega arith, (a.1.0, ground arith, a.1.2), Alive-update capacity max_capacity next table a.2)

  new_bucket-IsSound :
      (partition : List ℕ) (s : Strategy)
      → IsSound s
      → find eq_ignore_case partition s.token_buckets ≡ none
      → IsSound (record s {
        token_buckets = (partition, s.next_bucket) ∷ s.token_buckets;
        capacity = update s.capacity s.next_bucket (some s.max_capacity);
        next_bucket = s.next_bucket + 1;
      })
  new_bucket-IsSound partition s i e = record {
    alive = (
      omega arith,
      (s.max_capacity, ground arith, omega arith),
      Alive-update s.capacity s.max_capacity s.next_bucket s.token_buckets i.alive,
    );
    distinct = (e, i.distinct);
  }

  bucket_for-IsSound :
      (partition : List ℕ) (s : Strategy)
      → IsSound s
      → IsSound (bucket_for eq_ignore_case partition s).0
  unfolding bucket_for
  bucket_for-IsSound partition s i =
      elim (Option-cases (find eq_ignore_case partition s.token_buckets)) [
        | inl e ↦ rw (e, bucket_for) (new_bucket-IsSound partition s i e)
        | inr (entry, e) ↦ rw (e, bucket_for) i
      ]

  -- Handing out a token keeps every bucket of the table alive and at or below the maximum, and the
  -- partitions of the table different from one another.
  pub acquire_token-IsSound :
      (partition_id : Option (List ℕ)) (self fn user_data : ℕ) (s : Strategy)
      → IsSound s
      → IsSound (acquire_token eq_ignore_case true partition_id self fn user_data s).0
  unfolding acquire_token
  acquire_token-IsSound partition_id self fn user_data s i =
      let j = bucket_for-IsSound (partition_or_empty partition_id) s i in
      record { alive = j.alive; distinct = j.distinct }

  find-bucket_for :
      (partition : List ℕ) (s : Strategy)
      → eq_ignore_case partition partition ≡ true
      → find eq_ignore_case partition (bucket_for eq_ignore_case partition s).0.token_buckets
        ≡ some (bucket_for eq_ignore_case partition s).1
  unfolding bucket_for find
  find-bucket_for partition s h = ground arith

  find_congr :
      (p q : List ℕ) (table : List (List ℕ × ℕ))
      → ((r : List ℕ) → eq_ignore_case r p ≡ eq_ignore_case r q)
      → find eq_ignore_case p table ≡ find eq_ignore_case q table
  unfolding find
  find_congr p q [] h = refl
  find_congr p q ((r, b) ∷ table) h = ground (arith, h r, find_congr p q table h)

  -- Two tokens for partitions that differ only in case draw on one bucket.
  pub acquire_token_shares :
      (p q : List ℕ) (self fn user_data self' fn' user_data' : ℕ) (s s' s'' : Strategy)
      (t t' : BucketToken)
      → eq_ignore_case p p ≡ true
      → ((r : List ℕ) → eq_ignore_case r p ≡ eq_ignore_case r q)
      → acquire_token eq_ignore_case true (some p) self fn user_data s ≡ (s', some t)
      → acquire_token eq_ignore_case true (some q) self' fn' user_data' s' ≡ (s'', some t')
      → t'.strategy_bucket ≡ t.strategy_bucket
  unfolding acquire_token bucket_for
  acquire_token_shares p q self fn user_data self' fn' user_data' s s' s'' t t' h k e e' =
      ground (arith, find-bucket_for p s h, find_congr p q s'.token_buckets k)

  -- If the backing strategy refuses the call, the bucket of the partition is destroyed, though other
  -- tokens may draw on it.
  pub acquire_token_destroys :
      (p : List ℕ) (self fn user_data : ℕ) (s : Strategy) (entry : List ℕ × ℕ)
      → find eq_ignore_case p s.token_buckets ≡ some entry
      → let r = acquire_token eq_ignore_case false (some p) self fn user_data s in
        (r.1 ≡ none) × (r.0.capacity entry.1 ≡ none)
  unfolding acquire_token
  acquire_token_destroys p self fn user_data s entry e = ground arith

release-acquire :
    (t : BucketToken)
    → t.ref_count ≡ 1
    → t.freed ≡ false
    → t.exp_backoff_token ≡ none
    → token_release (token_acquire t) ≡ t
unfolding token_release token_acquire
release-acquire t k l m = ground arith

-- A token acquisition that is cancelled leaves its one reference with nobody: the user's function
-- gets NULL, so it cannot touch the token, and behind it the token still has its reference, is not
-- freed and has forgotten the token of the backing strategy.
pub on_token_acquired_canceled :
    (on_event : Acquired → BucketToken → BucketToken) (e : AwsError) (b : Backoff.Token)
    (t : BucketToken)
    → ((error : AwsError) (fn user_data : ℕ) (u : BucketToken)
        → on_event (acquired fn (failure error) none user_data) u ≡ u)
    → t.ref_count ≡ 1
    → t.freed ≡ false
    → t.exp_backoff_token ≡ none
    → on_token_acquired on_event (failure e) b t ≡ t
unfolding on_token_acquired
on_token_acquired_canceled on_event e b t h k l m =
    rw (h e t.original_on_acquired t.original_user_data (token_acquire t)) (release-acquire t k l m)
