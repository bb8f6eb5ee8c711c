-- ===== src/MessagePool/Messages.antt =====
-- Which pool of source/message_pool.c a message comes from and goes back to.
use aws_c_io.Base.{
  ℕ, ◌+◌, ◌≤◌, ◌<◌, ◌≡◌, ◌⊎◌, inl, inr, true, false, some, ◌∷◌, refl, arith, length, min,
  Bool-cases,
}
use aws_c_io.Memory.{Heap, count}
use aws_c_io.MessagePool.{
  Pool, MsgPool, Message, application_data, data_size, is_large, wrap_message, msg_acquire,
  msg_release, pool_acquire, pool_release, pool_clean_up, msg_pool_clean_up,
}
use aws_c_io.MessagePool.Ownership.{
  IsSound, plus, pool_acquire-IsSound, pool_release-IsSound, pool_clean_up_exact,
}

pub segment_size-pool_acquire :
    (pool pool' : Pool) (h h' : Heap) (mem : ℕ)
    → pool_acquire pool h ≡ some (mem, pool', h')
    → pool'.segment_size ≡ pool.segment_size
unfolding pool_acquire
segment_size-pool_acquire pool pool' h h' mem e = ground arith

abbrev pub owned : Pool → ℕ → ℕ
owned pool a = count a (pool.data_ptr ∷ pool.stack)

module _ (overhead : ℕ) where
  -- Where a message that was acquired came from.
  abbrev FromLarge : ℕ → MsgPool → Heap → Message × MsgPool × Heap → Type 0
  FromLarge size pool h (m, pool', h') =
      (is_large overhead size pool ≡ true)
      × (pool_acquire pool.application_data_pool h
          ≡ some (m.segment, pool'.application_data_pool, h'))
      × (pool'.small_block_pool ≡ pool.small_block_pool)
      × (m ≡ wrap_message overhead size pool.application_data_pool m.segment)

  abbrev FromSmall : ℕ → MsgPool → Heap → Message × MsgPool × Heap → Type 0
  FromSmall size pool h (m, pool', h') =
      (is_large overhead size pool ≡ false)
      × (pool_acquire pool.small_block_pool h ≡ some (m.segment, pool'.small_block_pool, h'))
      × (pool'.application_data_pool ≡ pool.application_data_pool)
      × (m ≡ wrap_message overhead size pool.small_block_pool m.segment)

  msg_acquire_cases :
      (size : ℕ) (pool pool' : MsgPool) (h h' : Heap) (m : Message)
      → msg_acquire overhead application_data size pool h ≡ some (m, pool', h')
      → FromLarge size pool h (m, pool', h') ⊎ FromSmall size pool h (m, pool', h')
  unfolding msg_acquire
  msg_acquire_cases size pool pool' h h' m e = ground arith

  module _ (size : ℕ) (pool pool' : MsgPool) (h h' : Heap) (m : Message)
      (e : msg_acquire overhead application_data size pool h ≡ some (m, pool', h')) where
    -- A message is empty, and has the capacity asked for, up to what a segment of its pool holds: that
    -- of application data for what exceeds a small block, else that of small blocks.
    pub msg_acquire_fits :
        (m.data_len ≡ 0)
        × ((m.data_capacity ≡ min size (data_size overhead pool.application_data_pool))
              × (data_size overhead pool.small_block_pool < size)
            ⊎ (m.data_capacity ≡ size) × (size ≤ data_size overhead pool.small_block_pool))
    unfolding wrap_message is_large
    msg_acquire_fits = ground (arith, msg_acquire_cases size pool pool' h h' m e)

    small_size :
        data_size overhead pool'.small_block_pool ≡ data_size overhead pool.small_block_pool
    unfolding data_size
    small_size = elim (msg_acquire_cases size pool pool' h h' m e) [
      | inl f ↦ rw f.2
      | inr f ↦ rw (
          segment_size-pool_acquire pool.small_block_pool pool'.small_block_pool h h' m.segment f.1)
    ]

    -- A message goes back to the pool that it came from, as long as the pool for application data has
    -- the larger segments.
    pub is_large-msg_acquire :
        data_size overhead pool.small_block_pool < data_size overhead pool.application_data_pool
        → is_large overhead m.data_capacity pool' ≡ is_large overhead size pool
    unfolding is_large wrap_message
    is_large-msg_acquire k = ground (arith, msg_acquire_cases size pool pool' h h' m e, small_size)

    -- Where the segments of the other pool are at least as large, no message that is acquired goes back
    -- to the pool for application data, not even one that came from it.
    pub is_large_mismatch :
        data_size overhead pool.application_data_pool ≤ data_size overhead pool.small_block_pool
        → is_large overhead m.data_capacity pool' ≡ false
    unfolding is_large wrap_message
    is_large_mismatch k = ground (arith, msg_acquire_cases size pool pool' h h' m e, small_size)

-- The memory of both pools is accounted for, with what is lent.
pub record IsSoundPair (h : Heap) (pool : MsgPool) (rest : ℕ → ℕ) : Type 0 where
  pub app : IsSound h pool.application_data_pool (λ a. owned pool.small_block_pool a + rest a)
  pub small : IsSound h pool.small_block_pool (λ a. owned pool.application_data_pool a + rest a)

exchange :
    (h : Heap) (p q : Pool) (r r' : ℕ → ℕ)
    → IsSound h p r
    → ((a : ℕ) → r a ≡ owned q a + r' a)
    → length q.stack ≤ q.ideal_segment_count
    → IsSound h q (λ a. owned p a + r' a)
exchange h p q r r' s e b = record {
  fresh = s.fresh;
  owns = λ a. omega (arith, s.owns a, e a);
  bounded = b;
}

regroup :
    (h : Heap) (p : Pool) (r r' : ℕ → ℕ) → IsSound h p r → ((a : ℕ) → r a ≡ r' a) → IsSound h p r'
regroup h p r r' s e = record {
  fresh = s.fresh;
  owns = λ a. omega (arith, s.owns a, e a);
  bounded = s.bounded;
}

pair_of :
    (h : Heap) (p q : Pool) (r rest : ℕ → ℕ)
    → IsSound h p r
    → ((a : ℕ) → r a ≡ owned q a + rest a)
    → length q.stack ≤ q.ideal_segment_count
    → IsSound h p (λ a. owned q a + rest a) × IsSound h q (λ a. owned p a + rest a)
pair_of h p q r rest s e b =
    (regroup h p r (λ a. owned q a + rest a) s e, exchange h p q r rest s e b)

released_large :
    (h : Heap) (pool : MsgPool) (mem : ℕ) (rest : ℕ → ℕ)
    → IsSoundPair h pool (plus mem rest)
    → let r = pool_release mem pool.application_data_pool h in
      IsSoundPair r.1 (record pool { application_data_pool = r.0 }) rest
released_large h pool mem rest s =
    let t =
      pool_release-IsSound pool.application_data_pool h
        (λ a. owned pool.small_block_pool a + rest a) mem
        (regroup h pool.application_data_pool _
          (plus mem (λ a. owned pool.small_block_pool a + rest a)) s.app (λ a. ground arith)) in
    record {
      app = t;
      small = exchange _ _ pool.small_block_pool _ rest t (λ a. refl) s.small.bounded;
    }

released_small :
    (h : Heap) (pool : MsgPool) (mem : ℕ) (rest : ℕ → ℕ)
    → IsSoundPair h pool (plus mem rest)
    → let r = pool_release mem pool.small_block_pool h in
      IsSoundPair r.1 (record pool { small_block_pool = r.0 }) rest
released_small h pool mem rest s =
    let t =
      pool_release-IsSound pool.small_block_pool h
        (λ a. owned pool.application_data_pool a + rest a) mem
        (regroup h pool.small_block_pool _
          (plus mem (λ a. owned pool.application_data_pool a + rest a)) s.small
          (λ a. ground arith)) in
    record {
      app = exchange _ _ pool.application_data_pool _ rest t (λ a. refl) s.app.bounded;
      small = t;
    }

-- A message that is acquired lies in memory that was lent to nobody, and the memory of both pools is
-- accounted for with it among what is lent.
pub msg_acquire-IsSoundPair :
    (overhead size : ℕ) (pool pool' : MsgPool) (h h' : Heap) (m : Message) (rest : ℕ → ℕ)
    → IsSoundPair h pool rest
    → msg_acquire overhead application_data size pool h ≡ some (m, pool', h')
    → (rest m.segment ≡ 0) × IsSoundPair h' pool' (plus m.segment rest)
msg_acquire-IsSoundPair overhead size pool pool' h h' m rest s e =
    elim (msg_acquire_cases overhead size pool pool' h h' m e) [
      | inl (large, f, same, w) ↦
          (let (unlent, t) =
              pool_acquire-IsSound pool.application_data_pool pool'.application_data_pool h h'
                (λ a. owned pool.small_block_pool a + rest a) m.segment s.app f in
            let (app, small) =
              pair_of h' pool'.application_data_pool pool.small_block_pool
                (plus m.segment (λ a. owned pool.small_block_pool a + rest a)) (plus m.segment rest)
                t (λ a. ground arith) s.small.bounded in
            (omega arith, rw same (record { app = app; small = small })))
      | inr (small, f, same, w) ↦
          (let (unlent, t) =
              pool_acquire-IsSound pool.small_block_pool pool'.small_block_pool h h'
                (λ a. owned pool.application_data_pool a + rest a) m.segment s.small f in
            let (taken, app) =
              pair_of h' pool'.small_block_pool pool.application_data_pool
                (plus m.segment (λ a. owned pool.application_data_pool a + rest a))
                (plus m.segment rest) t (λ a. ground arith) s.app.bounded in
            (omega arith, rw same (record { app = app; small = taken })))
    ]

-- Releasing a message takes it from what is lent, and leaves the memory of both pools accounted for.
pub msg_release-IsSoundPair :
    (overhead : ℕ) (pool : MsgPool) (h : Heap) (m : Message) (rest : ℕ → ℕ)
    → m.message_type ≡ application_data
    → IsSoundPair h pool (plus m.segment rest)
    → IsSoundPair (msg_release overhead m pool h).1 (msg_release overhead m pool h).0 rest
unfolding msg_release
msg_release-IsSoundPair overhead pool h m rest t s =
    elim (Bool-cases (is_large overhead m.data_capacity pool)) [
      | inl e ↦ rw (t, msg_release, e) (released_large h pool m.segment rest s)
      | inr e ↦ rw (t, msg_release, e) (released_small h pool m.segment rest s)
    ]

-- Cleaning a message pool up releases all that it owns and nothing that is lent.
pub msg_pool_clean_up_exact :
    (pool : MsgPool) (h : Heap) (rest : ℕ → ℕ) (a : ℕ)
    → IsSoundPair h pool rest
    → count a (msg_pool_clean_up pool h).live ≡ rest a
unfolding msg_pool_clean_up
msg_pool_clean_up_exact pool h rest a s =
    pool_clean_up_exact pool.small_block_pool (pool_clean_up pool.application_data_pool h) rest a
      (λ b.
        pool_clean_up_exact pool.application_data_pool h
          (λ c. owned pool.small_block_pool c + rest c) b s.app.owns)
