-- ===== src/MessagePool.antt =====
-- source/message_pool.c. Memory is that of Memory; the top of a pool's stack is the head of a list.
pub mod Ownership
pub mod Messages
mod Tests
use aws_c_io.Base.{
  ℕ, zero, suc, ◌+◌, ◌-◌, ◌%◌, Bool, true, false, Option, none, some, List, [], ◌∷◌, ltb, leb, ◌==◌,
  if◌then◌else◌, u64, u64_mod, length,
}
use aws_c_io.Memory.{Heap}
use aws_c_io.Memory

-- struct aws_memory_pool
pub record Pool : Type 0 where
  pub stack : List ℕ
  pub ideal_segment_count : ℕ
  pub segment_size : ℕ
  pub data_ptr : ℕ

-- The loop of aws_memory_pool_init: the segments acquired, and whether all of them were.
pub fill : ℕ → List ℕ → Heap → Heap × List ℕ × Bool
fill zero stack h = (h, stack, true)
fill (suc n) stack h = elim (Memory.acquire h) [
  | none ↦ (h, stack, false)
  | some (a, h') ↦ fill n (a ∷ stack) h'
]

-- aws_memory_pool_clean_up: every segment from the top down, then the array.
pub release_all : List ℕ → Heap → Heap
release_all [] h = h
release_all (a ∷ stack) h = release_all stack (Memory.release a h)

pub pool_clean_up : Pool → Heap → Heap
unfolding release_all
pool_clean_up pool h = Memory.release pool.data_ptr (release_all pool.stack h)

-- aws_memory_pool_init
pub pool_init : ℕ → ℕ → Heap → Heap × Option Pool
unfolding fill pool_clean_up
pool_init ideal_segment_count segment_size h = elim (Memory.acquire h) [
  | none ↦ (h, none)
  | some (data_ptr, h') ↦
      (let (h'', stack, done) = fill ideal_segment_count [] h' in
        let pool : Pool = record {
          stack = stack;
          ideal_segment_count = ideal_segment_count;
          segment_size = segment_size;
          data_ptr = data_ptr;
        } in
        if done then (h'', some pool) else (pool_clean_up pool h'', none))
]

-- aws_memory_pool_acquire
pub pool_acquire : Pool → Heap → Option (ℕ × Pool × Heap)
pool_acquire pool h = elim pool.stack [
  | back ∷ stack ↦ some (back, record pool { stack = stack }, h)
  | [] ↦ elim (Memory.acquire h) [ none ↦ none | some (mem, h') ↦ some (mem, pool, h') ]
]

-- aws_memory_pool_release
pub pool_release : ℕ → Pool → Heap → Pool × Heap
pool_release to_release pool h =
    if leb pool.ideal_segment_count (length pool.stack)
    then (pool, Memory.release to_release h)
    else (record pool { stack = to_release ∷ pool.stack }, h)

-- enum aws_io_message_type; `other_type` is any other number.
pub data MessageType : Type 0 where
  application_data other_type : MessageType

-- struct aws_io_message, as far as the pool sets it; the message's address is its segment.
pub record Message : Type 0 where
  pub segment : ℕ
  pub message_type : MessageType
  pub message_tag : ℕ
  pub copy_mark : ℕ
  pub data_len : ℕ
  pub data_capacity : ℕ

-- struct aws_message_pool
pub record MsgPool : Type 0 where
  pub application_data_pool : Pool
  pub small_block_pool : Pool

-- struct aws_message_pool_creation_args
pub record CreationArgs : Type 0 where
  pub application_data_msg_data_size : ℕ
  pub application_data_msg_count : ℕ
  pub small_block_msg_data_size : ℕ
  pub small_block_msg_count : ℕ

-- `overhead` is MSG_OVERHEAD, a sum of sizeof.
module _ (overhead : ℕ) where
  -- segment_size - MSG_OVERHEAD
  pub data_size : Pool → ℕ
  data_size pool = u64 (pool.segment_size + u64_mod - overhead)

  -- aws_message_pool_init
  pub msg_pool_init : CreationArgs → Heap → Heap × Option MsgPool
  unfolding pool_init pool_clean_up
  msg_pool_init args h =
      let msg_data_size = u64 (args.application_data_msg_data_size + overhead) in
      let small_blk_data_size = u64 (args.small_block_msg_data_size + overhead) in
      let first = pool_init args.application_data_msg_count msg_data_size h in
      elim first.1 [
        | none ↦ (first.0, none)
        | some app ↦
            (let second = pool_init args.small_block_msg_count small_blk_data_size first.0 in
              elim second.1 [
                | none ↦ (pool_clean_up app second.0, none)
                | some small ↦ (
                  second.0,
                  some (record { application_data_pool = app; small_block_pool = small }),
                )
              ])
      ]

  -- Whether a size wants a segment of the pool for application data.
  pub is_large : ℕ → MsgPool → Bool
  unfolding data_size
  is_large size pool = ltb (data_size pool.small_block_pool) size

  pub wrap_message : ℕ → Pool → ℕ → Message
  unfolding data_size
  wrap_message size_hint pool segment = record {
    segment = segment;
    message_type = application_data;
    message_tag = 0;
    copy_mark = 0;
    data_len = 0;
    data_capacity = if leb size_hint (data_size pool) then size_hint else data_size pool;
  }

  pub from_large : ℕ → MsgPool → Option (ℕ × Pool × Heap) → Option (Message × MsgPool × Heap)
  unfolding wrap_message
  from_large size_hint pool none = none
  from_large size_hint pool (some (mem, app, h)) = some (
    wrap_message size_hint pool.application_data_pool mem,
    record pool { application_data_pool = app },
    h,
  )

  pub from_small : ℕ → MsgPool → Option (ℕ × Pool × Heap) → Option (Message × MsgPool × Heap)
  unfolding wrap_message
  from_small size_hint pool none = none
  from_small size_hint pool (some (mem, small, h)) = some (
    wrap_message size_hint pool.small_block_pool mem,
    record pool { small_block_pool = small },
    h,
  )

  -- aws_message_pool_acquire
  pub msg_acquire : MessageType → ℕ → MsgPool → Heap → Option (Message × MsgPool × Heap)
  unfolding is_large from_large from_small
  msg_acquire other_type size_hint pool h = none
  msg_acquire application_data size_hint pool h =
      if is_large size_hint pool
      then from_large size_hint pool (pool_acquire pool.application_data_pool h)
      else from_small size_hint pool (pool_acquire pool.small_block_pool h)

  -- aws_message_pool_release
  pub msg_release : Message → MsgPool → Heap → MsgPool × Heap
  unfolding is_large
  msg_release message pool h = elim message.message_type [
    | other_type ↦ (pool, h)
    | application_data ↦
        (let large = pool_release message.segment pool.application_data_pool h in
          let small = pool_release message.segment pool.small_block_pool h in
          if is_large message.data_capacity pool
          then (record pool { application_data_pool = large.0 }, large.1)
          else (record pool { small_block_pool = small.0 }, small.1))
  ]

-- aws_message_pool_clean_up
pub msg_pool_clean_up : MsgPool → Heap → Heap
unfolding pool_clean_up
msg_pool_clean_up pool h =
    pool_clean_up pool.small_block_pool (pool_clean_up pool.application_data_pool h)
