-- ===== src/MessagePool/Tests.antt =====
-- Runs of source/message_pool.c at concrete values.
use aws_c_io.Base.{ℕ, ◌≤◌, ◌<◌, ◌≡◌, ◌⊎◌, min, refl, arith, false, some, none, [], ◌∷◌}
use aws_c_io.Memory.{Heap, IsFresh, count}
use aws_c_io.MessagePool.{
  Pool, MsgPool, Message, application_data, data_size, is_large, msg_acquire, pool_acquire,
  msg_pool_clean_up,
}
use aws_c_io.MessagePool.Messages.{
  IsSoundPair, msg_acquire_fits, is_large_mismatch, msg_pool_clean_up_exact,
}
use aws_c_io.Channel.{Channel, active}
use aws_c_io.Channel.Window.{max_message_size_hint}

abbrev empty_heap : Heap
empty_heap = record { next = 10; live = []; quota = 2 }

empty-IsFresh : IsFresh empty_heap
empty-IsFresh = record { beyond = λ a h. refl; once = λ a. omega arith }

-- Two pools with one segment each, of 100 and 20 bytes behind 8 bytes of overhead.
abbrev pools : MsgPool
pools = record {
  application_data_pool = record {
    stack = 2 ∷ [];
    ideal_segment_count = 1;
    segment_size = 108;
    data_ptr = 1;
  };
  small_block_pool = record {
    stack = 4 ∷ [];
    ideal_segment_count = 1;
    segment_size = 28;
    data_ptr = 3;
  };
}

abbrev heap : Heap
heap = record { next = 5; live = 4 ∷ 3 ∷ 2 ∷ 1 ∷ []; quota = 9 }

abbrev nothing : ℕ → ℕ
nothing a = 0

pools-IsSoundPair : IsSoundPair heap pools nothing
pools-IsSoundPair = record {
  app = record {
    fresh = record { beyond = λ a h. ground arith; once = λ a. ground arith };
    owns = λ a. ground arith;
    bounded = omega arith;
  };
  small = record {
    fresh = record { beyond = λ a h. ground arith; once = λ a. ground arith };
    owns = λ a. ground arith;
    bounded = omega arith;
  };
}

abbrev message : Message
message = record {
  segment = 2;
  message_type = application_data;
  message_tag = 0;
  copy_mark = 0;
  data_len = 0;
  data_capacity = 50;
}

abbrev lent : MsgPool
lent = record pools { application_data_pool = record taken { stack = [] } }
  where
    taken : Pool
    taken = pools.application_data_pool

acquired : msg_acquire 8 application_data 50 pools heap ≡ some (message, lent, heap)
unfolding msg_acquire pool_acquire
acquired = refl

msg_acquire_fits_example :
    (message.data_len ≡ 0)
    × ((message.data_capacity ≡ min 50 (data_size 8 pools.application_data_pool))
          × (data_size 8 pools.small_block_pool < 50)
        ⊎ (message.data_capacity ≡ 50) × (50 ≤ data_size 8 pools.small_block_pool))
msg_acquire_fits_example = msg_acquire_fits 8 50 pools lent heap heap message acquired

abbrev small_lent : MsgPool
small_lent = record {
  application_data_pool = record emptied { stack = [] };
  small_block_pool = pools.application_data_pool;
}
  where
    emptied : Pool
    emptied = pools.small_block_pool

abbrev swapped : MsgPool
swapped = record {
  application_data_pool = pools.small_block_pool;
  small_block_pool = pools.application_data_pool;
}

swapped_acquired :
    msg_acquire 8 application_data 150 swapped heap
    ≡ some (record message { segment = 4; data_capacity = 20 }, small_lent, heap)
unfolding msg_acquire pool_acquire
swapped_acquired = refl

is_large_mismatch_example : is_large 8 20 small_lent ≡ false
unfolding data_size
is_large_mismatch_example =
    is_large_mismatch 8 150 swapped small_lent heap heap
      (record message { segment = 4; data_capacity = 20 }) swapped_acquired (omega arith)

msg_pool_clean_up_exact_example : count 2 (msg_pool_clean_up pools heap).live ≡ nothing 2
msg_pool_clean_up_exact_example = msg_pool_clean_up_exact pools heap nothing 2 pools-IsSoundPair

-- A channel whose handlers leave 50 bytes of a fragment.
abbrev tight : Channel
tight = record {
  first = none;
  slots = λ i. record {
    adj_left = none;
    adj_right = none;
    handler = none;
    window_size = 0;
    upstream_message_overhead = 16334;
    current_window_update_batch_size = 0;
  };
  next_slot = 1;
  freed = [];
  destroyed = [];
  channel_state = active;
  read_back_pressure_enabled = false;
  window_update_batch_emit_threshold = 0;
  window_update_scheduled = false;
}

tight_hint : max_message_size_hint 0 tight ≡ some 50
unfolding max_message_size_hint
tight_hint = refl
