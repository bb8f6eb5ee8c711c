-- ===== src/Channel.antt =====
-- source/channel.c: the state of a channel and of its slots. Slots lie in a store by address; what is
-- only ever touched in the event loop's thread and what cross_thread_tasks.lock protects are fields.
pub mod Slots
pub mod Window
pub mod Tasks
pub mod Shutdown
pub mod Lifetime
use aws_c_io.Base.{ℕ, Bool, Option, List, ◌==◌, if◌then◌else◌}

-- struct aws_channel_slot; a handler is the number of an object of another module.
pub record Slot : Type 0 where
  pub adj_left : Option ℕ
  pub adj_right : Option ℕ
  pub handler : Option ℕ
  pub window_size : ℕ
  pub upstream_message_overhead : ℕ
  pub current_window_update_batch_size : ℕ

-- enum aws_channel_state
pub data ChannelState : Type 0 where
  setting_up active shutting_down shut_down : ChannelState

-- enum aws_channel_direction
pub data Direction : Type 0 where
  read_dir write_dir : Direction

-- struct aws_channel, the part about its slots; `freed` are the slots and `destroyed` the handlers
-- that have been released.
pub record Channel : Type 0 where
  pub first : Option ℕ
  pub slots : ℕ → Slot
  pub next_slot : ℕ
  pub freed : List ℕ
  pub destroyed : List ℕ
  pub channel_state : ChannelState
  pub read_back_pressure_enabled : Bool
  pub window_update_batch_emit_threshold : ℕ
  pub window_update_scheduled : Bool

-- `channel_state < AWS_CHANNEL_SHUTTING_DOWN`
abbrev pub is_open : ChannelState → Bool
is_open ChannelState.setting_up = Bool.true
is_open ChannelState.active = Bool.true
is_open _ = Bool.false

-- A write through a pointer to a slot.
abbrev pub write : (ℕ → Slot) → ℕ → Slot → ℕ → Slot
write slots i s j = if j == i then s else slots j
