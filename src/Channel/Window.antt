-- ===== src/Channel/Window.antt =====
-- Messages and read windows between neighbouring slots of source/channel.c. The handlers are objects
-- of other modules: what they answer is a parameter.
pub mod Flow
pub mod Flush
pub mod Handler
mod Tests
use aws_c_io.Base.{
  ℕ, zero, suc, ◌+◌, ◌-◌, Bool, true, false, Option, none, some, ◌||◌, ◌&&◌, not, ltb, leb,
  if◌then◌else◌, u64, u64_mod, u64_max, OpResult, success, failure, AwsError, invalid_state,
  channel_read_would_exceed_window, TaskStatus, run_ready, canceled,
}
use aws_c_io.Common.{Common}
use aws_c_io.Channel.{Channel, Slot, Direction, read_dir, write_dir, is_open, write}
use aws_c_io.Channel.Slots.{last_from, update_overheads}

-- What becomes of a message: the slot whose handler it goes to, the error raised, or a failed
-- AWS_ASSERT on the neighbour.
pub data Sent : Type 0 where
  to_handler : ℕ → Direction → Sent
  refused : AwsError → Sent
  no_neighbour : Sent

abbrev pub set_window : ℕ → ℕ → Channel → Channel
set_window i n c = record c { slots = write c.slots i (record s { window_size = n }) }
  where
    s : Slot
    s = c.slots i

abbrev pub set_batch : ℕ → ℕ → Channel → Channel
set_batch i n c = record c {
  slots = write c.slots i (record s { current_window_update_batch_size = n });
}
  where
    s : Slot
    s = c.slots i

-- `slot->window_size >= len`, or no back pressure
abbrev pub has_room : Channel → ℕ → ℕ → Bool
has_room c slot len = not c.read_back_pressure_enabled || leb len (c.slots slot).window_size

-- The read direction of aws_channel_slot_send_message; the window is a size_t.
pub send_right : Option ℕ → ℕ → Channel → Channel × Sent
send_right none len c = (c, no_neighbour)
send_right (some right) len c =
    if has_room c right len
    then (
      set_window right (u64 ((c.slots right).window_size + u64_mod - len)) c,
      to_handler right read_dir,
    )
    else (c, refused channel_read_would_exceed_window)

pub send_left : Option ℕ → Sent
send_left none = no_neighbour
send_left (some left) = to_handler left write_dir

-- aws_channel_slot_send_message
pub send_message : ℕ → ℕ → Direction → Channel → Channel × Sent
unfolding send_right send_left
send_message slot len read_dir c = send_right (c.slots slot).adj_right len c
send_message slot len write_dir c = (c, send_left (c.slots slot).adj_left)

-- aws_channel_slot_downstream_read_window
unfoldable pub downstream_read_window : ℕ → Channel → Option ℕ
downstream_read_window slot c = elim (c.slots slot).adj_right [
  | none ↦ none
  | some right ↦
      some (if c.read_back_pressure_enabled then (c.slots right).window_size else u64_max)
]

-- g_aws_channel_max_fragment_size
abbrev pub max_fragment_size : ℕ
max_fragment_size = 16384

-- The size that aws_channel_slot_acquire_max_message_for_write asks the pool for; `none` is
-- AWS_ERROR_INVALID_STATE.
unfoldable pub max_message_size_hint : ℕ → Channel → Option ℕ
max_message_size_hint slot c =
    if leb max_fragment_size (c.slots slot).upstream_message_overhead
    then none
    else some (max_fragment_size - (c.slots slot).upstream_message_overhead)

module _ (common : Common) where
  -- aws_channel_slot_increment_read_window; window_update_scheduled stands for the queued task.
  pub increment_read_window : ℕ → ℕ → Channel → Channel
  increment_read_window slot window c =
      if c.read_back_pressure_enabled && is_open c.channel_state
      then record batched {
        window_update_scheduled =
            c.window_update_scheduled
            || leb (c.slots slot).window_size c.window_update_batch_emit_threshold;
      }
      else c
    where
      batched : Channel
      batched =
          set_batch slot
            (common.add_size_saturating (c.slots slot).current_window_update_batch_size window) c

  -- aws_channel_slot_set_handler
  pub set_handler :
      (message_overhead : ℕ → ℕ) (initial_window_size : ℕ → ℕ) → ℕ → ℕ → ℕ → Channel → Channel
  unfolding increment_read_window
  set_handler message_overhead initial_window_size fuel slot handler c =
      increment_read_window slot (initial_window_size handler) (
        update_overheads message_overhead fuel
          (record c { slots = write c.slots slot (record s { handler = some handler }) }))
    where
      s : Slot
      s = c.slots slot

  -- The batch of a slot becomes a part of its window.
  abbrev pub apply_batch : ℕ → Channel → Channel
  apply_batch i c = set_batch i 0 (
      set_window i
        (common.add_size_saturating (c.slots i).window_size
          (c.slots i).current_window_update_batch_size)
        c)

  -- The handlers of other modules answer an increment and may call the channel's functions.
  module _ (on_increment : ℕ → ℕ → ℕ → Channel → Channel × OpResult) where
    -- The loop of s_window_update_task to the left; the error is what the channel is shut down with.
    pub update_windows_from : ℕ → ℕ → Channel → Channel × Option AwsError
    update_windows_from zero i c = (c, none)
    update_windows_from (suc fuel) i c = elim (c.slots i).adj_left [
      | none ↦ (c, none)
      | some upstream ↦ elim (c.slots upstream).handler [
        | none ↦ update_windows_from fuel upstream c
        | some h ↦
            let (c', r) =
              on_increment h upstream (c.slots i).current_window_update_batch_size
                (apply_batch i c) in
            elim r [
              | failure e ↦ (c', some e)
              | success ↦ elim (c'.slots i).adj_left [
                | none ↦ (c', none)
                | some left ↦ update_windows_from fuel left c'
              ]
            ]
      ]
    ]

    -- s_window_update_task; a channel without a slot has no such task.
    pub window_update_task : ℕ → TaskStatus → Channel → Channel × Option AwsError
    unfolding update_windows_from
    window_update_task fuel canceled c = (record c { window_update_scheduled = false }, none)
    window_update_task fuel run_ready c =
        if is_open c.channel_state
        then elim c.first [
          | none ↦ (record c { window_update_scheduled = false }, none)
          | some i ↦
              update_windows_from fuel (last_from fuel i c)
                (record c { window_update_scheduled = false })
        ]
        else (record c { window_update_scheduled = false }, none)
