-- ===== src/Channel/Window/Handler.antt =====
-- aws_channel_slot_set_handler and aws_channel_slot_acquire_max_message_for_write of source/channel.c.
use aws_c_io.Base.{ℕ, ◌+◌, ◌≤◌, ◌≡◌, true, some, List, arith, length, u64}
use aws_c_io.Common.{Common}
use aws_c_io.Channel.{Channel, Slot, write}
use aws_c_io.Channel.Slots.{update_overheads}
use aws_c_io.Channel.Slots.Order.{member}
use aws_c_io.Channel.Slots.Links.{Linked}
use aws_c_io.Channel.Slots.Walk.{left_sum, left_sum-frame, SamePlace}
use aws_c_io.Channel.Slots.Overhead.{update_overheads-Linked, update_overheads-left_sum}
use aws_c_io.Channel.Window.{
  increment_read_window, set_handler, max_message_size_hint, max_fragment_size,
}
use aws_c_io.Memory.{Heap}
use aws_c_io.MessagePool.{Message, MsgPool, application_data, msg_acquire}
use aws_c_io.MessagePool.Messages.{msg_acquire_fits}

-- A message acquired for a write, however large the pool's segments are, leaves room in a fragment for
-- what the handlers to the left add to it.
pub max_message_fits :
    (overhead : ℕ) (c : Channel) (slot hint : ℕ) (pool pool' : MsgPool) (h h' : Heap) (m : Message)
    → max_message_size_hint slot c ≡ some hint
    → msg_acquire overhead application_data hint pool h ≡ some (m, pool', h')
    → (m.data_len ≡ 0)
      × (m.data_capacity + (c.slots slot).upstream_message_overhead ≤ max_fragment_size)
unfolding max_message_size_hint
max_message_fits overhead c slot hint pool pool' h h' m e f =
    ground (arith, e, msg_acquire_fits overhead hint pool pool' h h' m f)

module _ (common : Common) where
  increment_frame :
      (slot n : ℕ) (c : Channel) (x : ℕ)
      → SamePlace ((increment_read_window common slot n c).slots x) (c.slots x)
  unfolding increment_read_window
  increment_frame slot n c x = ground arith

  increment_read_window-Linked :
      (slot n : ℕ) (c : Channel) (xs : List ℕ)
      → Linked c xs
      → Linked (increment_read_window common slot n c) xs
  unfolding increment_read_window
  increment_read_window-Linked slot n c xs l = record {
    front = ground (arith, l.front);
    distinct = l.distinct;
    left = λ x m. ground (arith, l.left x m);
    right = λ x m. ground (arith, l.right x m);
  }

  increment_overhead :
      (slot n : ℕ) (c : Channel) (x : ℕ)
      → ((increment_read_window common slot n c).slots x).upstream_message_overhead
        ≡ (c.slots x).upstream_message_overhead
  unfolding increment_read_window
  increment_overhead slot n c x = ground arith

  module _ (message_overhead initial_window_size : ℕ → ℕ) (fuel slot handler : ℕ) (c : Channel)
      (xs : List ℕ) (l : Linked c xs) where
    abbrev given : Channel
    given = record c { slots = write c.slots slot (record s { handler = some handler }) }
      where
        s : Slot
        s = c.slots slot

    given-Linked : Linked given xs
    given-Linked = record {
      front = l.front;
      distinct = l.distinct;
      left = λ x m. ground (arith, l.left x m);
      right = λ x m. ground (arith, l.right x m);
    }

    -- set_handler leaves the order of the slots, and with fuel for every slot each of them then knows
    -- the overhead of the handlers to its left, the new one included.
    pub set_handler-left_sum :
        (x : ℕ)
        → length xs ≤ fuel
        → member x xs ≡ true
        → Linked (set_handler common message_overhead initial_window_size fuel slot handler c) xs
          × (((set_handler common message_overhead initial_window_size fuel slot handler c).slots
                x).upstream_message_overhead
              ≡ u64 (
                  left_sum message_overhead
                    (set_handler common message_overhead initial_window_size fuel slot handler
                      c).slots
                    x
                    xs))
    unfolding set_handler
    set_handler-left_sum x g m =
        let d : Channel = update_overheads message_overhead fuel given in
        let n : ℕ = initial_window_size handler in
        (
          increment_read_window-Linked slot n d xs
              (update_overheads-Linked message_overhead fuel given xs given-Linked),
          ground (
            arith,
            increment_overhead slot n d x,
            update_overheads-left_sum message_overhead fuel given xs x given-Linked g m,
            left_sum-frame message_overhead (increment_read_window common slot n d).slots d.slots x
                xs (increment_frame slot n d),
          ),
        )
