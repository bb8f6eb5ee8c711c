-- ===== src/Channel/Slots/Tests.antt =====
-- Runs of the slot operations of source/channel.c.
use aws_c_io.Base.{ℕ, ◌≡◌, true, false, none, some, [], ◌∷◌, refl, arith, u64}
use aws_c_io.Channel.{Channel, Slot, ChannelState}
use aws_c_io.Channel.Slots.{slot_new, insert_right, remove, replace}
use aws_c_io.Channel.Slots.Links.{Linked, insert_right-Linked, slot_new-Linked}
use aws_c_io.Channel.Slots.Walk.{left_sum}
use aws_c_io.Channel.Slots.Overhead.{remove-Linked, replace-Linked, replace-left_sum}

abbrev blank : Slot
blank = record {
  adj_left = none;
  adj_right = none;
  handler = none;
  window_size = 0;
  upstream_message_overhead = 0;
  current_window_update_batch_size = 0;
}

abbrev empty : Channel
empty = record {
  first = none;
  slots = λ i. blank;
  next_slot = 10;
  freed = [];
  destroyed = [];
  channel_state = ChannelState.active;
  read_back_pressure_enabled = true;
  window_update_batch_emit_threshold = 0;
  window_update_scheduled = false;
}

empty-Linked : Linked empty []
empty-Linked = record {
  front = refl;
  distinct = tt;
  left = λ x h. ground arith;
  right = λ x h. ground arith;
}

abbrev chan_a : Channel
chan_a = (slot_new empty).0

chan_a-Linked : Linked chan_a (10 ∷ [])
chan_a-Linked = slot_new-Linked empty [] empty-Linked refl

-- Slot 11 stands right of slot 10.
abbrev chan_b : Channel
chan_b = insert_right 10 11 ((slot_new chan_a).0)

chan_b-Linked : Linked chan_b (10 ∷ 11 ∷ [])
unfolding slot_new
chan_b-Linked =
    insert_right-Linked ((slot_new chan_a).0) (10 ∷ []) 10 11
      (slot_new-Linked chan_a (10 ∷ []) chan_a-Linked refl) refl refl

chan_b_first : chan_b.first ≡ some 10
unfolding insert_right slot_new
chan_b_first = refl

-- Each slot has the handler of its own number.
abbrev overhead_of : ℕ → ℕ
overhead_of h = 5

slot_new-Linked_example : Linked ((slot_new chan_a).0) (10 ∷ [])
unfolding slot_new
slot_new-Linked_example = slot_new-Linked chan_a (10 ∷ []) chan_a-Linked refl

remove-Linked_example : Linked (remove overhead_of 2 10 chan_b) (11 ∷ [])
remove-Linked_example = remove-Linked overhead_of 2 chan_b (10 ∷ 11 ∷ []) 10 chan_b-Linked refl

replace-Linked_example : Linked (replace overhead_of 2 10 12 chan_b) (12 ∷ 11 ∷ [])
replace-Linked_example =
    replace-Linked overhead_of 2 chan_b (10 ∷ 11 ∷ []) 10 chan_b-Linked 12 refl refl

replace-left_sum_example :
    ((replace overhead_of 2 10 12 chan_b).slots 11).upstream_message_overhead
    ≡ u64 (left_sum overhead_of (replace overhead_of 2 10 12 chan_b).slots 11 (12 ∷ 11 ∷ []))
replace-left_sum_example =
    replace-left_sum overhead_of 2 chan_b (10 ∷ 11 ∷ []) 10 chan_b-Linked 12 11 refl refl
      (omega arith) refl
