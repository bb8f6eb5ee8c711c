-- ===== src/Channel/Shutdown/Tests.antt =====
-- A run of the shutdown of source/channel.c over three slots.
use aws_c_io.Base.{◌≡◌, true, false, none, some, [], ◌∷◌, ◌++◌, ◌==◌, if◌then◌else◌, refl, arith}
use aws_c_io.Channel.{Channel, Slot, ChannelState, read_dir, write_dir, shut_down}
use aws_c_io.Channel.Slots.Links.{Linked}
use aws_c_io.Channel.Shutdown.{Shutdown, idle, shutdown_task, follow, completing}
use aws_c_io.Channel.Shutdown.Order.{asks, shutdown_order}

-- Slots 1, 2 and 3 from left to right, each with a handler.
abbrev slot_a : Slot
slot_a = record {
  adj_left = none;
  adj_right = some 2;
  handler = some 1;
  window_size = 0;
  upstream_message_overhead = 0;
  current_window_update_batch_size = 0;
}

abbrev slot_b : Slot
slot_b = record {
  adj_left = some 1;
  adj_right = some 3;
  handler = some 2;
  window_size = 100;
  upstream_message_overhead = 0;
  current_window_update_batch_size = 7;
}

abbrev slot_c : Slot
slot_c = record {
  adj_left = some 2;
  adj_right = none;
  handler = some 3;
  window_size = 50;
  upstream_message_overhead = 0;
  current_window_update_batch_size = 30;
}

abbrev three : Channel
three = record {
  first = some 1;
  slots = λ i. if i == 1 then slot_a else if i == 2 then slot_b else slot_c;
  next_slot = 4;
  freed = [];
  destroyed = [];
  channel_state = ChannelState.active;
  read_back_pressure_enabled = true;
  window_update_batch_emit_threshold = 60;
  window_update_scheduled = false;
}

three-Linked : Linked three (1 ∷ 2 ∷ 3 ∷ [])
three-Linked = record {
  front = refl;
  distinct = (refl, (refl, (refl, tt)));
  left = λ x h. ground arith;
  right = λ x h. ground arith;
}

abbrev running_channel : Shutdown
running_channel = record {
  chan = three;
  is_channel_shut_down = false;
  requested = some (8, true);
  notify = idle;
  has_on_shutdown_completed = true;
}

shutdown_order_example :
    follow 6 (shutdown_task 8 true running_channel).1 (shutdown_task 8 true running_channel).0 ≡ (
      record running_channel {
        chan = record (running_channel.chan) { channel_state = shut_down };
        is_channel_shut_down = true;
        notify = completing 8;
      },
      asks read_dir 8 true (1 ∷ 2 ∷ 3 ∷ []) ++ asks write_dir 8 true (3 ∷ 2 ∷ 1 ∷ []),
    )
shutdown_order_example =
    shutdown_order 8 true 6 1 (2 ∷ 3 ∷ []) running_channel three-Linked (λ x m. ground arith) refl
      refl (omega arith)
