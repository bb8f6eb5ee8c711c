-- ===== src/Channel/Window/Tests.antt =====
-- Runs of messages and windows of source/channel.c between three slots.
use aws_c_io.Base.{
  ℕ, ◌≡◌, inr, true, false, none, some, List, [], ◌∷◌, ◌==◌, if◌then◌else◌, refl, arith, OpResult,
  success, run_ready,
}
use aws_c_io.Common.{common}
use aws_c_io.Channel.{Channel, Slot, ChannelState}
use aws_c_io.Channel.Slots.Links.{Linked}
use aws_c_io.Channel.Window.{increment_read_window, window_update_task}
use aws_c_io.Channel.Window.Flow.{
  IsPending, increment_read_window-IsPending, FlowEvent, sending, incrementing, updating, Ledger,
  flow_all, IsBalanced, flow_all-IsBalanced,
}
use aws_c_io.Channel.Window.Flush.{Frames, IsFlushed, window_update_task-IsFlushed}

-- Slots 1, 2 and 3 from left to right, each with a handler.
abbrev slot_a : Slot
slot_a = record {
  adj_left = none;
  adj_right = some 2;
  handler = some 1;
  window_size = 0;
  upstream_message_overhead = 0;
  current_window_update_batch_size = 0;
}

abbrev slot_b : Slot
slot_b = record {
  adj_left = some 1;
  adj_right = some 3;
  handler = some 2;
  window_size = 100;
  upstream_message_overhead = 0;
  current_window_update_batch_size = 7;
}

abbrev slot_c : Slot
slot_c = record {
  adj_left = some 2;
  adj_right = none;
  handler = some 3;
  window_size = 50;
  upstream_message_overhead = 0;
  current_window_update_batch_size = 30;
}

abbrev three : Channel
three = record {
  first = some 1;
  slots = λ i. if i == 1 then slot_a else if i == 2 then slot_b else slot_c;
  next_slot = 4;
  freed = [];
  destroyed = [];
  channel_state = ChannelState.active;
  read_back_pressure_enabled = true;
  window_update_batch_emit_threshold = 60;
  window_update_scheduled = false;
}

three-Linked : Linked three (1 ∷ 2 ∷ 3 ∷ [])
three-Linked = record {
  front = refl;
  distinct = (refl, (refl, (refl, tt)));
  left = λ x h. ground arith;
  right = λ x h. ground arith;
}

-- A handler that passes an increment on to its own slot.
abbrev pass_on : ℕ → ℕ → ℕ → Channel → Channel × OpResult
pass_on h u size c = (increment_read_window common u size c, success)

pass_on-Frames : Frames pass_on
unfolding increment_read_window
pass_on-Frames = record {
  succeeds = λ h u size c. refl;
  places = λ h u size c y. ground arith;
  windows = λ h u size c y. ground arith;
  batches = λ h u size c y n. ground arith;
  own_batch = λ h u size c. ground arith;
}

increment_read_window-IsPending_example : IsPending (increment_read_window common 2 5 three) 2
increment_read_window-IsPending_example =
    increment_read_window-IsPending common three 2 5 2 (inr (inr (ground arith)))

abbrev opened : Ledger
opened = record { chan = three; delivered = 0; granted = 107 }

abbrev traffic : List FlowEvent
traffic = sending 1 60 ∷ incrementing 2 60 ∷ updating 2 ∷ sending 1 100 ∷ []

flow_all-IsBalanced_example : IsBalanced common 2 (flow_all common 2 traffic opened)
flow_all-IsBalanced_example =
    flow_all-IsBalanced common 2 traffic opened (refl, ground arith, ground arith)

window_update_task-IsFlushed_example :
    ((window_update_task common pass_on 2 run_ready three).1 ≡ none)
    × IsFlushed three ((window_update_task common pass_on 2 run_ready three).0) 3
window_update_task-IsFlushed_example =
    window_update_task-IsFlushed common pass_on pass_on-Frames 2 1 (2 ∷ 3 ∷ []) three 3 three-Linked
      refl (omega arith) refl refl

abbrev five_bytes : ℕ → ℕ
five_bytes h = 5
