-- ===== src/Channel/Lifetime/Tests.antt =====
-- The life of a channel of source/channel.c with three slots and two holds.
use aws_c_io.Base.{true, false, none, some, List, [], ◌∷◌, ◌==◌, if◌then◌else◌, refl, arith}
use aws_c_io.Channel.{Channel, Slot, ChannelState}
use aws_c_io.Channel.Slots.Links.{Linked}
use aws_c_io.Channel.Lifetime.{Life}
use aws_c_io.Channel.Lifetime.Holds.{
  LifeStep, acquiring, releasing, running_deletion, life_steps, IsAlive, life_steps-IsAlive,
}

-- Slots 1, 2 and 3 from left to right, each with a handler.
abbrev slot_a : Slot
slot_a = record {
  adj_left = none;
  adj_right = some 2;
  handler = some 1;
  window_size = 0;
  upstream_message_overhead = 0;
  current_window_update_batch_size = 0;
}

abbrev slot_b : Slot
slot_b = record {
  adj_left = some 1;
  adj_right = some 3;
  handler = some 2;
  window_size = 100;
  upstream_message_overhead = 0;
  current_window_update_batch_size = 7;
}

abbrev slot_c : Slot
slot_c = record {
  adj_left = some 2;
  adj_right = none;
  handler = some 3;
  window_size = 50;
  upstream_message_overhead = 0;
  current_window_update_batch_size = 30;
}

abbrev three : Channel
three = record {
  first = some 1;
  slots = λ i. if i == 1 then slot_a else if i == 2 then slot_b else slot_c;
  next_slot = 4;
  freed = [];
  destroyed = [];
  channel_state = ChannelState.active;
  read_back_pressure_enabled = true;
  window_update_batch_emit_threshold = 60;
  window_update_scheduled = false;
}

three-Linked : Linked three (1 ∷ 2 ∷ 3 ∷ [])
three-Linked = record {
  front = refl;
  distinct = (refl, (refl, (refl, tt)));
  left = λ x h. ground arith;
  right = λ x h. ground arith;
}

abbrev made : Life
made = record { chan = three; refcount = 2; deletion_queued = false; deletions = 0 }

abbrev uses : List LifeStep
uses =
    acquiring
    ∷ releasing true
    ∷ releasing false
    ∷ releasing false
    ∷ running_deletion
    ∷ releasing true
    ∷ []

life_steps-IsAlive_example : IsAlive 3 (life_steps 3 uses (record { life = made; holders = 2 }))
life_steps-IsAlive_example =
    life_steps-IsAlive 3 uses (record { life = made; holders = 2 }) (omega arith) (refl, refl)
