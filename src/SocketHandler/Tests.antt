-- ===== src/SocketHandler/Tests.antt =====
-- What has been proved of source/socket_channel_handler.c, for a socket with two chunks of data.
use aws_c_io.Base.{
  ℕ, suc, ◌≤◌, ◌<◌, ◌≡◌, true, false, none, some, List, [], ◌∷◌, ◌==◌, if◌then◌else◌, min,
  read_would_block, success, run_ready, refl, arith,
}
use aws_c_io.Channel.{Channel, Slot, ChannelState, read_dir, write_dir}
use aws_c_io.SocketHandler.{SocketHandler, Around, ReadResult, got, failed, do_read, max_to_read}
use aws_c_io.SocketHandler.Reads.{IsFair, Rests, reading, do_read-Rests}
use aws_c_io.SocketHandler.Events.{
  Running, HandlerEvent, readable, window_incremented, closing, reading_again, shutting_down,
  handler_steps, IsOrderly, handler_steps-IsOrderly,
}

abbrev read_chunk : ℕ → List ℕ → List ℕ × ReadResult
read_chunk room [] = ([], failed read_would_block)
read_chunk room (x ∷ xs) = (xs, got (min (suc x) room))

abbrev chunks : Around (List ℕ)
chunks = record {
  acquire_message = λ n w. (w, some n);
  socket_read = λ n w. read_chunk n w;
  process_read_message = λ right len w c. ((w, c), success);
}

read_fits_chunk :
    (c : ℕ) (w : List ℕ) (n : ℕ) → 0 < c → (read_chunk c w).1 ≡ got n → (0 < n) × (n ≤ c)
read_fits_chunk c [] n p q = ground (arith, q)
read_fits_chunk c (x ∷ xs) n p q = ground (arith, p, q)

chunks-IsFair : IsFair chunks
chunks-IsFair = record {
  acquire_fits = λ n w c p q. ground (arith, p, q);
  read_fits = read_fits_chunk;
}

abbrev socket_slot : ℕ → Slot
socket_slot i = record {
  adj_left = if i == 0 then none else some 0;
  adj_right = if i == 0 then some 1 else none;
  handler = some i;
  window_size = 100;
  upstream_message_overhead = 0;
  current_window_update_batch_size = 0;
}

abbrev two_slots : Channel
two_slots = record {
  first = some 0;
  slots = socket_slot;
  next_slot = 2;
  freed = [];
  destroyed = [];
  channel_state = ChannelState.active;
  read_back_pressure_enabled = true;
  window_update_batch_emit_threshold = 10;
  window_update_scheduled = false;
}

abbrev socket_handler : SocketHandler
socket_handler = record {
  slot = 0;
  max_rw_size = 64;
  read_task = false;
  shutdown_in_progress = false;
  shutdown_err_code = none;
  bytes_read = 0;
  bytes_written = 0;
  is_socket_open = true;
  requests = [];
}

abbrev data_waiting : List ℕ
data_waiting = 9 ∷ 29 ∷ 99 ∷ []

do_read-Rests_example :
    let r = reading chunks socket_handler data_waiting two_slots (max_to_read 100 socket_handler) in
    (r.total_read ≤ 100)
    × (r.total_read ≤ 64)
    × Rests chunks socket_handler (do_read chunks socket_handler data_waiting two_slots).0 100 r
unfolding aws_c_io.Channel.Window.downstream_read_window
do_read-Rests_example =
    do_read-Rests chunks socket_handler data_waiting two_slots 100 chunks-IsFair refl refl
      (omega arith) (omega arith) (omega arith)

abbrev running : Running (List ℕ)
running = record {
  handler = socket_handler;
  world = data_waiting;
  chan = two_slots;
  read_runs = 0;
  close_runs = 0;
}

abbrev reads_and_closes : List HandlerEvent
reads_and_closes =
    readable
    ∷ window_incremented
    ∷ shutting_down write_dir none false
    ∷ reading_again run_ready
    ∷ closing
    ∷ []

handler_steps-IsOrderly_example : IsOrderly chunks (handler_steps chunks reads_and_closes running)
handler_steps-IsOrderly_example =
    handler_steps-IsOrderly chunks reads_and_closes running (refl, refl, omega arith)
