-- ===== src/SocketHandler.antt =====
-- source/socket_channel_handler.c: the handler of a channel's first slot, between a socket and the slots to the
-- right. The message pool, the socket and the neighbour's handler are parameters; what the handler asks
-- of its channel is a log.
pub mod Reads
pub mod Charges
pub mod Events
mod Tests
use aws_c_io.Base.{
  ℕ, zero, suc, ◌+◌, ◌-◌, ◌≤◌, Bool, true, false, Option, none, some, List, [], ◌∷◌, ◌==◌, ◌&&◌,
  not, ltb, min, if◌then◌else◌, u64, is_some, AwsError, read_would_block, socket_closed,
  cant_accept_input, OpResult, success, failure, TaskStatus, run_ready, canceled,
}
use aws_c_io.Channel.{Channel, Direction, read_dir, write_dir}
use aws_c_io.Channel.Window.{
  Sent, to_handler, refused, no_neighbour, send_message, downstream_read_window,
}

-- What a read of the socket answers: a number of bytes, or AWS_OP_ERR with a code.
pub data ReadResult : Type 0 where
  got : ℕ → ReadResult
  failed : AwsError → ReadResult

-- What the handler does to its channel, besides messages.
pub data Request : Type 0 where
  schedule_read schedule_close : Request
  shut_down_channel : AwsError → Request
  shutdown_completed : Direction → Option AwsError → Bool → Request

-- struct socket_handler, with whether its socket is open; `read_task` says that read_task_storage has a task_fn.
pub record SocketHandler : Type 0 where
  pub slot : ℕ
  pub max_rw_size : ℕ
  pub read_task : Bool
  pub shutdown_in_progress : Bool
  pub shutdown_err_code : Option AwsError
  pub bytes_read : ℕ
  pub bytes_written : ℕ
  pub is_socket_open : Bool
  pub requests : List Request

-- The world around the handler, `W`: aws_channel_acquire_message_from_pool, which answers the capacity of a message for
-- the size asked; aws_socket_read into such a message; and process_read_message of the handler to the right,
-- which may call the channel's functions.
pub record Around (W : Type 0) : Type 0 where
  pub acquire_message : ℕ → W → W × Option ℕ
  pub socket_read : ℕ → W → W × ReadResult
  pub process_read_message : ℕ → ℕ → W → Channel → (W × Channel) × OpResult

-- The locals of s_do_read's loop, with the channel and the world. It goes on while last_error is none.
pub record Reading (W : Type 0) : Type 0 where
  pub total_read : ℕ
  pub last_error : Option AwsError
  pub world : W
  pub chan : Channel

-- `out_of_memory` stands for the code of a pool that has no message.
abbrev pub out_of_memory : AwsError
out_of_memory = AwsError.other_code

module _ {W : Type 0} (around : Around W) where
  -- aws_channel_slot_send_message in the read direction, with the call of the neighbour's handler
  pub deliver : ℕ → ℕ → W → Channel → (W × Channel) × OpResult
  deliver slot len w c =
      let sent = send_message slot len read_dir c in
      elim sent.1 [
        | to_handler right dir ↦ around.process_read_message right len w sent.0
        | refused e ↦ ((w, sent.0), failure e)
        | no_neighbour ↦ ((w, sent.0), failure cant_accept_input)
      ]

  -- One round of the loop of s_do_read
  pub read_round : ℕ → ℕ → Reading W → Reading W
  unfolding deliver
  read_round slot max_to_read r =
      let acquired = around.acquire_message (max_to_read - r.total_read) r.world in
      elim acquired.1 [
        | none ↦ record r { world = acquired.0; last_error = some out_of_memory }
        | some capacity ↦
            let answer = around.socket_read capacity acquired.0 in
            elim answer.1 [
              | failed e ↦ record r { world = answer.0; last_error = some e }
              | got n ↦
                  let sent = deliver slot n answer.0 r.chan in
                  elim sent.1 [
                    | failure e ↦ record {
                      total_read = u64 (r.total_read + n);
                      last_error = some e;
                      world = (sent.0).0;
                      chan = (sent.0).1;
                    }
                    | success ↦ record {
                      total_read = u64 (r.total_read + n);
                      last_error = none;
                      world = (sent.0).0;
                      chan = (sent.0).1;
                    }
                  ]
            ]
      ]

  -- The loop of s_do_read; fuel is the number of rounds.
  pub read_loop : ℕ → ℕ → ℕ → Reading W → Reading W
  unfolding read_round
  read_loop zero slot max_to_read r = r
  read_loop (suc fuel) slot max_to_read r =
      elim (ltb r.total_read max_to_read && not (is_some r.last_error)) [
        | false ↦ r
        | true ↦ read_loop fuel slot max_to_read (read_round slot max_to_read r)
      ]

-- max_to_read of s_do_read, for the window downstream
pub max_to_read : ℕ → SocketHandler → ℕ
max_to_read downstream_window h =
    if ltb h.max_rw_size downstream_window then h.max_rw_size else downstream_window

-- aws_channel_schedule_task_now for read_task_storage
pub schedule_read_task : SocketHandler → SocketHandler
schedule_read_task h = record h { read_task = true; requests = schedule_read ∷ h.requests }

-- `last_error == AWS_IO_READ_WOULD_BLOCK`
abbrev pub is_would_block : AwsError → Bool
is_would_block read_would_block = true
is_would_block _ = false

-- s_do_read after its loop
pub after_read : ℕ → ℕ → Option AwsError → SocketHandler → SocketHandler
unfolding schedule_read_task
after_read most total_read last_error h =
    let counted : SocketHandler = record h { bytes_read = u64 (h.bytes_read + total_read) } in
    if ltb total_read most
    then (elim last_error [
      | none ↦ counted
      | some e ↦
          if is_would_block e
          then counted
          else record counted { requests = shut_down_channel e ∷ h.requests }
    ])
    else (if (total_read == h.max_rw_size) && not h.read_task
        then schedule_read_task counted
        else counted)

module _ {W : Type 0} (around : Around W) where
  -- s_do_read, and with it s_trigger_read and s_on_readable_notification, whatever its error code. Each round that goes on
  -- has read something, so there is one for each byte at most.
  pub do_read : SocketHandler → W → Channel → SocketHandler × W × Channel
  unfolding read_loop max_to_read after_read
  do_read h w c =
      if h.shutdown_in_progress then (h, w, c) else (elim (downstream_read_window h.slot c) [
        | none ↦ (h, w, c)
        | some window ↦
            let most = max_to_read window h in
            if most == 0
            then (h, w, c)
            else (let r =
                  read_loop around most h.slot most
                    (record { total_read = 0; last_error = none; world = w; chan = c }) in
                (after_read most r.total_read r.last_error h, r.world, r.chan))
      ])

  -- s_read_task
  pub read_task_run : TaskStatus → SocketHandler → W → Channel → SocketHandler × W × Channel
  unfolding do_read
  read_task_run canceled h w c = (record h { read_task = false }, w, c)
  read_task_run run_ready h w c = do_read (record h { read_task = false }) w c

-- s_socket_increment_read_window
pub socket_increment_read_window : SocketHandler → SocketHandler
unfolding schedule_read_task
socket_increment_read_window h =
    if not h.shutdown_in_progress && not h.read_task then schedule_read_task h else h

-- s_close_task, whatever its status
pub close_task_run : SocketHandler → SocketHandler
close_task_run h = record h {
  requests = shutdown_completed write_dir h.shutdown_err_code false ∷ h.requests;
}

-- s_socket_shutdown, where the socket closes without an error
pub socket_shutdown : Direction → Option AwsError → Bool → SocketHandler → SocketHandler
socket_shutdown read_dir error_code immediately h = record h {
  shutdown_in_progress = true;
  is_socket_open = if immediately then false else h.is_socket_open;
  requests = shutdown_completed read_dir error_code immediately ∷ h.requests;
}
socket_shutdown write_dir error_code immediately h = record h {
  shutdown_in_progress = true;
  is_socket_open = false;
  shutdown_err_code = error_code;
  requests = schedule_close ∷ h.requests;
}

-- s_socket_process_write_message, with what aws_socket_write answers
pub process_write_message : OpResult → SocketHandler → OpResult
process_write_message written h = if h.is_socket_open then written else failure socket_closed

-- s_on_socket_write_complete for a message, while the socket has its handler
pub on_socket_write_complete : Option AwsError → ℕ → SocketHandler → SocketHandler
on_socket_write_complete error_code amount_written h =
    let counted : SocketHandler = record h {
      bytes_written = u64 (h.bytes_written + amount_written);
    } in
    elim error_code [
      | none ↦ counted
      | some e ↦ record counted { requests = shut_down_channel e ∷ h.requests }
    ]
