-- ===== src/PosixSocket/Tests.antt =====
-- What has been proved of the writes of source/posix/socket.c, for a kernel that takes four bytes at a time.
use aws_c_io.Base.{
  ℕ, zero, suc, ◌≤◌, ◌<◌, ◌≡◌, ◌⊎◌, true, false, none, List, [], ◌∷◌, ◌++◌, min, refl, arith, inr,
}
use aws_c_io.PosixSocket.{
  SendResult, sent, would_block, Kernel, WriteRequest, PosixSocket, process_write_requests,
  socket_close,
}
use aws_c_io.PosixSocket.Loop.{IsFair, left_in, HasFailed, process_write_requests-bytes}
use aws_c_io.PosixSocket.Requests.{called_ids}
use aws_c_io.PosixSocket.{
  SocketEvent, writing, written_task_runs, delivering, closing, Ledger, socket_steps,
}
use aws_c_io.PosixSocket.Fifo.{IsFifo}
use aws_c_io.PosixSocket.Order.{socket_steps-IsFifo, socket_close-calls}

-- It blocks when the number it counts down is zero.
abbrev send_four : ℕ → ℕ → ℕ × SendResult
send_four n zero = (zero, would_block)
send_four n (suc w) = (w, sent (min 4 n))

abbrev kernel : Kernel ℕ
kernel = record { send = send_four }

send_four_fits : (n w m : ℕ) → (send_four n w).1 ≡ sent m → m ≤ n
send_four_fits n zero m h = ground (arith, h)
send_four_fits n (suc w) m h = ground (arith, h)

send_four_moves : (n w m : ℕ) → (send_four (suc n) w).1 ≡ sent m → 0 < m
send_four_moves n zero m h = ground (arith, h)
send_four_moves n (suc w) m h = ground (arith, h)

kernel-IsFair : IsFair kernel
kernel-IsFair = record { send_fits = send_four_fits; send_moves = send_four_moves }

abbrev request : ℕ → List ℕ → WriteRequest
request id bytes = record { id = id; original_buffer_len = 6; cursor = bytes; error_code = none }

abbrev connected : List WriteRequest → PosixSocket ℕ
connected q = record {
  write_queue = q;
  written_queue = [];
  written_task_scheduled = false;
  is_connected_write = true;
  is_open = true;
  next_request = 2;
  wire = [];
  called = [];
  delivering = 0;
  world = 3;
}

abbrev two_waiting : PosixSocket ℕ
two_waiting = connected (request 0 (1 ∷ 2 ∷ 3 ∷ 4 ∷ 5 ∷ 6 ∷ []) ∷ request 1 (7 ∷ 8 ∷ []) ∷ [])

process_write_requests-bytes_example :
    let after = (process_write_requests kernel none two_waiting).0 in
    (dropped : List ℕ) × ((after.wire ++ (left_in after.write_queue ++ dropped)
        ≡ two_waiting.wire ++ left_in two_waiting.write_queue)
      × ((dropped ≡ []) ⊎ ((after.write_queue ≡ []) × HasFailed kernel after.world)))
process_write_requests-bytes_example = process_write_requests-bytes kernel none two_waiting

abbrev opened : Ledger ℕ
opened = record { socket = connected []; accepted = [] }

opened-IsFifo : IsFifo kernel opened
opened-IsFifo = record { order = refl; is_new = ground arith; is_served = inr (omega arith) }

abbrev writes : List SocketEvent
writes =
    writing (1 ∷ 2 ∷ 3 ∷ 4 ∷ 5 ∷ [])
    ∷ written_task_runs
    ∷ writing (6 ∷ [])
    ∷ delivering
    ∷ writing (7 ∷ [])
    ∷ closing
    ∷ writing (8 ∷ [])
    ∷ []

socket_steps-IsFifo_example : IsFifo kernel (socket_steps kernel writes opened)
socket_steps-IsFifo_example = socket_steps-IsFifo kernel writes opened opened-IsFifo

abbrev one_written : Ledger ℕ
one_written = record {
  socket = record two_waiting { written_queue = []; called = [] };
  accepted = 0 ∷ 1 ∷ [];
}

one_written-IsFifo : IsFifo kernel one_written
one_written-IsFifo = record { order = refl; is_new = ground arith; is_served = inr (omega arith) }

socket_close-calls_example : called_ids (socket_close one_written.socket).called ≡ 0 ∷ 1 ∷ []
socket_close-calls_example = socket_close-calls kernel one_written refl one_written-IsFifo
