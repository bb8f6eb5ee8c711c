-- ===== src/PosixSocket.antt =====
-- source/posix/socket.c: the writes of a socket that is connected, on its event loop's thread. The kernel's
-- send is a parameter; a callback that writes or closes is a step of its own.
pub mod Loop
pub mod Requests
pub mod Purge
pub mod Fifo
pub mod Order
mod Tests
use aws_c_io.Base.{
  ℕ, zero, suc, ◌+◌, ◌-◌, Bool, true, false, Option, none, some, List, [], ◌∷◌, ◌++◌, ◌==◌, ◌||◌,
  ◌&&◌, not, if◌then◌else◌, length, take, drop, AwsError, socket_closed, OpResult, success, failure,
  is_some,
}

-- What send answers: a number of bytes, EAGAIN, or another errno as s_determine_socket_error reads it, with
-- AWS_IO_SOCKET_CLOSED for EPIPE.
pub data SendResult : Type 0 where
  sent : ℕ → SendResult
  would_block : SendResult
  send_failed : AwsError → SendResult

-- send for a number of bytes, in the world `W`
pub record Kernel (W : Type 0) : Type 0 where
  pub send : ℕ → W → W × SendResult

-- struct socket_write_request; `cursor` are the bytes that are left.
pub record WriteRequest : Type 0 where
  pub id : ℕ
  pub original_buffer_len : ℕ
  pub cursor : List ℕ
  pub error_code : Option AwsError

-- A call of a written_fn.
pub record Written : Type 0 where
  pub request : ℕ
  pub error_code : Option AwsError
  pub bytes_written : ℕ

-- struct posix_socket, with what has been given to the kernel, the callbacks called so far, the first one
-- first, and how many more s_written_task will call while it runs.
pub record PosixSocket (W : Type 0) : Type 0 where
  pub write_queue : List WriteRequest
  pub written_queue : List WriteRequest
  pub written_task_scheduled : Bool
  pub is_connected_write : Bool
  pub is_open : Bool
  pub next_request : ℕ
  pub wire : List ℕ
  pub called : List Written
  pub delivering : ℕ
  pub world : W

-- The call of the callback of a request
pub written_call : Option AwsError → WriteRequest → Written
written_call error_code r = record {
  request = r.id;
  error_code = error_code;
  bytes_written = r.original_buffer_len - length r.cursor;
}

abbrev pub ended : Option AwsError → WriteRequest → WriteRequest
ended error_code r = record r { error_code = error_code }

module _ {W : Type 0} (kernel : Kernel W) where
  -- One round of the loop of s_process_socket_write_requests for the request at the front, with the error
  -- that ends the loop: `none` where it goes on, and in it `none` for EAGAIN.
  pub write_round :
      WriteRequest → List WriteRequest → PosixSocket W → PosixSocket W × Option (Option AwsError)
  write_round r rest s =
      let answer = kernel.send (length r.cursor) s.world in
      elim answer.1 [
        | would_block ↦ (record s { world = answer.0 }, some none)
        | send_failed e ↦ (record s { world = answer.0 }, some (some e))
        | sent n ↦
            let left : WriteRequest = record r { cursor = drop n r.cursor } in
            let after : PosixSocket W = record s {
              world = answer.0;
              wire = s.wire ++ take n r.cursor;
            } in
            if n == length r.cursor
            then (
              record after {
                write_queue = rest;
                written_queue = s.written_queue ++ (ended none left ∷ []);
              },
              none,
            )
            else (record after { write_queue = left ∷ rest }, none)
      ]

  -- The loop, with the error to purge the queue with; fuel is the number of rounds.
  pub write_loop : ℕ → PosixSocket W → PosixSocket W × Option AwsError
  unfolding write_round
  write_loop zero s = (s, none)
  write_loop (suc fuel) s = elim s.write_queue [
    | [] ↦ (s, none)
    | r ∷ rest ↦
        let p = write_round r rest s in elim p.1 [ none ↦ write_loop fuel p.0 | some e ↦ (p.0, e) ]
  ]

-- Whether a request is the one that aws_socket_write has been called for.
abbrev pub is_parent : Option ℕ → ℕ → Bool
is_parent none k = false
is_parent (some p) k = p == k

-- The loop over the queue that purges it: the requests whose callbacks get the error
pub purge_queue : Option ℕ → AwsError → List WriteRequest → List WriteRequest
purge_queue parent e [] = []
purge_queue parent e (r ∷ rs) =
    if is_parent parent r.id
    then purge_queue parent e rs
    else ended (some e) r ∷ purge_queue parent e rs

-- parent_request_failed
abbrev pub holds_parent : Option ℕ → List WriteRequest → Bool
holds_parent parent [] = false
holds_parent parent (r ∷ rs) = is_parent parent r.id || holds_parent parent rs

-- Where something has been pushed to the written queue, its task is scheduled unless it is already.
abbrev pub longer : List WriteRequest → List WriteRequest → Bool
longer before after = not (length before == length after)

abbrev pub work_left : List WriteRequest → ℕ
work_left [] = 0
work_left (r ∷ rs) = suc (length r.cursor) + work_left rs

module _ {W : Type 0} (kernel : Kernel W) where
  -- s_process_socket_write_requests, for the request of aws_socket_write or for the event loop's notification; it
  -- takes one round for each byte that is left and one for each request, at most.
  pub process_write_requests : Option ℕ → PosixSocket W → PosixSocket W × OpResult
  unfolding write_loop purge_queue
  process_write_requests parent s =
      let looped = write_loop kernel (work_left s.write_queue) s in
      elim looped.1 [
        | none ↦ (
          record (looped.0) {
            written_task_scheduled =
                s.written_task_scheduled || longer s.written_queue (looped.0).written_queue;
          },
          success,
        )
        | some e ↦
            let purged = (looped.0).written_queue ++ purge_queue parent e (looped.0).write_queue in
            (
              record (looped.0) {
                write_queue = [];
                written_queue = purged;
                written_task_scheduled = s.written_task_scheduled || longer s.written_queue purged;
              },
              if holds_parent parent (looped.0).write_queue then failure e else success,
            )
      ]

  -- aws_socket_write, on the thread of the event loop
  pub socket_write : List ℕ → PosixSocket W → PosixSocket W × OpResult
  unfolding process_write_requests
  socket_write bytes s =
      if s.is_connected_write
      then process_write_requests (some s.next_request) (record s {
        write_queue =
            s.write_queue
            ++ (record {
              id = s.next_request;
              original_buffer_len = length bytes;
              cursor = bytes;
              error_code = none;
            }
                ∷ []);
        next_request = s.next_request + 1;
      })
      else (s, failure AwsError.other_code)

abbrev pub calls_with : Option AwsError → List WriteRequest → List Written
calls_with e [] = []
calls_with e (r ∷ rs) = written_call e r ∷ calls_with e rs

-- Each with the code of its request
abbrev pub calls_of : List WriteRequest → List Written
calls_of [] = []
calls_of (r ∷ rs) = written_call r.error_code r ∷ calls_of rs

module _ {W : Type 0} where
  -- s_written_task begins: it will call what is in the written queue now, up to stop_after.
  pub written_task : PosixSocket W → PosixSocket W
  written_task s = record s { written_task_scheduled = false; delivering = length s.written_queue }

  -- One callback of it; the queue may have been emptied by a close.
  pub deliver_written : PosixSocket W → PosixSocket W
  unfolding written_call
  deliver_written s = elim s.written_queue [
    | [] ↦ record s { delivering = 0 }
    | r ∷ rs ↦ record s {
      written_queue = rs;
      called = s.called ++ (written_call r.error_code r ∷ []);
      delivering = s.delivering - 1;
    }
  ]

  -- aws_socket_close on that thread: a written task in the event loop is canceled, which runs it, and what is left
  -- in either queue is called.
  pub socket_close : PosixSocket W → PosixSocket W
  unfolding written_call
  socket_close s =
      if s.is_open
      then record s {
        is_open = false;
        is_connected_write = false;
        written_task_scheduled = false;
        called =
            (s.called ++ calls_of s.written_queue) ++ calls_with (some socket_closed) s.write_queue;
        written_queue = [];
        write_queue = [];
      }
      else s

-- What happens to the socket on its thread: writes, the notification that it is writable, its written task
-- and the callbacks of that, and its close.
pub data SocketEvent : Type 0 where
  writing : List ℕ → SocketEvent
  writable written_task_runs delivering closing : SocketEvent

-- The socket, with the requests whose aws_socket_write has answered success.
pub record Ledger (W : Type 0) : Type 0 where
  pub socket : PosixSocket W
  pub accepted : List ℕ

abbrev pub accepting : OpResult → ℕ → List ℕ
accepting success k = k ∷ []
accepting (failure e) k = []

module _ {W : Type 0} (kernel : Kernel W) where
  -- A task runs if it is scheduled, and a callback follows while the task has more.
  pub socket_step : SocketEvent → Ledger W → Ledger W
  unfolding process_write_requests socket_write written_task deliver_written socket_close
  socket_step (writing bytes) l =
      let p = socket_write kernel bytes l.socket in
      record { socket = p.0; accepted = l.accepted ++ accepting p.1 (l.socket).next_request }
  socket_step writable l =
      if (l.socket).is_open
      then record l { socket = (process_write_requests kernel none l.socket).0 }
      else l
  socket_step written_task_runs l =
      if (l.socket).written_task_scheduled then record l { socket = written_task l.socket } else l
  socket_step delivering l =
      if (l.socket).delivering == 0 then l else record l { socket = deliver_written l.socket }
  socket_step closing l = record l { socket = socket_close l.socket }

  pub socket_steps : List SocketEvent → Ledger W → Ledger W
  unfolding socket_step
  socket_steps [] l = l
  socket_steps (e ∷ es) l = socket_steps es (socket_step e l)
