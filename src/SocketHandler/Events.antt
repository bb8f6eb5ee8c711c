-- ===== src/SocketHandler/Events.antt =====
-- Histories of the handler of source/socket_channel_handler.c: what its channel and its socket call.
use aws_c_io.Base.{
  ℕ, suc, ◌+◌, ◌≤◌, ◌≡◌, Bool, true, false, Option, none, some, List, [], ◌∷◌, ltb, if◌then◌else◌,
  AwsError, TaskStatus, run_ready, canceled, refl, arith, Bool-cases, Option-cases, inl, inr,
}
use aws_c_io.Channel.{Channel, Direction, read_dir, write_dir}
use aws_c_io.Channel.Window.{downstream_read_window}
use aws_c_io.SocketHandler.{
  SocketHandler, Around, Request, schedule_read, schedule_close, shutdown_completed, max_to_read,
  after_read, do_read, is_would_block, schedule_read_task, read_task_run,
  socket_increment_read_window, close_task_run, socket_shutdown, on_socket_write_complete,
}
use aws_c_io.SocketHandler.Reads.{reading}

-- The read tasks that have been scheduled, the closes, and the write shutdowns that have been completed.
abbrev pub reads_in : List Request → ℕ
reads_in [] = 0
reads_in (schedule_read ∷ rs) = suc (reads_in rs)
reads_in (_ ∷ rs) = reads_in rs

abbrev pub closes_in : List Request → ℕ
closes_in [] = 0
closes_in (schedule_close ∷ rs) = suc (closes_in rs)
closes_in (_ ∷ rs) = closes_in rs

abbrev pub completed_in : List Request → ℕ
completed_in [] = 0
completed_in (shutdown_completed write_dir e immediately ∷ rs) = suc (completed_in rs)
completed_in (_ ∷ rs) = completed_in rs

-- The handler with its world, and how many of its tasks have run.
pub record Running (W : Type 0) : Type 0 where
  pub handler : SocketHandler
  pub world : W
  pub chan : Channel
  pub read_runs : ℕ
  pub close_runs : ℕ

pub data HandlerEvent : Type 0 where
  readable window_incremented closing : HandlerEvent
  reading_again : TaskStatus → HandlerEvent
  shutting_down : Direction → Option AwsError → Bool → HandlerEvent
  written : Option AwsError → ℕ → HandlerEvent

module _ {W : Type 0} (around : Around W) where
  -- A task runs if it is in the event loop.
  pub handler_step : HandlerEvent → Running W → Running W
  unfolding do_read read_task_run socket_increment_read_window close_task_run socket_shutdown
      on_socket_write_complete
  handler_step readable s =
      let r = do_read around s.handler s.world s.chan in
      record s { handler = r.0; world = r.1; chan = r.2 }
  handler_step (reading_again status) s =
      if ltb s.read_runs (reads_in (s.handler).requests)
      then (let r = read_task_run around status s.handler s.world s.chan in
          record s { handler = r.0; world = r.1; chan = r.2; read_runs = s.read_runs + 1 })
      else s
  handler_step window_incremented s = record s { handler = socket_increment_read_window s.handler }
  handler_step closing s =
      if ltb s.close_runs (closes_in (s.handler).requests)
      then record s { handler = close_task_run s.handler; close_runs = s.close_runs + 1 }
      else s
  handler_step (shutting_down dir e immediately) s = record s {
    handler = socket_shutdown dir e immediately s.handler;
  }
  handler_step (written e n) s = record s { handler = on_socket_write_complete e n s.handler }

  pub handler_steps : List HandlerEvent → Running W → Running W
  unfolding handler_step
  handler_steps [] s = s
  handler_steps (e ∷ es) s = handler_steps es (handler_step e s)

  abbrev task_count : Bool → ℕ
  task_count b = if b then 1 else 0

  -- read_task_storage is in the event loop once if its function is set, and not at all otherwise; a write
  -- shutdown is completed once for each close task that has run.
  abbrev pub IsOrderly : Running W → Type 0
  IsOrderly s =
      (reads_in (s.handler).requests ≡ s.read_runs + (if (s.handler).read_task then 1 else 0))
      × (completed_in (s.handler).requests ≡ s.close_runs)
      × (s.close_runs ≤ closes_in (s.handler).requests)

  -- What a read leaves of the accounts
  abbrev Steady : SocketHandler → SocketHandler → Type 0
  Steady h h' =
      (reads_in h'.requests + task_count h.read_task
        ≡ reads_in h.requests + task_count h'.read_task)
      × (completed_in h'.requests ≡ completed_in h.requests)
      × (closes_in h'.requests ≡ closes_in h.requests)

  after_read-Steady :
      (most t : ℕ) (o : Option AwsError) (h : SocketHandler) → Steady h (after_read most t o h)
  unfolding after_read schedule_read_task
  after_read-Steady most t none h = ground arith
  after_read-Steady most t (some e) h = elim (Bool-cases (is_would_block e)) [
    | inl q ↦ ground (arith, q)
    | inr q ↦ ground (arith, q)
  ]

  do_read-Steady : (h : SocketHandler) (w : W) (c : Channel) → Steady h (do_read around h w c).0
  unfolding do_read
  do_read-Steady h w c = elim (Bool-cases h.shutdown_in_progress) [
    | inl q ↦ ground (arith, q)
    | inr q ↦ elim (Option-cases (downstream_read_window h.slot c)) [
      | inl d ↦ ground (arith, q, d)
      | inr (n, d) ↦ ground (
        arith,
        q,
        d,
        after_read-Steady (max_to_read n h) (reading around h w c (max_to_read n h)).total_read
            (reading around h w c (max_to_read n h)).last_error h,
      )
    ]
  ]

  handler_step-IsOrderly :
      (e : HandlerEvent) (s : Running W) → IsOrderly s → IsOrderly (handler_step e s)
  unfolding handler_step read_task_run socket_increment_read_window schedule_read_task
      close_task_run socket_shutdown on_socket_write_complete
  handler_step-IsOrderly readable s h = ground (arith, h, do_read-Steady s.handler s.world s.chan)
  handler_step-IsOrderly (reading_again canceled) s h = ground (arith, h)
  handler_step-IsOrderly (reading_again run_ready) s h =
      ground (arith, h, do_read-Steady (record (s.handler) { read_task = false }) s.world s.chan)
  handler_step-IsOrderly window_incremented s h = ground (arith, h)
  handler_step-IsOrderly closing s h = ground (arith, h)
  handler_step-IsOrderly (shutting_down read_dir e i) s h = ground (arith, h)
  handler_step-IsOrderly (shutting_down write_dir e i) s h = ground (arith, h)
  handler_step-IsOrderly (written none n) s h = ground (arith, h)
  handler_step-IsOrderly (written (some e) n) s h = ground (arith, h)

  -- Nothing is read once the handler is shutting down.
  abbrev IsStill : ℕ → ℕ → Running W → Type 0
  IsStill n k s =
      ((s.handler).shutdown_in_progress ≡ true)
      × ((s.handler).bytes_read ≡ n)
      × (reads_in (s.handler).requests ≡ k)

  handler_step-IsStill :
      (n k : ℕ) (e : HandlerEvent) (s : Running W) → IsStill n k s → IsStill n k (handler_step e s)
  unfolding handler_step do_read read_task_run socket_increment_read_window close_task_run
      socket_shutdown on_socket_write_complete
  handler_step-IsStill n k readable s h = ground (arith, h)
  handler_step-IsStill n k (reading_again canceled) s h = ground (arith, h)
  handler_step-IsStill n k (reading_again run_ready) s h = ground (arith, h)
  handler_step-IsStill n k window_incremented s h = ground (arith, h)
  handler_step-IsStill n k closing s h = ground (arith, h)
  handler_step-IsStill n k (shutting_down read_dir e i) s h = ground (arith, h)
  handler_step-IsStill n k (shutting_down write_dir e i) s h = ground (arith, h)
  handler_step-IsStill n k (written none m) s h = ground (arith, h)
  handler_step-IsStill n k (written (some e) m) s h = ground (arith, h)

  handler_steps-IsStill :
      (n k : ℕ) (es : List HandlerEvent) (s : Running W)
      → IsStill n k s
      → IsStill n k (handler_steps es s)
  unfolding handler_steps
  handler_steps-IsStill n k [] s h = h
  handler_steps-IsStill n k (e ∷ es) s h =
      handler_steps-IsStill n k es (handler_step e s) (handler_step-IsStill n k e s h)

-- Over any history, if it was so at first: the storage of the read task is in the event loop once where
-- its function is set and not at all where it is not, so that it is never scheduled twice; and the
-- write shutdown is completed once for each close task that has run.
pub handler_steps-IsOrderly :
    {W : Type 0} (around : Around W) (es : List HandlerEvent) (s : Running W)
    → IsOrderly around s
    → IsOrderly around (handler_steps around es s)
unfolding handler_steps
handler_steps-IsOrderly around [] s h = h
handler_steps-IsOrderly around (e ∷ es) s h =
    handler_steps-IsOrderly around es (handler_step around e s)
      (handler_step-IsOrderly around e s h)

-- From a shutdown in either direction on, nothing more is read from the socket and no read task is
-- scheduled, whatever happens then.
pub shutdown_reads_nothing :
    {W : Type 0} (around : Around W) (dir : Direction) (e : Option AwsError) (i : Bool)
    (es : List HandlerEvent) (s : Running W)
    → let after = handler_steps around es (handler_step around (shutting_down dir e i) s) in
      ((after.handler).bytes_read ≡ (s.handler).bytes_read)
      × (reads_in (after.handler).requests ≡ reads_in (s.handler).requests)
unfolding handler_step socket_shutdown
shutdown_reads_nothing around read_dir e i es s =
    let still =
      handler_steps-IsStill around (s.handler).bytes_read (reads_in (s.handler).requests) es
        (handler_step around (shutting_down read_dir e i) s) (refl, refl, refl) in
    (still.1, still.2)
shutdown_reads_nothing around write_dir e i es s =
    let still =
      handler_steps-IsStill around (s.handler).bytes_read (reads_in (s.handler).requests) es
        (handler_step around (shutting_down write_dir e i) s) (refl, refl, refl) in
    (still.1, still.2)
