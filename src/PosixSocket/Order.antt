-- ===== src/PosixSocket/Order.antt =====
-- The callbacks of the writes of source/posix/socket.c: each once, and in the order of the writes.
use aws_c_io.Base.{
  if_true, if_false, ℕ, ◌+◌, ◌-◌, ◌≤◌, ◌≡◌, ◌⊎◌, Bool, true, false, none, some, List, [], ◌∷◌, ◌++◌,
  ◌==◌, if◌then◌else◌, length, List-cases, AwsError, socket_closed, failure, refl, sym, ap, subst,
  arith, Bool-cases, inl, inr, ◌∙◌, append_assoc, append-nil,
}
use aws_c_io.PosixSocket.{
  Kernel, WriteRequest, PosixSocket, process_write_requests, socket_write, written_task,
  deliver_written, socket_close, calls_of, calls_with, written_call,
}
use aws_c_io.PosixSocket.Requests.{
  called_ids, called_ids-append, called_ids-calls_of, called_ids-calls_with, ids, ids-append,
  pending,
}
use aws_c_io.PosixSocket.Purge.{process-Processed}
use aws_c_io.PosixSocket.{
  SocketEvent, writing, writable, written_task_runs, delivering, closing, Ledger, socket_step,
  socket_steps,
}
use aws_c_io.PosixSocket.Fifo.{
  Below, Below-right, pushed-IsLast, none-IsLast, IsFifo, Processed-IsFifo, wrote, written-IsFifo,
}

module _ {W : Type 0} (kernel : Kernel W) where
  -- aws_socket_write before s_process_socket_write_requests
  abbrev pushed : List ℕ → PosixSocket W → PosixSocket W
  pushed bytes s = record s {
    write_queue =
        s.write_queue
        ++ (record {
          id = s.next_request;
          original_buffer_len = length bytes;
          cursor = bytes;
          error_code = none;
        }
            ∷ []);
    next_request = s.next_request + 1;
  }

  socket_write-pushed :
      (bytes : List ℕ) (s : PosixSocket W)
      → s.is_connected_write ≡ true
      → socket_write kernel bytes s
        ≡ process_write_requests kernel (some s.next_request) (pushed bytes s)
  unfolding socket_write
  socket_write-pushed bytes s q = if_true s.is_connected_write _ _ q

  socket_write-closed :
      (bytes : List ℕ) (s : PosixSocket W)
      → s.is_connected_write ≡ false
      → socket_write kernel bytes s ≡ (s, failure AwsError.other_code)
  unfolding socket_write
  socket_write-closed bytes s q = if_false s.is_connected_write _ _ q

  write-IsFifo :
      (bytes : List ℕ) (l : Ledger W)
      → IsFifo kernel l
      → IsFifo kernel (wrote kernel l (socket_write kernel bytes l.socket))
  write-IsFifo bytes l h = elim (Bool-cases (l.socket).is_connected_write) [
    | inr q ↦
        subst (λ p. IsFifo kernel (wrote kernel l p)) (sym (socket_write-closed bytes l.socket q))
          (record {
            order = h.order ∙ sym (append-nil l.accepted);
            is_new = h.is_new;
            is_served = h.is_served;
          })
    | inl q ↦
        let r : WriteRequest = record {
          id = (l.socket).next_request;
          original_buffer_len = length bytes;
          cursor = bytes;
          error_code = none;
        } in
        subst (λ p. IsFifo kernel (wrote kernel l p)) (sym (socket_write-pushed bytes l.socket q))
          (written-IsFifo kernel l (pushed bytes l.socket)
            (process_write_requests kernel (some (l.socket).next_request) (pushed bytes l.socket)).0
            (process_write_requests kernel (some (l.socket).next_request) (pushed bytes l.socket)).1
            (process-Processed kernel (some (l.socket).next_request) (pushed bytes l.socket) (
              pushed-IsLast r (l.socket).write_queue (
                Below-right (l.socket).next_request (ids (l.socket).written_queue)
                  (ids (l.socket).write_queue) h.is_new)))
            (ap (λ u. ids (l.socket).written_queue ++ u)
                (ids-append (l.socket).write_queue (r ∷ []))
              ∙ sym (
                  append_assoc (ids (l.socket).written_queue) (ids (l.socket).write_queue)
                    (r.id ∷ [])))
            refl refl (λ v. v) h)
  ]

  task-IsFifo :
      (l : Ledger W) → IsFifo kernel l → IsFifo kernel (record l { socket = written_task l.socket })
  unfolding written_task
  task-IsFifo l h = record { order = h.order; is_new = h.is_new; is_served = inr (omega arith) }

  deliver_none :
      (s : PosixSocket W) → s.written_queue ≡ [] → deliver_written s ≡ record s { delivering = 0 }
  unfolding deliver_written
  deliver_none s q = ground (arith, q)

  deliver_next :
      (r : WriteRequest) (rs : List WriteRequest) (s : PosixSocket W)
      → s.written_queue ≡ r ∷ rs
      → deliver_written s ≡ record s {
        written_queue = rs;
        called = s.called ++ (written_call r.error_code r ∷ []);
        delivering = s.delivering - 1;
      }
  unfolding deliver_written
  deliver_next r rs s q = ground (arith, q)

  fewer :
      (task : Bool) (w rs : List WriteRequest) (r : WriteRequest) (d : ℕ)
      → w ≡ r ∷ rs
      → (task ≡ true) ⊎ (length w ≤ d)
      → (task ≡ true) ⊎ (length rs ≤ d - 1)
  fewer task w rs r d q (inl t) = inl t
  fewer task w rs r d q (inr t) = inr (ground (arith, q, t))

  deliver-IsFifo :
      (l : Ledger W)
      → IsFifo kernel l
      → IsFifo kernel (record l { socket = deliver_written l.socket })
  unfolding written_call
  deliver-IsFifo l h = elim (List-cases (l.socket).written_queue) [
    | inl q ↦
        subst (λ s. IsFifo kernel (record l { socket = s })) (sym (deliver_none l.socket q))
          (record { order = h.order; is_new = h.is_new; is_served = inr (ground (arith, q)) })
    | inr (r, rs, q) ↦
        let order : called_ids (l.socket).called ++ (r.id ∷ (ids rs ++ ids (l.socket).write_queue))
            ≡ l.accepted =
          ap (λ u. called_ids (l.socket).called ++ (ids u ++ ids (l.socket).write_queue)) (sym q)
          ∙ h.order in
        let new : Below (l.socket).next_request (r.id ∷ (ids rs ++ ids (l.socket).write_queue)) =
          subst (λ u. Below (l.socket).next_request (ids u ++ ids (l.socket).write_queue)) q
            h.is_new in
        subst (λ s. IsFifo kernel (record l { socket = s })) (sym (deliver_next r rs l.socket q))
          (record {
            order =
                ap (λ u. u ++ (ids rs ++ ids (l.socket).write_queue))
                  (called_ids-append (l.socket).called (written_call r.error_code r ∷ []))
                ∙ append_assoc (called_ids (l.socket).called) (r.id ∷ [])
                    (ids rs ++ ids (l.socket).write_queue)
                ∙ order;
            is_new = new.1;
            is_served =
                fewer (l.socket).written_task_scheduled (l.socket).written_queue rs r
                  (l.socket).delivering q h.is_served;
          })
  ]

  closed_order :
      (s : PosixSocket W)
      → called_ids (
            (s.called ++ calls_of s.written_queue) ++ calls_with (some socket_closed) s.write_queue)
          ++ []
        ≡ called_ids s.called ++ pending s
  closed_order s =
      append-nil _
      ∙ called_ids-append (s.called ++ calls_of s.written_queue)
          (calls_with (some socket_closed) s.write_queue)
      ∙ ap (λ u. u ++ called_ids (calls_with (some socket_closed) s.write_queue))
          (called_ids-append s.called (calls_of s.written_queue))
      ∙ ap
          (λ u.
            (called_ids s.called ++ u)
            ++ called_ids (calls_with (some socket_closed) s.write_queue))
          (called_ids-calls_of s.written_queue)
      ∙ ap (λ u. (called_ids s.called ++ ids s.written_queue) ++ u)
          (called_ids-calls_with (some socket_closed) s.write_queue)
      ∙ append_assoc (called_ids s.called) (ids s.written_queue) (ids s.write_queue)

  if-IsFifo :
      (b : Bool) (l : Ledger W) (x y : PosixSocket W)
      → IsFifo kernel (record l { socket = x })
      → IsFifo kernel (record l { socket = y })
      → IsFifo kernel (record l { socket = if b then x else y })
  if-IsFifo true l x y p q = p
  if-IsFifo false l x y p q = q

  choose-IsFifo :
      (b : Bool) (x y : Ledger W)
      → IsFifo kernel x
      → IsFifo kernel y
      → IsFifo kernel (if b then x else y)
  choose-IsFifo true x y p q = p
  choose-IsFifo false x y p q = q

  close-IsFifo :
      (l : Ledger W) → IsFifo kernel l → IsFifo kernel (record l { socket = socket_close l.socket })
  unfolding socket_close
  close-IsFifo l h =
      if-IsFifo (l.socket).is_open l _ l.socket
        (record {
          order = closed_order l.socket ∙ h.order;
          is_new = ground arith;
          is_served = inr (omega arith);
        })
        h

  socket_step-IsFifo :
      (e : SocketEvent) (l : Ledger W) → IsFifo kernel l → IsFifo kernel (socket_step kernel e l)
  unfolding socket_step
  socket_step-IsFifo (writing bytes) l h = write-IsFifo bytes l h
  socket_step-IsFifo writable l h =
      choose-IsFifo (l.socket).is_open _ l
        (Processed-IsFifo kernel l (process_write_requests kernel none l.socket).0
          (process_write_requests kernel none l.socket).1
          (process-Processed kernel none l.socket (none-IsLast (l.socket).write_queue)) h)
        h
  socket_step-IsFifo written_task_runs l h =
      choose-IsFifo (l.socket).written_task_scheduled _ l (task-IsFifo l h) h
  socket_step-IsFifo delivering l h =
      choose-IsFifo ((l.socket).delivering == 0) l _ h (deliver-IsFifo l h)
  socket_step-IsFifo closing l h = close-IsFifo l h

-- Over any history of writes, notifications, written tasks and a close, if it was so at first: the
-- callbacks called, those that wait for the written task and the writes that wait for the kernel are
-- together, in this order, the writes that aws_socket_write has accepted, in theirs, so that each callback is called
-- once at most, in order, and none for a refused write; and what waits for the task is reached by one that
-- is scheduled or runs.
pub socket_steps-IsFifo :
    {W : Type 0} (kernel : Kernel W) (es : List SocketEvent) (l : Ledger W)
    → IsFifo kernel l
    → IsFifo kernel (socket_steps kernel es l)
unfolding socket_steps
socket_steps-IsFifo kernel [] l h = h
socket_steps-IsFifo kernel (e ∷ es) l h =
    socket_steps-IsFifo kernel es (socket_step kernel e l) (socket_step-IsFifo kernel e l h)

-- A close calls the callback of every accepted write that is left, in order: then all have been called.
pub socket_close-calls :
    {W : Type 0} (kernel : Kernel W) (l : Ledger W)
    → (l.socket).is_open ≡ true
    → IsFifo kernel l
    → called_ids (socket_close l.socket).called ≡ l.accepted
unfolding socket_close
socket_close-calls kernel l q h =
    ap (λ s. called_ids s.called) (if_true (l.socket).is_open _ l.socket q)
    ∙ sym (append-nil _)
    ∙ closed_order kernel l.socket
    ∙ h.order
