-- ===== src/PosixSocket/Purge.antt =====
-- What s_process_socket_write_requests of source/posix/socket.c does to the requests, a purge included.
use aws_c_io.Base.{
  ℕ, ◌≤◌, ◌<◌, ◌≡◌, ◌⊎◌, Bool, true, false, Option, none, some, List, [], ◌∷◌, ◌++◌, ◌==◌, ◌||◌,
  if◌then◌else◌, length, length-append, AwsError, OpResult, success, failure, refl, sym, ap, subst,
  arith, Bool-cases, Option-cases, inl, inr, ◌∙◌, append_assoc, append-nil,
}
use aws_c_io.PosixSocket.{
  Kernel, WriteRequest, PosixSocket, write_loop, work_left, purge_queue, holds_parent, longer,
  process_write_requests,
}
use aws_c_io.PosixSocket.Requests.{IsLast, Moves, ids, ids-append, loop-Moves, pending}

-- The request that a purge drops, if the queue holds it
abbrev lost : Option ℕ → List WriteRequest → List ℕ
lost none q = []
lost (some p) q = if holds_parent (some p) q then p ∷ [] else []

purge_older :
    (p : ℕ) (e : AwsError) (r : WriteRequest) (rs : List WriteRequest)
    → r.id < p
    → (ids (purge_queue (some p) e (r ∷ rs)) ≡ r.id ∷ ids (purge_queue (some p) e rs))
      × (lost (some p) (r ∷ rs) ≡ lost (some p) rs)
unfolding purge_queue
purge_older p e r rs l =
    let other : (p == r.id) ≡ false = ground (arith, l) in (rw (other) refl, rw (other) refl)

-- The parent is dropped from the end of the queue, and only it.
ids-purge_queue :
    (parent : Option ℕ) (e : AwsError) (q : List WriteRequest)
    → IsLast parent q
    → ids (purge_queue parent e q) ++ lost parent q ≡ ids q
unfolding purge_queue
ids-purge_queue none e [] l = refl
ids-purge_queue none e (r ∷ rs) l = ap (λ u. r.id ∷ u) (ids-purge_queue none e rs l)
ids-purge_queue (some p) e [] l = refl
ids-purge_queue (some p) e (r ∷ []) l =
    let same : (p == r.id) ≡ true = ground (arith, l) in rw (same) (ap (λ i. i ∷ []) (sym l))
ids-purge_queue (some p) e (r ∷ r' ∷ rs) l =
    ap (λ u. u ++ lost (some p) (r ∷ r' ∷ rs)) (purge_older p e r (r' ∷ rs) l.0).0
    ∙ ap (λ u. (r.id ∷ ids (purge_queue (some p) e (r' ∷ rs))) ++ u)
        (purge_older p e r (r' ∷ rs) l.0).1
    ∙ ap (λ u. r.id ∷ u) (ids-purge_queue (some p) e (r' ∷ rs) l.1)

length-purge : (k : ℕ) (xs ys : List WriteRequest) → k ≤ length xs → k ≤ length (xs ++ ys)
length-purge k xs ys h = omega (arith, h, length-append xs ys)

-- Written callbacks wait for a task that is scheduled, or for the one that runs and will reach them.
abbrev pub IsServed : {W : Type 0} → PosixSocket W → Type 0
IsServed s = (s.written_task_scheduled ≡ true) ⊎ (length s.written_queue ≤ s.delivering)

served_after :
    (before after : List WriteRequest) (task : Bool) (delivering : ℕ)
    → (task ≡ true) ⊎ (length before ≤ delivering)
    → ((task || longer before after) ≡ true) ⊎ (length after ≤ delivering)
served_after before after true d h = inl refl
served_after before after false d h = elim (Bool-cases (longer before after)) [
  | inl q ↦ inl q
  | inr q ↦ inr (ground (arith, q, h))
]

abbrev parent_ids : Option ℕ → List ℕ
parent_ids none = []
parent_ids (some p) = p ∷ []

-- What is not kept for a call, by the answer of aws_socket_write
abbrev pub refused : Option ℕ → OpResult → List ℕ
refused parent success = []
refused parent (failure e) = parent_ids parent

holds_none : (q : List WriteRequest) → holds_parent none q ≡ false
holds_none [] = refl
holds_none (r ∷ rs) = holds_none rs

refused-lost :
    (parent : Option ℕ) (e : AwsError) (q : List WriteRequest)
    → refused parent (if holds_parent parent q then failure e else success) ≡ lost parent q
refused-lost none e q = rw (holds_none q) refl
refused-lost (some p) e q = elim (Bool-cases (holds_parent (some p) q)) [
  | inl h ↦ rw (h) refl
  | inr h ↦ rw (h) refl
]

-- What s_process_socket_write_requests does to the requests
pub record Processed {W : Type 0} (parent : Option ℕ) (s s' : PosixSocket W) (r : OpResult)
    : Type 0 where
  pub ids_left : pending s' ++ refused parent r ≡ pending s
  pub same_called : s'.called ≡ s.called
  pub same_next : s'.next_request ≡ s.next_request
  pub is_served : IsServed s → IsServed s'

purged_ids :
    (parent : Option ℕ) (e : AwsError) (w q : List WriteRequest)
    → IsLast parent q
    → (ids (w ++ purge_queue parent e q) ++ [])
        ++ refused parent (if holds_parent parent q then failure e else success)
      ≡ ids w ++ ids q
purged_ids parent e w q l =
    ap (λ u. u ++ refused parent (if holds_parent parent q then failure e else success))
      (append-nil (ids (w ++ purge_queue parent e q)) ∙ ids-append w (purge_queue parent e q))
    ∙ ap (λ u. (ids w ++ ids (purge_queue parent e q)) ++ u) (refused-lost parent e q)
    ∙ append_assoc (ids w) (ids (purge_queue parent e q)) (lost parent q)
    ∙ ap (λ u. ids w ++ u) (ids-purge_queue parent e q l)

module _ {W : Type 0} (kernel : Kernel W) where
  pub process-Processed :
      (parent : Option ℕ) (s : PosixSocket W)
      → IsLast parent s.write_queue
      → Processed parent s
          (process_write_requests kernel parent s).0
          (process_write_requests kernel parent s).1
  unfolding process_write_requests
  process-Processed parent s l =
      let looped = write_loop kernel (work_left s.write_queue) s in
      let m : Moves kernel parent s looped.0 =
        loop-Moves kernel parent (work_left s.write_queue) s l in
      elim (Option-cases looped.1) [
        | inl o ↦
            rw (process_write_requests, o)
              (record {
                ids_left = append-nil (pending looped.0) ∙ m.same_pending;
                same_called = m.same_called;
                same_next = m.same_next;
                is_served = λ h.
                    subst
                      (λ d.
                        ((s.written_task_scheduled || longer s.written_queue looped.0.written_queue)
                          ≡ true)
                        ⊎ (length looped.0.written_queue ≤ d))
                      (sym m.same_delivering)
                      (served_after s.written_queue looped.0.written_queue s.written_task_scheduled
                        s.delivering h);
              })
        | inr (e, o) ↦
            let purged : List WriteRequest =
              looped.0.written_queue ++ purge_queue parent e looped.0.write_queue in
            rw (process_write_requests, o)
              (record {
                ids_left =
                    purged_ids parent e looped.0.written_queue looped.0.write_queue m.is_last
                    ∙ m.same_pending;
                same_called = m.same_called;
                same_next = m.same_next;
                is_served = λ h.
                    subst
                      (λ d.
                        ((s.written_task_scheduled || longer s.written_queue purged) ≡ true)
                        ⊎ (length purged ≤ d))
                      (sym m.same_delivering)
                      (served_after s.written_queue purged s.written_task_scheduled s.delivering h);
              })
      ]
