-- ===== src/PosixSocket/Requests.antt =====
-- The requests in the queues of source/posix/socket.c, and what the loop over them does.
use aws_c_io.Base.{
  ℕ, zero, suc, ◌≤◌, ◌<◌, ◌≡◌, Option, none, some, List, [], ◌∷◌, ◌++◌, ◌==◌, length, length-append,
  drop, List-cases, AwsError, refl, sym, ap, subst, arith, Bool-cases, Option-cases, inl, inr, ◌∙◌,
  append_assoc,
}
use aws_c_io.PosixSocket.{
  Kernel, WriteRequest, Written, PosixSocket, write_round, write_loop, ended, calls_of, calls_with,
  written_call,
}
use aws_c_io.PosixSocket.Loop.{SendResult-cases, loop_empty, loop_round}

abbrev pub ids : List WriteRequest → List ℕ
ids [] = []
ids (r ∷ rs) = r.id ∷ ids rs

abbrev pub called_ids : List Written → List ℕ
called_ids [] = []
called_ids (c ∷ cs) = c.request ∷ called_ids cs

abbrev pub pending : {W : Type 0} → PosixSocket W → List ℕ
pending s = ids s.written_queue ++ ids s.write_queue

pub ids-append : (xs ys : List WriteRequest) → ids (xs ++ ys) ≡ ids xs ++ ids ys
ids-append [] ys = refl
ids-append (x ∷ xs) ys = ap (λ l. x.id ∷ l) (ids-append xs ys)

pub called_ids-append :
    (xs ys : List Written) → called_ids (xs ++ ys) ≡ called_ids xs ++ called_ids ys
called_ids-append [] ys = refl
called_ids-append (x ∷ xs) ys = ap (λ l. x.request ∷ l) (called_ids-append xs ys)

pub called_ids-calls_of : (q : List WriteRequest) → called_ids (calls_of q) ≡ ids q
unfolding written_call
called_ids-calls_of [] = refl
called_ids-calls_of (r ∷ rs) = ap (λ l. r.id ∷ l) (called_ids-calls_of rs)

pub called_ids-calls_with :
    (e : Option AwsError) (q : List WriteRequest) → called_ids (calls_with e q) ≡ ids q
unfolding written_call
called_ids-calls_with e [] = refl
called_ids-calls_with e (r ∷ rs) = ap (λ l. r.id ∷ l) (called_ids-calls_with e rs)

-- Where the request of a write that runs now is: nowhere, or at the end of the queue behind older ones
abbrev pub IsLast : Option ℕ → List WriteRequest → Type 0
IsLast none q = Unit {0}
IsLast (some p) [] = Unit {0}
IsLast (some p) (r ∷ []) = r.id ≡ p
IsLast (some p) (r ∷ r' ∷ rs) = (r.id < p) × IsLast (some p) (r' ∷ rs)

rest-IsLast :
    (parent : Option ℕ) (r : WriteRequest) (rs : List WriteRequest)
    → IsLast parent (r ∷ rs)
    → IsLast parent rs
rest-IsLast none r rs h = h
rest-IsLast (some p) r [] h = ground arith
rest-IsLast (some p) r (r' ∷ rs) h = h.1

again-IsLast :
    (parent : Option ℕ) (r left : WriteRequest) (rs : List WriteRequest)
    → left.id ≡ r.id
    → IsLast parent (r ∷ rs)
    → IsLast parent (left ∷ rs)
again-IsLast none r left rs e h = h
again-IsLast (some p) r left [] e h = e ∙ h
again-IsLast (some p) r left (r' ∷ rs) e h = (omega (arith, e, h.0), h.1)

module _ {W : Type 0} (kernel : Kernel W) where
  -- What the loop does not change, and how it changes the queues.
  pub record Moves (parent : Option ℕ) (s s' : PosixSocket W) : Type 0 where
    pub same_pending : pending s' ≡ pending s
    pub same_called : s'.called ≡ s.called
    pub same_next : s'.next_request ≡ s.next_request
    pub same_delivering : s'.delivering ≡ s.delivering
    pub same_task : s'.written_task_scheduled ≡ s.written_task_scheduled
    pub grows : length s.written_queue ≤ length s'.written_queue
    pub is_last : IsLast parent s'.write_queue

  round-Moves :
      (parent : Option ℕ) (r : WriteRequest) (rest : List WriteRequest) (s : PosixSocket W)
      → s.write_queue ≡ r ∷ rest
      → IsLast parent (r ∷ rest)
      → Moves parent s (write_round kernel r rest s).0
  unfolding write_round
  round-Moves parent r rest s h l =
      let l' : IsLast parent s.write_queue = subst (λ q. IsLast parent q) (sym h) l in
      elim (SendResult-cases (kernel.send (length r.cursor) s.world).1) [
        | inr (inl q) ↦
            rw (write_round, q)
              (record {
                same_pending = refl;
                same_called = refl;
                same_next = refl;
                same_delivering = refl;
                same_task = refl;
                grows = omega arith;
                is_last = l';
              })
        | inr (inr (e, q)) ↦
            rw (write_round, q)
              (record {
                same_pending = refl;
                same_called = refl;
                same_next = refl;
                same_delivering = refl;
                same_task = refl;
                grows = omega arith;
                is_last = l';
              })
        | inl (n, q) ↦ elim (Bool-cases (n == length r.cursor)) [
          | inl e ↦
              rw (write_round, q, e)
                (record {
                  same_pending =
                      ap (λ l. l ++ ids rest)
                        (ids-append s.written_queue
                          (ended none (record r { cursor = drop n r.cursor }) ∷ []))
                      ∙ append_assoc (ids s.written_queue) (r.id ∷ []) (ids rest)
                      ∙ ap (λ u. ids s.written_queue ++ ids u) (sym h);
                  same_called = refl;
                  same_next = refl;
                  same_delivering = refl;
                  same_task = refl;
                  grows = omega (
                    arith,
                    length-append s.written_queue
                        (ended none (record r { cursor = drop n r.cursor }) ∷ []),
                  );
                  is_last = rest-IsLast parent r rest l;
                })
          | inr e ↦
              rw (write_round, q, e)
                (record {
                  same_pending = ap (λ u. ids s.written_queue ++ ids u) (sym h);
                  same_called = refl;
                  same_next = refl;
                  same_delivering = refl;
                  same_task = refl;
                  grows = omega arith;
                  is_last =
                      again-IsLast parent r (record r { cursor = drop n r.cursor }) rest refl l;
                })
        ]
      ]

  stays : (parent : Option ℕ) (s : PosixSocket W) → IsLast parent s.write_queue → Moves parent s s
  stays parent s l = record {
    same_pending = refl;
    same_called = refl;
    same_next = refl;
    same_delivering = refl;
    same_task = refl;
    grows = omega arith;
    is_last = l;
  }

  then-Moves :
      (parent : Option ℕ) (s t u : PosixSocket W)
      → Moves parent s t
      → Moves parent t u
      → Moves parent s u
  then-Moves parent s t u m n = record {
    same_pending = n.same_pending ∙ m.same_pending;
    same_called = n.same_called ∙ m.same_called;
    same_next = n.same_next ∙ m.same_next;
    same_delivering = n.same_delivering ∙ m.same_delivering;
    same_task = n.same_task ∙ m.same_task;
    grows = omega (arith, m.grows, n.grows);
    is_last = n.is_last;
  }

  pub loop-Moves :
      (parent : Option ℕ) (fuel : ℕ) (s : PosixSocket W)
      → IsLast parent s.write_queue
      → Moves parent s (write_loop kernel fuel s).0
  unfolding write_loop
  loop-Moves parent zero s l = stays parent s l
  loop-Moves parent (suc fuel) s l = elim (List-cases s.write_queue) [
    | inl q ↦
        subst (λ p. Moves parent s p.0) (sym (loop_empty kernel (suc fuel) s q)) (stays parent s l)
    | inr (r, rest, q) ↦
        let m : Moves parent s (write_round kernel r rest s).0 =
          round-Moves parent r rest s q (subst (λ u. IsLast parent u) q l) in
        subst (λ p. Moves parent s p.0) (sym (loop_round kernel fuel s r rest q))
          (elim (Option-cases (write_round kernel r rest s).1) [
            | inr (e, o) ↦ rw (o) m
            | inl o ↦ rw (o) (
                then-Moves parent s (write_round kernel r rest s).0
                  (write_loop kernel fuel (write_round kernel r rest s).0).0 m
                  (loop-Moves parent fuel (write_round kernel r rest s).0 m.is_last))
          ])
  ]
