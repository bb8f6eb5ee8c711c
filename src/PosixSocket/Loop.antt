-- ===== src/PosixSocket/Loop.antt =====
-- The loop of s_process_socket_write_requests in source/posix/socket.c: that it ends, and what it gives to the kernel.
use aws_c_io.Base.{
  take-drop, length-drop, ℕ, zero, suc, ◌≤◌, ◌<◌, ◌≡◌, ◌⊎◌, true, false, Option, none, some, List,
  [], ◌∷◌, ◌++◌, ◌==◌, length, take, drop, List-cases, AwsError, refl, sym, ap, subst, arith,
  Bool-cases, Option-cases, inl, inr, ◌∙◌, append_assoc, append-nil,
}
use aws_c_io.PosixSocket.{
  SendResult, sent, would_block, send_failed, Kernel, WriteRequest, PosixSocket, write_round,
  write_loop, work_left, process_write_requests,
}

-- What send promises: it takes no more than there is, and something of what there is.
pub record IsFair {W : Type 0} (kernel : Kernel W) : Type 0 where
  pub send_fits : (n : ℕ) (w : W) (m : ℕ) → (kernel.send n w).1 ≡ sent m → m ≤ n
  pub send_moves : (n : ℕ) (w : W) (m : ℕ) → (kernel.send (suc n) w).1 ≡ sent m → 0 < m

-- The bytes that a queue has yet to write.
abbrev pub left_in : List WriteRequest → List ℕ
left_in [] = []
left_in (r ∷ rs) = r.cursor ++ left_in rs

pub SendResult-cases :
    (a : SendResult)
    → ((n : ℕ) × (a ≡ sent n)) ⊎ ((a ≡ would_block) ⊎ ((e : AwsError) × (a ≡ send_failed e)))
SendResult-cases (sent n) = inl (n, refl)
SendResult-cases would_block = inr (inl refl)
SendResult-cases (send_failed e) = inr (inr (e, refl))

drop_all : {A : Type 0} (n : ℕ) (xs : List A) → n ≡ length xs → drop n xs ≡ []
drop_all zero [] h = refl
drop_all zero (x ∷ xs) h = ground (arith, h)
drop_all (suc n) [] h = ground (arith, h)
drop_all (suc n) (x ∷ xs) h = drop_all n xs (omega (arith, h))

take_all : {A : Type 0} (n : ℕ) (xs : List A) → n ≡ length xs → take n xs ≡ xs
take_all n xs h =
    sym (append-nil (take n xs))
    ∙ ap (λ ys. take n xs ++ ys) (sym (drop_all n xs h))
    ∙ take-drop n xs

same : (i j : ℕ) → (i == j) ≡ true → i ≡ j
same i j q = ground arith

module _ {W : Type 0} (kernel : Kernel W) where
  -- A round that goes on leaves less work.
  write_round-work :
      (r : WriteRequest) (rest : List WriteRequest) (s : PosixSocket W)
      → IsFair kernel
      → (write_round kernel r rest s).1 ≡ none
      → work_left (write_round kernel r rest s).0.write_queue < work_left (r ∷ rest)
  unfolding write_round
  write_round-work r rest s f g =
      elim (SendResult-cases (kernel.send (length r.cursor) s.world).1) [
        | inl (n, q) ↦ elim (Bool-cases (n == length r.cursor)) [
          | inl e ↦ rw (write_round, q, e) (omega arith)
          | inr e ↦
              rw (write_round, q, e)
                (omega (arith, length-drop n r.cursor, shrinks (length r.cursor) n q e))
        ]
        | inr (inl q) ↦ ground (arith, q, g)
        | inr (inr (e, q)) ↦ ground (arith, q, g)
      ]
    where
      shrinks :
          (l n : ℕ) → (kernel.send l s.world).1 ≡ sent n → (n == l) ≡ false → (0 < n) × (0 < l)
      shrinks zero n q e = ground (arith, e, f.send_fits zero s.world n q)
      shrinks (suc l) n q e = (f.send_moves l s.world n q, omega arith)

  -- What has been given to the kernel and what is left are together the same bytes, in the same order.
  write_round-bytes :
      (r : WriteRequest) (rest : List WriteRequest) (s : PosixSocket W)
      → s.write_queue ≡ r ∷ rest
      → (write_round kernel r rest s).0.wire ++ left_in (write_round kernel r rest s).0.write_queue
        ≡ s.wire ++ left_in s.write_queue
  unfolding write_round
  write_round-bytes r rest s h = elim (SendResult-cases (kernel.send (length r.cursor) s.world).1) [
    | inl (n, q) ↦ elim (Bool-cases (n == length r.cursor)) [
      | inl e ↦
          rw (write_round, q, e)
            (append_assoc s.wire (take n r.cursor) (left_in rest)
              ∙ ap (λ b. s.wire ++ (b ++ left_in rest))
                  (take_all n r.cursor (same n (length r.cursor) e))
              ∙ ap (λ u. s.wire ++ left_in u) (sym h))
      | inr e ↦
          rw (write_round, q, e)
            (append_assoc s.wire (take n r.cursor) (drop n r.cursor ++ left_in rest)
              ∙ ap (λ b. s.wire ++ b)
                  (sym (append_assoc (take n r.cursor) (drop n r.cursor) (left_in rest))
                    ∙ ap (λ b. b ++ left_in rest) (take-drop n r.cursor))
              ∙ ap (λ u. s.wire ++ left_in u) (sym h))
    ]
    | inr (inl q) ↦ rw (write_round, q) refl
    | inr (inr (e, q)) ↦ rw (write_round, q) refl
  ]

  pub loop_empty :
      (fuel : ℕ) (s : PosixSocket W) → s.write_queue ≡ [] → write_loop kernel fuel s ≡ (s, none)
  unfolding write_loop
  loop_empty zero s q = refl
  loop_empty (suc fuel) s q = ground (arith, q)

  empty_of : (q : List WriteRequest) → work_left q ≤ 0 → q ≡ []
  empty_of [] h = refl
  empty_of (r ∷ rs) h = ground (arith, h)

  pub loop_round :
      (fuel : ℕ) (s : PosixSocket W) (r : WriteRequest) (rest : List WriteRequest)
      → s.write_queue ≡ r ∷ rest
      → write_loop kernel (suc fuel) s ≡ (elim (write_round kernel r rest s).1 [
        | none ↦ write_loop kernel fuel (write_round kernel r rest s).0
        | some e ↦ ((write_round kernel r rest s).0, e)
      ])
  unfolding write_loop
  loop_round fuel s r rest q = rw (write_loop, q) refl

  both_empty :
      (a b : ℕ) (s : PosixSocket W)
      → s.write_queue ≡ []
      → write_loop kernel a s ≡ write_loop kernel b s
  both_empty a b s q = loop_empty a s q ∙ sym (loop_empty b s q)

  -- The rounds that the work left allows for are enough: whatever more there are change nothing.
  pub write_loop-enough :
      (a b : ℕ) (s : PosixSocket W)
      → IsFair kernel
      → work_left s.write_queue ≤ a
      → work_left s.write_queue ≤ b
      → write_loop kernel a s ≡ write_loop kernel b s
  write_loop-enough zero b s f h g = both_empty zero b s (empty_of s.write_queue h)
  write_loop-enough (suc a) zero s f h g = both_empty (suc a) zero s (empty_of s.write_queue g)
  write_loop-enough (suc a) (suc b) s f h g = elim (List-cases s.write_queue) [
    | inl q ↦ both_empty (suc a) (suc b) s q
    | inr (r, rest, q) ↦ elim (Option-cases (write_round kernel r rest s).1) [
      | inr (e, o) ↦ rw (loop_round a s r rest q, loop_round b s r rest q, o) refl
      | inl o ↦
          let less : work_left (write_round kernel r rest s).0.write_queue
              < work_left s.write_queue =
            subst (λ u. work_left (write_round kernel r rest s).0.write_queue < work_left u) (sym q)
              (write_round-work r rest s f o) in
          rw (loop_round a s r rest q, loop_round b s r rest q, o)
            (write_loop-enough a b (write_round kernel r rest s).0 f (omega (arith, less, h))
              (omega (arith, less, g)))
    ]
  ]

  -- A run gives the kernel bytes from the front of the queue, each once and in order.
  abbrev KeepsBytes : PosixSocket W → PosixSocket W × Option AwsError → Type 0
  KeepsBytes s p = p.0.wire ++ left_in p.0.write_queue ≡ s.wire ++ left_in s.write_queue

  pub write_loop-bytes : (fuel : ℕ) (s : PosixSocket W) → KeepsBytes s (write_loop kernel fuel s)
  unfolding write_loop
  write_loop-bytes zero s = refl
  write_loop-bytes (suc fuel) s = elim (List-cases s.write_queue) [
    | inl q ↦ subst (λ p. KeepsBytes s p) (sym (loop_empty (suc fuel) s q)) refl
    | inr (r, rest, q) ↦
        subst (λ p. KeepsBytes s p) (sym (loop_round fuel s r rest q))
          (elim (Option-cases (write_round kernel r rest s).1) [
            | inr (e, o) ↦ rw (o) (write_round-bytes r rest s q)
            | inl o ↦ rw (o) (
                write_loop-bytes fuel (write_round kernel r rest s).0
                ∙ write_round-bytes r rest s q)
          ])
  ]

-- The last answer of send was an error, which left the kernel as it is now.
abbrev pub HasFailed : {W : Type 0} → Kernel W → W → Type 0
HasFailed {W} kernel now =
    (before : W) × (n : ℕ) × (e : AwsError) × (kernel.send n before ≡ (now, send_failed e))

module _ {W : Type 0} (kernel : Kernel W) where
  write_round-HasFailed :
      (r : WriteRequest) (rest : List WriteRequest) (s : PosixSocket W) (e : AwsError)
      → (write_round kernel r rest s).1 ≡ some (some e)
      → HasFailed kernel (write_round kernel r rest s).0.world
  unfolding write_round
  write_round-HasFailed r rest s e h =
      elim (SendResult-cases (kernel.send (length r.cursor) s.world).1) [
        | inl (n, q) ↦ elim (Bool-cases (n == length r.cursor)) [
          | inl l ↦ absurd (ground (arith, h, q, l))
          | inr l ↦ absurd (ground (arith, h, q, l))
        ]
        | inr (inl q) ↦ absurd (ground (arith, h, q))
        | inr (inr (f, q)) ↦
            rw (write_round, q)
              (
                s.world,
                length r.cursor,
                f,
                ap (λ a. ((kernel.send (length r.cursor) s.world).0, a)) q,
              )
      ]

  write_loop-HasFailed :
      (fuel : ℕ) (s : PosixSocket W) (e : AwsError)
      → (write_loop kernel fuel s).1 ≡ some e
      → HasFailed kernel (write_loop kernel fuel s).0.world
  unfolding write_loop
  write_loop-HasFailed zero s e h = absurd (ground (arith, h))
  write_loop-HasFailed (suc fuel) s e h = elim (List-cases s.write_queue) [
    | inl q ↦ absurd (ground (arith, h, loop_empty kernel (suc fuel) s q))
    | inr (r, rest, q) ↦
        subst (λ p. p.1 ≡ some e → HasFailed kernel p.0.world)
          (sym (loop_round kernel fuel s r rest q))
          (elim (Option-cases (write_round kernel r rest s).1) [
            | inl o ↦ rw (o) (write_loop-HasFailed fuel (write_round kernel r rest s).0 e)
            | inr (a, o) ↦ rw (o) (λ g. write_round-HasFailed r rest s e (o ∙ ap (λ x. some x) g))
          ])
          h
  ]

-- What s_process_socket_write_requests gives to the kernel, what stays in the queue and what is dropped are together,
-- in this order, what was in the queue before. Something is dropped only where the last call of send answered an
-- error, which is not that it would block; the queue is then empty.
pub process_write_requests-bytes :
    {W : Type 0} (kernel : Kernel W) (parent : Option ℕ) (s : PosixSocket W)
    → let after = (process_write_requests kernel parent s).0 in
      (dropped : List ℕ) × ((after.wire ++ (left_in after.write_queue ++ dropped)
          ≡ s.wire ++ left_in s.write_queue)
        × ((dropped ≡ []) ⊎ ((after.write_queue ≡ []) × HasFailed kernel after.world)))
unfolding process_write_requests
process_write_requests-bytes kernel parent s =
    let looped = write_loop kernel (work_left s.write_queue) s in
    let kept : looped.0.wire ++ left_in looped.0.write_queue ≡ s.wire ++ left_in s.write_queue =
      write_loop-bytes kernel (work_left s.write_queue) s in
    elim (Option-cases looped.1) [
      | inl o ↦
          rw (process_write_requests, o)
            (
              [],
              (
                ap (λ b. looped.0.wire ++ b) (append-nil (left_in looped.0.write_queue)) ∙ kept,
                inl refl,
              ),
            )
      | inr (e, o) ↦
          rw (process_write_requests, o)
            (
              left_in looped.0.write_queue,
              (kept, inr (refl, write_loop-HasFailed kernel (work_left s.write_queue) s e o)),
            )
    ]
