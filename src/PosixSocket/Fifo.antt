-- ===== src/PosixSocket/Fifo.antt =====
-- The order of the writes of source/posix/socket.c, and what a run of the queue keeps of it.
use aws_c_io.Base.{
  ℕ, ◌+◌, ◌<◌, ◌≡◌, none, some, List, [], ◌∷◌, ◌++◌, OpResult, success, failure, refl, sym, ap,
  subst, arith, ◌∙◌, append_assoc, append-nil,
}
use aws_c_io.PosixSocket.{Kernel, WriteRequest, PosixSocket}
use aws_c_io.PosixSocket.Requests.{IsLast, called_ids, ids, pending}
use aws_c_io.PosixSocket.Purge.{IsServed, Processed, refused}
use aws_c_io.PosixSocket.{Ledger, accepting}

abbrev pub Below : ℕ → List ℕ → Type 0
Below m [] = Unit {0}
Below m (k ∷ ks) = (k < m) × Below m ks

Below-left : (m : ℕ) (xs ys : List ℕ) → Below m (xs ++ ys) → Below m xs
Below-left m [] ys h = ground arith
Below-left m (x ∷ xs) ys h = (h.0, Below-left m xs ys h.1)

pub Below-right : (m : ℕ) (xs ys : List ℕ) → Below m (xs ++ ys) → Below m ys
Below-right m [] ys h = h
Below-right m (x ∷ xs) ys h = Below-right m xs ys h.1

Below-push : (m : ℕ) (xs : List ℕ) → Below m xs → Below (m + 1) (xs ++ (m ∷ []))
Below-push m [] h = ground arith
Below-push m (x ∷ xs) h = (omega (arith, h.0), Below-push m xs h.1)

pub pushed-IsLast :
    (r : WriteRequest) (q : List WriteRequest)
    → Below r.id (ids q)
    → IsLast (some r.id) (q ++ (r ∷ []))
pushed-IsLast r [] h = refl
pushed-IsLast r (x ∷ []) h = (h.0, refl)
pushed-IsLast r (x ∷ y ∷ q) h = (h.0, pushed-IsLast r (y ∷ q) h.1)

pub none-IsLast : (q : List WriteRequest) → IsLast none q
none-IsLast q = ground arith

all_but_last : List ℕ → List ℕ
all_but_last [] = []
all_but_last (x ∷ []) = []
all_but_last (x ∷ y ∷ xs) = x ∷ all_but_last (y ∷ xs)

all_but_last-append : (k : ℕ) (xs : List ℕ) → all_but_last (xs ++ (k ∷ [])) ≡ xs
unfolding all_but_last
all_but_last-append k [] = refl
all_but_last-append k (x ∷ []) = refl
all_but_last-append k (x ∷ y ∷ xs) = ap (λ u. x ∷ u) (all_but_last-append k (y ∷ xs))

write_order :
    (r : OpResult) (k : ℕ) (acc c p p' : List ℕ)
    → p' ++ refused (some k) r ≡ p ++ (k ∷ [])
    → c ++ p ≡ acc
    → c ++ p' ≡ acc ++ accepting r k
write_order success k acc c p p' h e =
    ap (λ u. c ++ u) (sym (append-nil p') ∙ h)
    ∙ sym (append_assoc c p (k ∷ []))
    ∙ ap (λ u. u ++ (k ∷ [])) e
write_order (failure x) k acc c p p' h e =
    ap (λ u. c ++ u) (sym (all_but_last-append k p') ∙ ap all_but_last h ∙ all_but_last-append k p)
    ∙ e
    ∙ sym (append-nil acc)

module _ {W : Type 0} (kernel : Kernel W) where
  -- The callbacks called, those that wait for the written task and the writes that wait for the kernel are
  -- together the accepted writes, in their order; and what waits for the task will be reached.
  pub record IsFifo (l : Ledger W) : Type 0 where
    pub order : called_ids (l.socket).called ++ pending l.socket ≡ l.accepted
    pub is_new : Below (l.socket).next_request (pending l.socket)
    pub is_served : IsServed l.socket

  pub Processed-IsFifo :
      (l : Ledger W) (s' : PosixSocket W) (r : OpResult)
      → Processed none l.socket s' r
      → IsFifo l
      → IsFifo (record l { socket = s' })
  Processed-IsFifo l s' r p h =
      let same : pending s' ≡ pending l.socket = none_left r p.ids_left in
      record {
        order =
            ap (λ u. called_ids u ++ pending s') p.same_called
            ∙ ap (λ u. called_ids (l.socket).called ++ u) same
            ∙ h.order;
        is_new =
            subst (λ m. Below m (pending s')) (sym p.same_next)
              (subst (λ u. Below (l.socket).next_request u) (sym same) h.is_new);
        is_served = p.is_served h.is_served;
      }
    where
      none_left :
          (r : OpResult)
          → pending s' ++ refused none r ≡ pending l.socket
          → pending s' ≡ pending l.socket
      none_left success e = sym (append-nil (pending s')) ∙ e
      none_left (failure x) e = sym (append-nil (pending s')) ∙ e

  abbrev pub wrote : Ledger W → PosixSocket W × OpResult → Ledger W
  wrote l p = record {
    socket = p.0;
    accepted = l.accepted ++ accepting p.1 (l.socket).next_request;
  }

  pub written-IsFifo :
      (l : Ledger W) (t s' : PosixSocket W) (r : OpResult)
      → Processed (some (l.socket).next_request) t s' r
      → pending t ≡ pending l.socket ++ ((l.socket).next_request ∷ [])
      → t.called ≡ (l.socket).called
      → t.next_request ≡ (l.socket).next_request + 1
      → (IsServed l.socket → IsServed t)
      → IsFifo l
      → IsFifo (wrote l (s', r))
  written-IsFifo l t s' r p e c n v h = record {
    order =
        ap (λ u. called_ids u ++ pending s') (p.same_called ∙ c)
        ∙ write_order r (l.socket).next_request l.accepted (called_ids (l.socket).called)
            (pending l.socket) (pending s') (p.ids_left ∙ e) h.order;
    is_new =
        subst (λ m. Below m (pending s')) (sym (p.same_next ∙ n))
          (Below-left ((l.socket).next_request + 1) (pending s')
            (refused (some (l.socket).next_request) r)
            (subst (λ u. Below ((l.socket).next_request + 1) u) (sym (p.ids_left ∙ e))
              (Below-push (l.socket).next_request (pending l.socket) h.is_new)));
    is_served = p.is_served (v h.is_served);
  }
