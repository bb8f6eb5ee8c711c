-- ===== src/SocketHandler/Reads.antt =====
-- The read of source/socket_channel_handler.c: when it ends, and why it rests.
use aws_c_io.Base.{
  ℕ, zero, suc, ◌+◌, ◌-◌, ◌≤◌, ◌<◌, ◌≡◌, ◌⊎◌, true, false, Option, none, some, ◌∷◌, ◌==◌, ◌&&◌, not,
  ltb, u64_mod, is_some, AwsError, read_would_block, OpResult, success, failure, refl, sym, ap,
  subst, arith, Bool-cases, Option-cases, inl, inr, ◌∙◌,
}
use aws_c_io.Channel.{Channel}
use aws_c_io.Channel.Window.{downstream_read_window}
use aws_c_io.SocketHandler.{
  SocketHandler, Around, Reading, ReadResult, got, failed, shut_down_channel, deliver, read_round,
  read_loop, max_to_read, after_read, do_read, schedule_read_task, is_would_block,
}

-- What the pool and the socket promise: a message has room for a byte at least, and for no more than was
-- asked; a read fills no more than the room and, if it does not fail, something.
pub record IsFair {W : Type 0} (around : Around W) : Type 0 where
  pub acquire_fits :
      (n : ℕ) (w : W) (c : ℕ) → 0 < n → (around.acquire_message n w).1 ≡ some c → (0 < c) × (c ≤ n)
  pub read_fits :
      (c : ℕ) (w : W) (n : ℕ) → 0 < c → (around.socket_read c w).1 ≡ got n → (0 < n) × (n ≤ c)

pub ReadResult-cases :
    (a : ReadResult) → ((n : ℕ) × (a ≡ got n)) ⊎ ((e : AwsError) × (a ≡ failed e))
ReadResult-cases (got n) = inl (n, refl)
ReadResult-cases (failed e) = inr (e, refl)

pub OpResult-cases : (a : OpResult) → (a ≡ success) ⊎ ((e : AwsError) × (a ≡ failure e))
OpResult-cases success = inl refl
OpResult-cases (failure e) = inr (e, refl)

module _ {W : Type 0} (around : Around W) where
  -- A round stays within the limit, and ends the loop or reads something.
  abbrev Advances : ℕ → Reading W → Reading W → Type 0
  Advances most r r' =
      (r'.total_read ≤ most) × ((is_some r'.last_error ≡ true) ⊎ (r.total_read < r'.total_read))

  read_round-Advances :
      (slot most : ℕ) (r : Reading W)
      → IsFair around
      → most < u64_mod
      → r.total_read < most
      → Advances most r (read_round around slot most r)
  unfolding read_round
  read_round-Advances slot most r f b l =
      let left : ℕ = most - r.total_read in
      elim (Option-cases (around.acquire_message left r.world).1) [
        | inl p ↦ rw (read_round, p) (omega (arith, l), inl refl)
        | inr (c, p) ↦
            let fits : (0 < c) × (c ≤ left) = f.acquire_fits left r.world c (omega (arith, l)) p in
            let w : W = (around.acquire_message left r.world).0 in
            elim (ReadResult-cases (around.socket_read c w).1) [
              | inr (e, q) ↦ rw (read_round, p, q) (omega (arith, l), inl refl)
              | inl (n, q) ↦
                  let some_bytes : (0 < n) × (n ≤ c) = f.read_fits c w n fits.0 q in
                  elim (OpResult-cases
                    (deliver around slot n (around.socket_read c w).0 r.chan).1) [
                      | inl d ↦
                          rw (read_round, p, q, d)
                            (
                              ground (arith, b, l, fits.1, some_bytes.1),
                              inr (ground (arith, b, l, fits.1, some_bytes)),
                            )
                      | inr (e, d) ↦
                          rw (read_round, p, q, d)
                            (ground (arith, b, l, fits.1, some_bytes.1), inl refl)
                    ]
            ]
      ]

  read_loop_stopped :
      (fuel slot most : ℕ) (r : Reading W)
      → is_some r.last_error ≡ true
      → read_loop around fuel slot most r ≡ r
  unfolding read_loop
  read_loop_stopped zero slot most r e = refl
  read_loop_stopped (suc fuel) slot most r e =
      elim (Bool-cases (ltb r.total_read most && not (is_some r.last_error))) [
        | inl q ↦ ground (arith, q, e)
        | inr q ↦ rw (read_loop, q) refl
      ]

  loop_stops :
      (t most : ℕ) (o : Option AwsError)
      → t ≤ most
      → (ltb t most && not (is_some o)) ≡ false
      → (t ≡ most) ⊎ (is_some o ≡ true)
  loop_stops t most none l q = inl (ground (arith, l, q))
  loop_stops t most (some e) l q = inr refl

  pub loop_goes_on :
      (t most : ℕ) (o : Option AwsError) → (ltb t most && not (is_some o)) ≡ true → t < most
  loop_goes_on t most o q = ground (arith, q)

  -- With a round for each byte that is missing, the loop ends because its condition fails.
  pub read_loop-ends :
      (fuel slot most : ℕ) (r : Reading W)
      → IsFair around
      → most < u64_mod
      → r.total_read ≤ most
      → most ≤ r.total_read + fuel
      → ((read_loop around fuel slot most r).total_read ≤ most)
        × (((read_loop around fuel slot most r).total_read ≡ most)
            ⊎ (is_some (read_loop around fuel slot most r).last_error ≡ true))
  unfolding read_loop
  read_loop-ends zero slot most r f b l n = (l, inl (omega arith))
  read_loop-ends (suc fuel) slot most r f b l n =
      elim (Bool-cases (ltb r.total_read most && not (is_some r.last_error))) [
        | inr q ↦ rw (read_loop, q) (l, loop_stops r.total_read most r.last_error l q)
        | inl q ↦
            let r' : Reading W = read_round around slot most r in
            let a : Advances most r r' =
              read_round-Advances slot most r f b (loop_goes_on r.total_read most r.last_error q) in
            rw (read_loop, q)
              (elim a.1 [
                | inl e ↦
                    subst
                      (λ x.
                        (x.total_read ≤ most)
                        × ((x.total_read ≡ most) ⊎ (is_some x.last_error ≡ true)))
                      (sym (read_loop_stopped fuel slot most r' e)) (a.0, inr e)
                | inr g ↦ read_loop-ends fuel slot most r' f b a.0 (omega (arith, g, n))
              ])
      ]

  -- What s_do_read's loop leaves, for a limit.
  abbrev pub reading : SocketHandler → W → Channel → ℕ → Reading W
  reading h w c most =
      read_loop around most h.slot most
        (record { total_read = 0; last_error = none; world = w; chan = c })

  do_read-reading :
      (h : SocketHandler) (w : W) (c : Channel) (window : ℕ)
      → h.shutdown_in_progress ≡ false
      → downstream_read_window h.slot c ≡ some window
      → 0 < max_to_read window h
      → (do_read around h w c).0
        ≡ after_read
            (max_to_read window h)
            (reading h w c (max_to_read window h)).total_read
            (reading h w c (max_to_read window h)).last_error
            h
  unfolding do_read
  do_read-reading h w c window s d p = rw (do_read, s, d) (ground (arith, p))

  -- Why the handler need not read on at once.
  abbrev pub Rests : SocketHandler → SocketHandler → ℕ → Reading W → Type 0
  Rests h h' window r =
      (h'.read_task ≡ true)
      ⊎ ((e : AwsError) × (h'.requests ≡ shut_down_channel e ∷ h.requests))
      ⊎ (r.last_error ≡ some read_would_block)
      ⊎ ((r.total_read ≡ window) × (window < h.max_rw_size))

  would_block : (e : AwsError) → is_would_block e ≡ true → e ≡ read_would_block
  would_block e q = ground arith

  full_rests :
      (h : SocketHandler) (window t most : ℕ) (o : Option AwsError)
      → most ≡ max_to_read window h
      → t ≡ most
      → ((after_read most t o h).read_task ≡ true) ⊎ ((t ≡ window) × (window < h.max_rw_size))
  unfolding after_read max_to_read schedule_read_task
  full_rests h window t most o m x = elim (Bool-cases (ltb window h.max_rw_size)) [
    | inl q ↦ inr (ground (arith, q, m, x), ground (arith, q))
    | inr q ↦
        let f : (ltb t most ≡ false) × ((t == h.max_rw_size) ≡ true) = ground (arith, q, m, x) in
        elim (Bool-cases h.read_task) [
          | inl k ↦ inl (rw (after_read, f.0, f.1, k) refl)
          | inr k ↦ inl (rw (after_read, f.0, f.1, k) refl)
        ]
  ]

  short_rests :
      (h : SocketHandler) (t most : ℕ) (e : AwsError)
      → ltb t most ≡ true
      → ((after_read most t (some e) h).requests ≡ shut_down_channel e ∷ h.requests)
        ⊎ (e ≡ read_would_block)
  unfolding after_read
  short_rests h t most e q = elim (Bool-cases (is_would_block e)) [
    | inl b ↦ inr (would_block e b)
    | inr b ↦ inl (rw (after_read, q, b) refl)
  ]

  after_read-Rests :
      (h : SocketHandler) (window : ℕ) (r : Reading W) (o : Option AwsError)
      → r.last_error ≡ o
      → ((r.total_read ≡ max_to_read window h) ⊎ (is_some o ≡ true))
      → r.total_read ≤ max_to_read window h
      → Rests h (after_read (max_to_read window h) r.total_read o h) window r
  after_read-Rests h window r o e x l =
      elim (Bool-cases (ltb r.total_read (max_to_read window h))) [
        | inr q ↦
            elim (full_rests h window r.total_read (max_to_read window h) o refl
              (ground (arith, q, l))) [ inl k ↦ inl k | inr k ↦ inr (inr (inr k)) ]
        | inl q ↦ elim (Option-cases o) [
          | inl n ↦ ground (arith, n, x, q)
          | inr (c, n) ↦ elim (short_rests h r.total_read (max_to_read window h) c q) [
            | inl k ↦ inr (inl (c, rw (n) k))
            | inr k ↦ inr (inr (inl (e ∙ n ∙ ap (λ y. some y) k)))
          ]
        ]
      ]

  pub max_to_read_bounds :
      (window : ℕ) (h : SocketHandler)
      → (max_to_read window h ≤ window) × (max_to_read window h ≤ h.max_rw_size)
  unfolding max_to_read
  max_to_read_bounds window h = ground arith

  max_to_read_positive :
      (window : ℕ) (h : SocketHandler) → 0 < window → 0 < h.max_rw_size → 0 < max_to_read window h
  unfolding max_to_read
  max_to_read_positive window h p q = ground arith

-- The neighbour's handler leaves the channel as it is.
abbrev pub IsQuiet : {W : Type 0} → Around W → Type 0
IsQuiet {W} around =
    (right len : ℕ) (w : W) (c : Channel) → ((around.process_read_message right len w c).0).1 ≡ c

-- A read ends, within the window and the limit of a tick; afterwards a read task is in the event loop, or
-- the channel is being shut down, or the socket had no more and the event loop tells when it does, or
-- the window is used up, below the limit. The handler must not be shutting down, the window not be
-- empty, and the pool and the socket fair.
pub do_read-Rests :
    {W : Type 0} (around : Around W) (h : SocketHandler) (w : W) (c : Channel) (window : ℕ)
    → IsFair around
    → h.shutdown_in_progress ≡ false
    → downstream_read_window h.slot c ≡ some window
    → 0 < window
    → 0 < h.max_rw_size
    → window < u64_mod
    → let r = reading around h w c (max_to_read window h) in
      (r.total_read ≤ window)
      × (r.total_read ≤ h.max_rw_size)
      × Rests around h (do_read around h w c).0 window r
do_read-Rests around h w c window f s d p q b =
    let most : ℕ = max_to_read window h in
    let r : Reading _ = reading around h w c most in
    let bounds : (most ≤ window) × (most ≤ h.max_rw_size) = max_to_read_bounds around window h in
    let e : (r.total_read ≤ most) × ((r.total_read ≡ most) ⊎ (is_some r.last_error ≡ true)) =
      read_loop-ends around most h.slot most
        (record { total_read = 0; last_error = none; world = w; chan = c }) f
        (omega (arith, bounds.0, b)) (omega arith) (omega arith) in
    (
      omega (arith, e.0, bounds.0),
      omega (arith, e.0, bounds.1),
      subst (λ x. Rests around h x window r)
          (sym (do_read-reading around h w c window s d (max_to_read_positive around window h p q)))
          (after_read-Rests around h window r r.last_error refl e.1 e.0),
    )
