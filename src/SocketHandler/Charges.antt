-- ===== src/SocketHandler/Charges.antt =====
-- What a read of source/socket_channel_handler.c takes from the window of the slot to the right.
use aws_c_io.Base.{
  ℕ, zero, suc, ◌+◌, ◌-◌, ◌≤◌, ◌<◌, ◌≡◌, true, none, some, ◌&&◌, not, ltb, u64, u64_mod, is_some,
  ap, arith, Bool-cases, Option-cases, inl, inr, ◌∙◌,
}
use aws_c_io.Channel.{Channel, read_dir}
use aws_c_io.Channel.Window.{to_handler, send_message}
use aws_c_io.Channel.Window.Flow.{send_message_window, send_message-links}
use aws_c_io.SocketHandler.{
  SocketHandler, Around, Reading, deliver, read_round, read_loop, max_to_read,
}
use aws_c_io.SocketHandler.Reads.{
  IsFair, IsQuiet, OpResult-cases, ReadResult-cases, loop_goes_on, max_to_read_bounds, reading,
}

module _ {W : Type 0} (around : Around W) (slot right window : ℕ) where
  -- What has been read has been taken from the window of the neighbour to the right.
  record IsCharged (r : Reading W) : Type 0 where
    neighbour : (r.chan.slots slot).adj_right ≡ some right
    back_pressure : r.chan.read_back_pressure_enabled ≡ true
    account : (r.chan.slots right).window_size + r.total_read ≡ window

  -- A message that fits the window is handed on, and charged.
  sent-fits :
      (n : ℕ) (c : Channel)
      → (c.slots slot).adj_right ≡ some right
      → c.read_back_pressure_enabled ≡ true
      → (c.slots right).window_size < u64_mod
      → n ≤ (c.slots right).window_size
      → ((send_message slot n read_dir c).1 ≡ to_handler right read_dir)
        × ((((send_message slot n read_dir c).0).slots right).window_size + n
            ≡ (c.slots right).window_size)
  sent-fits n c e p w l = elim (send_message_window c slot right n e p w) [
    | inl x ↦ (x.0.0, x.0.1)
    | inr x ↦ ground (arith, l, x.1)
  ]

  window_bound :
      (r : Reading W) → window < u64_mod → IsCharged r → (r.chan.slots right).window_size < u64_mod
  window_bound r b h = omega (arith, b, h.account)

  deliver-chan :
      (n : ℕ) (w : W) (r : Reading W)
      → IsQuiet around
      → window < u64_mod
      → IsCharged r
      → n ≤ (r.chan.slots right).window_size
      → (deliver around slot n w r.chan).0.1 ≡ (send_message slot n read_dir r.chan).0
  unfolding deliver
  deliver-chan n w r quiet b h l =
      rw (deliver, (sent-fits n r.chan h.neighbour h.back_pressure (window_bound r b h) l).0)
        (quiet right n w (send_message slot n read_dir r.chan).0)

  deliver-IsCharged :
      (n : ℕ) (r r' : Reading W)
      → window < u64_mod
      → IsCharged r
      → n ≤ (r.chan.slots right).window_size
      → r'.chan ≡ (send_message slot n read_dir r.chan).0
      → r'.total_read ≡ r.total_read + n
      → IsCharged r'
  deliver-IsCharged n r r' b h l d t = record {
    neighbour =
        ap (λ c. (c.slots slot).adj_right) d
        ∙ (send_message-links r.chan slot n slot).0
        ∙ h.neighbour;
    back_pressure =
        ap (λ c. c.read_back_pressure_enabled) d
        ∙ (send_message-links r.chan slot n slot).1
        ∙ h.back_pressure;
    account = omega (
      arith,
      ap (λ c. (c.slots right).window_size) d,
      t,
      h.account,
      (sent-fits n r.chan h.neighbour h.back_pressure (window_bound r b h) l).1,
    );
  }

  read_round-IsCharged :
      (most : ℕ) (r : Reading W)
      → IsFair around
      → IsQuiet around
      → window < u64_mod
      → most ≤ window
      → r.total_read < most
      → IsCharged r
      → IsCharged (read_round around slot most r)
  unfolding read_round deliver
  read_round-IsCharged most r f quiet b m l h =
      let left : ℕ = most - r.total_read in
      elim (Option-cases (around.acquire_message left r.world).1) [
        | inl p ↦
            rw (read_round, p)
              (record {
                neighbour = h.neighbour;
                back_pressure = h.back_pressure;
                account = h.account;
              })
        | inr (c, p) ↦
            let fits : (0 < c) × (c ≤ left) = f.acquire_fits left r.world c (omega (arith, l)) p in
            let w : W = (around.acquire_message left r.world).0 in
            elim (ReadResult-cases (around.socket_read c w).1) [
              | inr (e, q) ↦
                  rw (read_round, p, q)
                    (record {
                      neighbour = h.neighbour;
                      back_pressure = h.back_pressure;
                      account = h.account;
                    })
              | inl (n, q) ↦
                  let some_bytes : (0 < n) × (n ≤ c) = f.read_fits c w n fits.0 q in
                  let len : n ≤ (r.chan.slots right).window_size =
                    omega (arith, h.account, l, m, fits.1, some_bytes.1) in
                  let w' : W = (around.socket_read c w).0 in
                  let d : (deliver around slot n w' r.chan).0.1
                      ≡ (send_message slot n read_dir r.chan).0 =
                    deliver-chan n w' r quiet b h len in
                  elim (OpResult-cases (deliver around slot n w' r.chan).1) [
                    | inl k ↦
                        rw (read_round, p, q, k)
                          (deliver-IsCharged n r
                            (record {
                              total_read = u64 (r.total_read + n);
                              last_error = none;
                              world = (deliver around slot n w' r.chan).0.0;
                              chan = (deliver around slot n w' r.chan).0.1;
                            })
                            b h len d (ground (arith, h.account, b, len)))
                    | inr (e, k) ↦
                        rw (read_round, p, q, k)
                          (deliver-IsCharged n r
                            (record {
                              total_read = u64 (r.total_read + n);
                              last_error = some e;
                              world = (deliver around slot n w' r.chan).0.0;
                              chan = (deliver around slot n w' r.chan).0.1;
                            })
                            b h len d (ground (arith, h.account, b, len)))
                  ]
            ]
      ]

  read_loop-IsCharged :
      (fuel most : ℕ) (r : Reading W)
      → IsFair around
      → IsQuiet around
      → window < u64_mod
      → most ≤ window
      → IsCharged r
      → IsCharged (read_loop around fuel slot most r)
  unfolding read_loop
  read_loop-IsCharged zero most r f quiet b m h = h
  read_loop-IsCharged (suc fuel) most r f quiet b m h =
      elim (Bool-cases (ltb r.total_read most && not (is_some r.last_error))) [
        | inr q ↦ rw (read_loop, q) h
        | inl q ↦
            rw (read_loop, q)
              (read_loop-IsCharged fuel most (read_round around slot most r) f quiet b m (
                read_round-IsCharged most r f quiet b m
                  (loop_goes_on around r.total_read most r.last_error q) h))
      ]

-- With back pressure, what a read takes from the socket is what it takes from the window of the slot to the
-- right, byte for byte, so that no message of it exceeds the window; the pool and the socket must be
-- fair and the neighbour's handler leave the channel as it is.
pub reading-charged :
    {W : Type 0} (around : Around W) (h : SocketHandler) (w : W) (c : Channel) (right : ℕ)
    → IsFair around
    → IsQuiet around
    → (c.slots h.slot).adj_right ≡ some right
    → c.read_back_pressure_enabled ≡ true
    → (c.slots right).window_size < u64_mod
    → let r = reading around h w c (max_to_read (c.slots right).window_size h) in
      (r.chan.slots right).window_size + r.total_read ≡ (c.slots right).window_size
reading-charged around h w c right f quiet e p b =
    (read_loop-IsCharged around h.slot right (c.slots right).window_size
      (max_to_read (c.slots right).window_size h) (max_to_read (c.slots right).window_size h)
      (record { total_read = 0; last_error = none; world = w; chan = c }) f quiet b
      (max_to_read_bounds around (c.slots right).window_size h).0
      (record { neighbour = e; back_pressure = p; account = omega arith })).account
