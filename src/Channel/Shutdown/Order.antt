-- ===== src/Channel/Shutdown/Order.antt =====
-- The order in which source/channel.c shuts the handlers of a channel down.
use aws_c_io.Base.{
  ℕ, zero, suc, ◌+◌, ◌-◌, ◌≤◌, ◌<◌, ◌≡◌, Bool, true, false, some, List, [], ◌∷◌, ◌++◌,
  if◌then◌else◌, refl, arith, is_some, length, subst, ap, sym, ◌∙◌,
}
use aws_c_io.Channel.{Slot, shutting_down, shut_down, Direction, read_dir, write_dir, is_open}
use aws_c_io.Channel.Slots.Order.{member}
use aws_c_io.Channel.Slots.Links.{Linked}
use aws_c_io.Channel.Slots.Walk.{Trail, right-Trail, last_of}
use aws_c_io.Channel.Slots.Leftwards.{
  LeftTrail, rev_onto, rev_onto-LeftTrail, rev_onto_last, member-rev_onto, length-rev_onto,
}
use aws_c_io.Channel.Tasks.{is_shut_down}
use aws_c_io.Channel.Shutdown.{
  Ask, Shutdown, idle, completing, complete, set_state, shutdown_task, on_handler_shutdown_complete,
  run_notify, answer, follow,
}

abbrev pub asks : Direction → ℕ → Bool → List ℕ → List Ask
asks d e b [] = []
asks d e b (x ∷ xs) = record { slot = x; dir = d; error_code = e; immediately = b } ∷ asks d e b xs

abbrev all_handled : (ℕ → Slot) → List ℕ → Bool
all_handled s [] = true
all_handled s (x ∷ xs) = if is_some (s x).handler then all_handled s xs else false

abbrev plus_length : List ℕ → ℕ → ℕ
plus_length [] n = n
plus_length (x ∷ xs) n = suc (plus_length xs n)

plus_length_lem : (xs : List ℕ) (n : ℕ) → plus_length xs n ≡ length xs + n
plus_length_lem [] n = omega arith
plus_length_lem (x ∷ xs) n = omega (arith, plus_length_lem xs n)

module _ (e : ℕ) (b : Bool) where
  -- From a slot leftwards, to the end of the shutdown.
  write_phase :
      (fuel i : ℕ) (zs : List ℕ) (s : Shutdown)
      → LeftTrail s.chan.slots (i ∷ zs)
      → all_handled s.chan.slots zs ≡ true
      → s.chan.first ≡ some (last_of i zs)
      → is_shut_down s.chan.channel_state ≡ false
      → s.notify ≡ idle
      → length zs < fuel
      → follow fuel (some (record { slot = i; dir = write_dir; error_code = e; immediately = b })) s
        ≡ (complete e s, asks write_dir e b (i ∷ zs))
  unfolding follow answer on_handler_shutdown_complete run_notify
  write_phase zero i zs s t h f n k g = ground arith
  write_phase (suc zero) i [] s t h f n k g = ground (arith, f, n, k)
  write_phase (suc (suc fuel)) i [] s t h f n k g = ground (arith, f, n, k)
  write_phase (suc fuel) i (z ∷ zs) s t h f n k g =
      ground (arith, f, n, k, write_phase fuel z zs s t.1)

  -- From a slot rightwards, and then from the last one back.
  read_phase :
      (fuel i : ℕ) (rest : List ℕ) (s : Shutdown)
      → Trail s.chan.slots (i ∷ rest)
      → all_handled s.chan.slots rest ≡ true
      → is_shut_down s.chan.channel_state ≡ false
      → s.notify ≡ idle
      → follow
          (plus_length rest (suc fuel))
          (some (record { slot = i; dir = read_dir; error_code = e; immediately = b }))
          s
        ≡ (
          (follow fuel
              (some (record {
                slot = last_of i rest;
                dir = write_dir;
                error_code = e;
                immediately = b;
              }))
              s).0,
          asks read_dir e b (i ∷ rest)
              ++ (follow fuel
                  (some (record {
                    slot = last_of i rest;
                    dir = write_dir;
                    error_code = e;
                    immediately = b;
                  }))
                  s).1,
        )
  unfolding follow answer on_handler_shutdown_complete run_notify
  read_phase fuel i [] s t h n k = ground (arith, n, k)
  read_phase fuel i (z ∷ zs) s t h n k = ground (arith, n, k, read_phase fuel z zs s t.1)

all_handled-member :
    (s : ℕ → Slot) (xs : List ℕ)
    → ((x : ℕ) → member x xs ≡ true → is_some (s x).handler ≡ true)
    → all_handled s xs ≡ true
all_handled-member s [] h = refl
all_handled-member s (x ∷ xs) h =
    ground (arith, h x, all_handled-member s xs (λ y m. ground (arith, h y)))

rev_onto_end :
    (ys : List ℕ) (y : ℕ) (acc : List ℕ) (l : ℕ) (zs : List ℕ)
    → rev_onto ys (y ∷ acc) ≡ l ∷ zs
    → last_of l zs ≡ last_of y acc
rev_onto_end [] y acc l zs q = cc
rev_onto_end (w ∷ ws) y acc l zs q = rev_onto_end ws w (y ∷ acc) l zs q

-- The handlers seen from the last slot backwards.
back_handled :
    (s : ℕ → Slot) (xs zs : List ℕ) (last : ℕ)
    → rev_onto xs [] ≡ last ∷ zs
    → ((x : ℕ) → member x xs ≡ true → is_some (s x).handler ≡ true)
    → all_handled s zs ≡ true
back_handled s xs zs last q h =
    all_handled-member s zs
      (λ x m. h x (ground (arith, ap (λ ws. member x ws) q, member-rev_onto x xs [], m)))

order_from :
    (e : ℕ) (b : Bool) (m first : ℕ) (rest zs : List ℕ) (s : Shutdown)
    → Trail s.chan.slots (first ∷ rest)
    → LeftTrail s.chan.slots (last_of first rest ∷ zs)
    → all_handled s.chan.slots rest ≡ true
    → all_handled s.chan.slots zs ≡ true
    → s.chan.first ≡ some first
    → first ≡ last_of (last_of first rest) zs
    → is_open s.chan.channel_state ≡ true
    → s.notify ≡ idle
    → length zs < m
    → follow (plus_length rest (suc m)) (shutdown_task e b s).1 (shutdown_task e b s).0 ≡ (
      complete e (set_state shutting_down s),
      asks read_dir e b (first ∷ rest) ++ asks write_dir e b (last_of first rest ∷ zs),
    )
unfolding shutdown_task
order_from e b m first rest zs s t u h w f z o n g =
    let s' : Shutdown = set_state shutting_down s in
    ground (
      arith,
      f,
      read_phase e b m first rest s' t h refl n,
      write_phase e b m (last_of first rest) zs s' u w (f ∙ ap (λ i. some i) z) refl n g,
    )

-- In an open channel whose slots all have handlers, and whose handlers each complete what they are
-- asked, one shutdown asks every handler once in the read direction from left to right and then once
-- in the write direction from right to left, with the error code and flag it was started with; then
-- the channel is shut down, flagged so, and its completion is scheduled where there is a callback.
-- Two calls for each slot are fuel enough.
pub shutdown_order :
    (e : ℕ) (b : Bool) (fuel first : ℕ) (rest : List ℕ) (s : Shutdown)
    → Linked s.chan (first ∷ rest)
    → ((x : ℕ) → member x (first ∷ rest) ≡ true → is_some (s.chan.slots x).handler ≡ true)
    → is_open s.chan.channel_state ≡ true
    → s.notify ≡ idle
    → length rest + length rest + 2 ≤ fuel
    → follow fuel (shutdown_task e b s).1 (shutdown_task e b s).0 ≡ (
      record s {
        chan = record (s.chan) { channel_state = shut_down };
        is_channel_shut_down = true;
        notify = if s.has_on_shutdown_completed then completing e else s.notify;
      },
      asks read_dir e b (first ∷ rest) ++ asks write_dir e b (rev_onto (first ∷ rest) []),
    )
shutdown_order e b fuel first rest s l h o n g =
    let (zs, q) = rev_onto_last first rest [] in
    let m : ℕ = fuel - (length rest + 1) in
    let k : length zs ≡ length rest =
      omega (arith, ap (λ ws. length ws) q, length-rev_onto (first ∷ rest) []) in
    let f : plus_length rest (suc m) ≡ fuel = omega (arith, plus_length_lem rest (suc m), g) in
    rw (sym f, q)
      (order_from e b m first rest zs s (right-Trail s.chan.slots (first ∷ rest) l.right l.distinct)
        (subst (λ ws. LeftTrail s.chan.slots ws) q
          (rev_onto-LeftTrail s.chan.slots (first ∷ rest) [] l.distinct l.left tt))
        (all_handled-member s.chan.slots rest (λ x y. ground (arith, h x)))
        (back_handled s.chan.slots (first ∷ rest) zs (last_of first rest) q h) l.front
        (sym (rev_onto_end rest first [] (last_of first rest) zs q)) o n (omega (arith, k, g)))
