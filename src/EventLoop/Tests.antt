-- ===== src/EventLoop/Tests.antt =====
-- What has been proved of source/event_loop.c, for two loops, two ticks and a platform on which the third loop fails.
use aws_c_io.Base.{ℕ, ◌≤◌, ◌<◌, ◌≡◌, ◌⊎◌, true, some, List, [], ◌∷◌, ltb}
use aws_c_io.Common.{common}
use aws_c_io.EventLoop.{EventLoop, get_at, get_load_factor, get_next_loop, Platform}
use aws_c_io.EventLoop.Load.{get_next_loop-least}

abbrev loop_with : ℕ → ℕ → EventLoop
loop_with id load = record {
  id = id;
  current_load_factor = load;
  next_flush_time = 1;
  latest_tick_start = 0;
  current_tick_latency_sum = 7;
}

abbrev two_ticks : List (ℕ × ℕ)
two_ticks = (100, 350) ∷ (3000000000, 3000000040) ∷ []

get_next_loop-least_example :
    (chosen : EventLoop) × (get_next_loop common 65537 0 0 (loop_with 0 5 ∷ loop_with 1 3 ∷ [])
      ≡ some chosen)
    × ((a : EventLoop) × (b : EventLoop) × (get_at 1 (loop_with 0 5 ∷ loop_with 1 3 ∷ []) ≡ some a)
        × (get_at 1 (loop_with 0 5 ∷ loop_with 1 3 ∷ []) ≡ some b)
        × (((chosen ≡ a) × (get_load_factor common 0 a < get_load_factor common 0 b))
            ⊎ ((chosen ≡ b) × (get_load_factor common 0 b ≤ get_load_factor common 0 a))))
get_next_loop-least_example =
    get_next_loop-least common 65537 0 0 (loop_with 0 5) (loop_with 1 3 ∷ [])

abbrev platform : Platform
platform = record { new_loop = λ i. ltb i 2; run = λ i. true }
