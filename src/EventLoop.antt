-- ===== src/EventLoop.antt =====
-- source/event_loop.c: a group of event loops, the load of each and the choice between them. What an event loop
-- is on a platform is a parameter; the clock and the random bits are arguments.
pub mod Load
pub mod Group
mod Tests
use aws_c_io.Base.{
  ℕ, zero, suc, ◌+◌, ◌-◌, ◌*◌, ◌/◌, ◌%◌, Bool, true, false, Option, none, some, List, [], ◌∷◌, ◌++◌,
  ◌==◌, ◌&&◌, ◌||◌, not, ltb, if◌then◌else◌, u64, u64_mod, u64_max, min, length,
}
use aws_c_io.Common.{Common}

-- The fields of struct aws_event_loop that measure its load
pub record EventLoop : Type 0 where
  pub id : ℕ
  pub current_load_factor : ℕ
  pub next_flush_time : ℕ
  pub latest_tick_start : ℕ
  pub current_tick_latency_sum : ℕ

-- aws_event_loop_register_tick_start
pub register_tick_start : ℕ → EventLoop → EventLoop
register_tick_start now l = record l { latest_tick_start = now }

-- aws_event_loop_get_load_factor
pub get_load_factor : Common → ℕ → EventLoop → ℕ
get_load_factor common now l =
    if ltb (u64 (l.next_flush_time + 10)) (common.nanos_to_secs now)
    then 0
    else l.current_load_factor

-- aws_event_loop_register_tick_end
pub register_tick_end : Common → ℕ → EventLoop → EventLoop
register_tick_end common end_tick l =
    let sum =
      common.add_size_saturating l.current_tick_latency_sum
        (min (u64 (end_tick + u64_mod - l.latest_tick_start)) u64_max) in
    let ended : EventLoop = record l { current_tick_latency_sum = sum; latest_tick_start = 0 } in
    if ltb l.next_flush_time (common.nanos_to_secs end_tick)
    then record ended {
      current_load_factor = sum;
      current_tick_latency_sum = 0;
      next_flush_time = u64 (common.nanos_to_secs end_tick + 1);
    }
    else ended

-- aws_array_list_get_at
abbrev pub get_at : {A : Type 0} → ℕ → List A → Option A
get_at n [] = none
get_at zero (x ∷ xs) = some x
get_at (suc n) (x ∷ xs) = get_at n xs

-- aws_event_loop_group_get_next_loop, for 32 random bits and the time of each look at a load; `none` is NULL, for
-- a group without loops.
pub get_next_loop : Common → ℕ → ℕ → ℕ → List EventLoop → Option EventLoop
unfolding get_load_factor
get_next_loop common random now_a now_b [] = none
get_next_loop common random now_a now_b (l ∷ ls) =
    elim (get_at ((random % 65536) % length (l ∷ ls)) (l ∷ ls)) [
      | none ↦ none
      | some a ↦ elim (get_at (((random / 65536) % 65536) % length (l ∷ ls)) (l ∷ ls)) [
        | none ↦ none
        | some b ↦
            if ltb (get_load_factor common now_a a) (get_load_factor common now_b b)
            then some a
            else some b
      ]
    ]

-- A platform's loops, by their number in the group: whether one is made, and whether its thread runs.
pub record Platform : Type 0 where
  pub new_loop : ℕ → Bool
  pub run : ℕ → Bool

-- A group under construction: its loops, the last one first, and what has been made and destroyed, the
-- last one first.
pub record EventLoopGroup : Type 0 where
  pub event_loops : List ℕ
  pub created : List ℕ
  pub destroyed : List ℕ

-- s_aws_event_loop_group_shutdown_sync, from the back
pub group_shutdown_sync : List ℕ → EventLoopGroup → EventLoopGroup
group_shutdown_sync [] g = record g { event_loops = [] }
group_shutdown_sync (l ∷ ls) g = group_shutdown_sync ls (record g { destroyed = l ∷ g.destroyed })

-- Whether loop `i` is made: without pinning each is; with it, one for each CPU that is no hyper-thread.
pub is_usable : Bool → ℕ → (ℕ → Bool) → ℕ → Bool
is_usable pin_threads group_cpu_count suspected_hyper_thread i =
    not pin_threads || (ltb i group_cpu_count && not (suspected_hyper_thread i))

module _ (platform : Platform) (is_made : ℕ → Bool) where
  -- The loop of s_event_loop_group_new, with the number of loops to go, and whether it goes to on_error.
  pub make_loops : ℕ → ℕ → EventLoopGroup → EventLoopGroup × Bool
  make_loops zero i g = (g, true)
  make_loops (suc n) i g = elim (is_made i) [
    | false ↦ make_loops n (i + 1) g
    | true ↦ elim (platform.new_loop i) [
      | false ↦ (g, false)
      | true ↦
          let g1 : EventLoopGroup = record g {
            event_loops = i ∷ g.event_loops;
            created = i ∷ g.created;
          } in
          elim (platform.run i) [ false ↦ (g1, false) | true ↦ make_loops n (i + 1) g1 ]
    ]
  ]

  -- s_event_loop_group_new once its memory is there; false is NULL.
  pub event_loop_group_new : ℕ → EventLoopGroup × Bool
  unfolding make_loops group_shutdown_sync
  event_loop_group_new el_count =
      let made =
        make_loops el_count 0 (record { event_loops = []; created = []; destroyed = [] }) in
      if made.1 then made else (group_shutdown_sync made.0.event_loops made.0, false)
