-- ===== src/EventLoop/Load.antt =====
-- The load of the event loops of source/event_loop.c, and the choice by it.
use aws_c_io.Base.{
  ℕ, zero, suc, ◌+◌, ◌-◌, ◌/◌, ◌%◌, ◌≤◌, ◌<◌, ◌≡◌, ◌⊎◌, some, List, [], ◌∷◌, ltb, if◌then◌else◌,
  u64, u64_mod, u64_max, min, length, refl, arith, Bool-cases, inl, inr,
}
use aws_c_io.Common.{Common}
use aws_c_io.EventLoop.{
  EventLoop, register_tick_start, register_tick_end, get_load_factor, get_at, get_next_loop,
}

-- The ticks of a loop: when each starts and ends.
abbrev pub tick : Common → ℕ × ℕ → EventLoop → EventLoop
tick common t l = register_tick_end common t.1 (register_tick_start t.0 l)

-- The load factors that the ticks store
abbrev pub stored : Common → List (ℕ × ℕ) → EventLoop → ℕ
stored common [] l = 0
stored common (t ∷ ts) l =
    (if ltb l.next_flush_time (common.nanos_to_secs t.1)
      then (tick common t l).current_load_factor
      else 0)
    + stored common ts (tick common t l)

abbrev pub ticks : Common → List (ℕ × ℕ) → EventLoop → EventLoop
ticks common [] l = l
ticks common (t ∷ ts) l = ticks common ts (tick common t l)

-- The time that the ticks take
abbrev pub busy : List (ℕ × ℕ) → ℕ
busy [] = 0
busy (t ∷ ts) = (t.1 - t.0) + busy ts

abbrev pub AllForward : List (ℕ × ℕ) → Type 0
AllForward [] = Unit {0}
AllForward (t ∷ ts) = (t.0 ≤ t.1) × (t.1 < u64_mod) × AllForward ts

tick-busy :
    (common : Common) (t : ℕ × ℕ) (l : EventLoop)
    → t.0 ≤ t.1
    → t.1 < u64_mod
    → l.current_tick_latency_sum + (t.1 - t.0) < u64_mod
    → (if ltb l.next_flush_time (common.nanos_to_secs t.1)
          then (tick common t l).current_load_factor
          else 0)
        + (tick common t l).current_tick_latency_sum
      ≡ l.current_tick_latency_sum + (t.1 - t.0)
unfolding register_tick_end register_tick_start
tick-busy common t l f b s =
    let elapsed : min (u64 (t.1 + u64_mod - t.0)) u64_max ≡ t.1 - t.0 = ground (arith, f, b) in
    elim (Bool-cases (ltb l.next_flush_time (common.nanos_to_secs t.1))) [
      | inl q ↦ ground (
        arith,
        q,
        elapsed,
        s,
        common.add_size_saturating_lem l.current_tick_latency_sum (t.1 - t.0),
      )
      | inr q ↦ ground (
        arith,
        q,
        elapsed,
        s,
        common.add_size_saturating_lem l.current_tick_latency_sum (t.1 - t.0),
      )
    ]

-- Over ticks that go forward and take less than 2^64 nanoseconds in all, the load factors that are stored and the
-- sum that is not stored yet are together the time of the ticks and the sum there was at first: no time
-- is lost or counted twice.
pub ticks-busy :
    (common : Common) (ts : List (ℕ × ℕ)) (l : EventLoop)
    → AllForward ts
    → l.current_tick_latency_sum + busy ts < u64_mod
    → stored common ts l + (ticks common ts l).current_tick_latency_sum
      ≡ l.current_tick_latency_sum + busy ts
ticks-busy common [] l f s = omega arith
ticks-busy common (t ∷ ts) l f s =
    let one = tick-busy common t l f.0 f.1 (omega (arith, s)) in
    omega (arith, one, ticks-busy common ts (tick common t l) f.2 (omega (arith, one, s)))

get_at-some : {A : Type 0} (n : ℕ) (xs : List A) → n < length xs → (x : A) × (get_at n xs ≡ some x)
get_at-some n [] h = ground (arith, h)
get_at-some zero (x ∷ xs) h = (x, refl)
get_at-some (suc n) (x ∷ xs) h = get_at-some n xs (omega (arith, h))

mod_bound : (a n : ℕ) → 0 < n → a % n < n
mod_bound a n h = omega (arith, h)

-- In a group with a loop one is chosen, at one of two places that the random bits give, and its load is the lower one of
-- the two.
pub get_next_loop-least :
    (common : Common) (random now_a now_b : ℕ) (l : EventLoop) (ls : List EventLoop)
    → (chosen : EventLoop) × (get_next_loop common random now_a now_b (l ∷ ls) ≡ some chosen)
      × ((a : EventLoop) × (b : EventLoop) × (get_at ((random % 65536) % length (l ∷ ls)) (l ∷ ls)
            ≡ some a)
          × (get_at (((random / 65536) % 65536) % length (l ∷ ls)) (l ∷ ls) ≡ some b)
          × (((chosen ≡ a) × (get_load_factor common now_a a < get_load_factor common now_b b))
              ⊎ ((chosen ≡ b) × (get_load_factor common now_b b ≤ get_load_factor common now_a a))))
unfolding get_next_loop
get_next_loop-least common random now_a now_b l ls =
    let n : ℕ = length (l ∷ ls) in
    let (a, pa) =
      get_at-some ((random % 65536) % n) (l ∷ ls) (mod_bound (random % 65536) n (omega arith)) in
    let (b, pb) =
      get_at-some (((random / 65536) % 65536) % n) (l ∷ ls)
        (mod_bound ((random / 65536) % 65536) n (omega arith)) in
    elim (Bool-cases (ltb (get_load_factor common now_a a) (get_load_factor common now_b b))) [
      | inl q ↦
          (a, rw (get_next_loop, pa, pb, q) refl, (a, b, pa, pb, inl (refl, ground (arith, q))))
      | inr q ↦
          (b, rw (get_next_loop, pa, pb, q) refl, (a, b, pa, pb, inr (refl, ground (arith, q))))
    ]
