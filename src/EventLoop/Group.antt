-- ===== src/EventLoop/Group.antt =====
-- The making of a group of event loops in source/event_loop.c: all of it or nothing.
use aws_c_io.Base.{ℕ, zero, suc, ◌+◌, ◌≡◌, Bool, true, List, [], ◌∷◌, ◌&&◌, if◌then◌else◌}
use aws_c_io.EventLoop.{Platform, EventLoopGroup}

-- `xs` turned round, before `ys`
abbrev pub rev_before : List ℕ → List ℕ → List ℕ
rev_before [] ys = ys
rev_before (x ∷ xs) ys = rev_before xs (x ∷ ys)

-- What the loop keeps: every loop made is in the group, and none is destroyed.
abbrev IsBuilding : EventLoopGroup → Type 0
IsBuilding g = (g.event_loops ≡ g.created) × (g.destroyed ≡ [])

-- The indices, of `n` from `i` on, that a loop is to be made for
abbrev pub usable : (ℕ → Bool) → ℕ → ℕ → List ℕ
usable is_made zero i = []
usable is_made (suc n) i =
    let rest = usable is_made n (i + 1) in if is_made i then i ∷ rest else rest

-- Whether every loop can be made and run
abbrev pub can_run_all : Platform → List ℕ → Bool
can_run_all platform [] = true
can_run_all platform (i ∷ is) = platform.new_loop i && platform.run i && can_run_all platform is

-- The loops made, up to the first that cannot be made or run
abbrev pub started : Platform → List ℕ → List ℕ
started platform [] = []
started platform (i ∷ is) =
    let rest = if platform.run i then started platform is else [] in
    if platform.new_loop i then i ∷ rest else []

-- What the loop adds to a group: the loops made, all of them in the group and none destroyed; and it answers whether
-- all could be made and run.
record Builds (platform : Platform) (wanted : List ℕ) (g : EventLoopGroup)
    (made : EventLoopGroup × Bool) : Type 0 where
  answer : made.1 ≡ can_run_all platform wanted
  made_so_far : made.0.created ≡ rev_before (started platform wanted) g.created
  building : IsBuilding made.0
