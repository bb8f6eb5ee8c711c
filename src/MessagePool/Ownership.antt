-- ===== src/MessagePool/Ownership.antt =====
-- Who owns the memory of source/message_pool.c.
use aws_c_io.Base.{
  ℕ, zero, suc, ◌+◌, ◌≤◌, ◌≡◌, inl, inr, Bool, true, false, Option, none, some, List, [], ◌∷◌, ◌==◌,
  if◌then◌else◌, refl, arith, length, Option-cases, List-cases, Bool-cases, subst, leb,
}
use aws_c_io.Memory.{
  Heap, count, IsFresh, count-acquire, count-release, acquire-IsFresh, release-IsFresh,
}
use aws_c_io.Memory
use aws_c_io.MessagePool.{
  Pool, fill, release_all, pool_clean_up, pool_init, pool_acquire, pool_release,
}

-- Of the live blocks a pool owns its array and the segments on its stack; `rest` counts the others,
-- segments that are lent out among them.
abbrev pub Owns : Heap → Pool → (ℕ → ℕ) → Type 0
Owns h pool rest = (a : ℕ) → count a h.live ≡ count a (pool.data_ptr ∷ pool.stack) + rest a

abbrev pub plus : ℕ → (ℕ → ℕ) → ℕ → ℕ
plus p rest a = if a == p then suc (rest a) else rest a

pub record IsSound (h : Heap) (pool : Pool) (rest : ℕ → ℕ) : Type 0 where
  pub fresh : IsFresh h
  pub owns : Owns h pool rest
  pub bounded : length pool.stack ≤ pool.ideal_segment_count

stack_top-IsSound :
    (pool : Pool) (h : Heap) (rest : ℕ → ℕ) (mem : ℕ) (stack : List ℕ)
    → IsSound h pool rest
    → pool.stack ≡ mem ∷ stack
    → (rest mem ≡ 0) × IsSound h (record pool { stack = stack }) (plus mem rest)
stack_top-IsSound pool h rest mem stack s e = (
  ground (arith, s.owns mem, s.fresh.once mem),
  record { fresh = s.fresh; owns = λ a. ground (arith, s.owns a); bounded = ground arith },
)

allocated-IsSound :
    (pool : Pool) (h h' : Heap) (rest : ℕ → ℕ) (mem : ℕ)
    → IsSound h pool rest
    → Memory.acquire h ≡ some (mem, h')
    → (rest mem ≡ 0) × IsSound h' pool (plus mem rest)
allocated-IsSound pool h h' rest mem s e =
    let f = acquire-IsFresh h h' mem s.fresh e in
    (
      ground (arith, s.owns mem, f.once mem, count-acquire h h' mem mem e),
      record {
        fresh = f;
        owns = λ a. ground (arith, s.owns a, count-acquire h h' mem a e);
        bounded = s.bounded;
      },
    )

abbrev pub Lends : (ℕ → ℕ) → Option (ℕ × Pool × Heap) → Type 0
Lends rest none = Unit {0}
Lends rest (some (mem, pool, h)) = (rest mem ≡ 0) × IsSound h pool (plus mem rest)

pool_acquire-Lends :
    (pool : Pool) (h : Heap) (rest : ℕ → ℕ) → IsSound h pool rest → Lends rest (pool_acquire pool h)
unfolding pool_acquire
pool_acquire-Lends pool h rest s = elim (List-cases pool.stack) [
  | inr (back, stack, e) ↦ rw (e, pool_acquire) (stack_top-IsSound pool h rest back stack s e)
  | inl e ↦ elim (Option-cases (Memory.acquire h)) [
    | inl f ↦ rw (e, f, pool_acquire) tt
    | inr ((mem, h'), f) ↦ rw (e, f, pool_acquire) (allocated-IsSound pool h h' rest mem s f)
  ]
]

-- A segment that is acquired was lent to nobody before, and the memory is accounted for with that
-- segment among what is lent.
pub pool_acquire-IsSound :
    (pool pool' : Pool) (h h' : Heap) (rest : ℕ → ℕ) (mem : ℕ)
    → IsSound h pool rest
    → pool_acquire pool h ≡ some (mem, pool', h')
    → (rest mem ≡ 0) × IsSound h' pool' (plus mem rest)
pool_acquire-IsSound pool pool' h h' rest mem s e =
    subst (Lends rest) e (pool_acquire-Lends pool h rest s)

-- A segment that is released goes back to the stack or, when that is full, to the allocator: the
-- memory is accounted for without it, and the stack stays within the ideal number.
pub pool_release-IsSound :
    (pool : Pool) (h : Heap) (rest : ℕ → ℕ) (mem : ℕ)
    → IsSound h pool (plus mem rest)
    → IsSound (pool_release mem pool h).1 (pool_release mem pool h).0 rest
unfolding pool_release
pool_release-IsSound pool h rest mem s =
    elim (Bool-cases (leb pool.ideal_segment_count (length pool.stack))) [
      | inl e ↦ simp e (record {
        fresh = release-IsFresh h mem s.fresh;
        owns = λ a. ground (arith, s.owns a, s.owns mem, count-release h mem a);
        bounded = s.bounded;
      })
      | inr e ↦
          simp e (record {
            fresh = s.fresh;
            owns = λ a. ground (arith, s.owns a);
            bounded = ground arith;
          })
    ]

release_all-IsFresh : (stack : List ℕ) (h : Heap) → IsFresh h → IsFresh (release_all stack h)
unfolding release_all
release_all-IsFresh [] h f = f
release_all-IsFresh (a ∷ stack) h f =
    release_all-IsFresh stack (Memory.release a h) (release-IsFresh h a f)

-- Releasing all of a stack leaves the rest.
count-release_all :
    (stack : List ℕ) (h : Heap) (rest : ℕ → ℕ)
    → ((a : ℕ) → count a h.live ≡ count a stack + rest a)
    → (a : ℕ) → count a (release_all stack h).live ≡ rest a
unfolding release_all
count-release_all [] h rest o a = omega (arith, o a)
count-release_all (x ∷ stack) h rest o a =
    count-release_all stack (Memory.release x h) rest
      (λ b. ground (arith, o b, o x, count-release h x b)) a

-- Cleaning up releases all that the pool owns and nothing else.
pub pool_clean_up_exact :
    (pool : Pool) (h : Heap) (rest : ℕ → ℕ) (a : ℕ)
    → Owns h pool rest
    → count a (pool_clean_up pool h).live ≡ rest a
unfolding pool_clean_up
pool_clean_up_exact pool h rest a owns =
    let left = plus pool.data_ptr rest in
    let emptied = count-release_all pool.stack h left λ b. ground (arith, owns b) in
    ground (
      arith,
      emptied a,
      emptied pool.data_ptr,
      count-release (release_all pool.stack h) pool.data_ptr a,
    )

-- What becomes of the memory while the stack of a new pool is filled.
abbrev Filled : (ℕ → ℕ) → ℕ → Heap × List ℕ × Bool → Type 0
Filled rest n (h, stack, done) =
    IsFresh h
    × ((a : ℕ) → count a h.live ≡ count a stack + rest a)
    × (if done then length stack ≡ n else Unit {0})

fill-Filled :
    (n m : ℕ) (stack : List ℕ) (h : Heap) (rest : ℕ → ℕ)
    → IsFresh h
    → ((a : ℕ) → count a h.live ≡ count a stack + rest a)
    → length stack ≡ m
    → Filled rest (n + m) (fill n stack h)
unfolding fill
fill-Filled zero m stack h rest f o l = (f, o, omega arith)
fill-Filled (suc n) m stack h rest f o l = elim (Option-cases (Memory.acquire h)) [
  | inl e ↦ rw (e, fill) (f, o, tt)
  | inr ((a, h'), e) ↦
      rw (e, fill)
        (subst (λ k. Filled rest k (fill n (a ∷ stack) h')) (omega arith)
          (fill-Filled n (suc m) (a ∷ stack) h' rest (acquire-IsFresh h h' a f e)
            (λ b. ground (arith, o b, count-acquire h h' a b e)) (omega arith)))
]

-- What a new pool makes of the memory: all its segments are on the stack, or nothing is left of it.
abbrev pub Made : (ℕ → ℕ) → ℕ → Heap × Option Pool → Type 0
Made rest n (h, none) = IsFresh h × ((a : ℕ) → count a h.live ≡ rest a)
Made rest n (h, some pool) = IsSound h pool rest × (length pool.stack ≡ n)

clean_up-IsFresh : (pool : Pool) (h : Heap) → IsFresh h → IsFresh (pool_clean_up pool h)
unfolding pool_clean_up
clean_up-IsFresh pool h f =
    release-IsFresh (release_all pool.stack h) pool.data_ptr (release_all-IsFresh pool.stack h f)

abbrev made_of : ℕ → ℕ → ℕ → List ℕ → Pool
made_of n size data_ptr stack = record {
  stack = stack;
  ideal_segment_count = n;
  segment_size = size;
  data_ptr = data_ptr;
}

abbrev finished : ℕ → ℕ → ℕ → Heap × List ℕ × Bool → Heap × Option Pool
finished n size data_ptr (h, stack, done) =
    if done
    then (h, some (made_of n size data_ptr stack))
    else (pool_clean_up (made_of n size data_ptr stack) h, none)

finished-Made :
    (n size data_ptr : ℕ) (rest : ℕ → ℕ) (r : Heap × List ℕ × Bool)
    → Filled (plus data_ptr rest) n r
    → Made rest n (finished n size data_ptr r)
finished-Made n size data_ptr rest (h, stack, true) f =
    (record { fresh = f.0; owns = λ a. ground (arith, f.1 a); bounded = omega (arith, f.2) }, f.2)
finished-Made n size data_ptr rest (h, stack, false) f = (
  clean_up-IsFresh (made_of n size data_ptr stack) h f.0,
  λ a. pool_clean_up_exact (made_of n size data_ptr stack) h rest a (λ b. ground (arith, f.1 b)),
)

-- A new pool has all its segments on the stack and owns them; if any allocation fails, everything
-- that was allocated for it has been released again.
pub pool_init-Made :
    (n size : ℕ) (h : Heap) → IsFresh h → Made (λ a. count a h.live) n (pool_init n size h)
unfolding pool_init
pool_init-Made n size h f = elim (Option-cases (Memory.acquire h)) [
  | inl e ↦ rw (e, pool_init) (f, λ a. refl)
  | inr ((data_ptr, h'), e) ↦
      rw (e, pool_init)
        (finished-Made n size data_ptr (λ a. count a h.live) (fill n [] h')
          (subst (λ k. Filled (plus data_ptr (λ a. count a h.live)) k (fill n [] h')) (omega arith)
            (fill-Filled n 0 [] h' (plus data_ptr (λ a. count a h.live))
              (acquire-IsFresh h h' data_ptr f e)
              (λ a. ground (arith, count-acquire h h' data_ptr a e)) refl)))
]
