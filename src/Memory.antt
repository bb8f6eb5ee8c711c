-- ===== src/Memory.antt =====
-- Memory as the code sees it through an aws_allocator: blocks by address, which an allocation makes
-- and a release ends. An allocation may fail, once `quota` of them have succeeded.
use aws_c_io.Base.{
  ℕ, suc, ◌+◌, ◌-◌, ◌≤◌, ◌<◌, ◌≡◌, Option, none, some, List, [], ◌∷◌, ◌==◌, if◌then◌else◌, arith,
}

pub record Heap : Type 0 where
  pub next : ℕ
  pub live : List ℕ
  pub quota : ℕ

abbrev pub count : ℕ → List ℕ → ℕ
count a [] = 0
count a (x ∷ xs) = if a == x then suc (count a xs) else count a xs

pub erase : ℕ → List ℕ → List ℕ
erase a [] = []
erase a (x ∷ xs) = if a == x then xs else x ∷ erase a xs

-- aws_mem_acquire
unfoldable pub acquire : Heap → Option (ℕ × Heap)
acquire h =
    if h.quota == 0
    then none
    else some (h.next, record { next = h.next + 1; live = h.next ∷ h.live; quota = h.quota - 1 })

-- aws_mem_release
unfoldable pub release : ℕ → Heap → Heap
release a h = record h { live = erase a h.live }

-- Addresses are not given twice, and no block is live twice.
pub record IsFresh (h : Heap) : Type 0 where
  pub beyond : (a : ℕ) → h.next ≤ a → count a h.live ≡ 0
  pub once : (a : ℕ) → count a h.live ≤ 1

pub count-erase :
    (a x : ℕ) (xs : List ℕ) → count a (erase x xs) ≡ (if a == x then count a xs - 1 else count a xs)
unfolding erase
count-erase a x [] = ground arith
count-erase a x (y ∷ ys) = ground (arith, count-erase a x ys)

pub acquire-IsFresh : (h h' : Heap) (a : ℕ) → IsFresh h → acquire h ≡ some (a, h') → IsFresh h'
unfolding acquire
acquire-IsFresh h h' a f e = record {
  beyond = λ b k. ground (arith, f.beyond b);
  once = λ b. ground (arith, f.beyond b, f.once b);
}

pub release-IsFresh : (h : Heap) (a : ℕ) → IsFresh h → IsFresh (release a h)
unfolding release
release-IsFresh h a f = record {
  beyond = λ b k. ground (arith, f.beyond b k, count-erase b a h.live);
  once = λ b. ground (arith, f.once b, count-erase b a h.live);
}

-- How an allocation and a release change the number of times that a block is live.
pub count-acquire :
    (h h' : Heap) (a b : ℕ) → acquire h ≡ some (a, h') → count b h'.live ≡ count b (a ∷ h.live)
unfolding acquire
count-acquire h h' a b e = ground arith

pub count-release :
    (h : Heap) (a b : ℕ) → 0 < count a h.live → count b (a ∷ (release a h).live) ≡ count b h.live
unfolding release
count-release h a b k = ground (arith, count-erase b a h.live)
