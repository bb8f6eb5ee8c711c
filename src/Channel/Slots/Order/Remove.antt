-- ===== src/Channel/Slots/Order/Remove.antt =====
-- What taking a slot out, or putting another in its place, does to the order of source/channel.c.
use aws_c_io.Base.{
  ℕ, ◌≡◌, true, false, Option, some, List, [], ◌∷◌, ◌==◌, if◌then◌else◌, refl, arith,
}
use aws_c_io.Channel.Slots.{opt_eq}
use aws_c_io.Channel.Slots.Order.{
  head?, member, Distinct, next_of, prev_from, erase, exchange, member-next_of, prev_from-end,
  prev_from_head,
}

module _ (i n : ℕ) where
  pub member-exchange :
      (x : ℕ) (xs : List ℕ)
      → member i xs ≡ true
      → Distinct xs
      → member x (exchange i n xs)
        ≡ (if x == n then true else if x == i then false else member x xs)
  member-exchange x [] m d = cc
  member-exchange x (y ∷ ys) m d = ground (arith, member-exchange x ys)

  pub exchange-Distinct :
      (xs : List ℕ)
      → member i xs ≡ true
      → member n xs ≡ false
      → Distinct xs
      → Distinct (exchange i n xs)
  exchange-Distinct [] m f d = tt
  exchange-Distinct (y ∷ ys) m f d = ground (arith, exchange-Distinct ys, member-exchange y ys)

  pub head-exchange :
      (xs : List ℕ) → head? (exchange i n xs) ≡ (if opt_eq (head? xs) i then some n else head? xs)
  head-exchange [] = refl
  head-exchange (y ∷ ys) = ground arith

  pub next_of-exchange :
      (x : ℕ) (xs : List ℕ)
      → member i xs ≡ true
      → member n xs ≡ false
      → Distinct xs
      → member x (exchange i n xs) ≡ true
      → next_of x (exchange i n xs) ≡ (
          if x == n then next_of i xs else if opt_eq (next_of x xs) i then some n else next_of x xs)
  next_of-exchange x [] m f d g = cc
  next_of-exchange x (y ∷ ys) m f d g =
      ground (arith, next_of-exchange x ys, head-exchange ys, member-next_of x i ys)

  pub prev_from-exchange :
      (p : Option ℕ) (x : ℕ) (xs : List ℕ)
      → member i xs ≡ true
      → member n xs ≡ false
      → Distinct xs
      → opt_eq p i ≡ false
      → member x (exchange i n xs) ≡ true
      → prev_from p x (exchange i n xs) ≡ (
          if x == n
          then prev_from p i xs
          else if opt_eq (prev_from p x xs) i
          then some n
          else prev_from p x xs)
  prev_from-exchange p x [] m f d g h = cc
  prev_from-exchange p x (y ∷ ys) m f d g h = ground (
    arith,
    prev_from-exchange (some y) x ys,
    prev_from-end (some n) (some y) x ys,
    prev_from_head x y ys,
    prev_from_head x i ys,
    member-exchange x ys,
  )

module _ (i : ℕ) where
  pub member-erase :
      (x : ℕ) (xs : List ℕ)
      → Distinct xs
      → member x (erase i xs) ≡ (if x == i then false else member x xs)
  member-erase x [] d = ground arith
  member-erase x (y ∷ ys) d = ground (arith, member-erase x ys)

  pub erase-Distinct : (xs : List ℕ) → Distinct xs → Distinct (erase i xs)
  erase-Distinct [] d = tt
  erase-Distinct (y ∷ ys) d = ground (arith, erase-Distinct ys, member-erase y ys)

  pub head-erase :
      (xs : List ℕ) → head? (erase i xs) ≡ (if opt_eq (head? xs) i then next_of i xs else head? xs)
  head-erase [] = refl
  head-erase (y ∷ ys) = ground arith

  pub next_of-erase :
      (x : ℕ) (xs : List ℕ)
      → member i xs ≡ true
      → Distinct xs
      → member x (erase i xs) ≡ true
      → next_of x (erase i xs) ≡ (if opt_eq (next_of x xs) i then next_of i xs else next_of x xs)
  next_of-erase x [] m d g = cc
  next_of-erase x (y ∷ ys) m d g =
      ground (arith, next_of-erase x ys, head-erase ys, member-next_of x i ys)

  pub prev_from-erase :
      (p : Option ℕ) (x : ℕ) (xs : List ℕ)
      → member i xs ≡ true
      → Distinct xs
      → member x (erase i xs) ≡ true
      → prev_from p x (erase i xs)
        ≡ (if opt_eq (next_of i xs) x then prev_from p i xs else prev_from p x xs)
  prev_from-erase p x [] m d g = cc
  prev_from-erase p x (y ∷ ys) m d g = ground (
    arith,
    prev_from-erase (some y) x ys,
    prev_from-end p (some y) x ys,
    member-next_of i x ys,
    member-erase x ys,
  )
