-- ===== src/Channel/Slots/Order/Insert.antt =====
-- What the insertion of a slot does to the order that source/channel.c keeps: neighbours and members.
use aws_c_io.Base.{
  ℕ, ◌≡◌, true, false, Option, none, some, List, [], ◌∷◌, ◌||◌, ◌==◌, if◌then◌else◌, refl, arith,
}
use aws_c_io.Channel.Slots.{opt_eq}
use aws_c_io.Channel.Slots.Order.{
  head?, member, Distinct, next_of, prev_from, insert_after, insert_before, head-insert_after,
  member-next_of, prev_from-end, prev_from_head,
}

module _ (i n : ℕ) where
  pub next_of-insert_after :
      (x : ℕ) (xs : List ℕ)
      → member i xs ≡ true
      → member n xs ≡ false
      → Distinct xs
      → next_of x (insert_after i n xs)
        ≡ (if x == i then some n else if x == n then next_of i xs else next_of x xs)
  next_of-insert_after x [] m f d = cc
  next_of-insert_after x (y ∷ ys) m f d =
      ground (arith, next_of-insert_after x ys, head-insert_after i n ys)

  pub prev_from-insert_after :
      (p : Option ℕ) (x : ℕ) (xs : List ℕ)
      → member i xs ≡ true
      → member n xs ≡ false
      → Distinct xs
      → prev_from p x (insert_after i n xs)
        ≡ (if x == n then some i else if opt_eq (next_of i xs) x then some n else prev_from p x xs)
  prev_from-insert_after p x [] m f d = cc
  prev_from-insert_after p x (y ∷ ys) m f d = ground (
    arith,
    prev_from-insert_after (some y) x ys,
    prev_from-end (some n) (some i) x ys,
    member-next_of i x ys,
  )

  pub member-insert_after :
      (x : ℕ) (xs : List ℕ)
      → member i xs ≡ true
      → member x (insert_after i n xs) ≡ (x == n || member x xs)
  member-insert_after x [] m = cc
  member-insert_after x (y ∷ ys) m = ground (arith, member-insert_after x ys)

  pub insert_after-Distinct :
      (xs : List ℕ)
      → member i xs ≡ true
      → member n xs ≡ false
      → Distinct xs
      → Distinct (insert_after i n xs)
  insert_after-Distinct [] m f d = tt
  insert_after-Distinct (y ∷ ys) m f d =
      ground (arith, insert_after-Distinct ys, member-insert_after y ys)

  pub head-insert_before :
      (xs : List ℕ)
      → member i xs ≡ true
      → head? (insert_before i n xs) ≡ (if opt_eq (head? xs) i then some n else head? xs)
  head-insert_before [] m = cc
  head-insert_before (y ∷ ys) m = ground arith

  next_of-insert_before_from :
      (p : Option ℕ) (x : ℕ) (xs : List ℕ)
      → member i xs ≡ true
      → member n xs ≡ false
      → Distinct xs
      → opt_eq p x ≡ false
      → next_of x (insert_before i n xs)
        ≡ (if x == n then some i else if opt_eq (prev_from p i xs) x then some n else next_of x xs)
  next_of-insert_before_from p x [] m f d g = cc
  next_of-insert_before_from p x (y ∷ ys) m f d g = ground (
    arith,
    next_of-insert_before_from (some y) x ys,
    prev_from_head i y ys,
    head-insert_before ys,
  )

  pub next_of-insert_before :
      (x : ℕ) (xs : List ℕ)
      → member i xs ≡ true
      → member n xs ≡ false
      → Distinct xs
      → next_of x (insert_before i n xs) ≡ (
          if x == n
          then some i
          else if opt_eq (prev_from none i xs) x
          then some n
          else next_of x xs)
  next_of-insert_before x xs m f d = next_of-insert_before_from none x xs m f d refl

  pub prev_from-insert_before :
      (p : Option ℕ) (x : ℕ) (xs : List ℕ)
      → member i xs ≡ true
      → member n xs ≡ false
      → Distinct xs
      → prev_from p x (insert_before i n xs)
        ≡ (if x == i then some n else if x == n then prev_from p i xs else prev_from p x xs)
  prev_from-insert_before p x [] m f d = cc
  prev_from-insert_before p x (y ∷ ys) m f d =
      ground (arith, prev_from-insert_before (some y) x ys, prev_from-end (some i) (some y) x ys)

  pub member-insert_before :
      (x : ℕ) (xs : List ℕ)
      → member i xs ≡ true
      → member x (insert_before i n xs) ≡ (x == n || member x xs)
  member-insert_before x [] m = cc
  member-insert_before x (y ∷ ys) m = ground (arith, member-insert_before x ys)

  pub insert_before-Distinct :
      (xs : List ℕ)
      → member i xs ≡ true
      → member n xs ≡ false
      → Distinct xs
      → Distinct (insert_before i n xs)
  insert_before-Distinct [] m f d = tt
  insert_before-Distinct (y ∷ ys) m f d =
      ground (arith, insert_before-Distinct ys, member-insert_before y ys)
