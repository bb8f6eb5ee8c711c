-- ===== src/Channel/Slots/Order.antt =====
-- The order of slots as a list, which source/channel.c keeps in pointers: neighbours, and the edits
-- that the operations stand for.
pub mod Insert
pub mod Remove
use aws_c_io.Base.{
  ℕ, ◌≡◌, ◌≢◌, ◌⊎◌, Bool, true, false, Option, none, some, List, [], ◌∷◌, ◌||◌, ◌==◌, if◌then◌else◌,
  refl, arith,
}
use aws_c_io.Channel.Slots.{opt_eq}

abbrev pub head? : List ℕ → Option ℕ
head? [] = none
head? (x ∷ xs) = some x

abbrev pub member : ℕ → List ℕ → Bool
member x [] = false
member x (y ∷ ys) = if x == y then true else member x ys

abbrev pub Distinct : List ℕ → Type 0
Distinct [] = Unit {0}
Distinct (x ∷ xs) = (member x xs ≡ false) × Distinct xs

-- The neighbour to the right, and to the left where `p` stands left of the list.
abbrev pub next_of : ℕ → List ℕ → Option ℕ
next_of x [] = none
next_of x (y ∷ ys) = if x == y then head? ys else next_of x ys

abbrev pub prev_from : Option ℕ → ℕ → List ℕ → Option ℕ
prev_from p x [] = none
prev_from p x (y ∷ ys) = if x == y then p else prev_from (some y) x ys

abbrev pub insert_after : ℕ → ℕ → List ℕ → List ℕ
insert_after i n [] = []
insert_after i n (y ∷ ys) = if y == i then y ∷ n ∷ ys else y ∷ insert_after i n ys

abbrev pub insert_before : ℕ → ℕ → List ℕ → List ℕ
insert_before i n [] = []
insert_before i n (y ∷ ys) = if y == i then n ∷ y ∷ ys else y ∷ insert_before i n ys

abbrev pub erase : ℕ → List ℕ → List ℕ
erase i [] = []
erase i (y ∷ ys) = if y == i then ys else y ∷ erase i ys

abbrev pub exchange : ℕ → ℕ → List ℕ → List ℕ
exchange i n [] = []
exchange i n (y ∷ ys) = if y == i then n ∷ ys else y ∷ exchange i n ys

pub head-insert_after : (i n : ℕ) (xs : List ℕ) → head? (insert_after i n xs) ≡ head? xs
head-insert_after i n [] = refl
head-insert_after i n (y ∷ ys) = ground arith

pub member-next_of : (i x : ℕ) (xs : List ℕ) → next_of i xs ≡ some x → member x xs ≡ true
member-next_of i x [] e = cc
member-next_of i x (y ∷ []) e = ground (arith, member-next_of i x [])
member-next_of i x (y ∷ z ∷ zs) e = ground (arith, member-next_of i x (z ∷ zs))

-- A list seen behind another left end.
pub prev_from-end :
    (p q : Option ℕ) (x : ℕ) (xs : List ℕ) → head? xs ≢ some x → prev_from p x xs ≡ prev_from q x xs
prev_from-end p q x [] h = refl
prev_from-end p q x (y ∷ ys) h = ground arith

pub member-prev_from :
    (i z y : ℕ) (xs : List ℕ) → prev_from (some z) i xs ≡ some y → (z ≡ y) ⊎ (member y xs ≡ true)
member-prev_from i z y [] e = cc
member-prev_from i z y (w ∷ ws) e = ground (arith, member-prev_from i w y ws)

-- The left end shows as a neighbour only of the head.
pub prev_from_head :
    (i y : ℕ) (xs : List ℕ)
    → member y xs ≡ false
    → member i xs ≡ true
    → opt_eq (prev_from (some y) i xs) y ≡ opt_eq (head? xs) i
prev_from_head i y [] f m = cc
prev_from_head i y (z ∷ zs) f m = ground (arith, member-prev_from i z y zs)

-- The two directions of the list agree.
pub prev_from-next_of :
    (p : Option ℕ) (i x : ℕ) (xs : List ℕ)
    → member i xs ≡ true
    → member x xs ≡ true
    → Distinct xs
    → opt_eq p x ≡ false
    → opt_eq (prev_from p i xs) x ≡ opt_eq (next_of x xs) i
prev_from-next_of p i x [] m h d g = cc
prev_from-next_of p i x (y ∷ ys) m h d g = ground (
  arith,
  prev_from-next_of (some y) i x ys,
  prev_from_head i y ys,
  prev_from_head i x ys,
  member-prev_from i y x ys,
  member-next_of x i ys,
)

pub member-left_of : (i y : ℕ) (xs : List ℕ) → prev_from none i xs ≡ some y → member y xs ≡ true
member-left_of i y [] e = cc
member-left_of i y (z ∷ zs) e = ground (arith, member-prev_from i z y zs)

pub next_of_irreflexive : (i : ℕ) (xs : List ℕ) → Distinct xs → opt_eq (next_of i xs) i ≡ false
next_of_irreflexive i [] d = refl
next_of_irreflexive i (y ∷ []) d = ground (arith)
next_of_irreflexive i (y ∷ z ∷ zs) d = ground (arith, next_of_irreflexive i (z ∷ zs))
