-- ===== src/Channel/Slots/Leftwards.antt =====
-- The slots of source/channel.c from the last to the first, along adj_left.
use aws_c_io.Base.{ℕ, ◌+◌, ◌≡◌, ◌≢◌, true, false, List, [], ◌∷◌, ◌==◌, ◌||◌, refl, arith, length}
use aws_c_io.Channel.{Slot}
use aws_c_io.Channel.Slots.Order.{head?, member, Distinct, prev_from}
use aws_c_io.Channel.Slots.Walk.{SamePlace, last_of}

-- The pointers to the left lead along the list.
abbrev pub LeftTrail : (ℕ → Slot) → List ℕ → Type 0
LeftTrail s [] = Unit {0}
LeftTrail s (x ∷ xs) = ((s x).adj_left ≡ head? xs) × LeftTrail s xs

abbrev pub rev_onto : List ℕ → List ℕ → List ℕ
rev_onto [] acc = acc
rev_onto (x ∷ xs) acc = rev_onto xs (x ∷ acc)

pub member-rev_onto :
    (x : ℕ) (xs acc : List ℕ) → member x (rev_onto xs acc) ≡ (member x xs || member x acc)
member-rev_onto x [] acc = refl
member-rev_onto x (y ∷ ys) acc = ground (arith, member-rev_onto x ys (y ∷ acc))

pub length-rev_onto : (xs acc : List ℕ) → length (rev_onto xs acc) ≡ length xs + length acc
length-rev_onto [] acc = omega arith
length-rev_onto (y ∷ ys) acc = omega (arith, length-rev_onto ys (y ∷ acc))

pub rev_onto-Distinct :
    (xs acc : List ℕ)
    → Distinct xs
    → Distinct acc
    → ((x : ℕ) → member x xs ≡ true → member x acc ≡ false)
    → Distinct (rev_onto xs acc)
rev_onto-Distinct [] acc d e f = e
rev_onto-Distinct (y ∷ ys) acc d e f =
    rev_onto-Distinct ys (y ∷ acc) d.1 (ground (arith, f y), e) (λ x h. ground (arith, f x))

pub rev_onto-LeftTrail :
    (s : ℕ → Slot) (xs acc : List ℕ)
    → Distinct xs
    → ((x : ℕ) → member x xs ≡ true → (s x).adj_left ≡ prev_from (head? acc) x xs)
    → LeftTrail s acc
    → LeftTrail s (rev_onto xs acc)
rev_onto-LeftTrail s [] acc d h t = t
rev_onto-LeftTrail s (y ∷ ys) acc d h t =
    rev_onto-LeftTrail s ys (y ∷ acc) d.1 (λ x m. ground (arith, h x)) (ground (arith, h y), t)

-- A list and its last element, turned around.
pub rev_onto_last :
    (y : ℕ) (ys acc : List ℕ) → (zs : List ℕ) × (rev_onto (y ∷ ys) acc ≡ last_of y ys ∷ zs)
rev_onto_last y [] acc = (acc, refl)
rev_onto_last y (z ∷ zs) acc = rev_onto_last z zs (y ∷ acc)

pub head_apart : (i u : ℕ) (us : List ℕ) → member i (u ∷ us) ≡ false → i ≢ u
head_apart i u us m = ground arith

pub member_same :
    (x i : ℕ) (xs : List ℕ) → (x == i) ≡ true → member i xs ≡ false → member x xs ≡ false
member_same x i xs q m = ground arith

pub member_later :
    (x i : ℕ) (xs : List ℕ) → (x == i) ≡ false → member x (i ∷ xs) ≡ true → member x xs ≡ true
member_later x i xs q m = ground arith

-- Another pointer-preserving state has the same trail.
pub LeftTrail-frame :
    (s t : ℕ → Slot) (xs : List ℕ)
    → ((y : ℕ) → SamePlace (s y) (t y))
    → LeftTrail t xs
    → LeftTrail s xs
LeftTrail-frame s t [] h d = tt
LeftTrail-frame s t (y ∷ ys) h d = (ground (arith, h y), LeftTrail-frame s t ys h d.1)
