-- ===== src/Channel/Slots/Walk.antt =====
-- The loops of source/channel.c along adj_right: the walk to the last slot, and the message overheads.
use aws_c_io.Base.{
  sym, ℕ, zero, suc, ◌+◌, ◌≤◌, ◌<◌, ◌≡◌, true, false, Option, none, some, List, [], ◌∷◌, ◌++◌, ◌==◌,
  if◌then◌else◌, refl, arith, length, u64, u64_mod, success,
}
use aws_c_io.Channel.{Channel, Slot}
use aws_c_io.Channel.Slots.{
  insert_right, insert_end, last_from, update_overheads_from, add_overhead, set_overhead,
}
use aws_c_io.Channel.Slots.Order.{head?, member, Distinct, next_of, insert_after}
use aws_c_io.Channel.Slots.Links.{Linked, insert_right-Linked}

-- The pointers to the right lead along the list.
abbrev pub Trail : (ℕ → Slot) → List ℕ → Type 0
Trail s [] = Unit {0}
Trail s (x ∷ xs) = ((s x).adj_right ≡ head? xs) × Trail s xs

abbrev pub last_of : ℕ → List ℕ → ℕ
last_of i [] = i
last_of i (y ∷ ys) = last_of y ys

pub right-Trail :
    (s : ℕ → Slot) (xs : List ℕ)
    → ((x : ℕ) → member x xs ≡ true → (s x).adj_right ≡ next_of x xs)
    → Distinct xs
    → Trail s xs
right-Trail s [] h d = tt
right-Trail s (y ∷ ys) h d =
    (ground (arith, h y), right-Trail s ys (λ x m. ground (arith, h x)) d.1)

member-last_of : (y : ℕ) (ys : List ℕ) → member (last_of y ys) (y ∷ ys) ≡ true
member-last_of y [] = ground arith
member-last_of y (z ∷ zs) = ground (arith, member-last_of z zs)

insert_after-last_of :
    (n y : ℕ) (ys : List ℕ)
    → Distinct (y ∷ ys)
    → insert_after (last_of y ys) n (y ∷ ys) ≡ (y ∷ ys) ++ (n ∷ [])
insert_after-last_of n y [] d = ground arith
insert_after-last_of n y (z ∷ zs) d =
    ground (arith, insert_after-last_of n z zs, member-last_of z zs)

pub last_from-last_of :
    (c : Channel) (fuel y : ℕ) (ys : List ℕ)
    → Trail c.slots (y ∷ ys)
    → length ys ≤ fuel
    → last_from fuel y c ≡ last_of y ys
unfolding last_from
last_from-last_of c zero y [] t h = refl
last_from-last_of c zero y (z ∷ zs) t h = ground arith
last_from-last_of c (suc fuel) y [] t h = ground arith
last_from-last_of c (suc fuel) y (z ∷ zs) t h = ground (arith, last_from-last_of c fuel z zs)

insert_end-result :
    (c : Channel) (fuel first to_add : ℕ) (rest : List ℕ)
    → Linked c (first ∷ rest)
    → member to_add (first ∷ rest) ≡ false
    → length rest ≤ fuel
    → insert_end fuel to_add c ≡ (insert_right (last_of first rest) to_add c, success)
unfolding insert_end
insert_end-result c fuel first to_add rest l f h = ground (
  arith,
  l.front,
  last_from-last_of c fuel first rest (right-Trail c.slots (first ∷ rest) l.right l.distinct) h,
)

-- insert_end, with fuel for every slot, puts a new slot behind all others.
pub insert_end-Linked :
    (c : Channel) (fuel first to_add : ℕ) (rest : List ℕ)
    → Linked c (first ∷ rest)
    → member to_add (first ∷ rest) ≡ false
    → length rest ≤ fuel
    → ((insert_end fuel to_add c).1 ≡ success)
      × Linked ((insert_end fuel to_add c).0) ((first ∷ rest) ++ (to_add ∷ []))
insert_end-Linked c fuel first to_add rest l f h =
    rw
      (
        insert_end-result c fuel first to_add rest l f h,
        sym (insert_after-last_of to_add first rest l.distinct),
      )
      (
        refl,
        insert_right-Linked c (first ∷ rest) (last_of first rest) to_add l
            (member-last_of first rest) f,
      )

abbrev pub SamePlace : Slot → Slot → Type 0
SamePlace s t = (s.adj_left ≡ t.adj_left) × (s.adj_right ≡ t.adj_right) × (s.handler ≡ t.handler)

-- The handlers' overheads left of a slot, as a sum without bound.
module _ (message_overhead : ℕ → ℕ) where
  abbrev pub cost : Slot → ℕ
  cost s = elim s.handler [ none ↦ 0 | some h ↦ message_overhead h ]

  abbrev pub left_sum : (ℕ → Slot) → ℕ → List ℕ → ℕ
  left_sum s x [] = 0
  left_sum s x (y ∷ ys) = if x == y then 0 else cost (s y) + left_sum s x ys

  -- The loop changes no pointer and no handler.
  pub update_overheads_from_frame :
      (fuel : ℕ) (p : Option ℕ) (overhead : ℕ) (c : Channel) (x : ℕ)
      → SamePlace ((update_overheads_from message_overhead fuel p overhead c).slots x) (c.slots x)
  unfolding update_overheads_from
  update_overheads_from_frame zero p overhead c x = (refl, refl, refl)
  update_overheads_from_frame (suc fuel) none overhead c x = (refl, refl, refl)
  update_overheads_from_frame (suc fuel) (some i) overhead c x = ground (
    arith,
    update_overheads_from_frame fuel (c.slots i).adj_right
        (add_overhead message_overhead (c.slots i).handler overhead) (set_overhead i overhead c) x,
  )

  set_overhead-frame :
      (i overhead : ℕ) (c : Channel) (x : ℕ)
      → SamePlace ((set_overhead i overhead c).slots x) (c.slots x)
  set_overhead-frame i overhead c x = ground arith

  pub left_sum-frame :
      (s t : ℕ → Slot) (x : ℕ) (xs : List ℕ)
      → ((y : ℕ) → SamePlace (s y) (t y))
      → left_sum s x xs ≡ left_sum t x xs
  left_sum-frame s t x [] h = refl
  left_sum-frame s t x (y ∷ ys) h = ground (arith, left_sum-frame s t x ys h, h y)

  Trail-frame :
      (s t : ℕ → Slot) (xs : List ℕ) → ((y : ℕ) → SamePlace (s y) (t y)) → Trail t xs → Trail s xs
  Trail-frame s t [] h d = tt
  Trail-frame s t (y ∷ ys) h d = (ground (arith, h y), Trail-frame s t ys h d.1)

  pub update_overheads_from-left_sum :
      (fuel : ℕ) (xs : List ℕ) (overhead : ℕ) (c : Channel) (x : ℕ)
      → Trail c.slots xs
      → Distinct xs
      → length xs ≤ fuel
      → overhead < u64_mod
      → ((update_overheads_from message_overhead fuel (head? xs) overhead c).slots
          x).upstream_message_overhead
        ≡ (if member x xs
            then u64 (overhead + left_sum c.slots x xs)
            else (c.slots x).upstream_message_overhead)
  unfolding update_overheads_from
  update_overheads_from-left_sum zero [] overhead c x t d h g = refl
  update_overheads_from-left_sum (suc fuel) [] overhead c x t d h g = refl
  update_overheads_from-left_sum zero (y ∷ ys) overhead c x t d h g = ground arith
  update_overheads_from-left_sum (suc fuel) (y ∷ ys) overhead c x t d h g = ground (
    arith,
    update_overheads_from-left_sum fuel ys
        (add_overhead message_overhead (c.slots y).handler overhead) (set_overhead y overhead c) x
        (Trail-frame (set_overhead y overhead c).slots c.slots ys (set_overhead-frame y overhead c)
          t.1)
        d.1,
    left_sum-frame (set_overhead y overhead c).slots c.slots x ys (set_overhead-frame y overhead c),
  )
