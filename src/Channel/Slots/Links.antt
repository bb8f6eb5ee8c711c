-- ===== src/Channel/Slots/Links.antt =====
-- The pointers of source/channel.c stand for a list of slots, and each operation for an edit of it.
use aws_c_io.Base.{ℕ, ◌≡◌, true, false, none, List, [], ◌∷◌, refl, arith}
use aws_c_io.Channel.{Channel}
use aws_c_io.Channel.Slots.{insert_right, insert_left, unlink, relink, slot_new}
use aws_c_io.Channel.Slots.Order.{
  head?, member, Distinct, next_of, prev_from, insert_after, insert_before, erase, exchange,
  head-insert_after, prev_from-next_of, member-left_of, member-next_of, next_of_irreflexive,
}
use aws_c_io.Channel.Slots.Order.Insert.{
  next_of-insert_after, prev_from-insert_after, member-insert_after, insert_after-Distinct,
  head-insert_before, next_of-insert_before, prev_from-insert_before, member-insert_before,
  insert_before-Distinct,
}
use aws_c_io.Channel.Slots.Order.Remove.{
  member-exchange, exchange-Distinct, head-exchange, next_of-exchange, prev_from-exchange,
  member-erase, erase-Distinct, head-erase, next_of-erase, prev_from-erase,
}

-- The slots of the channel, from left to right, are `xs`.
pub record Linked (c : Channel) (xs : List ℕ) : Type 0 where
  pub front : c.first ≡ head? xs
  pub distinct : Distinct xs
  pub left : (x : ℕ) → member x xs ≡ true → (c.slots x).adj_left ≡ prev_from none x xs
  pub right : (x : ℕ) → member x xs ≡ true → (c.slots x).adj_right ≡ next_of x xs

module _ (c : Channel) (xs : List ℕ) (slot to_add : ℕ) (l : Linked c xs) where
  -- insert_right puts the new slot behind the given one, and leaves the order of the others.
  pub insert_right-Linked :
      member slot xs ≡ true
      → member to_add xs ≡ false
      → Linked (insert_right slot to_add c) (insert_after slot to_add xs)
  unfolding insert_right
  insert_right-Linked m f = record {
    front = ground (arith, l.front, head-insert_after slot to_add xs);
    distinct = insert_after-Distinct slot to_add xs m f l.distinct;
    left = λ x h. ground (
      arith,
      l.left x,
      l.right slot m,
      member-insert_after slot to_add x xs m,
      prev_from-insert_after slot to_add none x xs m f l.distinct,
    );
    right = λ x h. ground (
      arith,
      l.right x,
      l.right slot m,
      member-insert_after slot to_add x xs m,
      next_of-insert_after slot to_add x xs m f l.distinct,
    );
  }

  -- insert_left puts the new slot before the given one.
  pub insert_left-Linked :
      member slot xs ≡ true
      → member to_add xs ≡ false
      → Linked (insert_left slot to_add c) (insert_before slot to_add xs)
  unfolding insert_left
  insert_left-Linked m f = record {
    front = ground (arith, l.front, l.left slot m, head-insert_before slot to_add xs m);
    distinct = insert_before-Distinct slot to_add xs m f l.distinct;
    left = λ x h. ground (
      arith,
      l.left x,
      l.left slot m,
      member-insert_before slot to_add x xs m,
      prev_from-insert_before slot to_add none x xs m f l.distinct,
    );
    right = λ x h. ground (
      arith,
      l.right x,
      l.left slot m,
      member-insert_before slot to_add x xs m,
      next_of-insert_before slot to_add x xs m f l.distinct,
    );
  }

  -- The writes of replace put the new slot in the place of the old one.
  pub relink-Linked :
      member slot xs ≡ true
      → member to_add xs ≡ false
      → Linked (relink slot to_add c) (exchange slot to_add xs)
  unfolding relink
  relink-Linked m f = record {
    front = ground (arith, l.front, l.left slot m, l.right slot m, head-exchange slot to_add xs);
    distinct = exchange-Distinct slot to_add xs m f l.distinct;
    left = λ x h. ground (
      arith,
      l.left x,
      l.left slot m,
      l.right slot m,
      member-exchange slot to_add x xs m l.distinct,
      prev_from-exchange slot to_add none x xs m f l.distinct refl h,
      member-left_of slot to_add xs,
      member-next_of slot to_add xs,
      next_of_irreflexive slot xs,
      prev_from-next_of none slot slot xs,
      prev_from-next_of none x slot xs,
    );
    right = λ x h. ground (
      arith,
      l.right x,
      l.left slot m,
      l.right slot m,
      member-exchange slot to_add x xs m l.distinct,
      next_of-exchange slot to_add x xs m f l.distinct h,
      member-left_of slot to_add xs,
      member-next_of slot to_add xs,
      next_of_irreflexive slot xs,
      prev_from-next_of none slot slot xs,
      prev_from-next_of none slot x xs,
    );
  }

module _ (c : Channel) (xs : List ℕ) (slot : ℕ) (l : Linked c xs) where
  -- The writes of remove take the slot out of the order.
  pub unlink-Linked : member slot xs ≡ true → Linked (unlink slot c) (erase slot xs)
  unfolding unlink
  unlink-Linked m = record {
    front = ground (arith, l.front, l.left slot m, l.right slot m, head-erase slot xs);
    distinct = erase-Distinct slot xs l.distinct;
    left = λ x h. ground (
      arith,
      l.left x,
      l.left slot m,
      l.right slot m,
      member-erase slot x xs l.distinct,
      prev_from-erase slot none x xs m l.distinct h,
    );
    right = λ x h. ground (
      arith,
      l.right x,
      l.left slot m,
      l.right slot m,
      member-erase slot x xs l.distinct,
      next_of-erase slot x xs m l.distinct h,
      prev_from-next_of none slot x xs,
    );
  }

-- The first slot made is in the order, later ones wait to be inserted.
abbrev pub or_alone : ℕ → List ℕ → List ℕ
or_alone n [] = n ∷ []
or_alone n (x ∷ xs) = x ∷ xs

-- A slot at a fresh address becomes the first of an empty channel, and leaves any other order.
pub slot_new-Linked :
    (c : Channel) (xs : List ℕ)
    → Linked c xs
    → member c.next_slot xs ≡ false
    → Linked ((slot_new c).0) (or_alone c.next_slot xs)
unfolding slot_new
slot_new-Linked c [] l f = record {
  front = ground (arith, l.front);
  distinct = (refl, tt);
  left = λ x h. ground arith;
  right = λ x h. ground arith;
}
slot_new-Linked c (y ∷ ys) l f = record {
  front = ground (arith, l.front);
  distinct = l.distinct;
  left = λ x h. ground (arith, l.left x h);
  right = λ x h. ground (arith, l.right x h);
}
