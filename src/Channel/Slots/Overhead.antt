-- ===== src/Channel/Slots/Overhead.antt =====
-- What s_update_channel_slot_message_overheads, aws_channel_slot_remove and aws_channel_slot_replace of
-- source/channel.c leave in a channel.
use aws_c_io.Base.{
  ℕ, zero, suc, ◌≤◌, ◌≡◌, true, false, Option, none, some, List, [], ◌∷◌, refl, arith, length, u64,
}
use aws_c_io.Channel.{Channel}
use aws_c_io.Channel.Slots.{
  unlink, relink, update_overheads_from, update_overheads, remove, replace, cleanup_slot,
  add_overhead, set_overhead,
}
use aws_c_io.Channel.Slots.Order.{member, erase, exchange}
use aws_c_io.Channel.Slots.Links.{Linked, unlink-Linked, relink-Linked}
use aws_c_io.Channel.Slots.Walk.{
  right-Trail, left_sum, left_sum-frame, update_overheads_from_frame,
  update_overheads_from-left_sum,
}

length-erase : (i : ℕ) (xs : List ℕ) → length (erase i xs) ≤ length xs
length-erase i [] = omega arith
length-erase i (y ∷ ys) = ground (arith, length-erase i ys)

length-exchange : (i n : ℕ) (xs : List ℕ) → length (exchange i n xs) ≡ length xs
length-exchange i n [] = refl
length-exchange i n (y ∷ ys) = ground (arith, length-exchange i n ys)

module _ (message_overhead : ℕ → ℕ) where
  update_overheads_from_first :
      (fuel : ℕ) (p : Option ℕ) (overhead : ℕ) (c : Channel)
      → (update_overheads_from message_overhead fuel p overhead c).first ≡ c.first
  unfolding update_overheads_from
  update_overheads_from_first zero p overhead c = refl
  update_overheads_from_first (suc fuel) none overhead c = refl
  update_overheads_from_first (suc fuel) (some i) overhead c =
      update_overheads_from_first fuel (c.slots i).adj_right
        (add_overhead message_overhead (c.slots i).handler overhead) (set_overhead i overhead c)

  -- The update leaves the order of the slots.
  pub update_overheads-Linked :
      (fuel : ℕ) (c : Channel) (xs : List ℕ)
      → Linked c xs
      → Linked (update_overheads message_overhead fuel c) xs
  unfolding update_overheads
  update_overheads-Linked fuel c xs l = record {
    front = ground (arith, l.front, update_overheads_from_first fuel c.first 0 c);
    distinct = l.distinct;
    left = λ x h.
        ground (arith, l.left x h, update_overheads_from_frame message_overhead fuel c.first 0 c x);
    right = λ x h.
        ground
          (arith, l.right x h, update_overheads_from_frame message_overhead fuel c.first 0 c x);
  }

  -- After the update, with fuel for every slot, each slot of the channel knows the overhead of all
  -- handlers to its left.
  pub update_overheads-left_sum :
      (fuel : ℕ) (c : Channel) (xs : List ℕ) (x : ℕ)
      → Linked c xs
      → length xs ≤ fuel
      → member x xs ≡ true
      → ((update_overheads message_overhead fuel c).slots x).upstream_message_overhead
        ≡ u64 (left_sum message_overhead (update_overheads message_overhead fuel c).slots x xs)
  unfolding update_overheads
  update_overheads-left_sum fuel c xs x l h m = ground (
    arith,
    l.front,
    update_overheads_from-left_sum message_overhead fuel xs 0 c x
        (right-Trail c.slots xs l.right l.distinct) l.distinct h,
    left_sum-frame message_overhead (update_overheads_from message_overhead fuel c.first 0 c).slots
        c.slots x xs (update_overheads_from_frame message_overhead fuel c.first 0 c),
  )

  cleanup_slot-Linked :
      (slot : ℕ) (c : Channel) (xs : List ℕ) → Linked c xs → Linked (cleanup_slot slot c) xs
  unfolding cleanup_slot
  cleanup_slot-Linked slot c xs l = record {
    front = l.front;
    distinct = l.distinct;
    left = l.left;
    right = l.right;
  }

  module _ (fuel : ℕ) (c : Channel) (xs : List ℕ) (slot : ℕ) (l : Linked c xs) where
    -- remove takes a slot out of the order.
    pub remove-Linked :
        member slot xs ≡ true → Linked (remove message_overhead fuel slot c) (erase slot xs)
    unfolding remove
    remove-Linked m =
        cleanup_slot-Linked slot (update_overheads message_overhead fuel (unlink slot c))
          (erase slot xs)
          (update_overheads-Linked fuel (unlink slot c) (erase slot xs)
            (unlink-Linked c xs slot l m))

    -- After remove each slot that is left knows the overhead of the handlers to its left.
    pub remove-left_sum :
        (x : ℕ)
        → member slot xs ≡ true
        → length xs ≤ fuel
        → member x (erase slot xs) ≡ true
        → ((remove message_overhead fuel slot c).slots x).upstream_message_overhead
          ≡ u64 (
              left_sum message_overhead
                (remove message_overhead fuel slot c).slots
                x
                (erase slot xs))
    unfolding remove cleanup_slot
    remove-left_sum x m h n =
        update_overheads-left_sum fuel (unlink slot c) (erase slot xs) x
          (unlink-Linked c xs slot l m) (omega (arith, h, length-erase slot xs)) n

    -- replace puts a new slot in the place of an old one.
    pub replace-Linked :
        (new_slot : ℕ)
        → member slot xs ≡ true
        → member new_slot xs ≡ false
        → Linked (replace message_overhead fuel slot new_slot c) (exchange slot new_slot xs)
    unfolding replace
    replace-Linked new_slot m f =
        cleanup_slot-Linked slot (update_overheads message_overhead fuel (relink slot new_slot c))
          (exchange slot new_slot xs)
          (update_overheads-Linked fuel (relink slot new_slot c) (exchange slot new_slot xs)
            (relink-Linked c xs slot new_slot l m f))

    -- After replace each slot knows the overhead of the handlers to its left.
    pub replace-left_sum :
        (new_slot x : ℕ)
        → member slot xs ≡ true
        → member new_slot xs ≡ false
        → length xs ≤ fuel
        → member x (exchange slot new_slot xs) ≡ true
        → ((replace message_overhead fuel slot new_slot c).slots x).upstream_message_overhead
          ≡ u64 (
              left_sum message_overhead
                (replace message_overhead fuel slot new_slot c).slots
                x
                (exchange slot new_slot xs))
    unfolding replace cleanup_slot
    replace-left_sum new_slot x m f h n =
        update_overheads-left_sum fuel (relink slot new_slot c) (exchange slot new_slot xs) x
          (relink-Linked c xs slot new_slot l m f)
          (omega (arith, h, length-exchange slot new_slot xs)) n
