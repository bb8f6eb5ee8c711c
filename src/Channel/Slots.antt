-- ===== src/Channel/Slots.antt =====
-- The slots of source/channel.c as a doubly linked list: each operation with the writes of the source
-- in their order. Loops along the list take the number of slots as fuel.
pub mod Order
pub mod Links
pub mod Walk
pub mod Leftwards
pub mod Overhead
mod Tests
use aws_c_io.Base.{
  ℕ, zero, suc, ◌+◌, Bool, true, false, Option, none, some, List, [], ◌∷◌, ◌==◌, if◌then◌else◌, u64,
  OpResult, success, failure, invalid_state,
}
use aws_c_io.Channel.{Channel, Slot, write}

abbrev pub opt_eq : Option ℕ → ℕ → Bool
opt_eq none i = false
opt_eq (some j) i = j == i

pub set_adj_left : ℕ → Option ℕ → Channel → Channel
set_adj_left i v c = record c { slots = write c.slots i (record s { adj_left = v }) }
  where
    s : Slot
    s = c.slots i

pub set_adj_right : ℕ → Option ℕ → Channel → Channel
set_adj_right i v c = record c { slots = write c.slots i (record s { adj_right = v }) }
  where
    s : Slot
    s = c.slots i

-- `if (p) p->adj_left = v`
pub set_adj_left? : Option ℕ → Option ℕ → Channel → Channel
unfolding set_adj_left
set_adj_left? none v c = c
set_adj_left? (some i) v c = set_adj_left i v c

pub set_adj_right? : Option ℕ → Option ℕ → Channel → Channel
unfolding set_adj_right
set_adj_right? none v c = c
set_adj_right? (some i) v c = set_adj_right i v c

-- aws_channel_slot_new
pub slot_new : Channel → Channel × ℕ
slot_new c = (
  record c {
    slots = write c.slots c.next_slot blank;
    next_slot = c.next_slot + 1;
    first = elim c.first [ none ↦ some c.next_slot | some i ↦ some i ];
  },
  c.next_slot,
)
  where
    blank : Slot
    blank = record {
      adj_left = none;
      adj_right = none;
      handler = none;
      window_size = 0;
      upstream_message_overhead = 0;
      current_window_update_batch_size = 0;
    }

-- s_cleanup_slot
unfoldable pub cleanup_slot : ℕ → Channel → Channel
cleanup_slot i c = record c {
  freed = i ∷ c.freed;
  destroyed = elim (c.slots i).handler [ none ↦ c.destroyed | some h ↦ h ∷ c.destroyed ];
}

-- aws_channel_slot_insert_right
pub insert_right : ℕ → ℕ → Channel → Channel
unfolding set_adj_left set_adj_right set_adj_left?
insert_right slot to_add c =
    let c1 = set_adj_right to_add (c.slots slot).adj_right c in
    let c2 = set_adj_left? (c1.slots slot).adj_right (some to_add) c1 in
    let c3 = set_adj_right slot (some to_add) c2 in set_adj_left to_add (some slot) c3

-- aws_channel_slot_insert_left
pub insert_left : ℕ → ℕ → Channel → Channel
unfolding set_adj_left set_adj_right set_adj_right?
insert_left slot to_add c =
    let c1 = set_adj_left to_add (c.slots slot).adj_left c in
    let c2 = set_adj_right? (c1.slots slot).adj_left (some to_add) c1 in
    let c3 = set_adj_left slot (some to_add) c2 in
    let c4 = set_adj_right to_add (some slot) c3 in
    if opt_eq c4.first slot then record c4 { first = some to_add } else c4

-- The walk of aws_channel_slot_insert_end to the last slot.
pub last_from : ℕ → ℕ → Channel → ℕ
last_from zero i c = i
last_from (suc fuel) i c = elim (c.slots i).adj_right [ none ↦ i | some j ↦ last_from fuel j c ]

-- aws_channel_slot_insert_end
pub insert_end : ℕ → ℕ → Channel → Channel × OpResult
unfolding insert_right last_from
insert_end fuel to_add c = elim c.first [
  | none ↦ (c, failure invalid_state)
  | some i ↦
      if i == to_add
      then (c, failure invalid_state)
      else (insert_right (last_from fuel i c) to_add c, success)
]

-- The pointer writes of aws_channel_slot_remove
pub unlink : ℕ → Channel → Channel
unfolding set_adj_left? set_adj_right?
unlink slot c =
    let c1 = set_adj_left? (c.slots slot).adj_right (c.slots slot).adj_left c in
    let c2 =
      if opt_eq c1.first slot
      then record c1 {
        first = elim (c1.slots slot).adj_right [ none ↦ c1.first | some r ↦ some r ];
      }
      else c1 in
    let c3 = set_adj_right? (c2.slots slot).adj_left (c2.slots slot).adj_right c2 in
    if opt_eq c3.first slot then record c3 { first = none } else c3

-- The pointer writes of aws_channel_slot_replace
pub relink : ℕ → ℕ → Channel → Channel
unfolding set_adj_left set_adj_right set_adj_left? set_adj_right?
relink removed new_slot c =
    let c1 = set_adj_left new_slot (c.slots removed).adj_left c in
    let c2 = set_adj_right? (c1.slots removed).adj_left (some new_slot) c1 in
    let c3 = set_adj_right new_slot (c2.slots removed).adj_right c2 in
    let c4 = set_adj_left? (c3.slots removed).adj_right (some new_slot) c3 in
    if opt_eq c4.first removed then record c4 { first = some new_slot } else c4

-- `slot_iter->upstream_message_overhead = overhead`
abbrev pub set_overhead : ℕ → ℕ → Channel → Channel
set_overhead i overhead c = record c {
  slots = write c.slots i (record s { upstream_message_overhead = overhead });
}
  where
    s : Slot
    s = c.slots i

-- The handlers of other modules answer what they add to a message.
module _ (message_overhead : ℕ → ℕ) where
  abbrev pub add_overhead : Option ℕ → ℕ → ℕ
  add_overhead none overhead = overhead
  add_overhead (some h) overhead = u64 (overhead + message_overhead h)

  -- s_update_channel_slot_message_overheads
  pub update_overheads_from : ℕ → Option ℕ → ℕ → Channel → Channel
  update_overheads_from zero p overhead c = c
  update_overheads_from (suc fuel) none overhead c = c
  update_overheads_from (suc fuel) (some i) overhead c =
      update_overheads_from fuel (c.slots i).adj_right (add_overhead (c.slots i).handler overhead)
        (set_overhead i overhead c)

  pub update_overheads : ℕ → Channel → Channel
  unfolding update_overheads_from
  update_overheads fuel c = update_overheads_from fuel c.first 0 c

  -- aws_channel_slot_remove
  pub remove : ℕ → ℕ → Channel → Channel
  unfolding update_overheads cleanup_slot
  remove fuel slot c = cleanup_slot slot (update_overheads fuel (unlink slot c))

  -- aws_channel_slot_replace
  pub replace : ℕ → ℕ → ℕ → Channel → Channel
  unfolding relink update_overheads cleanup_slot
  replace fuel removed new_slot c =
      cleanup_slot removed (update_overheads fuel (relink removed new_slot c))
