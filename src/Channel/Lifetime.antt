-- ===== src/Channel/Lifetime.antt =====
-- How long a channel of source/channel.c lives: the holds on it, and the deletion of its slots.
pub mod Holds
mod Tests
use aws_c_io.Base.{
  ℕ, zero, suc, ◌+◌, ◌-◌, Bool, true, false, Option, none, some, List, [], ◌∷◌, ◌==◌, if◌then◌else◌,
  is_some, u64, u64_mod,
}
use aws_c_io.Channel.{Channel, Slot, ChannelState, shut_down, write}
use aws_c_io.Channel.Slots.{cleanup_slot}

-- struct aws_channel, the part about its life: deletion_task is in the event loop, and how often the
-- channel's memory was released.
pub record Life : Type 0 where
  pub chan : Channel
  pub refcount : ℕ
  pub deletion_queued : Bool
  pub deletions : ℕ

-- The loop of s_final_channel_deletion_task; the pointer to the right is read before the slot goes.
pub cleanup_from : ℕ → Option ℕ → Channel → Channel
unfolding cleanup_slot
cleanup_from zero p c = c
cleanup_from (suc fuel) none c = c
cleanup_from (suc fuel) (some current) c =
    cleanup_from fuel (c.slots current).adj_right (cleanup_slot current c)

abbrev pub has_handler : Channel → Option ℕ → Bool
has_handler c none = false
has_handler c (some i) = is_some (c.slots i).handler

-- s_final_channel_deletion_task.
pub final_deletion : ℕ → Life → Life
unfolding cleanup_from
final_deletion fuel l = record l {
  chan = cleanup_from fuel l.chan.first (if has_handler l.chan l.chan.first then l.chan else shut);
  deletion_queued = false;
  deletions = l.deletions + 1;
}
  where
    c : Channel
    c = l.chan

    shut : Channel
    shut = record c { channel_state = shut_down }

-- aws_channel_acquire_hold
pub acquire_hold : Life → Life
acquire_hold l = record l { refcount = u64 (l.refcount + 1) }

-- aws_channel_release_hold and aws_channel_destroy, on the event loop's thread or another
pub release_hold : ℕ → Bool → Life → Life
unfolding final_deletion
release_hold fuel on_thread l =
    if l.refcount == 1
    then elim on_thread [ true ↦ final_deletion fuel dropped | false ↦ queued ]
    else dropped
  where
    dropped : Life
    dropped = record l { refcount = u64 (l.refcount + u64_mod - 1) }

    queued : Life
    queued = record l { refcount = u64 (l.refcount + u64_mod - 1); deletion_queued = true }

-- The event loop runs deletion_task.
pub run_deletion : ℕ → Life → Life
unfolding final_deletion
run_deletion fuel l = if l.deletion_queued then final_deletion fuel l else l
