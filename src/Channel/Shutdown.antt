-- ===== src/Channel/Shutdown.antt =====
-- The shutdown of a channel in source/channel.c: every handler in the read direction from left to
-- right, then in the write direction from right to left. The handlers are of other modules.
pub mod Order
mod Tests
use aws_c_io.Base.{
  ℕ, zero, suc, ◌+◌, Bool, true, false, Option, none, some, List, [], ◌∷◌, ◌++◌, ◌==◌,
  if◌then◌else◌, is_some,
}
use aws_c_io.Channel.{
  Channel, Slot, ChannelState, shutting_down, shut_down, Direction, read_dir, write_dir, is_open,
}
use aws_c_io.Channel.Slots.{opt_eq}
use aws_c_io.Channel.Tasks.{is_shut_down}

-- A call of aws_channel_handler_shutdown for the handler of a slot.
pub record Ask : Type 0 where
  pub slot : ℕ
  pub dir : Direction
  pub error_code : ℕ
  pub immediately : Bool

-- What shutdown_notify_task is in the event loop for.
pub data Notify : Type 0 where
  idle : Notify
  writing : ℕ → ℕ → Bool → Notify
  completing : ℕ → Notify

-- The part of struct aws_channel about the shutdown; `requested` is the shutdown task, once its
-- function is set.
pub record Shutdown : Type 0 where
  pub chan : Channel
  pub is_channel_shut_down : Bool
  pub requested : Option (ℕ × Bool)
  pub notify : Notify
  pub has_on_shutdown_completed : Bool

abbrev pub set_state : ChannelState → Shutdown → Shutdown
set_state st s = record s { chan = c }
  where
    c : Channel
    c = record (s.chan) { channel_state = st }

-- s_channel_shutdown: the answer says whether the shutdown task was scheduled.
pub channel_shutdown : ℕ → Bool → Shutdown → Shutdown × Bool
channel_shutdown error_code immediately s =
    if is_some s.requested
    then (s, false)
    else (record s { requested = some (error_code, immediately) }, true)

-- The channel is shut down: the state, the flag under the lock, and the task for the user's callback.
abbrev pub complete : ℕ → Shutdown → Shutdown
complete error_code s = record (set_state shut_down s) {
  is_channel_shut_down = true;
  notify = if s.has_on_shutdown_completed then completing error_code else s.notify;
}

-- s_shutdown_task
pub shutdown_task : ℕ → Bool → Shutdown → Shutdown × Option Ask
shutdown_task error_code immediately s =
    if is_open s.chan.channel_state
    then elim s.chan.first [
      | none ↦ (complete error_code (set_state shutting_down s), none)
      | some slot ↦ (
        set_state shutting_down s,
        some (record {
          slot = slot;
          dir = read_dir;
          error_code = error_code;
          immediately = immediately;
        }),
      )
    ]
    else (s, none)

-- `slot && slot->handler`
abbrev pub with_handler : Channel → Option ℕ → Option ℕ
with_handler c none = none
with_handler c (some i) = if is_some (c.slots i).handler then some i else none

-- aws_channel_slot_on_handler_shutdown_complete, for what a handler was asked
pub on_handler_shutdown_complete : Ask → Shutdown → Shutdown × Option Ask
on_handler_shutdown_complete a s =
    if is_shut_down s.chan.channel_state then (s, none) else elim a.dir [
      | read_dir ↦ elim (with_handler s.chan (s.chan.slots a.slot).adj_right) [
        | some right ↦ (s, some (record a { slot = right }))
        | none ↦ (record s { notify = writing a.slot a.error_code a.immediately }, none)
      ]
      | write_dir ↦ elim (with_handler s.chan (s.chan.slots a.slot).adj_left) [
        | some left ↦ (s, some (record a { slot = left }))
        | none ↦ (if opt_eq s.chan.first a.slot then complete a.error_code s else s, none)
      ]
    ]

-- The event loop runs shutdown_notify_task: s_run_shutdown_write_direction, or what ends the shutdown.
pub run_notify : Shutdown → Shutdown × Option Ask
run_notify s = elim s.notify [
  | idle ↦ (s, none)
  | completing e ↦ (s, none)
  | writing slot error_code immediately ↦ (
    record s { notify = idle },
    some (record {
      slot = slot;
      dir = write_dir;
      error_code = error_code;
      immediately = immediately;
    }),
  )
]

-- A handler that is asked completes, and the event loop then runs what is scheduled.
pub answer : Ask → Shutdown → Shutdown × Option Ask
unfolding on_handler_shutdown_complete run_notify
answer a s = elim (on_handler_shutdown_complete a s).1 [
  | some next ↦ ((on_handler_shutdown_complete a s).0, some next)
  | none ↦ run_notify ((on_handler_shutdown_complete a s).0)
]

-- The handlers that are asked one after the other.
pub follow : ℕ → Option Ask → Shutdown → Shutdown × List Ask
unfolding answer
follow zero a s = (s, [])
follow (suc fuel) none s = (s, [])
follow (suc fuel) (some a) s =
    let r = answer a s in let later = follow fuel r.1 r.0 in (later.0, a ∷ later.1)
