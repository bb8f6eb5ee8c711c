-- ===== src/Channel/Tasks.antt =====
-- The tasks of a channel in source/channel.c: those handed to the event loop and those that come from
-- other threads. Each operation of an event loop's thread and each critical section is a step; the
-- function of a task is called at the end of a step, and what it does are further steps.
pub mod Accounts
pub mod Closing
mod Tests
use aws_c_io.Base.{
  ℕ, zero, suc, ◌+◌, ◌-◌, Bool, true, false, not, ◌||◌, ◌&&◌, Option, none, some, List, [], ◌∷◌,
  ◌++◌, ◌==◌, if◌then◌else◌, TaskStatus, run_ready, canceled,
}
use aws_c_io.Channel.{ChannelState, shut_down}

-- struct aws_channel_task: its address, and the timestamp of its wrapper task
pub record Task : Type 0 where
  pub address : ℕ
  pub timestamp : ℕ

-- A call of a task's function.
pub record Call : Type 0 where
  pub callee : ℕ
  pub status : TaskStatus

-- The part of struct aws_channel about tasks; `scheduling_queued` counts how often scheduling_task is in the
-- event loop, and `calls` are the calls so far, the last one first.
pub record Tasks : Type 0 where
  pub channel_state : ChannelState
  pub channel_thread_tasks : List Task
  pub cross_thread_tasks : List Task
  pub scheduling_queued : ℕ
  pub is_channel_shut_down : Bool
  pub calls : List Call

abbrev pub is_shut_down : ChannelState → Bool
is_shut_down shut_down = true
is_shut_down _ = false

abbrev pub is_canceled : TaskStatus → Bool
is_canceled canceled = true
is_canceled run_ready = false

abbrev pub is_empty : List Task → Bool
is_empty [] = true
is_empty (k ∷ ks) = false

abbrev pub has_task : ℕ → List Task → Bool
has_task i [] = false
has_task i (k ∷ ks) = if k.address == i then true else has_task i ks

abbrev pub without : ℕ → List Task → List Task
without i [] = []
without i (k ∷ ks) = if k.address == i then ks else k ∷ without i ks

-- `channel_task->task_fn(channel_task, channel_task->arg, status)`
abbrev pub call : ℕ → TaskStatus → Tasks → Tasks
call i status t = record t { calls = record { callee = i; status = status } ∷ t.calls }

-- s_register_pending_task_in_event_loop
pub register_in_event_loop : Task → Tasks → Tasks
register_in_event_loop k t =
    if is_shut_down t.channel_state
    then call k.address canceled t
    else record t { channel_thread_tasks = t.channel_thread_tasks ++ (k ∷ []) }

-- s_register_pending_task_cross_thread
pub register_cross_thread : Task → Tasks → Tasks
register_cross_thread k t = if t.is_channel_shut_down then call k.address canceled t else record t {
  cross_thread_tasks = t.cross_thread_tasks ++ (k ∷ []);
  scheduling_queued =
      if is_empty t.cross_thread_tasks then t.scheduling_queued + 1 else t.scheduling_queued;
}

-- s_register_pending_task, with whether the caller is the event loop's thread; 0 is "now".
pub register_pending : Bool → ℕ → ℕ → Tasks → Tasks
unfolding register_in_event_loop register_cross_thread
register_pending on_thread i run_at_nanos t =
    if on_thread
    then register_in_event_loop (record { address = i; timestamp = run_at_nanos }) t
    else register_cross_thread (record { address = i; timestamp = run_at_nanos }) t

-- aws_channel_schedule_task_now
pub schedule_task_now : Bool → ℕ → Tasks → Tasks
unfolding register_pending
schedule_task_now on_thread i t = register_pending on_thread i 0 t

-- aws_channel_schedule_task_now_serialized
pub schedule_task_now_serialized : ℕ → Tasks → Tasks
unfolding register_cross_thread
schedule_task_now_serialized i t = register_cross_thread (record { address = i; timestamp = 0 }) t

-- aws_channel_schedule_task_future
pub schedule_task_future : Bool → ℕ → ℕ → Tasks → Tasks
unfolding register_pending
schedule_task_future on_thread i run_at_nanos t = register_pending on_thread i run_at_nanos t

abbrev pub settled_status : TaskStatus → Tasks → TaskStatus
settled_status status t = if is_shut_down t.channel_state then canceled else status

-- s_channel_task_run, which the event loop calls for a task that it has
pub channel_task_run : ℕ → TaskStatus → Tasks → Tasks
channel_task_run i status t =
    call i (settled_status status t)
      (record t { channel_thread_tasks = without i t.channel_thread_tasks })

-- The loop of s_schedule_cross_thread_tasks
pub drain : TaskStatus → List Task → Tasks → Tasks
drain status [] t = t
drain status (k ∷ ks) t = drain status ks (
    if k.timestamp == 0 || is_canceled status
    then call k.address status t
    else record t { channel_thread_tasks = t.channel_thread_tasks ++ (k ∷ []) })

-- s_schedule_cross_thread_tasks
pub schedule_cross_thread_tasks : TaskStatus → Tasks → Tasks
unfolding drain
schedule_cross_thread_tasks status t =
    drain (settled_status status t) t.cross_thread_tasks
      (record t { cross_thread_tasks = []; scheduling_queued = t.scheduling_queued - 1 })

-- The first loop of s_on_shutdown_completion_task; a cancelled task takes itself off the list.
pub cancel_all : List Task → Tasks → Tasks
unfolding channel_task_run
cancel_all [] t = t
cancel_all (k ∷ ks) t = cancel_all ks (channel_task_run k.address canceled t)

-- s_on_shutdown_completion_task up to the user's callback
pub on_shutdown_completion : Tasks → Tasks
unfolding cancel_all schedule_cross_thread_tasks
on_shutdown_completion t =
    let t1 = cancel_all t.channel_thread_tasks t in
    if is_empty t1.cross_thread_tasks then t1 else schedule_cross_thread_tasks canceled t1

-- Any step: of a thread that schedules a task, of the event loop that runs a task which it has, and of
-- the shutdown of the channel, which sets the state, then the flag under the lock, then completes.
pub data TaskStep : Type 0 where
  scheduling_now : Bool → ℕ → TaskStep
  scheduling_serialized : ℕ → TaskStep
  scheduling_future : Bool → ℕ → ℕ → TaskStep
  running : ℕ → TaskStatus → TaskStep
  draining : TaskStatus → TaskStep
  shutting closing completing : TaskStep

pub task_step : TaskStep → Tasks → Tasks
unfolding schedule_task_now schedule_task_now_serialized schedule_task_future channel_task_run
    schedule_cross_thread_tasks on_shutdown_completion
task_step (scheduling_now on_thread i) t = schedule_task_now on_thread i t
task_step (scheduling_serialized i) t = schedule_task_now_serialized i t
task_step (scheduling_future on_thread i at) t = schedule_task_future on_thread i at t
task_step (running i status) t =
    if has_task i t.channel_thread_tasks then channel_task_run i status t else t
task_step (draining status) t =
    if t.scheduling_queued == 0 then t else schedule_cross_thread_tasks status t
task_step shutting t = record t { channel_state = shut_down }
task_step closing t =
    if is_shut_down t.channel_state then record t { is_channel_shut_down = true } else t
task_step completing t = if t.is_channel_shut_down then on_shutdown_completion t else t

pub task_steps : List TaskStep → Tasks → Tasks
unfolding task_step
task_steps [] t = t
task_steps (s ∷ ss) t = task_steps ss (task_step s t)
