-- ===== src/Channel/Tasks/Accounts.antt =====
-- What becomes of the tasks of source/channel.c over a history of steps.
use aws_c_io.Base.{
  ◌-◌, ℕ, ◌+◌, ◌≡◌, inl, inr, true, ◌||◌, List, [], ◌∷◌, ◌++◌, ◌==◌, if◌then◌else◌, refl, arith,
  TaskStatus, canceled, Bool-cases,
}
use aws_c_io.Channel.Tasks.{
  Task, Call, Tasks, is_canceled, has_task, without, call, settled_status, register_in_event_loop,
  register_cross_thread, register_pending, schedule_task_now, schedule_task_now_serialized,
  schedule_task_future, channel_task_run, drain, schedule_cross_thread_tasks, cancel_all,
  on_shutdown_completion, TaskStep, scheduling_now, scheduling_serialized, scheduling_future,
  running, draining, shutting, closing, completing, task_step, task_steps,
}

-- How often a step and a history schedule task `i`.
abbrev pub schedules : ℕ → TaskStep → ℕ
schedules i (scheduling_now on_thread j) = if j == i then 1 else 0
schedules i (scheduling_serialized j) = if j == i then 1 else 0
schedules i (scheduling_future on_thread j at) = if j == i then 1 else 0
schedules i _ = 0

abbrev pub schedules_all : ℕ → List TaskStep → ℕ
schedules_all i [] = 0
schedules_all i (s ∷ ss) = schedules i s + schedules_all i ss

abbrev pub waits : ℕ → List Task → ℕ
waits i [] = 0
waits i (k ∷ ks) = (if k.address == i then 1 else 0) + waits i ks

abbrev pub called : ℕ → List Call → ℕ
called i [] = 0
called i (k ∷ ks) = (if k.callee == i then 1 else 0) + called i ks

-- The places of a task: called, in the event loop, or on its way from another thread.
abbrev pub places : ℕ → Tasks → ℕ
places i t = called i t.calls + waits i t.channel_thread_tasks + waits i t.cross_thread_tasks

waits-append : (i : ℕ) (ks ls : List Task) → waits i (ks ++ ls) ≡ waits i ks + waits i ls
waits-append i [] ls = omega arith
waits-append i (k ∷ ks) ls = omega (arith, waits-append i ks ls)

waits-without :
    (i j : ℕ) (ks : List Task)
    → has_task j ks ≡ true
    → waits i (without j ks) + (if j == i then 1 else 0) ≡ waits i ks
waits-without i j [] h = cc
waits-without i j (k ∷ ks) h = ground (arith, waits-without i j ks)

drain-places :
    (i : ℕ) (status : TaskStatus) (ks : List Task) (t : Tasks)
    → places i (drain status ks t) ≡ places i t + waits i ks
unfolding drain
drain-places i status [] t = omega arith
drain-places i status (k ∷ ks) t = elim (Bool-cases (k.timestamp == 0 || is_canceled status)) [
  | inl e ↦ ground (arith, e, drain-places i status ks (call k.address status t))
  | inr e ↦ ground (
    arith,
    e,
    drain-places i status ks
        (record t { channel_thread_tasks = t.channel_thread_tasks ++ (k ∷ []) }),
    waits-append i t.channel_thread_tasks (k ∷ []),
  )
]

cancel_all-places :
    (i : ℕ) (ks : List Task) (t : Tasks)
    → t.channel_thread_tasks ≡ ks
    → places i (cancel_all ks t) ≡ places i t
unfolding cancel_all channel_task_run
cancel_all-places i [] t e = refl
cancel_all-places i (k ∷ ks) t e =
    ground (arith, e, cancel_all-places i ks (channel_task_run k.address canceled t))

pub cancel_all_empties :
    (ks : List Task) (t : Tasks)
    → t.channel_thread_tasks ≡ ks
    → ((cancel_all ks t).channel_thread_tasks ≡ [])
      × ((cancel_all ks t).cross_thread_tasks ≡ t.cross_thread_tasks)
      × ((cancel_all ks t).channel_state ≡ t.channel_state)
      × ((cancel_all ks t).is_channel_shut_down ≡ t.is_channel_shut_down)
      × ((cancel_all ks t).scheduling_queued ≡ t.scheduling_queued)
unfolding cancel_all channel_task_run
cancel_all_empties [] t e = (e, refl, refl, refl, refl)
cancel_all_empties (k ∷ ks) t e =
    ground (arith, e, cancel_all_empties ks (channel_task_run k.address canceled t))

on_shutdown_completion-places :
    (i : ℕ) (t : Tasks) → places i (on_shutdown_completion t) ≡ places i t
unfolding on_shutdown_completion schedule_cross_thread_tasks
on_shutdown_completion-places i t = ground (
  arith,
  cancel_all-places i t.channel_thread_tasks t refl,
  drain-places i (settled_status canceled (cancel_all t.channel_thread_tasks t))
      (cancel_all t.channel_thread_tasks t).cross_thread_tasks
      (record (cancel_all t.channel_thread_tasks t) {
        cross_thread_tasks = [];
        scheduling_queued = (cancel_all t.channel_thread_tasks t).scheduling_queued - 1;
      }),
)

schedule_cross_thread_tasks-places :
    (i : ℕ) (status : TaskStatus) (t : Tasks)
    → places i (schedule_cross_thread_tasks status t) ≡ places i t
unfolding schedule_cross_thread_tasks
schedule_cross_thread_tasks-places i status t = ground (
  arith,
  drain-places i (settled_status status t) t.cross_thread_tasks
      (record t { cross_thread_tasks = []; scheduling_queued = t.scheduling_queued - 1 }),
)

task_step-places :
    (i : ℕ) (s : TaskStep) (t : Tasks) → places i (task_step s t) ≡ places i t + schedules i s
unfolding task_step schedule_task_now schedule_task_now_serialized schedule_task_future
    register_pending register_in_event_loop register_cross_thread channel_task_run
task_step-places i (scheduling_now b j) t = ground (
  arith,
  waits-append i t.channel_thread_tasks (record { address = j; timestamp = 0 } ∷ []),
  waits-append i t.cross_thread_tasks (record { address = j; timestamp = 0 } ∷ []),
)
task_step-places i (scheduling_serialized j) t =
    ground (arith, waits-append i t.cross_thread_tasks (record { address = j; timestamp = 0 } ∷ []))
task_step-places i (scheduling_future b j at) t = ground (
  arith,
  waits-append i t.channel_thread_tasks (record { address = j; timestamp = at } ∷ []),
  waits-append i t.cross_thread_tasks (record { address = j; timestamp = at } ∷ []),
)
task_step-places i (running j status) t = ground (arith, waits-without i j t.channel_thread_tasks)
task_step-places i (draining status) t =
    ground (arith, schedule_cross_thread_tasks-places i status t)
task_step-places i shutting t = omega arith
task_step-places i closing t = ground arith
task_step-places i completing t = ground (arith, on_shutdown_completion-places i t)

-- Over every history each task has been called, or waits in one of the channel's two lists, as often
-- as it was scheduled: none is lost and none called twice.
pub task_steps-places :
    (i : ℕ) (ss : List TaskStep) (t : Tasks)
    → places i (task_steps ss t) ≡ places i t + schedules_all i ss
unfolding task_steps
task_steps-places i [] t = omega arith
task_steps-places i (s ∷ ss) t =
    omega (arith, task_steps-places i ss (task_step s t), task_step-places i s t)
