-- ===== src/Channel/Tasks/Closing.antt =====
-- The lists of tasks of source/channel.c when threads race and the channel shuts down.
use aws_c_io.Base.{
  ◌-◌, if◌then◌else◌, ◌≡◌, ◌⊎◌, inl, inr, true, false, ◌||◌, List, [], ◌∷◌, ◌++◌, ◌==◌, refl, arith,
  TaskStatus, canceled, Bool-cases, ◌∙◌,
}
use aws_c_io.Channel.{shut_down}
use aws_c_io.Channel.Tasks.{
  Task, Call, Tasks, is_canceled, is_empty, call, settled_status, register_in_event_loop,
  register_cross_thread, register_pending, schedule_task_now, schedule_task_now_serialized,
  schedule_task_future, channel_task_run, drain, schedule_cross_thread_tasks, cancel_all,
  on_shutdown_completion, TaskStep, scheduling_now, scheduling_serialized, scheduling_future,
  running, draining, shutting, closing, completing, task_step, task_steps,
}
use aws_c_io.Channel.Tasks.Accounts.{cancel_all_empties}

-- The scheduling task is in the event loop once while tasks from other threads wait, and else not.
abbrev pub IsAwake : Tasks → Type 0
IsAwake t = t.scheduling_queued ≡ (if is_empty t.cross_thread_tasks then 0 else 1)

drain_lists :
    (status : TaskStatus) (ks : List Task) (t : Tasks)
    → ((drain status ks t).cross_thread_tasks ≡ t.cross_thread_tasks)
      × ((drain status ks t).scheduling_queued ≡ t.scheduling_queued)
      × ((drain status ks t).channel_state ≡ t.channel_state)
      × ((drain status ks t).is_channel_shut_down ≡ t.is_channel_shut_down)
unfolding drain
drain_lists status [] t = (refl, refl, refl, refl)
drain_lists status (k ∷ ks) t = elim (Bool-cases (k.timestamp == 0 || is_canceled status)) [
  | inl e ↦ ground (arith, e, drain_lists status ks (call k.address status t))
  | inr e ↦ ground (
    arith,
    e,
    drain_lists status ks (record t { channel_thread_tasks = t.channel_thread_tasks ++ (k ∷ []) }),
  )
]

-- A cancelled scheduling task hands nothing to the event loop.
drain_canceled :
    (ks : List Task) (t : Tasks)
    → (drain canceled ks t).channel_thread_tasks ≡ t.channel_thread_tasks
unfolding drain
drain_canceled [] t = refl
drain_canceled (k ∷ ks) t = ground (arith, drain_canceled ks (call k.address canceled t))

is_empty_end : (ks : List Task) (k : Task) → is_empty (ks ++ (k ∷ [])) ≡ false
is_empty_end [] k = refl
is_empty_end (l ∷ ls) k = refl

is_empty-nil : (ks : List Task) → is_empty ks ≡ true → ks ≡ []
is_empty-nil [] e = refl
is_empty-nil (k ∷ ks) e = cc

task_step-IsAwake : (s : TaskStep) (t : Tasks) → IsAwake t → IsAwake (task_step s t)
unfolding task_step schedule_task_now schedule_task_now_serialized schedule_task_future
    register_pending register_in_event_loop register_cross_thread channel_task_run
    schedule_cross_thread_tasks on_shutdown_completion
task_step-IsAwake (scheduling_now b j) t a =
    ground (arith, is_empty_end t.cross_thread_tasks (record { address = j; timestamp = 0 }))
task_step-IsAwake (scheduling_serialized j) t a =
    ground (arith, is_empty_end t.cross_thread_tasks (record { address = j; timestamp = 0 }))
task_step-IsAwake (scheduling_future b j at) t a =
    ground (arith, is_empty_end t.cross_thread_tasks (record { address = j; timestamp = at }))
task_step-IsAwake (running j status) t a = ground arith
task_step-IsAwake (draining status) t a = ground (
  arith,
  drain_lists (settled_status status t) t.cross_thread_tasks
      (record t { cross_thread_tasks = []; scheduling_queued = t.scheduling_queued - 1 }),
)
task_step-IsAwake shutting t a = a
task_step-IsAwake closing t a = ground arith
task_step-IsAwake completing t a = ground (
  arith,
  cancel_all_empties t.channel_thread_tasks t refl,
  drain_lists (settled_status canceled (cancel_all t.channel_thread_tasks t))
      (cancel_all t.channel_thread_tasks t).cross_thread_tasks
      (record (cancel_all t.channel_thread_tasks t) {
        cross_thread_tasks = [];
        scheduling_queued = (cancel_all t.channel_thread_tasks t).scheduling_queued - 1;
      }),
)

-- Over every history of steps, if it is so before them: the task that fetches tasks from other threads is in the event
-- loop once while there are some, and else not. It is neither forgotten nor scheduled while it is there.
pub task_steps-IsAwake : (ss : List TaskStep) (t : Tasks) → IsAwake t → IsAwake (task_steps ss t)
unfolding task_steps
task_steps-IsAwake [] t a = a
task_steps-IsAwake (s ∷ ss) t a = task_steps-IsAwake ss (task_step s t) (task_step-IsAwake s t a)

-- The channel has shut down and completed that.
pub record Closed (t : Tasks) : Type 0 where
  pub is_shut : t.channel_state ≡ shut_down
  pub is_flagged : t.is_channel_shut_down ≡ true
  pub thread_empty : t.channel_thread_tasks ≡ []
  pub cross_empty : t.cross_thread_tasks ≡ []

completion_lists :
    (t : Tasks)
    → t.channel_state ≡ shut_down
    → ((on_shutdown_completion t).channel_state ≡ shut_down)
      × ((on_shutdown_completion t).is_channel_shut_down ≡ t.is_channel_shut_down)
      × ((on_shutdown_completion t).channel_thread_tasks ≡ [])
      × ((on_shutdown_completion t).cross_thread_tasks ≡ [])
unfolding on_shutdown_completion schedule_cross_thread_tasks
completion_lists t s =
    let t1 : Tasks = cancel_all t.channel_thread_tasks t in
    let t2 : Tasks = record t1 {
      cross_thread_tasks = [];
      scheduling_queued = t1.scheduling_queued - 1;
    } in
    ground (
      arith,
      cancel_all_empties t.channel_thread_tasks t refl,
      is_empty-nil t1.cross_thread_tasks,
      drain_canceled t1.cross_thread_tasks t2,
      drain_lists (settled_status canceled t1) t1.cross_thread_tasks t2,
    )

-- The completion of the shutdown leaves no task behind: with the state and the flag set, both lists
-- are empty.
pub on_shutdown_completion-Closed :
    (t : Tasks)
    → t.channel_state ≡ shut_down
    → t.is_channel_shut_down ≡ true
    → Closed (on_shutdown_completion t)
on_shutdown_completion-Closed t s f =
    let (state, flag, thread, cross) = completion_lists t s in
    record { is_shut = state; is_flagged = flag ∙ f; thread_empty = thread; cross_empty = cross }

-- After that every step leaves the lists empty, and a task that is scheduled from any thread is
-- called at once, as cancelled; nothing else is called.
pub task_step-Closed :
    (s : TaskStep) (t : Tasks)
    → Closed t
    → Closed (task_step s t)
      × (((task_step s t).calls ≡ t.calls)
          ⊎ ((k : Call) × ((task_step s t).calls ≡ k ∷ t.calls) × (k.status ≡ canceled)))
unfolding task_step schedule_task_now schedule_task_now_serialized schedule_task_future
    register_pending register_in_event_loop register_cross_thread channel_task_run
    schedule_cross_thread_tasks on_shutdown_completion cancel_all drain
task_step-Closed (scheduling_now b j) t c =
    ground (arith, c.is_shut, c.is_flagged, c.thread_empty, c.cross_empty)
task_step-Closed (scheduling_serialized j) t c =
    ground (arith, c.is_shut, c.is_flagged, c.thread_empty, c.cross_empty)
task_step-Closed (scheduling_future b j at) t c =
    ground (arith, c.is_shut, c.is_flagged, c.thread_empty, c.cross_empty)
task_step-Closed (running j status) t c =
    ground (arith, c.is_shut, c.is_flagged, c.thread_empty, c.cross_empty)
task_step-Closed (draining status) t c =
    ground (arith, c.is_shut, c.is_flagged, c.thread_empty, c.cross_empty)
task_step-Closed shutting t c =
    ground (arith, c.is_shut, c.is_flagged, c.thread_empty, c.cross_empty)
task_step-Closed closing t c =
    ground (arith, c.is_shut, c.is_flagged, c.thread_empty, c.cross_empty)
task_step-Closed completing t c =
    ground (arith, c.is_shut, c.is_flagged, c.thread_empty, c.cross_empty)
