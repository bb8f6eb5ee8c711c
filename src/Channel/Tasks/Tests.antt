-- ===== src/Channel/Tasks/Tests.antt =====
-- A history of tasks of source/channel.c: one from each thread, and a shutdown while both wait.
use aws_c_io.Base.{◌+◌, ◌≡◌, true, false, List, [], ◌∷◌, refl, run_ready}
use aws_c_io.Channel.{ChannelState, shut_down}
use aws_c_io.Channel.Tasks.{
  Tasks, TaskStep, scheduling_now, scheduling_serialized, scheduling_future, draining, shutting,
  closing, completing, task_steps,
}
use aws_c_io.Channel.Tasks.Accounts.{places, schedules_all, task_steps-places}
use aws_c_io.Channel.Tasks.Closing.{IsAwake, task_steps-IsAwake}

abbrev idle : Tasks
idle = record {
  channel_state = ChannelState.active;
  channel_thread_tasks = [];
  cross_thread_tasks = [];
  scheduling_queued = 0;
  is_channel_shut_down = false;
  calls = [];
}

abbrev busy : List TaskStep
busy =
    scheduling_now true 1
    ∷ scheduling_future false 2 500
    ∷ scheduling_now false 3
    ∷ draining run_ready
    ∷ scheduling_serialized 4
    ∷ shutting
    ∷ closing
    ∷ completing
    ∷ scheduling_now false 5
    ∷ []

task_steps-places_example : places 2 (task_steps busy idle) ≡ places 2 idle + schedules_all 2 busy
task_steps-places_example = task_steps-places 2 busy idle

task_steps-IsAwake_example : IsAwake (task_steps busy idle)
task_steps-IsAwake_example = task_steps-IsAwake busy idle refl

abbrev shut : Tasks
shut = record idle {
  channel_state = shut_down;
  is_channel_shut_down = true;
  channel_thread_tasks = record { address = 1; timestamp = 0 } ∷ [];
  cross_thread_tasks = record { address = 2; timestamp = 500 } ∷ [];
  scheduling_queued = 1;
}
