-- ===== src/Future/Tests.antt =====
-- Runs of source/future.c at concrete values.
use aws_c_io.Base.{◌+◌, ◌≡◌, true, false, none, some, List, [], ◌∷◌, refl, arith}
use aws_c_io.Future.{
  Future, Callback, Effect, immediate, channel, pointer_with_release, invoke, destroy, hold_channel,
  Op, set_result_op, set_error_op, register_op, register_if_not_done_op, release_op, new, step, run,
}
use aws_c_io.Future.Callbacks.{registered, calls, run-calls_done}
use aws_c_io.Future.Results.{given, gone, holds, run_results_exact}

abbrev first : Callback
first = record { fn = 10; user_data = 1; kind = channel 3 }

abbrev second : Callback
second = record { fn = 11; user_data = 2; kind = immediate }

-- The result 7 comes first, 8 too late; the callback behind them is called at once.
abbrev history : List Op
history =
    register_op first
    ∷ set_result_op 7
    ∷ set_result_op 8
    ∷ register_if_not_done_op second
    ∷ register_op second
    ∷ release_op
    ∷ []

abbrev effects : List Effect
effects = hold_channel 3 ∷ invoke first ∷ destroy 8 ∷ invoke second ∷ destroy 7 ∷ []

abbrev left : Future
left = record {
  ref_count = 0;
  kind = pointer_with_release;
  callback = none;
  error_code = 0;
  is_done = true;
  owns_result = true;
  result = 7;
  destroyed = true;
}

history-run : run 1 history (new pointer_with_release) ≡ some (left, effects)
unfolding run step new
history-run = refl

run-calls_done_example : calls effects ≡ registered 1 history (new pointer_with_release)
run-calls_done_example = run-calls_done 1 pointer_with_release history left effects history-run refl

run_results_exact_example : given 7 history ≡ gone 7 effects + holds 7 left
run_results_exact_example =
    run_results_exact 1 pointer_with_release 7 history left effects refl (λ e. omega arith)
      history-run

abbrev live : Future
live = record left { ref_count = 1; destroyed = false }

set_again : step 1 (set_error_op 5) live ≡ some (live, [])
unfolding step
set_again = refl
