-- ===== src/Future.antt =====
-- source/future.c: the untyped future that every aws_future_T wraps. A result is a number, 0 where the
-- memory is zeroed or the pointer NULL; error code 0 is success. Each operation is one critical
-- section with what follows it, and answers `none` where AWS_FATAL_ASSERT stops the program.
pub mod Callbacks
pub mod Results
mod Tests
use aws_c_io.Base.{
  ℕ, ◌+◌, ◌-◌, Bool, true, false, not, ◌&&◌, ◌||◌, Option, none, some, List, [], ◌∷◌, ◌++◌, ltb,
  leb, ◌==◌, if◌then◌else◌, is_some, u64, u64_max,
}

-- enum aws_future_type
pub data FutureType : Type 0 where
  by_value by_value_with_clean_up pointer pointer_with_destroy pointer_with_release : FutureType

-- enum aws_future_callback_type, with the event loop or channel that the callback is to run on
pub data CallbackType : Type 0 where
  immediate : CallbackType
  event_loop channel : ℕ → CallbackType

-- struct aws_future_callback_data, where a function is set
pub record Callback : Type 0 where
  pub fn : ℕ
  pub user_data : ℕ
  pub kind : CallbackType

-- struct aws_future_impl with the result behind it
pub record Future : Type 0 where
  pub ref_count : ℕ
  pub kind : FutureType
  pub callback : Option Callback
  pub error_code : ℕ
  pub is_done : Bool
  pub owns_result : Bool
  pub result : ℕ
  pub destroyed : Bool

-- What an operation does to the outside: a callback is called or scheduled, a result is destroyed by
-- the function that the future was made with, moved to the caller, or a channel is held.
pub data Effect : Type 0 where
  invoke : Callback → Effect
  destroy : ℕ → Effect
  moved : ℕ → Effect
  hold_channel : ℕ → Effect

-- s_future_impl_result_dtor
pub result_dtor : FutureType → ℕ → List Effect
result_dtor by_value_with_clean_up result = destroy result ∷ []
result_dtor pointer_with_destroy result = if result == 0 then [] else destroy result ∷ []
result_dtor pointer_with_release result = if result == 0 then [] else destroy result ∷ []
result_dtor _ result = []

-- s_future_impl_new and the constructors that set the type
pub new : FutureType → Future
new kind = record {
  ref_count = 1;
  kind = kind;
  callback = none;
  error_code = 0;
  is_done = false;
  owns_result = false;
  result = 0;
  destroyed = false;
}

-- aws_future_impl_acquire
pub acquire : Future → Future
acquire f = record f { ref_count = u64 (f.ref_count + 1) }

-- s_future_impl_destroy
pub impl_destroy : Future → Future × List Effect
unfolding result_dtor
impl_destroy f = (
  record f { destroyed = true },
  if f.owns_result && f.error_code == 0 then result_dtor f.kind f.result else [],
)

-- aws_future_impl_release
pub release : Future → Future × List Effect
unfolding impl_destroy
release f =
    let f' = record f { ref_count = u64 (f.ref_count + u64_max) } in
    if f.ref_count == 1 then impl_destroy f' else (f', [])

-- aws_future_impl_get_error
pub get_error : Future → Option ℕ
get_error f = if f.is_done then some f.error_code else none

-- aws_future_impl_get_result_address
pub get_result : Future → Option ℕ
get_result f = if f.is_done && (f.error_code == 0 && f.owns_result) then some f.result else none

-- aws_future_impl_get_result_by_move
pub get_result_by_move : Future → Option (Future × List Effect)
unfolding get_result
get_result_by_move f =
    if is_some (get_result f)
    then some (record f { result = 0; owns_result = false }, moved f.result ∷ [])
    else none

-- s_future_impl_invoke_callback
pub invoke_callback : Option Callback → List Effect
invoke_callback none = []
invoke_callback (some callback) = invoke callback ∷ []

-- s_future_impl_set_done, with the result that src_address points to
pub set_done : ℕ → ℕ → Future → Future × List Effect
unfolding invoke_callback result_dtor
set_done src error_code f =
    if f.is_done then (f, if error_code == 0 then result_dtor f.kind src else []) else (
      if error_code == 0
          then record f { is_done = true; callback = none; owns_result = true; result = src }
          else record f { is_done = true; callback = none; error_code = error_code },
      invoke_callback f.callback,
    )

-- aws_future_impl_set_error; 0 becomes AWS_ERROR_UNKNOWN, a code of aws-c-common
pub set_error : ℕ → ℕ → Future → Future × List Effect
unfolding set_done
set_error error_unknown error_code f =
    set_done 0 (if error_code == 0 then error_unknown else error_code) f

-- aws_future_impl_set_result_by_move
pub set_result_by_move : ℕ → Future → Future × List Effect
unfolding set_done
set_result_by_move src f = set_done src 0 f

-- s_future_impl_register_callback
pub impl_register_callback : Bool → Callback → Future → Option (Future × List Effect × Bool)
impl_register_callback invoke_if_already_done callback f =
    if is_some f.callback
    then none
    else some (
      if f.is_done then f else record f { callback = some callback },
      if f.is_done && invoke_if_already_done then invoke callback ∷ [] else [],
      not f.is_done || invoke_if_already_done,
    )

-- aws_future_impl_register_callback, _event_loop_callback and _channel_callback; the last holds the
-- channel first.
abbrev pub holds : CallbackType → List Effect
holds (channel c) = hold_channel c ∷ []
holds _ = []

pub register_callback : Callback → Future → Option (Future × List Effect)
unfolding impl_register_callback
register_callback callback f = elim (impl_register_callback true callback f) [
  | none ↦ none
  | some (f', effects, registered) ↦ some (f', holds callback.kind ++ effects)
]

-- aws_future_impl_register_callback_if_not_done
pub register_callback_if_not_done : Callback → Future → Option (Future × List Effect × Bool)
unfolding impl_register_callback
register_callback_if_not_done callback f = impl_register_callback false callback f

-- Any operation on a future, and a history of them.
pub data Op : Type 0 where
  set_result_op set_error_op : ℕ → Op
  register_op register_if_not_done_op : Callback → Op
  move_op acquire_op release_op : Op

abbrev pub drop_flag : Option (Future × List Effect × Bool) → Option (Future × List Effect)
drop_flag none = none
drop_flag (some (f, effects, flag)) = some (f, effects)

module _ (error_unknown : ℕ) where
  pub step : Op → Future → Option (Future × List Effect)
  unfolding set_result_by_move set_error register_callback register_callback_if_not_done
      get_result_by_move acquire release
  step (set_result_op v) f = some (set_result_by_move v f)
  step (set_error_op e) f = some (set_error error_unknown e f)
  step (register_op callback) f = register_callback callback f
  step (register_if_not_done_op callback) f = drop_flag (register_callback_if_not_done callback f)
  step move_op f = get_result_by_move f
  step acquire_op f = some (acquire f, [])
  step release_op f = some (release f)

  abbrev pub then_run : Option (Future × List Effect) → List Effect → Option (Future × List Effect)
  then_run none effects = none
  then_run (some (f, later)) effects = some (f, effects ++ later)

  -- Operations in turn; `none` also where one is called on a future that is destroyed.
  pub run : List Op → Future → Option (Future × List Effect)
  run [] f = some (f, [])
  run (op ∷ ops) f = elim (if f.destroyed then none else step op f) [
    | none ↦ none
    | some (f', effects) ↦ then_run (run ops f') effects
  ]
