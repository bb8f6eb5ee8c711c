-- ===== src/Bootstrap/Shutdown.antt =====
-- The shutdown callback of a client's connection in source/channel_bootstrap.c.
use aws_c_io.Base.{
  ℕ, ◌≡◌, Bool, true, false, Option, none, some, List, [], ◌∷◌, ◌&&◌, not, TaskStatus, run_ready,
  canceled, if◌then◌else◌, AwsError, refl, arith, Bool-cases, inl, inr,
}
use aws_c_io.Bootstrap.{
  Phase, gone, channel_not_made, ConnectionArgs, SetupCall, with_error, setup_callback,
  shutdown_callback, attempt_failed, host_not_resolved, host_resolved, attempt_connection,
  connection_established, channel_setup_completed, negotiation_result, channel_on_shutdown,
  ConnectStep, host_error, host_addresses, attempt_runs, established, setup_completes, negotiated,
  shut_down, connect_step, connect_steps, new_socket_channel,
}
use aws_c_io.Bootstrap.Steps.{IsSound}
use aws_c_io.Bootstrap.Setup.{AllCounted, connect_step-IsSound, new-IsSound}

-- Whether the user has been told of an error.
abbrev pub told_error : List SetupCall → Bool
told_error [] = false
told_error (with_error e ∷ cs) = true
told_error (_ ∷ cs) = told_error cs

abbrev pub is_gone : Phase → Bool
is_gone gone = true
is_gone _ = false

-- The callback is there unless the user has been told of an error, and has been called once if the channel
-- has been shut down with it.
abbrev pub IsPaired : ConnectionArgs → Type 0
IsPaired a =
    (a.has_shutdown_callback ≡ not (told_error a.setup_calls))
    × (a.shutdown_calls ≡ (if is_gone a.phase && a.has_shutdown_callback then 1 else 0))

abbrev Kept : ConnectStep → Type 0
Kept s = (a : ConnectionArgs) → IsSound a → IsPaired a → IsPaired (connect_step s a)

host_error-Kept : (e : AwsError) → Kept (host_error e)
unfolding connect_step host_not_resolved host_resolved attempt_connection attempt_failed
    connection_established channel_setup_completed negotiation_result channel_on_shutdown
    shutdown_callback setup_callback
host_error-Kept e a h p = elim (Bool-cases a.is_resolving) [
  | inl q ↦ ground (arith, q, h, p)
  | inr q ↦ elim (Bool-cases a.connection_chosen) [
    | inl c ↦ ground (arith, q, c, h, p)
    | inr c ↦ ground (arith, q, c, h, p)
  ]
]

host_addresses-Kept : (n : ℕ) → Kept (host_addresses n)
unfolding connect_step host_not_resolved host_resolved attempt_connection attempt_failed
    connection_established channel_setup_completed negotiation_result channel_on_shutdown
    shutdown_callback setup_callback
host_addresses-Kept n a h p = elim (Bool-cases a.is_resolving) [
  | inl q ↦ ground (arith, q, h, p)
  | inr q ↦ elim (Bool-cases a.connection_chosen) [
    | inl c ↦ ground (arith, q, c, h, p)
    | inr c ↦ ground (arith, q, c, h, p)
  ]
]

attempt_runs-Kept : (status : TaskStatus) (e : Option AwsError) → Kept (attempt_runs status e)
unfolding connect_step attempt_connection attempt_failed setup_callback
attempt_runs-Kept run_ready none a h p = elim (Bool-cases a.is_resolving) [
  | inl q ↦ ground (arith, q, h, p)
  | inr q ↦ elim (Bool-cases a.connection_chosen) [
    | inl c ↦ ground (arith, q, c, h, p)
    | inr c ↦ ground (arith, q, c, h, p)
  ]
]
attempt_runs-Kept run_ready (some e) a h p = elim (Bool-cases a.is_resolving) [
  | inl q ↦ ground (arith, q, h, p)
  | inr q ↦ elim (Bool-cases a.connection_chosen) [
    | inl c ↦ ground (arith, q, c, h, p)
    | inr c ↦ ground (arith, q, c, h, p)
  ]
]
attempt_runs-Kept canceled none a h p = elim (Bool-cases a.is_resolving) [
  | inl q ↦ ground (arith, q, h, p)
  | inr q ↦ elim (Bool-cases a.connection_chosen) [
    | inl c ↦ ground (arith, q, c, h, p)
    | inr c ↦ ground (arith, q, c, h, p)
  ]
]
attempt_runs-Kept canceled (some e) a h p = elim (Bool-cases a.is_resolving) [
  | inl q ↦ ground (arith, q, h, p)
  | inr q ↦ elim (Bool-cases a.connection_chosen) [
    | inl c ↦ ground (arith, q, c, h, p)
    | inr c ↦ ground (arith, q, c, h, p)
  ]
]

established-Kept : (is_made : Bool) (e : Option AwsError) → Kept (established is_made e)
unfolding connect_step connection_established channel_not_made attempt_failed setup_callback
established-Kept true none a h p = elim (Bool-cases a.is_resolving) [
  | inl q ↦ ground (arith, q, h, p)
  | inr q ↦ elim (Bool-cases a.connection_chosen) [
    | inl c ↦ ground (arith, q, c, h, p)
    | inr c ↦ ground (arith, q, c, h, p)
  ]
]
established-Kept false none a h p = elim (Bool-cases a.is_resolving) [
  | inl q ↦ ground (arith, q, h, p)
  | inr q ↦ elim (Bool-cases a.connection_chosen) [
    | inl c ↦ ground (arith, q, c, h, p)
    | inr c ↦ ground (arith, q, c, h, p)
  ]
]
established-Kept is_made (some e) a h p = elim (Bool-cases a.is_resolving) [
  | inl q ↦ ground (arith, q, h, p)
  | inr q ↦ elim (Bool-cases a.connection_chosen) [
    | inl c ↦ ground (arith, q, c, h, p)
    | inr c ↦ ground (arith, q, c, h, p)
  ]
]

setup_completes-Kept : (e : Option AwsError) → Kept (setup_completes e)
unfolding connect_step host_not_resolved host_resolved attempt_connection attempt_failed
    connection_established channel_setup_completed negotiation_result channel_on_shutdown
    shutdown_callback setup_callback
setup_completes-Kept none a h p = elim (Bool-cases a.is_resolving) [
  | inl q ↦ ground (arith, q, h, p)
  | inr q ↦ elim (Bool-cases a.connection_chosen) [
    | inl c ↦ ground (arith, q, c, h, p)
    | inr c ↦ ground (arith, q, c, h, p)
  ]
]
setup_completes-Kept (some e) a h p = elim (Bool-cases a.is_resolving) [
  | inl q ↦ ground (arith, q, h, p)
  | inr q ↦ elim (Bool-cases a.connection_chosen) [
    | inl c ↦ ground (arith, q, c, h, p)
    | inr c ↦ ground (arith, q, c, h, p)
  ]
]

negotiated-Kept : (e : Option AwsError) → Kept (negotiated e)
unfolding connect_step host_not_resolved host_resolved attempt_connection attempt_failed
    connection_established channel_setup_completed negotiation_result channel_on_shutdown
    shutdown_callback setup_callback
negotiated-Kept none a h p = elim (Bool-cases a.is_resolving) [
  | inl q ↦ ground (arith, q, h, p)
  | inr q ↦ elim (Bool-cases a.connection_chosen) [
    | inl c ↦ ground (arith, q, c, h, p)
    | inr c ↦ ground (arith, q, c, h, p)
  ]
]
negotiated-Kept (some e) a h p = elim (Bool-cases a.is_resolving) [
  | inl q ↦ ground (arith, q, h, p)
  | inr q ↦ elim (Bool-cases a.connection_chosen) [
    | inl c ↦ ground (arith, q, c, h, p)
    | inr c ↦ ground (arith, q, c, h, p)
  ]
]

shut_down-Kept : (e : Option AwsError) → Kept (shut_down e)
unfolding connect_step host_not_resolved host_resolved attempt_connection attempt_failed
    connection_established channel_setup_completed negotiation_result channel_on_shutdown
    shutdown_callback setup_callback
shut_down-Kept none a h p = elim (Bool-cases a.is_resolving) [
  | inl q ↦ ground (arith, q, h, p)
  | inr q ↦ elim (Bool-cases a.connection_chosen) [
    | inl c ↦ ground (arith, q, c, h, p)
    | inr c ↦ ground (arith, q, c, h, p)
  ]
]
shut_down-Kept (some e) a h p = elim (Bool-cases a.is_resolving) [
  | inl q ↦ ground (arith, q, h, p)
  | inr q ↦ elim (Bool-cases a.connection_chosen) [
    | inl c ↦ ground (arith, q, c, h, p)
    | inr c ↦ ground (arith, q, c, h, p)
  ]
]

connect_step-IsPaired :
    (s : ConnectStep) (a : ConnectionArgs) → IsSound a → IsPaired a → IsPaired (connect_step s a)
connect_step-IsPaired (host_error e) a h p = host_error-Kept e a h p
connect_step-IsPaired (host_addresses e) a h p = host_addresses-Kept e a h p
connect_step-IsPaired (attempt_runs status e) a h p = attempt_runs-Kept status e a h p
connect_step-IsPaired (established is_made e) a h p = established-Kept is_made e a h p
connect_step-IsPaired (setup_completes e) a h p = setup_completes-Kept e a h p
connect_step-IsPaired (negotiated e) a h p = negotiated-Kept e a h p
connect_step-IsPaired (shut_down e) a h p = shut_down-Kept e a h p

all-IsPaired :
    (ss : List ConnectStep) (a : ConnectionArgs)
    → AllCounted ss
    → IsSound a
    → IsPaired a
    → IsPaired (connect_steps ss a)
unfolding connect_steps
all-IsPaired [] a c h p = p
all-IsPaired (s ∷ ss) a c h p =
    all-IsPaired ss (connect_step s a) c.1 (connect_step-IsSound s a c.0 h)
      (connect_step-IsPaired s a h p)

-- The shutdown callback is dropped exactly when the setup callback has told an error; unless it is dropped, it has been
-- called once if the channel has been shut down, and else it has not been called.
pub connect_steps-IsPaired :
    (use_tls : Bool) (ss : List ConnectStep)
    → AllCounted ss
    → IsPaired (connect_steps ss (new_socket_channel use_tls))
unfolding new_socket_channel
connect_steps-IsPaired use_tls ss c =
    all-IsPaired ss (new_socket_channel use_tls) c (new-IsSound use_tls) (refl, refl)
