-- ===== src/Bootstrap/Tests.antt =====
-- What has been proved of source/channel_bootstrap.c, where one address fails and the other's channel is used.
use aws_c_io.Base.{
  ◌≡◌, true, false, none, some, List, [], ◌∷◌, socket_closed, length, arith, run_ready, refl,
}
use aws_c_io.Bootstrap.{
  ConnectStep, host_addresses, attempt_runs, established, setup_completes, negotiated, shut_down,
  connect_steps, new_socket_channel, with_nothing,
}
use aws_c_io.Bootstrap.Setup.{connect_steps-once}
use aws_c_io.Bootstrap.Shutdown.{IsPaired, connect_steps-IsPaired}

abbrev two_addresses : List ConnectStep
two_addresses =
    host_addresses 2
    ∷ attempt_runs run_ready none
    ∷ attempt_runs run_ready (some socket_closed)
    ∷ established true none
    ∷ setup_completes none
    ∷ negotiated none
    ∷ shut_down none
    ∷ []

connect_steps-once_example :
    let a = connect_steps two_addresses (new_socket_channel true) in
    (length a.setup_calls ≡ 1) × (a.ref_count ≡ 0)
unfolding connect_steps new_socket_channel
connect_steps-once_example = connect_steps-once true two_addresses (ground arith) refl refl

connect_steps-IsPaired_example : IsPaired (connect_steps two_addresses (new_socket_channel true))
connect_steps-IsPaired_example = connect_steps-IsPaired true two_addresses (ground arith)

-- The one address connects, but gets no channel: the user is told neither of a channel nor of an error.
no_channel_made :
    (connect_steps
      (host_addresses 1 ∷ attempt_runs run_ready none ∷ established false none ∷ [])
      (new_socket_channel false)).setup_calls
    ≡ with_nothing ∷ []
unfolding connect_steps new_socket_channel
no_channel_made = refl
