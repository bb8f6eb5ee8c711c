-- ===== src/Bootstrap.antt =====
-- source/channel_bootstrap.c: how a client gets a channel. The host is resolved, every address is
-- tried, the first connection wins, and its channel is set up. Every callback is a step, on one event
-- loop's thread.
pub mod Server
pub mod Steps
pub mod Setup
pub mod Shutdown
mod Tests
use aws_c_io.Base.{
  ℕ, zero, suc, ◌+◌, ◌-◌, ◌%◌, ◌≤◌, ◌<◌, Bool, true, false, Option, none, some, List, [], ◌∷◌, ◌==◌,
  ◌&&◌, ◌||◌, not, if◌then◌else◌, AwsError, is_some, TaskStatus, run_ready, canceled,
}

-- Where the channel of the connection that has won is: not there yet, not to be had since aws_channel_new has failed,
-- being set up, with TLS negotiating, given to
-- the user, being shut down for an error before that, or shut down.
pub data Phase : Type 0 where
  no_channel not_made setting_up negotiating open_channel failing gone : Phase

-- A call of the setup callback: with a channel, with an error, or with neither.
pub data SetupCall : Type 0 where
  with_channel with_nothing : SetupCall
  with_error : AwsError → SetupCall

-- struct client_connection_args, with what is under way: the resolver, the scheduled attempts, the
-- sockets that connect and the channel; and what the user has been called with. A count is a uint8_t.
pub record ConnectionArgs : Type 0 where
  pub use_tls : Bool
  pub addresses_count : ℕ
  pub failed_count : ℕ
  pub connection_chosen : Bool
  pub setup_called : Bool
  pub has_shutdown_callback : Bool
  pub ref_count : ℕ
  pub is_resolving : Bool
  pub attempts : ℕ
  pub connecting : ℕ
  pub phase : Phase
  pub setup_calls : List SetupCall
  pub shutdown_calls : ℕ
  pub fatal : Bool

abbrev pub u8 : ℕ → ℕ
u8 n = n % 256

-- s_client_connection_args_release
abbrev pub release : ConnectionArgs → ConnectionArgs
release a = record a { ref_count = a.ref_count - 1 }

-- s_connect_args_setup_callback_safe; `fatal` is its assertion that the callback has not been called.
pub setup_callback : SetupCall → ConnectionArgs → ConnectionArgs
setup_callback with_channel a = record a {
  fatal = a.fatal || a.setup_called;
  setup_calls = with_channel ∷ a.setup_calls;
  setup_called = true;
  ref_count = a.ref_count - 1;
}
setup_callback with_nothing a = record a {
  fatal = a.fatal || a.setup_called;
  setup_calls = with_nothing ∷ a.setup_calls;
  setup_called = true;
  ref_count = a.ref_count - 1;
}
setup_callback (with_error e) a = record a {
  fatal = a.fatal || a.setup_called;
  setup_calls = with_error e ∷ a.setup_calls;
  setup_called = true;
  has_shutdown_callback = false;
  ref_count = a.ref_count - 1;
}

-- s_connection_args_shutdown_callback
pub shutdown_callback : Option AwsError → ConnectionArgs → ConnectionArgs
unfolding setup_callback
shutdown_callback error_code a =
    if a.setup_called
    then (if a.has_shutdown_callback then record a { shutdown_calls = a.shutdown_calls + 1 } else a)
    else (elim error_code [
      | none ↦ setup_callback (with_error AwsError.unknown) a
      | some e ↦ setup_callback (with_error e) a
    ])

-- The call for an error code, which may be AWS_ERROR_SUCCESS
abbrev pub without_channel : Option AwsError → SetupCall
without_channel none = with_nothing
without_channel (some e) = with_error e

-- One attempt has failed; the last one tells the user. Its reference goes.
pub attempt_failed : Option AwsError → ConnectionArgs → ConnectionArgs
unfolding setup_callback
attempt_failed e a =
    let failed : ConnectionArgs = record a { failed_count = u8 (a.failed_count + 1) } in
    if failed.failed_count == a.addresses_count
    then release (setup_callback (without_channel e) failed)
    else release failed

-- s_on_host_resolved for an error, and for a number of addresses
pub host_not_resolved : AwsError → ConnectionArgs → ConnectionArgs
unfolding setup_callback
host_not_resolved e a = setup_callback (with_error e) (record a { is_resolving = false })

pub host_resolved : ℕ → ConnectionArgs → ConnectionArgs
host_resolved n a = record a {
  is_resolving = false;
  addresses_count = u8 n;
  ref_count = a.ref_count + n;
  attempts = n;
}

-- s_attempt_connection: a socket connects, or the attempt has failed; the error of an attempt that is cancelled is what
-- aws_last_error has been before, or none.
pub attempt_connection : TaskStatus → Option AwsError → ConnectionArgs → ConnectionArgs
unfolding attempt_failed
attempt_connection run_ready none a = record a {
  attempts = a.attempts - 1;
  connecting = a.connecting + 1;
}
attempt_connection run_ready (some e) a =
    attempt_failed (some e) (record a { attempts = a.attempts - 1 })
attempt_connection canceled last_error a =
    attempt_failed last_error (record a { attempts = a.attempts - 1 })

-- aws_channel_new has failed for the connection that has won: its reference stays.
pub channel_not_made : ConnectionArgs → ConnectionArgs
unfolding setup_callback
channel_not_made a =
    let failed : ConnectionArgs = record a {
      failed_count = u8 (a.failed_count + 1);
      phase = not_made;
    } in
    if failed.failed_count == a.addresses_count then setup_callback with_nothing failed else failed

-- s_on_client_connection_established, with whether aws_channel_new gives a channel
pub connection_established : Bool → Option AwsError → ConnectionArgs → ConnectionArgs
unfolding attempt_failed channel_not_made
connection_established is_made (some e) a =
    attempt_failed (some e) (record a { connecting = a.connecting - 1 })
connection_established is_made none a =
    let ended : ConnectionArgs = record a { connecting = a.connecting - 1 } in
    if a.connection_chosen
    then (if a.failed_count == a.addresses_count
        then release (setup_callback with_nothing ended)
        else release ended)
    else if is_made
    then record ended { connection_chosen = true; phase = setting_up }
    else channel_not_made (record ended { connection_chosen = true })

-- s_on_client_channel_on_setup_completed: an error, of the channel, the socket handler or TLS, shuts the channel down.
pub channel_setup_completed : Option AwsError → ConnectionArgs → ConnectionArgs
unfolding setup_callback
channel_setup_completed (some e) a = record a { phase = failing }
channel_setup_completed none a =
    if a.use_tls
    then record a { phase = negotiating }
    else setup_callback with_channel (record a { phase = open_channel })

-- s_tls_client_on_negotiation_result
pub negotiation_result : Option AwsError → ConnectionArgs → ConnectionArgs
unfolding setup_callback
negotiation_result (some e) a = record a { phase = failing }
negotiation_result none a = setup_callback with_channel (record a { phase = open_channel })

-- s_on_client_channel_on_shutdown
pub channel_on_shutdown : Option AwsError → ConnectionArgs → ConnectionArgs
unfolding shutdown_callback
channel_on_shutdown error_code a =
    release (shutdown_callback error_code (record a { phase = gone }))

-- What may happen, in any order that the parts allow.
pub data ConnectStep : Type 0 where
  host_error : AwsError → ConnectStep
  host_addresses : ℕ → ConnectStep
  attempt_runs : TaskStatus → Option AwsError → ConnectStep
  established : Bool → Option AwsError → ConnectStep
  setup_completes negotiated shut_down : Option AwsError → ConnectStep

abbrev pub may_shut_down : Phase → Bool
may_shut_down negotiating = true
may_shut_down open_channel = true
may_shut_down failing = true
may_shut_down _ = false

abbrev pub is_setting_up : Phase → Bool
is_setting_up setting_up = true
is_setting_up _ = false

abbrev pub is_negotiating : Phase → Bool
is_negotiating negotiating = true
is_negotiating _ = false

pub connect_step : ConnectStep → ConnectionArgs → ConnectionArgs
unfolding host_not_resolved host_resolved attempt_connection connection_established
    channel_setup_completed negotiation_result channel_on_shutdown
connect_step (host_error e) a = if a.is_resolving then host_not_resolved e a else a
connect_step (host_addresses n) a = if a.is_resolving then host_resolved n a else a
connect_step (attempt_runs status e) a =
    if a.attempts == 0 then a else attempt_connection status e a
connect_step (established is_made e) a =
    if a.connecting == 0 then a else connection_established is_made e a
connect_step (setup_completes e) a =
    if is_setting_up a.phase then channel_setup_completed e a else a
connect_step (negotiated e) a = if is_negotiating a.phase then negotiation_result e a else a
connect_step (shut_down e) a = if may_shut_down a.phase then channel_on_shutdown e a else a

unfoldable pub connect_steps : List ConnectStep → ConnectionArgs → ConnectionArgs
unfolding connect_step
connect_steps [] a = a
connect_steps (s ∷ ss) a = connect_steps ss (connect_step s a)

-- aws_client_bootstrap_new_socket_channel, once the host resolver has accepted the request
unfoldable pub new_socket_channel : Bool → ConnectionArgs
new_socket_channel use_tls = record {
  use_tls = use_tls;
  addresses_count = 0;
  failed_count = 0;
  connection_chosen = false;
  setup_called = false;
  has_shutdown_callback = true;
  ref_count = 1;
  is_resolving = true;
  attempts = 0;
  connecting = 0;
  phase = no_channel;
  setup_calls = [];
  shutdown_calls = 0;
  fatal = false;
}
