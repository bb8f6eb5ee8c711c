-- ===== src/Bootstrap/Server.antt =====
-- source/channel_bootstrap.c: how a server's listener gets channels. Every callback is a step; many channels of a
-- listener are under way at once, on event loops of their own.
pub mod Serving
mod Tests
use aws_c_io.Base.{
  ℕ, zero, suc, ◌+◌, ◌-◌, Bool, true, false, ◌&&◌, ◌||◌, not, Option, none, some, List, [], ◌∷◌,
  ◌==◌, if◌then◌else◌, AwsError,
}
use aws_c_io.Bootstrap.{
  Phase, no_channel, setting_up, negotiating, open_channel, failing, gone, SetupCall, with_channel,
  with_nothing, with_error, may_shut_down, is_setting_up, is_negotiating,
}

-- struct server_channel_data, with where its channel is, and what the user has been called with; `fatal` is the
-- assertion that the incoming callback has not been called.
pub record ServerChannel : Type 0 where
  pub phase : Phase
  pub incoming_called : Bool
  pub incoming_calls : List SetupCall
  pub shutdown_calls : ℕ
  pub fatal : Bool

-- struct server_connection_args of a listener; `refused` counts incoming callbacks without a channel, and `dangling`
-- says that the memory of a channel's data has been read after it was freed: what comes then is not defined.
pub record ServerArgs : Type 0 where
  pub use_tls : Bool
  pub is_listening : Bool
  pub ref_count : ℕ
  pub channels : List ServerChannel
  pub refused : ℕ
  pub destroy_calls : ℕ
  pub dangling : Bool

-- s_server_connection_args_release, and s_server_connection_args_destroy with the last reference
abbrev pub args_release : ServerArgs → ServerArgs
args_release a = record a {
  ref_count = a.ref_count - 1;
  destroy_calls = if a.ref_count == 1 then a.destroy_calls + 1 else a.destroy_calls;
}

-- s_server_incoming_callback
abbrev pub incoming_callback : SetupCall → ServerChannel → ServerChannel
incoming_callback call c = record c {
  fatal = c.fatal || c.incoming_called;
  incoming_calls = call ∷ c.incoming_calls;
  incoming_called = true;
}

-- What a callback does with the listener's arguments: it keeps them, releases them, or looks for them in memory that it
-- has freed.
pub data Holding : Type 0 where
  keeps releases dangles : Holding

-- What a callback leaves of a channel
abbrev pub Kept : Type 0
Kept = ServerChannel × Holding

-- s_on_server_channel_on_setup_completed: for the error of the channel, with which the channel's data is freed before
-- the arguments are taken from it, and for that of its handlers
pub server_setup_completed : Bool → Option AwsError → Option AwsError → ServerChannel → Kept
server_setup_completed use_tls (some e) handlers c =
    (incoming_callback (with_error e) (record c { phase = gone }), dangles)
server_setup_completed use_tls none (some e) c = (record c { phase = failing }, keeps)
server_setup_completed true none none c = (record c { phase = negotiating }, keeps)
server_setup_completed false none none c =
    (incoming_callback with_channel (record c { phase = open_channel }), keeps)

-- s_tls_server_on_negotiation_result
pub server_negotiation_result : Option AwsError → ServerChannel → Kept
server_negotiation_result (some e) c = (record c { phase = failing }, keeps)
server_negotiation_result none c =
    (incoming_callback with_channel (record c { phase = open_channel }), keeps)

abbrev pub or_unknown : Option AwsError → AwsError
or_unknown none = AwsError.unknown
or_unknown (some e) = e

-- s_on_server_channel_on_shutdown
pub server_channel_on_shutdown : Option AwsError → ServerChannel → Kept
server_channel_on_shutdown error_code c = (
  (if not c.incoming_called
      then incoming_callback (with_error (or_unknown error_code)) (record c { phase = gone })
      else record c { phase = gone; shutdown_calls = c.shutdown_calls + 1 }),
  releases,
)

-- The callbacks of a channel, where its phase allows them
pub data ChannelEvent : Type 0 where
  set_up : Option AwsError → Option AwsError → ChannelEvent
  negotiated shut_down : Option AwsError → ChannelEvent

pub channel_event : Bool → ChannelEvent → ServerChannel → Kept
unfolding server_setup_completed server_negotiation_result server_channel_on_shutdown
channel_event use_tls (set_up e handlers) c =
    if is_setting_up c.phase then server_setup_completed use_tls e handlers c else (c, keeps)
channel_event use_tls (negotiated e) c =
    if is_negotiating c.phase then server_negotiation_result e c else (c, keeps)
channel_event use_tls (shut_down e) c =
    if may_shut_down c.phase then server_channel_on_shutdown e c else (c, keeps)

-- The callback of the `i`th channel
abbrev pub change_at :
    ℕ → (ServerChannel → Kept) → List ServerChannel → List ServerChannel × Holding
change_at i f [] = ([], keeps)
change_at zero f (c ∷ cs) = let (c', holding) = f c in (c' ∷ cs, holding)
change_at (suc i) f (c ∷ cs) = let (cs', holding) = change_at i f cs in (c ∷ cs', holding)

-- s_on_server_connection_result: a channel is set up, or the user hears of the error of the socket, or of that of
-- the socket's event loop or the new channel.
pub connection_result : Option AwsError → Option AwsError → ServerArgs → ServerArgs
connection_result none none a = record a {
  ref_count = a.ref_count + 1;
  channels =
      record {
        phase = setting_up;
        incoming_called = false;
        incoming_calls = [];
        shutdown_calls = 0;
        fatal = false;
      }
      ∷ a.channels;
}
connection_result none (some e) a =
    args_release (record a { ref_count = a.ref_count + 1; refused = a.refused + 1 })
connection_result (some e) made a =
    args_release (record a { ref_count = a.ref_count + 1; refused = a.refused + 1 })

-- s_listener_destroy_task
pub listener_destroy : ServerArgs → ServerArgs
listener_destroy a = args_release (record a { is_listening = false })

pub data ListenerStep : Type 0 where
  incoming : Option AwsError → Option AwsError → ListenerStep
  on_channel : ℕ → ChannelEvent → ListenerStep
  destroy_listener : ListenerStep

abbrev pub hold : Holding → ServerArgs → ServerArgs
hold keeps a = a
hold releases a = args_release a
hold dangles a = record a { dangling = true }

pub listener_moves : ListenerStep → ServerArgs → ServerArgs
unfolding channel_event connection_result listener_destroy
listener_moves (incoming e made) a = if a.is_listening then connection_result e made a else a
listener_moves (on_channel i event) a =
    let (cs, holding) = change_at i (channel_event a.use_tls event) a.channels in
    hold holding (record a { channels = cs })
listener_moves destroy_listener a = if a.is_listening then listener_destroy a else a

pub listener_step : ListenerStep → ServerArgs → ServerArgs
unfolding listener_moves
listener_step s a = if a.dangling then a else listener_moves s a

pub listener_steps : List ListenerStep → ServerArgs → ServerArgs
unfolding listener_step
listener_steps [] a = a
listener_steps (s ∷ ss) a = listener_steps ss (listener_step s a)

-- aws_server_bootstrap_new_socket_listener: with an error, the arguments go, and the destroy callback is called.
pub new_socket_listener : Bool → Option AwsError → ServerArgs
new_socket_listener use_tls error_code =
    let made : ServerArgs = record {
      use_tls = use_tls;
      is_listening = true;
      ref_count = 1;
      channels = [];
      refused = 0;
      destroy_calls = 0;
      dangling = false;
    } in
    elim error_code [ none ↦ made | some e ↦ args_release (record made { is_listening = false }) ]
