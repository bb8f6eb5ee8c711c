-- ===== src/Bootstrap/Server/Tests.antt =====
-- A run of a listener of source/channel_bootstrap.c.
use aws_c_io.Base.{◌≡◌, true, none, some, List, [], ◌∷◌, AwsError, refl}
use aws_c_io.Bootstrap.Server.{
  set_up, negotiated, shut_down, ListenerStep, incoming, on_channel, destroy_listener,
  listener_steps, new_socket_listener,
}
use aws_c_io.Bootstrap.Server.Serving.{IsServing, listener_steps-IsServing}

-- Two connections: one is given to the user, and one fails in its negotiation; the listener goes between.
abbrev two_connections : List ListenerStep
two_connections =
    incoming none none
    ∷ on_channel 0 (set_up none none)
    ∷ on_channel 0 (negotiated none)
    ∷ incoming none none
    ∷ destroy_listener
    ∷ on_channel 1 (shut_down none)
    ∷ on_channel 0 (set_up none none)
    ∷ on_channel 0 (negotiated (some AwsError.invalid_state))
    ∷ on_channel 0 (shut_down none)
    ∷ []

listener_steps-IsServing_example :
    IsServing (listener_steps two_connections (new_socket_listener true none))
unfolding listener_steps new_socket_listener
listener_steps-IsServing_example = listener_steps-IsServing true none two_connections refl

listener_destroyed :
    (listener_steps two_connections (new_socket_listener true none)).destroy_calls ≡ 1
unfolding listener_steps new_socket_listener
listener_destroyed = refl
