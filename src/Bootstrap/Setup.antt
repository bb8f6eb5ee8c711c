-- ===== src/Bootstrap/Setup.antt =====
-- The setup callback and the references of a client's connection in source/channel_bootstrap.c.
use aws_c_io.Base.{
  ℕ, ◌+◌, ◌<◌, ◌≡◌, Bool, false, List, [], ◌∷◌, if◌then◌else◌, length, arith, Bool-cases, inl, inr,
}
use aws_c_io.Bootstrap.{
  Phase, no_channel, not_made, gone, ConnectionArgs, ConnectStep, host_error, host_addresses,
  attempt_runs, established, setup_completes, negotiated, shut_down, connect_step, connect_steps,
  new_socket_channel,
}
use aws_c_io.Bootstrap.Steps.{
  IsSound, is_not_made, attempt_runs-IsSound, established-IsSound, host_addresses-IsSound,
  host_error-IsSound, negotiated-IsSound, setup_completes-IsSound, shut_down-IsSound,
}

-- A resolved host has an address, and no more than its count can hold.
abbrev pub IsCounted : ConnectStep → Type 0
IsCounted (host_addresses n) = (0 < n) × (n < 256)
IsCounted _ = Unit {0}

abbrev pub AllCounted : List ConnectStep → Type 0
AllCounted [] = Unit {0}
AllCounted (s ∷ ss) = IsCounted s × AllCounted ss

pub connect_step-IsSound :
    (s : ConnectStep) (a : ConnectionArgs) → IsCounted s → IsSound a → IsSound (connect_step s a)
connect_step-IsSound (host_error e) a c h = host_error-IsSound e a h
connect_step-IsSound (host_addresses n) a c h = host_addresses-IsSound n a c.0 c.1 h
connect_step-IsSound (attempt_runs status e) a c h = attempt_runs-IsSound status e a h
connect_step-IsSound (established is_made e) a c h = established-IsSound is_made e a h
connect_step-IsSound (setup_completes e) a c h = setup_completes-IsSound e a h
connect_step-IsSound (negotiated e) a c h = negotiated-IsSound e a h
connect_step-IsSound (shut_down e) a c h = shut_down-IsSound e a h

connect_steps-IsSound :
    (ss : List ConnectStep) (a : ConnectionArgs)
    → AllCounted ss
    → IsSound a
    → IsSound (connect_steps ss a)
unfolding connect_steps
connect_steps-IsSound [] a c h = h
connect_steps-IsSound (s ∷ ss) a c h =
    connect_steps-IsSound ss (connect_step s a) c.1 (connect_step-IsSound s a c.0 h)

pub new-IsSound : (use_tls : Bool) → IsSound (new_socket_channel use_tls)
unfolding new_socket_channel
new-IsSound use_tls = ground arith

-- What is under way for a connection
abbrev pub channels : Phase → ℕ
channels no_channel = 0
channels not_made = 0
channels gone = 0
channels _ = 1

abbrev pub under_way : ConnectionArgs → ℕ
under_way a = (if a.is_resolving then 1 else 0) + a.attempts + a.connecting + channels a.phase

ends :
    (a : ConnectionArgs)
    → IsSound a
    → is_not_made a.phase ≡ false
    → under_way a ≡ 0
    → (length a.setup_calls ≡ 1) × (a.ref_count ≡ 0)
ends a h m u = elim (Bool-cases a.is_resolving) [
  | inl q ↦ ground (arith, q, h, m, u)
  | inr q ↦ elim (Bool-cases a.connection_chosen) [
    | inl c ↦ ground (arith, q, c, h, m, u)
    | inr c ↦ ground (arith, q, c, h, m, u)
  ]
]

-- Whatever order the addresses, the attempts and the channel answer in, and whatever has failed but aws_channel_new:
-- when nothing is under way any more, the setup callback has been called once and no reference is left. A resolved host
-- has between 1 and 255 addresses.
pub connect_steps-once :
    (use_tls : Bool) (ss : List ConnectStep)
    → AllCounted ss
    → is_not_made (connect_steps ss (new_socket_channel use_tls)).phase ≡ false
    → under_way (connect_steps ss (new_socket_channel use_tls)) ≡ 0
    → (length (connect_steps ss (new_socket_channel use_tls)).setup_calls ≡ 1)
      × ((connect_steps ss (new_socket_channel use_tls)).ref_count ≡ 0)
connect_steps-once use_tls ss c =
    ends (connect_steps ss (new_socket_channel use_tls))
      (connect_steps-IsSound ss (new_socket_channel use_tls) c (new-IsSound use_tls))
