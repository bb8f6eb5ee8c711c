-- ===== src/Bootstrap/Server/Serving.antt =====
-- A listener of source/channel_bootstrap.c lives as long as its channels, and serves each of them.
use aws_c_io.Base.{
  ℕ, zero, suc, ◌+◌, ◌≡◌, Bool, true, false, ◌&&◌, ◌||◌, not, Option, none, some, List, [], ◌∷◌,
  ◌==◌, if◌then◌else◌, AwsError, sym, ap, subst, ◌∙◌, Bool-cases, inl, inr, refl, arith, length,
}
use aws_c_io.Bootstrap.{
  Phase, no_channel, not_made, setting_up, negotiating, open_channel, failing, gone, SetupCall,
  with_channel, with_nothing,
}
use aws_c_io.Bootstrap.Server.{
  Holding, keeps, releases, dangles, hold, listener_moves, ServerChannel, ServerArgs, args_release,
  Kept, ChannelEvent, channel_event, change_at, connection_result, listener_destroy, ListenerStep,
  incoming, on_channel, destroy_listener, listener_step, listener_steps, new_socket_listener,
}

-- What the user has been told by a phase: nothing, of a channel, or of a channel's end
abbrev pub is_told : Phase → Bool
is_told open_channel = true
is_told gone = true
is_told other = false

abbrev pub is_gone : Phase → Bool
is_gone gone = true
is_gone other = false

abbrev pub is_granted : Phase → Bool
is_granted open_channel = true
is_granted other = false

-- Whether every call has a channel or an error
abbrev pub reports : List SetupCall → Bool
reports [] = true
reports (with_nothing ∷ calls) = false
reports (other ∷ calls) = reports calls

abbrev pub given : List SetupCall → Bool
given (with_channel ∷ calls) = true
given calls = false

-- The incoming callback is called once, with a channel before this is open and with a channel or an error before it is
-- gone; the shutdown callback is called once, for a channel that is gone and was given to the user.
pub record IsServed (c : ServerChannel) : Type 0 where
  pub once : length c.incoming_calls ≡ (if is_told c.phase then 1 else 0)
  pub flag : c.incoming_called ≡ is_told c.phase
  pub granted : (not (is_granted c.phase) || given c.incoming_calls) ≡ true
  pub paired : c.shutdown_calls ≡ (if is_gone c.phase && given c.incoming_calls then 1 else 0)
  pub reported : reports c.incoming_calls ≡ true
  pub sound : c.fatal ≡ false

abbrev pub AllServed : List ServerChannel → Type 0
AllServed [] = Unit {0}
AllServed (c ∷ cs) = IsServed c × AllServed cs

abbrev pub one : Bool → ℕ
one true = 1
one false = 0

-- How many channels are not gone
abbrev pub living : List ServerChannel → ℕ
living [] = 0
living (c ∷ cs) = one (not (is_gone c.phase)) + living cs

-- The listener and each channel that is not gone hold a reference, and the destroy callback is called once, when
-- none is left.
pub record IsServing (a : ServerArgs) : Type 0 where
  pub refs : a.ref_count ≡ one a.is_listening + living a.channels
  pub destroyed : a.destroy_calls ≡ (if a.ref_count == 0 then 1 else 0)
  pub served : AllServed a.channels

-- The references that a callback has to give back
abbrev pub owed : Holding → ℕ
owed keeps = 0
owed releases = 1
owed dangles = 1

-- A callback keeps what is said of a channel, and gives a reference back where the channel goes.
abbrev KeepsServed : ServerChannel → Kept → Type 0
KeepsServed c (c', holding) =
    IsServed c' × (one (not (is_gone c.phase)) ≡ one (not (is_gone c'.phase)) + owed holding)

abbrev at : Phase → Bool → List SetupCall → ℕ → Bool → ServerChannel
at phase called calls n fatal = record {
  phase = phase;
  incoming_called = called;
  incoming_calls = calls;
  shutdown_calls = n;
  fatal = fatal;
}

event_KeepsServed :
    (use_tls : Bool) (event : ChannelEvent) (phase : Phase) (called : Bool) (calls : List SetupCall)
    (n : ℕ) (fatal : Bool)
    → IsServed (at phase called calls n fatal)
    → KeepsServed
        (at phase called calls n fatal)
        (channel_event use_tls event (at phase called calls n fatal))
unfolding channel_event
event_KeepsServed use_tls event no_channel called calls n fatal h = ground (arith, h)
event_KeepsServed use_tls event not_made called calls n fatal h = ground (arith, h)
event_KeepsServed use_tls event setting_up called calls n fatal h = ground (arith, h)
event_KeepsServed use_tls event negotiating called calls n fatal h = ground (arith, h)
event_KeepsServed use_tls event open_channel called calls n fatal h = ground (arith, h)
event_KeepsServed use_tls event failing called calls n fatal h = ground (arith, h)
event_KeepsServed use_tls event gone called calls n fatal h = ground (arith, h)

event-KeepsServed :
    (use_tls : Bool) (event : ChannelEvent) (c : ServerChannel)
    → IsServed c
    → KeepsServed c (channel_event use_tls event c)
event-KeepsServed use_tls event c h =
    event_KeepsServed use_tls event c.phase c.incoming_called c.incoming_calls c.shutdown_calls
      c.fatal h

change_at-AllServed :
    (i : ℕ) (f : ServerChannel → Kept) (cs : List ServerChannel)
    → ((c : ServerChannel) → IsServed c → KeepsServed c (f c))
    → AllServed cs
    → AllServed (change_at i f cs).0
      × (living cs ≡ living (change_at i f cs).0 + owed (change_at i f cs).1)
change_at-AllServed i f [] keep h = (tt, omega arith)
change_at-AllServed zero f (c ∷ cs) keep h = (((keep c h.0).0, h.1), omega (arith, (keep c h.0).1))
change_at-AllServed (suc i) f (c ∷ cs) keep h =
    let rest = change_at-AllServed i f cs keep h.1 in ((h.0, rest.0), omega (arith, rest.1))

-- A reference that is held goes.
args_release-IsServing :
    (a : ServerArgs)
    → a.ref_count ≡ one a.is_listening + living a.channels + 1
    → a.destroy_calls ≡ 0
    → AllServed a.channels
    → IsServing (args_release a)
args_release-IsServing a r d s = record {
  refs = ground arith;
  destroyed = ground arith;
  served = s;
}

connection_result-IsServing :
    (e made : Option AwsError) (a : ServerArgs)
    → a.is_listening ≡ true
    → IsServing a
    → IsServing (connection_result e made a)
unfolding connection_result
connection_result-IsServing none none a l h = record {
  refs = omega (arith, h.refs);
  destroyed = ground (arith, l, h.refs, h.destroyed);
  served = (ground arith, h.served);
}
connection_result-IsServing none (some e) a l h =
    args_release-IsServing (record a { ref_count = a.ref_count + 1; refused = a.refused + 1 })
      (omega (arith, h.refs)) (ground (arith, l, h.refs, h.destroyed)) h.served
connection_result-IsServing (some e) made a l h =
    args_release-IsServing (record a { ref_count = a.ref_count + 1; refused = a.refused + 1 })
      (omega (arith, h.refs)) (ground (arith, l, h.refs, h.destroyed)) h.served

hold-IsServing :
    (holding : Holding) (a : ServerArgs)
    → a.ref_count ≡ one a.is_listening + living a.channels + owed holding
    → a.destroy_calls ≡ (if a.ref_count == 0 then 1 else 0)
    → AllServed a.channels
    → (hold holding a).dangling ≡ false
    → IsServing (hold holding a)
hold-IsServing keeps a r d s u = record { refs = omega (arith, r); destroyed = d; served = s }
hold-IsServing releases a r d s u = args_release-IsServing a r (ground (arith, r, d)) s
hold-IsServing dangles a r d s u = absurd (ground (arith, u))

on_channel-IsServing :
    (i : ℕ) (event : ChannelEvent) (a : ServerArgs)
    → IsServing a
    → (listener_moves (on_channel i event) a).dangling ≡ false
    → IsServing (listener_moves (on_channel i event) a)
unfolding listener_moves
on_channel-IsServing i event a h u =
    let changed = change_at i (channel_event a.use_tls event) a.channels in
    let kept =
      change_at-AllServed i (channel_event a.use_tls event) a.channels
        (λ c s. event-KeepsServed a.use_tls event c s) h.served in
    hold-IsServing changed.1 (record a { channels = changed.0 }) (omega (arith, h.refs, kept.1))
      h.destroyed kept.0 u

if-IsServing :
    (test : Bool) (x y : ServerArgs)
    → (test ≡ true → IsServing x)
    → IsServing y
    → IsServing (if test then x else y)
if-IsServing true x y h g = h refl
if-IsServing false x y h g = g

listener_moves-IsServing :
    (step : ListenerStep) (a : ServerArgs)
    → IsServing a
    → (listener_moves step a).dangling ≡ false
    → IsServing (listener_moves step a)
unfolding listener_moves listener_destroy
listener_moves-IsServing (incoming e made) a h u =
    if-IsServing a.is_listening (connection_result e made a) a
      (λ q. connection_result-IsServing e made a q h) h
listener_moves-IsServing (on_channel i event) a h u = on_channel-IsServing i event a h u
listener_moves-IsServing destroy_listener a h u =
    if-IsServing a.is_listening (args_release (record a { is_listening = false })) a
      (λ q.
        args_release-IsServing (record a { is_listening = false }) (ground (arith, h.refs, q))
          (ground (arith, h.refs, h.destroyed, q)) h.served)
      h

-- After a use of freed memory nothing is said to happen.
stays_dangling :
    (steps : List ListenerStep) (a : ServerArgs)
    → a.dangling ≡ true
    → (listener_steps steps a).dangling ≡ true
unfolding listener_steps listener_step
stays_dangling [] a h = h
stays_dangling (step ∷ steps) a h =
    stays_dangling steps (listener_step step a) (rw (listener_step, h) refl)

listener_steps-kept :
    (steps : List ListenerStep) (a : ServerArgs)
    → a.dangling ≡ false
    → IsServing a
    → (listener_steps steps a).dangling ≡ false
    → IsServing (listener_steps steps a)
unfolding listener_steps listener_step
listener_steps-kept [] a d h u = h
listener_steps-kept (step ∷ steps) a d h u = elim (Bool-cases (listener_step step a).dangling) [
  | inl q ↦ absurd (ground (arith, u, stays_dangling steps (listener_step step a) q))
  | inr q ↦
      listener_steps-kept steps (listener_step step a) q
        (subst IsServing (sym moved)
          (listener_moves-IsServing step a h (sym (ap (λ b. b.dangling) moved) ∙ q)))
        u
]
  where
    moved : listener_step step a ≡ listener_moves step a
    moved = rw (listener_step, d) refl

-- Whatever happens to a listener's connections, and in whichever order, also where the listener could not be made, but
-- without the use of freed memory that the failed setup of a channel leads to: each channel calls the incoming callback
-- once, with a channel before this is open or with an error, and the shutdown callback once if it was given to the user
-- and is gone; the listener and the channels hold the references, and the destroy callback is called once, when all of
-- them are gone.
pub listener_steps-IsServing :
    (use_tls : Bool) (error_code : Option AwsError) (steps : List ListenerStep)
    → (listener_steps steps (new_socket_listener use_tls error_code)).dangling ≡ false
    → IsServing (listener_steps steps (new_socket_listener use_tls error_code))
unfolding new_socket_listener
listener_steps-IsServing use_tls none steps u =
    listener_steps-kept steps (new_socket_listener use_tls none) refl (ground arith) u
listener_steps-IsServing use_tls (some e) steps u =
    listener_steps-kept steps (new_socket_listener use_tls (some e)) refl (ground arith) u
