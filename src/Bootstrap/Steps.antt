-- ===== src/Bootstrap/Steps.antt =====
-- What each step of a client's connection in source/channel_bootstrap.c keeps.
use aws_c_io.Base.{
  ℕ, ◌+◌, ◌-◌, ◌<◌, ◌≡◌, Bool, true, false, Option, none, some, ◌==◌, if◌then◌else◌, AwsError,
  TaskStatus, run_ready, canceled, length, arith, Bool-cases, inl, inr,
}
use aws_c_io.Bootstrap.{
  Phase, no_channel, not_made, channel_not_made, open_channel, gone, ConnectionArgs, setup_callback,
  shutdown_callback, attempt_failed, host_not_resolved, host_resolved, attempt_connection,
  connection_established, channel_setup_completed, negotiation_result, channel_on_shutdown,
  host_error, host_addresses, attempt_runs, established, setup_completes, negotiated, shut_down,
  connect_step,
}

-- Whether a channel holds a reference, or one has been lost for it; and whether the user has been told of it.
abbrev pub live : Phase → ℕ
live no_channel = 0
live gone = 0
live _ = 1

abbrev pub told : Phase → Bool
told open_channel = true
told gone = true
told _ = false

abbrev pub has_channel : Phase → Bool
has_channel no_channel = false
has_channel _ = true

abbrev pub is_not_made : Phase → Bool
is_not_made not_made = true
is_not_made _ = false

-- What holds while the host is resolved, while no connection has won, and after one has.
abbrev pub Mode : Bool → Bool → ConnectionArgs → Type 0
Mode true chosen a =
    (chosen ≡ false)
    × (a.setup_called ≡ false)
    × (a.phase ≡ no_channel)
    × (a.failed_count ≡ 0)
    × (a.addresses_count ≡ 0)
    × (a.attempts + a.connecting ≡ 0)
Mode false false a =
    (a.phase ≡ no_channel)
    × (a.failed_count + a.attempts + a.connecting ≡ a.addresses_count)
    × (a.setup_called ≡ (a.failed_count == a.addresses_count))
Mode false true a =
    (a.failed_count + a.attempts + a.connecting
      < a.addresses_count + (if is_not_made a.phase then 1 else 0))
    × (a.setup_called
        ≡ (if is_not_made a.phase then a.failed_count == a.addresses_count else told a.phase))
    × (has_channel a.phase ≡ true)

abbrev pub IsSound : ConnectionArgs → Type 0
IsSound a =
    (a.ref_count ≡ (if a.setup_called then 0 else 1) + a.attempts + a.connecting + live a.phase)
    × (length a.setup_calls ≡ (if a.setup_called then 1 else 0))
    × (a.fatal ≡ false)
    × (a.addresses_count < 256)
    × Mode a.is_resolving a.connection_chosen a

pub host_error-IsSound :
    (e : AwsError) (a : ConnectionArgs) → IsSound a → IsSound (connect_step (host_error e) a)
unfolding connect_step host_not_resolved setup_callback
host_error-IsSound e a h = elim (Bool-cases a.is_resolving) [
  | inl q ↦ ground (arith, q, h)
  | inr q ↦ ground (arith, q, h)
]

pub host_addresses-IsSound :
    (n : ℕ) (a : ConnectionArgs)
    → 0 < n
    → n < 256
    → IsSound a
    → IsSound (connect_step (host_addresses n) a)
unfolding connect_step host_resolved
host_addresses-IsSound n a p b h = elim (Bool-cases a.is_resolving) [
  | inl q ↦ ground (arith, q, h, p, b)
  | inr q ↦ ground (arith, q, h)
]

-- An attempt has failed, which has been taken out of the counts of those that go on.
attempt_failed_chosen :
    (e : Option AwsError) (a : ConnectionArgs)
    → a.ref_count ≡ (if a.setup_called then 0 else 1) + a.attempts + a.connecting + live a.phase + 1
    → length a.setup_calls ≡ (if a.setup_called then 1 else 0)
    → a.fatal ≡ false
    → a.addresses_count < 256
    → a.is_resolving ≡ false
    → a.connection_chosen ≡ true
    → a.failed_count + a.attempts + a.connecting + 1
      < a.addresses_count + (if is_not_made a.phase then 1 else 0)
    → a.setup_called
      ≡ (if is_not_made a.phase then a.failed_count == a.addresses_count else told a.phase)
    → has_channel a.phase ≡ true
    → IsSound (attempt_failed e a)
unfolding attempt_failed setup_callback
attempt_failed_chosen none a r l f b g c m t p = ground (arith, r, l, f, b, g, c, m, t, p)
attempt_failed_chosen (some e) a r l f b g c m t p = ground (arith, r, l, f, b, g, c, m, t, p)

attempt_failed_untaken :
    (e : Option AwsError) (a : ConnectionArgs)
    → a.ref_count ≡ 1 + a.attempts + a.connecting + 1
    → length a.setup_calls ≡ 0
    → a.fatal ≡ false
    → a.addresses_count < 256
    → a.is_resolving ≡ false
    → a.connection_chosen ≡ false
    → a.failed_count + a.attempts + a.connecting + 1 ≡ a.addresses_count
    → a.setup_called ≡ false
    → a.phase ≡ no_channel
    → IsSound (attempt_failed e a)
unfolding attempt_failed setup_callback
attempt_failed_untaken none a r l f b g c m t p =
    elim (Bool-cases (a.failed_count + 1 == a.addresses_count)) [
      | inl q ↦ ground (arith, q, r, l, f, b, g, c, m, t, p)
      | inr q ↦ ground (arith, q, r, l, f, b, g, c, m, t, p)
    ]
attempt_failed_untaken (some e) a r l f b g c m t p =
    elim (Bool-cases (a.failed_count + 1 == a.addresses_count)) [
      | inl q ↦ ground (arith, q, r, l, f, b, g, c, m, t, p)
      | inr q ↦ ground (arith, q, r, l, f, b, g, c, m, t, p)
    ]

-- An attempt that was counted as `attempts` has failed.
attempt_ends-IsSound :
    (e : Option AwsError) (a : ConnectionArgs)
    → (a.attempts == 0) ≡ false
    → IsSound a
    → IsSound (attempt_failed e (record a { attempts = a.attempts - 1 }))
attempt_ends-IsSound e a z h = elim (Bool-cases a.is_resolving) [
  | inl q ↦ absurd (ground (arith, q, z, h))
  | inr q ↦ elim (Bool-cases a.connection_chosen) [
    | inl c ↦
        ground (arith, q, c, z, h, attempt_failed_chosen e (record a { attempts = a.attempts - 1 }))
    | inr c ↦
        ground
          (arith, q, c, z, h, attempt_failed_untaken e (record a { attempts = a.attempts - 1 }))
  ]
]

pub attempt_runs-IsSound :
    (status : TaskStatus) (e : Option AwsError) (a : ConnectionArgs)
    → IsSound a
    → IsSound (connect_step (attempt_runs status e) a)
unfolding connect_step attempt_connection
attempt_runs-IsSound run_ready none a h = elim (Bool-cases a.is_resolving) [
  | inl q ↦ ground (arith, q, h)
  | inr q ↦ elim (Bool-cases a.connection_chosen) [
    | inl c ↦ ground (arith, q, c, h)
    | inr c ↦ ground (arith, q, c, h)
  ]
]
attempt_runs-IsSound run_ready (some e) a h = elim (Bool-cases (a.attempts == 0)) [
  | inl z ↦ rw (connect_step, z) h
  | inr z ↦ rw (connect_step, z) (attempt_ends-IsSound (some e) a z h)
]
attempt_runs-IsSound canceled e a h = elim (Bool-cases (a.attempts == 0)) [
  | inl z ↦ rw (connect_step, z) h
  | inr z ↦ rw (connect_step, z) (attempt_ends-IsSound e a z h)
]

pub setup_completes-IsSound :
    (e : Option AwsError) (a : ConnectionArgs)
    → IsSound a
    → IsSound (connect_step (setup_completes e) a)
unfolding connect_step channel_setup_completed setup_callback
setup_completes-IsSound none a h = elim (Bool-cases a.is_resolving) [
  | inl q ↦ ground (arith, q, h)
  | inr q ↦ elim (Bool-cases a.connection_chosen) [
    | inl c ↦ ground (arith, q, c, h)
    | inr c ↦ ground (arith, q, c, h)
  ]
]
setup_completes-IsSound (some e) a h = elim (Bool-cases a.is_resolving) [
  | inl q ↦ ground (arith, q, h)
  | inr q ↦ elim (Bool-cases a.connection_chosen) [
    | inl c ↦ ground (arith, q, c, h)
    | inr c ↦ ground (arith, q, c, h)
  ]
]

pub established-IsSound :
    (is_made : Bool) (e : Option AwsError) (a : ConnectionArgs)
    → IsSound a
    → IsSound (connect_step (established is_made e) a)
unfolding connect_step connection_established channel_not_made setup_callback
established-IsSound true none a h = elim (Bool-cases a.is_resolving) [
  | inl q ↦ ground (arith, q, h)
  | inr q ↦ elim (Bool-cases a.connection_chosen) [
    | inl c ↦ ground (arith, q, c, h)
    | inr c ↦ ground (arith, q, c, h)
  ]
]
established-IsSound false none a h = elim (Bool-cases a.is_resolving) [
  | inl q ↦ ground (arith, q, h)
  | inr q ↦ elim (Bool-cases a.connection_chosen) [
    | inl c ↦ ground (arith, q, c, h)
    | inr c ↦ ground (arith, q, c, h)
  ]
]
established-IsSound is_made (some e) a h = elim (Bool-cases (a.connecting == 0)) [
  | inl z ↦ ground (arith, z, h)
  | inr z ↦ elim (Bool-cases a.is_resolving) [
    | inl q ↦ ground (arith, q, z, h)
    | inr q ↦ elim (Bool-cases a.connection_chosen) [
      | inl c ↦ ground (
        arith,
        q,
        c,
        z,
        h,
        attempt_failed_chosen (some e) (record a { connecting = a.connecting - 1 }),
      )
      | inr c ↦ ground (
        arith,
        q,
        c,
        z,
        h,
        attempt_failed_untaken (some e) (record a { connecting = a.connecting - 1 }),
      )
    ]
  ]
]

pub negotiated-IsSound :
    (e : Option AwsError) (a : ConnectionArgs) → IsSound a → IsSound (connect_step (negotiated e) a)
unfolding connect_step negotiation_result setup_callback
negotiated-IsSound none a h = elim (Bool-cases a.is_resolving) [
  | inl q ↦ ground (arith, q, h)
  | inr q ↦ elim (Bool-cases a.connection_chosen) [
    | inl c ↦ ground (arith, q, c, h)
    | inr c ↦ ground (arith, q, c, h)
  ]
]
negotiated-IsSound (some e) a h = elim (Bool-cases a.is_resolving) [
  | inl q ↦ ground (arith, q, h)
  | inr q ↦ elim (Bool-cases a.connection_chosen) [
    | inl c ↦ ground (arith, q, c, h)
    | inr c ↦ ground (arith, q, c, h)
  ]
]

pub shut_down-IsSound :
    (e : Option AwsError) (a : ConnectionArgs) → IsSound a → IsSound (connect_step (shut_down e) a)
unfolding connect_step channel_on_shutdown shutdown_callback setup_callback
shut_down-IsSound none a h = elim (Bool-cases a.is_resolving) [
  | inl q ↦ ground (arith, q, h)
  | inr q ↦ elim (Bool-cases a.connection_chosen) [
    | inl c ↦ ground (arith, q, c, h)
    | inr c ↦ ground (arith, q, c, h)
  ]
]
shut_down-IsSound (some e) a h = elim (Bool-cases a.is_resolving) [
  | inl q ↦ ground (arith, q, h)
  | inr q ↦ elim (Bool-cases a.connection_chosen) [
    | inl c ↦ ground (arith, q, c, h)
    | inr c ↦ ground (arith, q, c, h)
  ]
]
