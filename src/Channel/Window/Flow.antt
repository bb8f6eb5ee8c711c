-- ===== src/Channel/Window/Flow.antt =====
-- Accounts of the read window of source/channel.c: what was granted, what was sent, what waits.
use aws_c_io.Base.{
  ℕ, ◌+◌, ◌≤◌, ◌<◌, ◌≡◌, ◌≢◌, ◌⊎◌, true, some, Option-cases, inl, inr, List, [], ◌∷◌, ◌==◌,
  if◌then◌else◌, arith, u64_mod, channel_read_would_exceed_window,
}
use aws_c_io.Common.{Common}
use aws_c_io.Channel.{Channel, read_dir}
use aws_c_io.Channel.Window.{
  Sent, to_handler, refused, send_message, send_right, increment_read_window, apply_batch,
}

-- With back pressure a message to the right either fits and takes its length from the neighbour's
-- window alone, or is longer than the window, is refused, and leaves the channel as it is.
pub send_message_window :
    (c : Channel) (slot right len : ℕ)
    → (c.slots slot).adj_right ≡ some right
    → c.read_back_pressure_enabled ≡ true
    → (c.slots right).window_size < u64_mod
    → ((((send_message slot len read_dir c).1 ≡ to_handler right read_dir)
          × ((((send_message slot len read_dir c).0).slots right).window_size + len
              ≡ (c.slots right).window_size))
        × ((x : ℕ) → x ≢ right → ((send_message slot len read_dir c).0).slots x ≡ c.slots x))
      ⊎ ((send_message slot len read_dir c ≡ (c, refused channel_read_would_exceed_window))
          × ((c.slots right).window_size < len))
unfolding send_message
send_message_window c slot right len e b w = ground (arith, e)

-- A message changes no neighbour and no setting.
pub send_message-links :
    (c : Channel) (slot len x : ℕ)
    → ((((send_message slot len read_dir c).0).slots x).adj_right ≡ (c.slots x).adj_right)
      × (((send_message slot len read_dir c).0).read_back_pressure_enabled
          ≡ c.read_back_pressure_enabled)
unfolding send_message send_right
send_message-links c slot len x = elim (Option-cases (c.slots slot).adj_right) [
  | inl q ↦ ground (arith, q)
  | inr (right, q) ↦ ground (arith, q)
]

-- Whether the channel has what it needs to hand the batch of a slot on: none waits, the task is
-- queued, or the window is still above the threshold.
abbrev pub IsPending : Channel → ℕ → Type 0
IsPending c x =
    ((c.slots x).current_window_update_batch_size ≡ 0)
    ⊎ ((c.window_update_scheduled ≡ true)
        ⊎ (c.window_update_batch_emit_threshold < (c.slots x).window_size))

-- An increment of any slot leaves no slot with a batch that waits for nothing.
pub increment_read_window-IsPending :
    (common : Common) (c : Channel) (slot window x : ℕ)
    → IsPending c x
    → IsPending (increment_read_window common slot window c) x
unfolding increment_read_window
increment_read_window-IsPending common c slot window x p = ground arith

-- What may happen to the windows of a channel: a message to the right from a slot, an increment, and
-- the update of one slot by the window update task.
pub data FlowEvent : Type 0 where
  sending incrementing : ℕ → ℕ → FlowEvent
  updating : ℕ → FlowEvent

-- The channel with the bytes sent to the handler of slot `x` and granted by it.
pub record Ledger : Type 0 where
  pub chan : Channel
  pub delivered : ℕ
  pub granted : ℕ

abbrev received : ℕ → ℕ → Channel × Sent → ℕ
received x len (c, to_handler i dir) = if i == x then len else 0
received x len (c, _) = 0

module _ (common : Common) (x : ℕ) where
  pub flow : FlowEvent → Ledger → Ledger
  flow (sending slot len) l =
      let r = send_message slot len read_dir l.chan in
      record l { chan = r.0; delivered = l.delivered + received x len r }
  flow (incrementing slot n) l = record l {
    chan = increment_read_window common slot n l.chan;
    granted = l.granted + (if slot == x then n else 0);
  }
  flow (updating slot) l = record l { chan = apply_batch common slot l.chan }

  pub flow_all : List FlowEvent → Ledger → Ledger
  unfolding flow
  flow_all [] l = l
  flow_all (e ∷ es) l = flow_all es (flow e l)

  -- No more was sent than granted, and what was not sent bounds the window and the waiting batch.
  abbrev pub IsBalanced : Ledger → Type 0
  IsBalanced l =
      (l.chan.read_back_pressure_enabled ≡ true)
      × ((l.chan.slots x).window_size < u64_mod)
      × (l.delivered
            + (l.chan.slots x).window_size
            + (l.chan.slots x).current_window_update_batch_size
          ≤ l.granted)

  add_size_saturating-le :
      (a b : ℕ)
      → (common.add_size_saturating a b ≤ a + b) × (common.add_size_saturating a b < u64_mod)
  add_size_saturating-le a b = ground (arith, common.add_size_saturating_lem a b)

  flow-IsBalanced : (e : FlowEvent) (l : Ledger) → IsBalanced l → IsBalanced (flow e l)
  unfolding flow send_message send_right increment_read_window
  flow-IsBalanced (sending slot len) l b = ground arith
  flow-IsBalanced (incrementing slot n) l b =
      ground (arith, add_size_saturating-le (l.chan.slots slot).current_window_update_batch_size n)
  flow-IsBalanced (updating slot) l b = ground (
    arith,
    add_size_saturating-le (l.chan.slots slot).window_size
        (l.chan.slots slot).current_window_update_batch_size,
  )

  -- Over every history of messages, increments and window updates, with back pressure, the bytes sent
  -- to a slot's handler, its window and its waiting batch are together at most the bytes it granted.
  pub flow_all-IsBalanced :
      (es : List FlowEvent) (l : Ledger) → IsBalanced l → IsBalanced (flow_all es l)
  unfolding flow_all
  flow_all-IsBalanced [] l b = b
  flow_all-IsBalanced (e ∷ es) l b = flow_all-IsBalanced es (flow e l) (flow-IsBalanced e l b)
