-- ===== src/Channel/Lifetime/Holds.antt =====
-- The holds on a channel of source/channel.c, and when it is deleted.
use aws_c_io.Base.{
  ℕ, zero, suc, ◌+◌, ◌-◌, ◌≤◌, ◌<◌, ◌≡◌, Bool, true, false, List, [], ◌∷◌, ◌==◌, if◌then◌else◌,
  refl, arith, u64_mod, length,
}
use aws_c_io.Channel.{Channel, shut_down}
use aws_c_io.Channel.Slots.{cleanup_slot}
use aws_c_io.Channel.Slots.Order.{head?}
use aws_c_io.Channel.Slots.Links.{Linked}
use aws_c_io.Channel.Slots.Leftwards.{rev_onto}
use aws_c_io.Channel.Slots.Walk.{Trail, right-Trail}
use aws_c_io.Channel.Lifetime.{
  Life, cleanup_from, final_deletion, acquire_hold, release_hold, run_deletion,
}

-- What the channel's users and its event loop do.
pub data LifeStep : Type 0 where
  acquiring running_deletion : LifeStep
  releasing : Bool → LifeStep

-- `holders` counts those with a hold: only they may take one more or release one.
pub record Held : Type 0 where
  pub life : Life
  pub holders : ℕ

module _ (fuel : ℕ) where
  pub life_step : LifeStep → Held → Held
  life_step acquiring h =
      if h.holders == 0 then h else record { life = acquire_hold h.life; holders = h.holders + 1 }
  life_step (releasing on_thread) h =
      if h.holders == 0
      then h
      else record { life = release_hold fuel on_thread h.life; holders = h.holders - 1 }
  life_step running_deletion h = record h { life = run_deletion fuel (h.life) }

  pub life_steps : List LifeStep → Held → Held
  unfolding life_step
  life_steps [] h = h
  life_steps (s ∷ ss) h = life_steps ss (life_step s h)

  -- The count is that of the holders. While there are any the channel is neither deleted nor about to
  -- be; then it is deleted once, or its deletion is in the event loop.
  abbrev pub IsAlive : Held → Type 0
  IsAlive h =
      (h.life.refcount ≡ h.holders)
      × (h.life.deletions
            + (if h.life.deletion_queued then 1 else 0)
            + (if h.holders == 0 then 0 else 1)
          ≡ 1)

  life_step-IsAlive :
      (s : LifeStep) (h : Held) → h.holders + 1 < u64_mod → IsAlive h → IsAlive (life_step s h)
  unfolding life_step acquire_hold release_hold run_deletion final_deletion
  life_step-IsAlive acquiring h b a = ground arith
  life_step-IsAlive (releasing true) h b a = ground arith
  life_step-IsAlive (releasing false) h b a = ground arith
  life_step-IsAlive running_deletion h b a = ground arith

  holders_bound : (s : LifeStep) (h : Held) → (life_step s h).holders ≤ h.holders + 1
  unfolding life_step
  holders_bound acquiring h = ground arith
  holders_bound (releasing t) h = ground arith
  holders_bound running_deletion h = omega arith

  -- Over every history whose holders and steps are together fewer than 2^64, if that was so at first,
  -- the count is that of the holders, a channel is neither deleted nor about to be while anyone holds
  -- it, and once nobody does it has been deleted once or its deletion is in the event loop.
  pub life_steps-IsAlive :
      (ss : List LifeStep) (h : Held)
      → h.holders + length ss < u64_mod
      → IsAlive h
      → IsAlive (life_steps ss h)
  unfolding life_steps
  life_steps-IsAlive [] h b a = a
  life_steps-IsAlive (s ∷ ss) h b a =
      life_steps-IsAlive ss (life_step s h) (omega (arith, b, holders_bound s h))
        (life_step-IsAlive s h (omega (arith, b)) a)

cleanup_from-rev_onto :
    (fuel : ℕ) (xs : List ℕ) (c : Channel)
    → Trail c.slots xs
    → length xs ≤ fuel
    → (cleanup_from fuel (head? xs) c).freed ≡ rev_onto xs c.freed
unfolding cleanup_from cleanup_slot
cleanup_from-rev_onto zero [] c t g = refl
cleanup_from-rev_onto (suc fuel) [] c t g = refl
cleanup_from-rev_onto zero (x ∷ xs) c t g = ground arith
cleanup_from-rev_onto (suc fuel) (x ∷ xs) c t g =
    ground (arith, cleanup_from-rev_onto fuel xs (cleanup_slot x c))

-- The deletion of a channel, with fuel for every slot, releases every slot of it, each once and from
-- the first to the last.
pub final_deletion-rev_onto :
    (fuel : ℕ) (xs : List ℕ) (l : Life)
    → Linked l.chan xs
    → length xs ≤ fuel
    → (final_deletion fuel l).chan.freed ≡ rev_onto xs l.chan.freed
unfolding final_deletion
final_deletion-rev_onto fuel xs l k g =
    let c : Channel = l.chan in
    let t : Trail c.slots xs = right-Trail c.slots xs k.right k.distinct in
    ground (
      arith,
      k.front,
      cleanup_from-rev_onto fuel xs c t g,
      cleanup_from-rev_onto fuel xs (record c { channel_state = shut_down }) t g,
    )
