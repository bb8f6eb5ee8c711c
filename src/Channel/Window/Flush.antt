-- ===== src/Channel/Window/Flush.antt =====
-- s_window_update_task of source/channel.c, which goes from the last slot to the first.
use aws_c_io.Base.{
  ℕ, zero, suc, ◌+◌, ◌≤◌, ◌≡◌, ◌≢◌, inl, inr, Bool, true, false, none, some, List, [], ◌∷◌, ◌==◌,
  refl, arith, length, u64_max, min, OpResult, success, run_ready, Option-cases, is_some,
  Bool-cases, subst, ap,
}
use aws_c_io.Common.{Common}
use aws_c_io.Channel.{Channel, is_open}
use aws_c_io.Channel.Slots.Order.{member, Distinct}
use aws_c_io.Channel.Slots.Links.{Linked}
use aws_c_io.Channel.Slots.Walk.{SamePlace, last_of, last_from-last_of, right-Trail}
use aws_c_io.Channel.Slots.Leftwards.{
  LeftTrail, rev_onto, member-rev_onto, length-rev_onto, rev_onto-Distinct, rev_onto-LeftTrail,
  rev_onto_last, head_apart, member_same, member_later, LeftTrail-frame,
}
use aws_c_io.Channel.Window.{apply_batch, update_windows_from, window_update_task}

-- What the handlers may do with an increment: they succeed, and raise the batch of their own slot at most.
pub record Frames (on_increment : ℕ → ℕ → ℕ → Channel → Channel × OpResult) : Type 0 where
  pub succeeds : (h u size : ℕ) (c : Channel) → (on_increment h u size c).1 ≡ success
  pub places :
      (h u size : ℕ) (c : Channel) (y : ℕ)
      → SamePlace (((on_increment h u size c).0).slots y) (c.slots y)
  pub windows :
      (h u size : ℕ) (c : Channel) (y : ℕ)
      → (((on_increment h u size c).0).slots y).window_size ≡ (c.slots y).window_size
  pub batches :
      (h u size : ℕ) (c : Channel) (y : ℕ)
      → y ≢ u
      → (((on_increment h u size c).0).slots y).current_window_update_batch_size
        ≡ (c.slots y).current_window_update_batch_size
  pub own_batch :
      (h u size : ℕ) (c : Channel)
      → min (c.slots u).current_window_update_batch_size u64_max
        ≤ (((on_increment h u size c).0).slots u).current_window_update_batch_size

-- Whether the update task hands on the batch of a slot: there is a handler to its left.
abbrev pub hands_on : Channel → ℕ → Bool
hands_on c x = elim (c.slots x).adj_left [ none ↦ false | some u ↦ is_some (c.slots u).handler ]

-- A slot's batch has become a part of its window, saturating.
abbrev pub IsFlushed : Channel → Channel → ℕ → Type 0
IsFlushed c c' x =
    ((c'.slots x).current_window_update_batch_size ≡ 0)
    × (min ((c.slots x).window_size + (c.slots x).current_window_update_batch_size) u64_max
        ≤ (c'.slots x).window_size)

hands_on-frame :
    (c c' : Channel) (x : ℕ)
    → ((y : ℕ) → SamePlace (c'.slots y) (c.slots y))
    → hands_on c x ≡ true
    → hands_on c' x ≡ true
hands_on-frame c c' x h o = elim (Option-cases (c.slots x).adj_left) [
  | inl e ↦ ground (arith, h x)
  | inr (u, e) ↦ ground (arith, h x, h u)
]

module _ (common : Common) (on_increment : ℕ → ℕ → ℕ → Channel → Channel × OpResult)
    (frames : Frames on_increment) where
  abbrev answered : ℕ → ℕ → ℕ → Channel → Channel
  answered h u i c =
      (on_increment h u (c.slots i).current_window_update_batch_size (apply_batch common i c)).0

  answered-place :
      (h u i : ℕ) (c : Channel) (y : ℕ) → SamePlace ((answered h u i c).slots y) (c.slots y)
  answered-place h u i c y = ground (
    arith,
    frames.places h u (c.slots i).current_window_update_batch_size (apply_batch common i c) y,
  )

  -- One round of the loop.
  update_windows_from-round :
      (fuel i u h : ℕ) (c : Channel)
      → (c.slots i).adj_left ≡ some u
      → (c.slots u).handler ≡ some h
      → update_windows_from common on_increment (suc fuel) i c
        ≡ update_windows_from common on_increment fuel u (answered h u i c)
  unfolding update_windows_from
  update_windows_from-round fuel i u h c e f = ground (
    arith,
    e,
    f,
    answered-place h u i c i,
    frames.succeeds h u (c.slots i).current_window_update_batch_size (apply_batch common i c),
  )

  update_windows_from_succeeds :
      (fuel i : ℕ) (zs : List ℕ) (c : Channel)
      → LeftTrail c.slots (i ∷ zs)
      → length zs ≤ fuel
      → (update_windows_from common on_increment fuel i c).1 ≡ none
  unfolding update_windows_from
  update_windows_from_succeeds zero i zs c t g = refl
  update_windows_from_succeeds (suc fuel) i [] c t g = ground arith
  update_windows_from_succeeds (suc fuel) i (u ∷ us) c t g =
      elim (Option-cases (c.slots u).handler) [
        | inl e ↦ ground (arith, update_windows_from_succeeds fuel u us c t.1)
        | inr (h, e) ↦ ground (
          arith,
          update_windows_from-round fuel i u h c t.0 e,
          update_windows_from_succeeds fuel u us (answered h u i c) (
              LeftTrail-frame (answered h u i c).slots c.slots (u ∷ us) (answered-place h u i c)
                t.1),
        )
      ]

  -- The loop leaves windows and batches alone of slots to the right of where it starts.
  update_windows_from-right :
      (fuel i : ℕ) (zs : List ℕ) (c : Channel) (x : ℕ)
      → LeftTrail c.slots (i ∷ zs)
      → member x (i ∷ zs) ≡ false
      → length zs ≤ fuel
      → ((((update_windows_from common on_increment fuel i c).0).slots x).window_size
          ≡ (c.slots x).window_size)
        × ((((update_windows_from common on_increment fuel i c).0).slots
              x).current_window_update_batch_size
            ≡ (c.slots x).current_window_update_batch_size)
  unfolding update_windows_from
  update_windows_from-right zero i [] c x t m g = (refl, refl)
  update_windows_from-right zero i (u ∷ us) c x t m g = ground arith
  update_windows_from-right (suc fuel) i [] c x t m g = ground (arith)
  update_windows_from-right (suc fuel) i (u ∷ us) c x t m g =
      elim (Option-cases (c.slots u).handler) [
        | inl e ↦ ground (arith, update_windows_from-right fuel u us c x t.1)
        | inr (h, e) ↦ ground (
          arith,
          update_windows_from-round fuel i u h c t.0 e,
          update_windows_from-right fuel u us (answered h u i c) x (
              LeftTrail-frame (answered h u i c).slots c.slots (u ∷ us) (answered-place h u i c)
                t.1),
          frames.windows h u (c.slots i).current_window_update_batch_size (apply_batch common i c)
              x,
          frames.batches h u (c.slots i).current_window_update_batch_size (apply_batch common i c)
              x,
        )
      ]

  here-IsFlushed :
      (h u i : ℕ) (c c' : Channel) (x : ℕ)
      → (x == i) ≡ true
      → i ≢ u
      → ((c'.slots x).window_size ≡ ((answered h u i c).slots x).window_size)
        × ((c'.slots x).current_window_update_batch_size
            ≡ ((answered h u i c).slots x).current_window_update_batch_size)
      → IsFlushed c c' x
  here-IsFlushed h u i c c' x q n (w, b) = ground (
    arith,
    frames.windows h u (c.slots i).current_window_update_batch_size (apply_batch common i c) x,
    frames.batches h u (c.slots i).current_window_update_batch_size (apply_batch common i c) x,
    common.add_size_saturating_lem (c.slots i).window_size
        (c.slots i).current_window_update_batch_size,
  )

  later-IsFlushed :
      (h u i : ℕ) (c c' : Channel) (x : ℕ)
      → (x == i) ≡ false
      → IsFlushed (answered h u i c) c' x
      → IsFlushed c c' x
  later-IsFlushed h u i c c' x q f = ground (
    arith,
    frames.windows h u (c.slots i).current_window_update_batch_size (apply_batch common i c) x,
    frames.batches h u (c.slots i).current_window_update_batch_size (apply_batch common i c) x,
    frames.own_batch h u (c.slots i).current_window_update_batch_size (apply_batch common i c),
  )

  pub update_windows_from-IsFlushed :
      (fuel i : ℕ) (zs : List ℕ) (c : Channel) (x : ℕ)
      → LeftTrail c.slots (i ∷ zs)
      → Distinct (i ∷ zs)
      → length zs ≤ fuel
      → member x (i ∷ zs) ≡ true
      → hands_on c x ≡ true
      → IsFlushed c ((update_windows_from common on_increment fuel i c).0) x
  unfolding update_windows_from
  update_windows_from-IsFlushed fuel i [] c x t d g m o = ground arith
  update_windows_from-IsFlushed zero i (u ∷ us) c x t d g m o = ground arith
  update_windows_from-IsFlushed (suc fuel) i (u ∷ us) c x t d g m o =
      elim (Option-cases (c.slots u).handler) [
        | inl e ↦ ground (arith, update_windows_from-IsFlushed fuel u us c x t.1 d.1)
        | inr (h, e) ↦
            let t' : LeftTrail (answered h u i c).slots (u ∷ us) =
              LeftTrail-frame (answered h u i c).slots c.slots (u ∷ us) (answered-place h u i c)
                t.1 in
            rw (update_windows_from-round fuel i u h c t.0 e) (elim (Bool-cases (x == i)) [
              | inl q ↦
                  here-IsFlushed h u i c
                    ((update_windows_from common on_increment fuel u (answered h u i c)).0) x q
                    (head_apart i u us d.0)
                    (update_windows_from-right fuel u us (answered h u i c) x t'
                      (member_same x i (u ∷ us) q d.0) (omega arith))
              | inr q ↦
                  later-IsFlushed h u i c
                    ((update_windows_from common on_increment fuel u (answered h u i c)).0) x q
                    (update_windows_from-IsFlushed fuel u us (answered h u i c) x t' d.1
                      (omega arith) (member_later x i (u ∷ us) q m)
                      (hands_on-frame c (answered h u i c) x (answered-place h u i c) o))
            ])
      ]

  from_last :
      (fuel last : ℕ) (xs zs : List ℕ) (c : Channel) (x : ℕ)
      → Linked c xs
      → rev_onto xs [] ≡ last ∷ zs
      → length xs ≤ suc fuel
      → member x xs ≡ true
      → hands_on c x ≡ true
      → ((update_windows_from common on_increment fuel last c).1 ≡ none)
        × IsFlushed c ((update_windows_from common on_increment fuel last c).0) x
  from_last fuel last xs zs c x l e g m h =
      let t : LeftTrail c.slots (last ∷ zs) =
        subst (λ ws. LeftTrail c.slots ws) e
          (rev_onto-LeftTrail c.slots xs [] l.distinct l.left tt) in
      let d : Distinct (last ∷ zs) =
        subst (λ ws. Distinct ws) e (rev_onto-Distinct xs [] l.distinct tt (λ y n. refl)) in
      let g' : length zs ≤ fuel = ground (arith, ap (λ ws. length ws) e, length-rev_onto xs []) in
      let m' : member x (last ∷ zs) ≡ true =
        ground (arith, ap (λ ws. member x ws) e, member-rev_onto x xs []) in
      (
        update_windows_from_succeeds fuel last zs c t g',
        update_windows_from-IsFlushed fuel last zs c x t d g' m' h,
      )

  -- With handlers that succeed and at most increment their own slot, s_window_update_task of an open
  -- channel, with fuel for every slot, shuts nothing down, and it hands on the batch of each slot with a
  -- handler to its left: none waits, and the window has grown by it or is full.
  pub window_update_task-IsFlushed :
      (fuel first : ℕ) (rest : List ℕ) (c : Channel) (x : ℕ)
      → Linked c (first ∷ rest)
      → is_open c.channel_state ≡ true
      → length rest ≤ fuel
      → member x (first ∷ rest) ≡ true
      → hands_on c x ≡ true
      → ((window_update_task common on_increment fuel run_ready c).1 ≡ none)
        × IsFlushed c ((window_update_task common on_increment fuel run_ready c).0) x
  unfolding window_update_task
  window_update_task-IsFlushed fuel first rest c x l o g m h =
      let (zs, e) = rev_onto_last first rest [] in
      let l' : Linked (record c { window_update_scheduled = false }) (first ∷ rest) = record {
        front = l.front;
        distinct = l.distinct;
        left = l.left;
        right = l.right;
      } in
      ground (
        arith,
        l.front,
        o,
        last_from-last_of c fuel first rest (right-Trail c.slots (first ∷ rest) l.right l.distinct)
            g,
        from_last fuel (last_of first rest) (first ∷ rest) zs
            (record c { window_update_scheduled = false }) x l' e (omega (arith, g)) m h,
      )
