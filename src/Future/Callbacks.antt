-- ===== src/Future/Callbacks.antt =====
-- The callbacks of source/future.c.
use mathlib.Core.List.{append_assoc, append-nil}
use aws_c_io.Base.{
  ℕ, ◌≡◌, ◌⊎◌, inl, inr, ◌∙◌, sym, Bool, true, false, Option, none, some, List, [], ◌∷◌, ◌++◌, refl,
  arith, Option-cases, Bool-cases,
}
use aws_c_io.Future.{
  Future, Callback, Effect, invoke, destroy, moved, hold_channel, Op, register_op,
  register_if_not_done_op, move_op, step, run, then_run, new, FutureType,
}

-- The callbacks called or scheduled, in order.
abbrev pub calls : List Effect → List Callback
calls [] = []
calls (invoke callback ∷ effects) = callback ∷ calls effects
calls (destroy v ∷ effects) = calls effects
calls (moved v ∷ effects) = calls effects
calls (hold_channel c ∷ effects) = calls effects

abbrev pub pending : Option Callback → List Callback
pending none = []
pending (some callback) = callback ∷ []

-- The callback that an operation registers: register_callback_if_not_done ignores it on a future
-- that is done.
abbrev pub registers : Op → Bool → List Callback
registers (register_op callback) done = callback ∷ []
registers (register_if_not_done_op callback) false = callback ∷ []
registers _ done = []

pub record IsSound (f : Future) : Type 0 where
  pub settled : f.is_done ≡ true → f.callback ≡ none
  pub unset : f.is_done ≡ false → (f.owns_result ≡ false) × (f.error_code ≡ 0)

calls-append : (xs ys : List Effect) → calls (xs ++ ys) ≡ calls xs ++ calls ys
calls-append [] ys = refl
calls-append (invoke callback ∷ xs) ys = rw (calls-append xs ys)
calls-append (destroy v ∷ xs) ys = calls-append xs ys
calls-append (moved v ∷ xs) ys = calls-append xs ys
calls-append (hold_channel c ∷ xs) ys = calls-append xs ys

module _ (error_unknown : ℕ) where
  pub step-IsSound :
      (op : Op) (f f' : Future) (effects : List Effect)
      → IsSound f
      → step error_unknown op f ≡ some (f', effects)
      → IsSound f'
  unfolding step
  step-IsSound op f f' effects s e = ground arith

  step-calls :
      (op : Op) (f f' : Future) (effects : List Effect)
      → IsSound f
      → step error_unknown op f ≡ some (f', effects)
      → calls effects ++ pending f'.callback ≡ pending f.callback ++ registers op f.is_done
  unfolding step
  step-calls op f f' effects s e = ground arith

  -- The callbacks that a history registers, in order.
  pub registered : List Op → Future → List Callback
  registered [] f = []
  registered (op ∷ ops) f = elim (step error_unknown op f) [
    | none ↦ []
    | some (g, effects) ↦ registers op f.is_done ++ registered ops g
  ]

  then_run-eq_some :
      (o : Option (Future × List Effect)) (first : List Effect) (f' : Future)
      (effects : List Effect)
      → then_run error_unknown o first ≡ some (f', effects)
      → (later : List Effect) × (o ≡ some (f', later)) × (effects ≡ first ++ later)
  then_run-eq_some none first f' effects e = cc
  then_run-eq_some (some (f, later)) first f' effects e = (later, ground arith, ground arith)

  run-cons_eq :
      (op : Op) (ops : List Op) (f g : Future) (first : List Effect)
      → f.destroyed ≡ false
      → step error_unknown op f ≡ some (g, first)
      → run error_unknown (op ∷ ops) f ≡ then_run error_unknown (run error_unknown ops g) first
  unfolding run
  run-cons_eq op ops f g first alive e = ground arith

  run-destroyed :
      (op : Op) (ops : List Op) (f : Future)
      → (f.destroyed ≡ true) ⊎ (step error_unknown op f ≡ none)
      → run error_unknown (op ∷ ops) f ≡ none
  unfolding run
  run-destroyed op ops f h = ground arith

  -- A history that is not stopped makes its first step and goes on.
  pub run-cons :
      (op : Op) (ops : List Op) (f f' : Future) (effects : List Effect)
      → run error_unknown (op ∷ ops) f ≡ some (f', effects)
      → (g : Future) × (first : List Effect) × (later : List Effect) × (f.destroyed ≡ false)
        × (step error_unknown op f ≡ some (g, first))
        × (run error_unknown ops g ≡ some (f', later))
        × (effects ≡ first ++ later)
  run-cons op ops f f' effects e = elim (Bool-cases f.destroyed) [
    | inl dead ↦ cc (run-destroyed op ops f (inl dead))
    | inr alive ↦ elim (Option-cases (step error_unknown op f)) [
      | inl stop ↦ cc (run-destroyed op ops f (inr stop))
      | inr ((g, first), p) ↦
          (let (later, q, r) =
              then_run-eq_some (run error_unknown ops g) first f' effects
                (sym (run-cons_eq op ops f g first alive p) ∙ e) in
            (g, first, later, alive, p, q, r))
    ]
  ]

  pub run-calls :
      (ops : List Op) (f f' : Future) (effects : List Effect)
      → IsSound f
      → run error_unknown ops f ≡ some (f', effects)
      → IsSound f' × (calls effects ++ pending f'.callback ≡ pending f.callback ++ registered ops f)
  unfolding run registered
  run-calls [] f f' effects s e = ground (arith, append-nil (pending f.callback), s)
  run-calls (op ∷ ops) f f' effects s e =
      let (g, first, later, alive, p, q, r) = run-cons op ops f f' effects e in
      let (t, ih) = run-calls ops g f' later (step-IsSound op f g first s p) q in
      (
        t,
        ground (
          arith,
          p,
          r,
          ih,
          step-calls op f g first s p,
          calls-append first later,
          append_assoc (calls first) (calls later) (pending f'.callback),
          append_assoc (calls first) (pending g.callback) (registered ops g),
          append_assoc (pending f.callback) (registers op f.is_done) (registered ops g),
        ),
      )

  -- By the time that a future is done, every callback that was registered on it has been called or
  -- scheduled, each of them once and in the order of their registration.
  pub run-calls_done :
      (kind : FutureType) (ops : List Op) (f' : Future) (effects : List Effect)
      → run error_unknown ops (new kind) ≡ some (f', effects)
      → f'.is_done ≡ true
      → calls effects ≡ registered ops (new kind)
  unfolding new
  run-calls_done kind ops f' effects e d =
      let (s, h) =
        run-calls ops (new kind) f' effects
          (record { settled = λ x. refl; unset = λ x. (refl, refl) }) e in
      ground (arith, h, s.settled d, append-nil (calls effects))

  -- The first outcome stands: no operation makes a future that is done undone or changes its error,
  -- and its result stays until it is moved out.
  pub step_done_stable :
      (op : Op) (f f' : Future) (effects : List Effect)
      → f.is_done ≡ true
      → step error_unknown op f ≡ some (f', effects)
      → (f'.is_done ≡ true)
        × (f'.error_code ≡ f.error_code)
        × (((f'.result ≡ f.result) × (f'.owns_result ≡ f.owns_result))
            ⊎ ((op ≡ move_op) × (effects ≡ moved f.result ∷ []) × (f'.owns_result ≡ false)))
  unfolding step
  step_done_stable op f f' effects d e = ground arith
