-- ===== src/Future/Results.antt =====
-- What becomes of the results that are put into a future of source/future.c.
use aws_c_io.Base.{
  ℕ, suc, ◌+◌, ◌≡◌, ◌≢◌, ap, ◌∙◌, Bool, true, false, some, List, [], ◌∷◌, ◌++◌, ◌&&◌, not, ◌==◌,
  if◌then◌else◌, refl, arith,
}
use aws_c_io.Future.{
  Future, FutureType, by_value_with_clean_up, pointer_with_destroy, pointer_with_release, Effect,
  invoke, destroy, moved, hold_channel, Op, set_result_op, step, run, new,
}
use aws_c_io.Future.Callbacks.{IsSound, step-IsSound, run-cons}

-- How often a result leaves a future.
abbrev pub gone : ℕ → List Effect → ℕ
gone v [] = 0
gone v (invoke callback ∷ effects) = gone v effects
gone v (destroy w ∷ effects) = if w == v then suc (gone v effects) else gone v effects
gone v (moved w ∷ effects) = if w == v then suc (gone v effects) else gone v effects
gone v (hold_channel c ∷ effects) = gone v effects

-- Whether the future has it.
abbrev pub holds : ℕ → Future → ℕ
holds v f = if f.is_done && (f.owns_result && (not f.destroyed && f.result == v)) then 1 else 0

-- How often a history puts it in.
abbrev pub given : ℕ → List Op → ℕ
given v [] = 0
given v (set_result_op w ∷ ops) = if w == v then suc (given v ops) else given v ops
given v (_ ∷ ops) = given v ops

-- The types that destroy their results.
abbrev pub destroys : FutureType → Bool
destroys by_value_with_clean_up = true
destroys pointer_with_destroy = true
destroys pointer_with_release = true
destroys _ = false

-- A future with an error has no result.
pub record Owns (f : Future) : Type 0 where
  pub sound : IsSound f
  pub exclusive : f.owns_result ≡ true → f.error_code ≡ 0

gone-append : (v : ℕ) (xs ys : List Effect) → gone v (xs ++ ys) ≡ gone v xs + gone v ys
gone-append v [] ys = omega arith
gone-append v (invoke callback ∷ xs) ys = gone-append v xs ys
gone-append v (destroy w ∷ xs) ys = ground (arith, gone-append v xs ys)
gone-append v (moved w ∷ xs) ys = ground (arith, gone-append v xs ys)
gone-append v (hold_channel c ∷ xs) ys = gone-append v xs ys

module _ (error_unknown : ℕ) where
  step-Owns :
      (op : Op) (f f' : Future) (effects : List Effect)
      → Owns f
      → step error_unknown op f ≡ some (f', effects)
      → Owns f' × (f'.kind ≡ f.kind)
  unfolding step
  step-Owns op f f' effects o e =
      let t = step-IsSound error_unknown op f f' effects o.sound e in
      (record { sound = t; exclusive = ground arith }, ground arith)

  step_results :
      (v : ℕ) (op : Op) (f f' : Future) (effects : List Effect)
      → Owns f
      → f.destroyed ≡ false
      → destroys f.kind ≡ true
      → v ≢ 0
      → step error_unknown op f ≡ some (f', effects)
      → given v (op ∷ []) + holds v f ≡ gone v effects + holds v f'
  unfolding step
  step_results v op f f' effects o alive k nz e = ground arith

  given-cons :
      (v : ℕ) (op : Op) (ops : List Op) → given v (op ∷ ops) ≡ given v (op ∷ []) + given v ops
  given-cons v op ops = ground arith

  run_results :
      (v : ℕ) (ops : List Op) (f f' : Future) (effects : List Effect)
      → Owns f
      → destroys f.kind ≡ true
      → v ≢ 0
      → run error_unknown ops f ≡ some (f', effects)
      → given v ops + holds v f ≡ gone v effects + holds v f'
  run_results v [] f f' effects o k nz e = unfold run in ground arith
  run_results v (op ∷ ops) f f' effects o k nz e =
      let (g, first, later, alive, p, q, r) = run-cons error_unknown op ops f f' effects e in
      let (t, same) = step-Owns op f g first o p in
      let ih = run_results v ops g f' later t (ap destroys same ∙ k) nz q in
      ground (
        arith,
        r,
        ih,
        given-cons v op ops,
        gone-append v first later,
        step_results v op f g first o alive k nz p,
      )

  -- A future whose type destroys its results loses none and gives none away twice: every result that
  -- is put in, as often as it is put in, has been moved to a caller or destroyed once, or is still in
  -- the future, which is not destroyed then. (NULL stands for no result.)
  pub run_results_exact :
      (kind : FutureType) (v : ℕ) (ops : List Op) (f' : Future) (effects : List Effect)
      → destroys kind ≡ true
      → v ≢ 0
      → run error_unknown ops (new kind) ≡ some (f', effects)
      → given v ops ≡ gone v effects + holds v f'
  unfolding new
  run_results_exact kind v ops f' effects k nz e = omega (
    arith,
    run_results v ops (new kind) f' effects
        (record {
          sound = record { settled = λ x. refl; unset = λ x. (refl, refl) };
          exclusive = λ x. refl;
        })
        k nz e,
  )
