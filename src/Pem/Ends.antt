-- ===== src/Pem/Ends.antt =====
-- aws_sanitize_pem of source/pem.c: the end of its loop.
use aws_c_io.Base.{
  length-drop, ℕ, zero, suc, ◌+◌, ◌*◌, ◌≤◌, ◌<◌, ◌≡◌, List, [], ◌∷◌, length, refl, arith,
  Bool-cases, inl, inr,
}
use aws_c_io.Pem.Sanitize.{
  PemParseState, begin, on_data, end_part, begin_header, end_header, dashes, CleanBuf, Sanitizing,
  is_at, sanitize_round, sanitize_loop,
}

-- What is left to do: two rounds for a byte, and one more where a header is looked for.
abbrev pub work : Sanitizing → ℕ
work s = 2 * length s.rest + (elim s.state [ begin ↦ 1 | _ ↦ 0 ])

round-work :
    (grow : ℕ → ℕ) (after : List ℕ) (st : PemParseState) (c : ℕ) (cs : List ℕ) (clean : CleanBuf)
    → work (sanitize_round grow after st c cs clean)
      < work (record { state = st; rest = c ∷ cs; clean = clean })
unfolding sanitize_round
round-work grow after begin c cs clean = elim (Bool-cases (is_at begin_header c cs after)) [
  | inl q ↦ rw (sanitize_round, q) (omega arith)
  | inr q ↦ rw (sanitize_round, q) (omega arith)
]
round-work grow after on_data c cs clean = elim (Bool-cases (is_at end_header c cs after)) [
  | inl q ↦ rw (sanitize_round, q) (omega (arith, length-drop 7 cs))
  | inr q ↦ rw (sanitize_round, q) (omega arith)
]
round-work grow after end_part c cs clean = elim (Bool-cases (is_at dashes c cs after)) [
  | inl q ↦ rw (sanitize_round, q) (omega (arith, length-drop 4 cs))
  | inr q ↦ rw (sanitize_round, q) (omega arith)
]

-- With fuel for the work that is left, the loop ends.
pub sanitize_loop-ends :
    (grow : ℕ → ℕ) (after : List ℕ) (fuel : ℕ) (st : PemParseState) (cs : List ℕ) (clean : CleanBuf)
    → work (record { state = st; rest = cs; clean = clean }) ≤ fuel
    → (sanitize_loop grow after fuel (record { state = st; rest = cs; clean = clean })).rest ≡ []
unfolding sanitize_loop
sanitize_loop-ends grow after zero st [] clean h = refl
sanitize_loop-ends grow after zero st (c ∷ cs) clean h = absurd (omega (arith, h))
sanitize_loop-ends grow after (suc fuel) st [] clean h = refl
sanitize_loop-ends grow after (suc fuel) st (c ∷ cs) clean h =
    let next = sanitize_round grow after st c cs clean in
    sanitize_loop-ends grow after fuel next.state next.rest next.clean
      (omega (arith, h, round-work grow after st c cs clean))
