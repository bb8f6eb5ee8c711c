-- ===== src/Pem/Rejects.antt =====
-- aws_sanitize_pem of source/pem.c: which files it rejects.
use aws_c_io.Base.{
  ℕ, zero, suc, ◌+◌, ◌*◌, ◌≤◌, ◌≡◌, Bool, true, false, Option, none, some, List, [], ◌∷◌, ◌++◌,
  ◌==◌, ◌&&◌, length, drop, leb, ◌||◌, refl, sym, ap, subst, arith, Bool-cases, inl, inr, ◌∙◌,
  length-append,
}
use aws_c_io.Pem.{starts_with}
use aws_c_io.Pem.Sanitize.{
  PemParseState, begin, on_data, end_part, begin_header, end_header, dashes, CleanBuf,
  byte_buf_append, append_byte_dynamic, is_at, sanitize_round, sanitize_loop, sanitized, answer,
  sanitize_pem,
}
use aws_c_io.Pem.Ends.{sanitize_loop-ends}

-- The loop takes nothing out of the clean buffer.
append-le :
    (xs : List ℕ) (buf : CleanBuf) → length buf.bytes ≤ length (byte_buf_append xs buf).bytes
append-le xs buf = elim (Bool-cases (leb (length buf.bytes + length xs) buf.capacity)) [
  | inl q ↦ rw q (omega (arith, length-append buf.bytes xs))
  | inr q ↦ rw q (omega arith)
]

round-le :
    (grow : ℕ → ℕ) (after : List ℕ) (st : PemParseState) (c : ℕ) (cs : List ℕ) (clean : CleanBuf)
    → length clean.bytes ≤ length (sanitize_round grow after st c cs clean).clean.bytes
unfolding sanitize_round
round-le grow after begin c cs clean = elim (Bool-cases (is_at begin_header c cs after)) [
  | inl q ↦ rw (sanitize_round, q) (omega arith)
  | inr q ↦ rw (sanitize_round, q) (omega arith)
]
round-le grow after on_data c cs clean = elim (Bool-cases (is_at end_header c cs after)) [
  | inl q ↦ rw (sanitize_round, q) (append-le end_header clean)
  | inr q ↦ rw (sanitize_round, q) (omega (arith, length-append clean.bytes (c ∷ [])))
]
round-le grow after end_part c cs clean = elim (Bool-cases (is_at dashes c cs after)) [
  | inl q ↦
      rw (sanitize_round, q)
        (omega (
          arith,
          length-append (byte_buf_append dashes clean).bytes (10 ∷ []),
          append-le dashes clean,
        ))
  | inr q ↦ rw (sanitize_round, q) (omega (arith, length-append clean.bytes (c ∷ [])))
]

loop-le :
    (grow : ℕ → ℕ) (after : List ℕ) (fuel : ℕ) (st : PemParseState) (cs : List ℕ) (clean : CleanBuf)
    → length clean.bytes
      ≤ length
          (sanitize_loop grow after fuel
            (record { state = st; rest = cs; clean = clean })).clean.bytes
unfolding sanitize_loop
loop-le grow after zero st cs clean = omega arith
loop-le grow after (suc fuel) st [] clean = omega arith
loop-le grow after (suc fuel) st (c ∷ cs) clean =
    let next = sanitize_round grow after st c cs clean in
    omega (
      arith,
      round-le grow after st c cs clean,
      loop-le grow after fuel next.state next.rest next.clean,
    )

-- Whether a begin header starts among the bytes, which `after` follows in memory
abbrev pub has_header : List ℕ → List ℕ → Bool
has_header after [] = false
has_header after (c ∷ cs) = starts_with (c ∷ cs ++ after) begin_header || has_header after cs

is_at-starts :
    (c : ℕ) (cs after h : List ℕ)
    → is_at (45 ∷ h) c cs after ≡ starts_with (c ∷ cs ++ after) (45 ∷ h)
is_at-starts c cs after h = elim (Bool-cases (c == 45)) [ inl q ↦ rw q refl | inr q ↦ rw q refl ]

-- Whether two lists agree as far as both go
abbrev agree : List ℕ → List ℕ → Bool
agree [] q = true
agree (x ∷ p) [] = true
agree (x ∷ p) (y ∷ q) = (x == y) && agree p q

both_start :
    (xs p q : List ℕ) → starts_with xs p ≡ true → starts_with xs q ≡ true → agree p q ≡ true
both_start xs [] q h g = refl
both_start xs (x ∷ p) [] h g = refl
both_start [] (x ∷ p) (y ∷ q) h g = ground (arith, h)
both_start (z ∷ xs) (x ∷ p) (y ∷ q) h g = ground (arith, h, g, both_start xs p q)

begin-end :
    (c : ℕ) (cs after : List ℕ)
    → is_at begin_header c cs after ≡ true
    → is_at end_header c cs after ≡ false
begin-end c cs after h = elim (Bool-cases (is_at end_header c cs after)) [
  | inl q ↦ ground (
    arith,
    both_start (c ∷ cs ++ after) end_header begin_header
        (sym (is_at-starts c cs after (drop 1 end_header)) ∙ q)
        (sym (is_at-starts c cs after (drop 1 begin_header)) ∙ h),
  )
  | inr q ↦ q
]

-- The rounds before and at a begin header
round-skip :
    (grow : ℕ → ℕ) (after : List ℕ) (c : ℕ) (cs : List ℕ) (clean : CleanBuf)
    → is_at begin_header c cs after ≡ false
    → sanitize_round grow after begin c cs clean
      ≡ record { state = begin; rest = cs; clean = clean }
unfolding sanitize_round
round-skip grow after c cs clean q = rw (sanitize_round, q) refl

round-enter :
    (grow : ℕ → ℕ) (after : List ℕ) (c : ℕ) (cs : List ℕ) (clean : CleanBuf)
    → is_at begin_header c cs after ≡ true
    → sanitize_round grow after begin c cs clean
      ≡ record { state = on_data; rest = c ∷ cs; clean = clean }
unfolding sanitize_round
round-enter grow after c cs clean q = rw (sanitize_round, q) refl

round-copy :
    (grow : ℕ → ℕ) (after : List ℕ) (c : ℕ) (cs : List ℕ) (clean : CleanBuf)
    → is_at end_header c cs after ≡ false
    → sanitize_round grow after on_data c cs clean
      ≡ record { state = on_data; rest = cs; clean = append_byte_dynamic grow c clean }
unfolding sanitize_round
round-copy grow after c cs clean q = rw (sanitize_round, q) refl

-- A first byte is kept behind a begin header.
entered :
    (grow : ℕ → ℕ) (after : List ℕ) (fuel : ℕ) (c : ℕ) (cs : List ℕ) (clean : CleanBuf)
    → is_at begin_header c cs after ≡ true
    → 1
      ≤ length
          (sanitize_loop grow after
            (suc (suc fuel))
            (record { state = begin; rest = c ∷ cs; clean = clean })).clean.bytes
unfolding sanitize_loop
entered grow after fuel c cs clean h =
    subst (λ s. 1 ≤ length (sanitize_loop grow after (suc fuel) s).clean.bytes)
      (sym (round-enter grow after c cs clean h))
      (subst (λ s. 1 ≤ length (sanitize_loop grow after fuel s).clean.bytes)
        (sym (round-copy grow after c cs clean (begin-end c cs after h)))
        (omega (
          arith,
          loop-le grow after fuel on_data cs (append_byte_dynamic grow c clean),
          length-append clean.bytes (c ∷ []),
        )))

-- The first byte of a file without a begin header starts none.
none_first :
    (c : ℕ) (cs after : List ℕ)
    → has_header after (c ∷ cs) ≡ false
    → is_at begin_header c cs after ≡ false
none_first c cs after h = elim (Bool-cases (is_at begin_header c cs after)) [
  | inl q ↦ ground (arith, h, sym (is_at-starts c cs after (drop 1 begin_header)) ∙ q)
  | inr q ↦ q
]

none_rest :
    (c : ℕ) (cs after : List ℕ) → has_header after (c ∷ cs) ≡ false → has_header after cs ≡ false
none_rest c cs after h = elim (Bool-cases (starts_with (c ∷ cs ++ after) begin_header)) [
  | inl q ↦ ground (arith, h, q)
  | inr q ↦ ground (arith, h, q)
]

later :
    (c : ℕ) (cs after : List ℕ)
    → has_header after (c ∷ cs) ≡ true
    → is_at begin_header c cs after ≡ false
    → has_header after cs ≡ true
later c cs after h q = ground (arith, h, sym (is_at-starts c cs after (drop 1 begin_header)) ∙ q)

-- The loop keeps a byte of a file with a begin header, and none of another.
keeps :
    (grow : ℕ → ℕ) (after : List ℕ) (fuel : ℕ) (cs : List ℕ) (clean : CleanBuf)
    → 2 * length cs + 1 ≤ fuel
    → has_header after cs ≡ true
    → 1
      ≤ length
          (sanitize_loop grow after fuel
            (record { state = begin; rest = cs; clean = clean })).clean.bytes
unfolding sanitize_loop
keeps grow after fuel [] clean le h = absurd (ground (arith, h))
keeps grow after zero (c ∷ cs) clean le h = absurd (omega (arith, le))
keeps grow after (suc zero) (c ∷ cs) clean le h = absurd (omega (arith, le))
keeps grow after (suc (suc fuel)) (c ∷ cs) clean le h =
    elim (Bool-cases (is_at begin_header c cs after)) [
      | inl q ↦ entered grow after fuel c cs clean q
      | inr q ↦
          subst (λ s. 1 ≤ length (sanitize_loop grow after (suc fuel) s).clean.bytes)
            (sym (round-skip grow after c cs clean q))
            (keeps grow after (suc fuel) cs clean (omega (arith, le)) (later c cs after h q))
    ]

drops :
    (grow : ℕ → ℕ) (after : List ℕ) (fuel : ℕ) (cs : List ℕ) (clean : CleanBuf)
    → has_header after cs ≡ false
    → (sanitize_loop grow after fuel (record { state = begin; rest = cs; clean = clean })).clean
      ≡ clean
unfolding sanitize_loop
drops grow after zero cs clean h = refl
drops grow after (suc fuel) [] clean h = refl
drops grow after (suc fuel) (c ∷ cs) clean h =
    ap (λ s. (sanitize_loop grow after fuel s).clean)
      (round-skip grow after c cs clean (none_first c cs after h))
    ∙ drops grow after fuel cs clean (none_rest c cs after h)

abbrev pub is_some : Option (List ℕ) → Bool
is_some none = false
is_some (some x) = true

some_bytes : (bs : List ℕ) → 1 ≤ length bs → is_some (answer bs) ≡ true
some_bytes [] h = absurd (omega (arith, h))
some_bytes (b ∷ bs) h = refl

-- aws_sanitize_pem reaches the end of its input, and rejects the files in which no begin header starts and no others,
-- where a header that starts in the file may reach into the memory behind it.
pub sanitize_pem_rejects :
    (grow : ℕ → ℕ) (after : List ℕ) (pem : List ℕ)
    → ((sanitized grow after pem).rest ≡ [])
      × (is_some (sanitize_pem grow after pem) ≡ has_header after pem)
unfolding sanitize_pem
sanitize_pem_rejects grow after [] = (
  sanitize_loop-ends grow after 1 begin [] (record { bytes = []; capacity = 0 }) (omega arith),
  refl,
)
sanitize_pem_rejects grow after (c ∷ cs) = (
  sanitize_loop-ends grow after (2 * length (c ∷ cs) + 1) begin (c ∷ cs)
      (record { bytes = []; capacity = length (c ∷ cs) }) (omega arith),
  elim (Bool-cases (has_header after (c ∷ cs))) [
    | inl q ↦
        some_bytes (sanitized grow after (c ∷ cs)).clean.bytes (
          keeps grow after (2 * length (c ∷ cs) + 1) (c ∷ cs)
            (record { bytes = []; capacity = length (c ∷ cs) }) (omega arith) q)
        ∙ sym q
    | inr q ↦
        ap (λ b. is_some (answer b.bytes))
          (drops grow after (2 * length (c ∷ cs) + 1) (c ∷ cs)
            (record { bytes = []; capacity = length (c ∷ cs) }) q)
        ∙ sym q
  ],
)
