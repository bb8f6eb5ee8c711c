-- ===== src/Host/Purge.antt =====
-- What the first loop of process_records in source/host_resolver.c leaves in a cache of good addresses.
use aws_c_io.Base.{
  append_assoc, append-nil, ℕ, suc, ◌+◌, ◌-◌, ◌<◌, ◌≡◌, Bool, true, false, none, some, List, [],
  ◌∷◌, ◌++◌, if◌then◌else◌, ltb, length, length-append, refl, arith, Bool-cases, inl, inr, sym,
  subst, ◌∙◌,
}
use aws_c_io.Host.Lru.{Address, LruCache, lookup, without}
use aws_c_io.Host.{Records, purge, purge_lru, drop_good}

-- The addresses that have not expired, and those that have.
abbrev pub live : ℕ → List Address → List Address
live now [] = []
live now (a ∷ c) = if ltb a.expiry now then live now c else a ∷ live now c

abbrev pub dead : ℕ → List Address → List Address
dead now [] = []
dead now (a ∷ c) = if ltb a.expiry now then a ∷ dead now c else dead now c

abbrev pub last_of : List Address → List Address
last_of [] = []
last_of (a ∷ []) = a ∷ []
last_of (a ∷ b ∷ c) = last_of (b ∷ c)

abbrev pub but_last : List Address → List Address
but_last [] = []
but_last (a ∷ []) = []
but_last (a ∷ b ∷ c) = a ∷ but_last (b ∷ c)

abbrev pub is_nil : List Address → Bool
is_nil [] = true
is_nil (a ∷ c) = false

-- No two entries of a cache have the same key.
abbrev pub Keyed : List Address → Type 0
Keyed [] = Unit {0}
Keyed (a ∷ c) = (lookup a.address c ≡ none) × Keyed c

pub without_end :
    (a : Address) (c : List Address)
    → lookup a.address c ≡ none
    → without a.address (c ++ (a ∷ [])) ≡ c
without_end a [] h = ground arith
without_end a (b ∷ c) h = ground (arith, without_end a c)

pub lookup_end :
    (a : Address) (c : List Address)
    → lookup a.address c ≡ none
    → lookup a.address (c ++ (a ∷ [])) ≡ some a
lookup_end a [] h = ground arith
lookup_end a (b ∷ c) h = ground (arith, lookup_end a c)

pub lookup-append :
    (k : ℕ) (c d : List Address)
    → lookup k (c ++ d) ≡ (elim (lookup k c) [ none ↦ lookup k d | some a ↦ some a ])
lookup-append k [] d = refl
lookup-append k (a ∷ c) d = ground (arith, lookup-append k c d)

-- Rotating keeps the keys apart.
pub rotate-Keyed : (a : Address) (c : List Address) → Keyed (a ∷ c) → Keyed (c ++ (a ∷ []))
rotate-Keyed a [] h = h
rotate-Keyed a (b ∷ c) h =
    (ground (arith, lookup-append b.address c (a ∷ [])), rotate-Keyed a c (ground (arith), h.1.1))

module _ (lru : LruCache) where
  -- A round that meets a live address puts it at the end; one that meets a dead address takes it out.
  purge_lru_live :
      (now : ℕ) (a : Address) (c : List Address) (r : Records)
      → r.good ≡ a ∷ c
      → ltb a.expiry now ≡ false
      → purge_lru lru now r ≡ (record r { good = c ++ (a ∷ []) }, false)
  unfolding purge_lru
  purge_lru_live now a c r e l = ground (arith, e, l, lru.use_lru_lem r.good)

  purge_lru_dead :
      (now : ℕ) (a : Address) (c : List Address) (r : Records)
      → r.good ≡ a ∷ c
      → ltb a.expiry now ≡ true
      → lookup a.address c ≡ none
      → purge_lru lru now r
        ≡ (record r { good = c; expired_addresses = r.expired_addresses ++ (a ∷ []) }, true)
  unfolding purge_lru drop_good
  purge_lru_dead now a c r e l h = ground (
    arith,
    e,
    l,
    lru.use_lru_lem r.good,
    lru.remove_lem a.address (c ++ (a ∷ [])),
    without_end a c h,
    lookup_end a c h,
  )

  -- What the loop leaves, with `ys` yet to be seen and `zs` seen and kept.
  abbrev purged : ℕ → List Address → List Address → Records → Records
  purged now ys zs r =
      if is_nil (zs ++ live now ys)
      then record r { good = last_of ys; expired_addresses = r.expired_addresses ++ but_last ys }
      else record r {
        good = zs ++ live now ys;
        expired_addresses = r.expired_addresses ++ dead now ys;
      }

  purged_nothing :
      (now : ℕ) (zs : List Address) (r : Records) → r.good ≡ zs → r ≡ purged now [] zs r
  purged_nothing now zs r e = elim (Bool-cases (is_nil (zs ++ []))) [
    | inl q ↦ ground (arith, q, e, append-nil zs, append-nil r.expired_addresses)
    | inr q ↦ ground (arith, q, e, append-nil zs, append-nil r.expired_addresses)
  ]

  purged_one :
      (now : ℕ) (y : Address) (r : Records) → r.good ≡ y ∷ [] → r ≡ purged now (y ∷ []) [] r
  purged_one now y r e = elim (Bool-cases (ltb y.expiry now)) [
    | inl q ↦ ground (arith, q, e, append-nil r.expired_addresses)
    | inr q ↦ ground (arith, q, e, append-nil r.expired_addresses)
  ]

  purged_live :
      (now : ℕ) (y : Address) (ys zs : List Address) (r : Records)
      → ltb y.expiry now ≡ false
      → purged now ys (zs ++ (y ∷ [])) (record r { good = (ys ++ zs) ++ (y ∷ []) })
        ≡ purged now (y ∷ ys) zs r
  purged_live now y ys zs r q =
      ground (arith, q, append_assoc zs (y ∷ []) (live now ys), is_nil_middle zs y (live now ys))
    where
      is_nil_middle :
          (xs : List Address) (a : Address) (ws : List Address) → is_nil (xs ++ (a ∷ ws)) ≡ false
      is_nil_middle [] a ws = refl
      is_nil_middle (x ∷ xs) a ws = refl

  purged_dead :
      (now : ℕ) (y : Address) (ys zs : List Address) (r : Records)
      → ltb y.expiry now ≡ true
      → 0 < length ys + length zs
      → purged now ys zs
          (record r { good = ys ++ zs; expired_addresses = r.expired_addresses ++ (y ∷ []) })
        ≡ purged now (y ∷ ys) zs r
  purged_dead now y [] [] r q g = ground arith
  purged_dead now y [] (z ∷ zs) r q g =
      ground (arith, q, append_assoc r.expired_addresses (y ∷ []) [])
  purged_dead now y (w ∷ ws) zs r q g = ground (
    arith,
    q,
    append_assoc r.expired_addresses (y ∷ []) (but_last (w ∷ ws)),
    append_assoc r.expired_addresses (y ∷ []) (dead now (w ∷ ws)),
  )

  purged_stop :
      (now : ℕ) (y : Address) (ys zs : List Address) (r : Records)
      → r.good ≡ y ∷ (ys ++ zs)
      → length ys + length zs ≡ 0
      → r ≡ purged now (y ∷ ys) zs r
  purged_stop now y [] [] r g n = purged_one now y r g
  purged_stop now y [] (z ∷ zs) r g n = ground arith
  purged_stop now y (w ∷ ws) zs r g n = ground arith

  purge_from :
      (now most e : ℕ) (ys zs : List Address) (r : Records)
      → r.good ≡ ys ++ zs
      → Keyed (ys ++ zs)
      → e + length ys + length zs ≡ suc most
      → purge lru now most e (length ys) r ≡ purged now ys zs r
  unfolding purge
  purge_from now most e [] zs r g k n = purged_nothing now zs r g
  purge_from now most e (y ∷ ys) zs r g k n = elim (Bool-cases (ltb e most)) [
    | inl q ↦ elim (Bool-cases (ltb y.expiry now)) [
      | inl d ↦
          rw (purge, q, purge_lru_dead now y (ys ++ zs) r g d k.0)
            (purge_from now most (e + 1) ys zs
                (record r { good = ys ++ zs; expired_addresses = r.expired_addresses ++ (y ∷ []) })
                refl k.1 (omega (arith, n))
              ∙ purged_dead now y ys zs r d (ground (arith, q, n)))
      | inr d ↦
          rw (purge, q, purge_lru_live now y (ys ++ zs) r g d)
            (purge_from now most e ys (zs ++ (y ∷ [])) (record r { good = (ys ++ zs) ++ (y ∷ []) })
                (append_assoc ys zs (y ∷ []))
                (subst (λ c. Keyed c) (append_assoc ys zs (y ∷ [])) (rotate-Keyed y (ys ++ zs) k))
                (omega (arith, n, length-append zs (y ∷ [])))
              ∙ purged_live now y ys zs r d)
    ]
    | inr q ↦ rw (purge, q) (purged_stop now y ys zs r g (ground (arith, q, n)))
  ]

  -- The first loop of process_records takes every expired address out of a cache, and reports it as
  -- expired; the others stay, in their order. Only where all have expired the most recently used one
  -- stays, alone.
  pub purge_exact :
      (now : ℕ) (r : Records)
      → Keyed r.good
      → 0 < length r.good
      → purge lru now (length r.good - 1) 0 (length r.good) r ≡ (
          if is_nil (live now r.good)
          then record r {
            good = last_of r.good;
            expired_addresses = r.expired_addresses ++ but_last r.good;
          }
          else record r {
            good = live now r.good;
            expired_addresses = r.expired_addresses ++ dead now r.good;
          })
  purge_exact now r k n =
      purge_from now (length r.good - 1) 0 r.good [] r (sym (append-nil r.good))
        (subst (λ c. Keyed c) (sym (append-nil r.good)) k) (omega (arith, n))
