-- ===== src/Host/Keys.antt =====
-- The keys of the caches of source/host_resolver.c: what each operation of a cache does to them.
use aws_c_io.Base.{
  ℕ, ◌<◌, ◌≡◌, true, false, Option, none, some, List, [], ◌∷◌, ◌++◌, ◌==◌, if◌then◌else◌, ltb,
  length, refl, arith, Bool-cases, Option-cases, inl, inr, ap, ◌∙◌,
}
use aws_c_io.Host.Lru.{Address, LruCache, lookup, without, set_in, listed, touched, shrunk}
use aws_c_io.Host.Purge.{Keyed, lookup-append, rotate-Keyed, lookup_end}

-- No key is new.
abbrev pub Within : List Address → List Address → Type 0
Within c d = (k : ℕ) → lookup k d ≡ none → lookup k c ≡ none

key_same : (i j : ℕ) → (i == j) ≡ true → i ≡ j
key_same i j q = ground arith

pub lookup-address : (k : ℕ) (c : List Address) (a : Address) → lookup k c ≡ some a → a.address ≡ k
lookup-address k [] a h = ground arith
lookup-address k (b ∷ c) a h = elim (Bool-cases (b.address == k)) [
  | inl q ↦ ground (arith, h, q, key_same b.address k q)
  | inr q ↦ lookup-address k c a (ground (arith, h, q))
]

pub without-Within : (j : ℕ) (c : List Address) → Within (without j c) c
without-Within j [] k h = refl
without-Within j (b ∷ c) k h = ground (arith, without-Within j c k)

pub without_other :
    (j k : ℕ) (c : List Address) → (j == k) ≡ false → lookup k (without j c) ≡ lookup k c
without_other j k [] h = refl
without_other j k (b ∷ c) h = ground (arith, without_other j k c h)

pub without_gone : (k : ℕ) (c : List Address) → Keyed c → lookup k (without k c) ≡ none
without_gone k [] h = refl
without_gone k (b ∷ c) h = elim (Bool-cases (b.address == k)) [
  | inl q ↦ ground (arith, q, h.0, ap (λ i. lookup i c) (key_same b.address k q))
  | inr q ↦ ground (arith, q, without_gone k c h.1)
]

pub without-Keyed : (k : ℕ) (c : List Address) → Keyed c → Keyed (without k c)
without-Keyed k [] h = h
without-Keyed k (b ∷ c) h = elim (Bool-cases (b.address == k)) [
  | inl q ↦ rw (q) h.1
  | inr q ↦ rw (q) (without-Within k c b.address h.0, without-Keyed k c h.1)
]

pub end-Keyed :
    (a : Address) (c : List Address) → Keyed c → lookup a.address c ≡ none → Keyed (c ++ (a ∷ []))
end-Keyed a c h n = rotate-Keyed a c (n, h)

pub end-Within :
    (a : Address) (c d : List Address) (k : ℕ)
    → Within c d
    → (a.address == k) ≡ false
    → lookup k d ≡ none
    → lookup k (c ++ (a ∷ [])) ≡ none
end-Within a c d k w q h = ground (arith, q, lookup-append k c (a ∷ []), w k h)

pub shrunk-Keyed : (n : ℕ) (c gone : List Address) → Keyed c → Keyed (shrunk n c gone).0
shrunk-Keyed n [] gone h = h
shrunk-Keyed n (a ∷ c) gone h = elim (Bool-cases (ltb n (length (a ∷ c)))) [
  | inl q ↦ rw (q) h.1
  | inr q ↦ rw (q) h
]

pub shrunk-Within : (n : ℕ) (c gone : List Address) → Within (shrunk n c gone).0 c
shrunk-Within n [] gone k h = refl
shrunk-Within n (a ∷ c) gone k h = ground arith

-- With room for one, what has been stored last is found.
pub shrunk_end :
    (n : ℕ) (a : Address) (c gone : List Address)
    → 0 < n
    → lookup a.address c ≡ none
    → lookup a.address (shrunk n (c ++ (a ∷ [])) gone).0 ≡ some a
shrunk_end n a [] gone p h = ground arith
shrunk_end n a (b ∷ c) gone p h = elim (Bool-cases (ltb n (length (b ∷ (c ++ (a ∷ [])))))) [
  | inl q ↦ ground (arith, q, lookup_end a c)
  | inr q ↦ ground (arith, q, lookup_end a c)
]

-- A write to an entry keeps its key.
pub lookup-set_in :
    (b : Address) (k : ℕ) (c : List Address)
    → lookup k (set_in b c)
      ≡ (elim (lookup k c) [ none ↦ none | some a ↦ if b.address == k then some b else some a ])
lookup-set_in b k [] = refl
lookup-set_in b k (a ∷ c) = elim (Bool-cases (a.address == b.address)) [
  | inl q ↦ elim (Bool-cases (a.address == k)) [
    | inl r ↦ ground (arith, q, r)
    | inr r ↦ elim (Option-cases (lookup k c)) [
      | inl o ↦ ground (arith, q, r, o)
      | inr (x, o) ↦ ground (arith, q, r, o)
    ]
  ]
  | inr q ↦ elim (Bool-cases (a.address == k)) [
    | inl r ↦ ground (arith, q, r)
    | inr r ↦ ground (arith, q, r, lookup-set_in b k c)
  ]
]

pub set_in-Within : (b : Address) (c : List Address) → Within (set_in b c) c
set_in-Within b c k h = ground (arith, lookup-set_in b k c, h)

pub set_in-Keyed : (b : Address) (c : List Address) → Keyed c → Keyed (set_in b c)
set_in-Keyed b [] h = h
set_in-Keyed b (a ∷ c) h = elim (Bool-cases (a.address == b.address)) [
  | inl q ↦ rw (q) (ground (arith, h.0, ap (λ i. lookup i c) (key_same a.address b.address q)), h.1)
  | inr q ↦ rw (q) (set_in-Within b c a.address h.0, set_in-Keyed b c h.1)
]

touched-Keyed :
    (k : ℕ) (c : List Address) (o : Option Address)
    → lookup k c ≡ o
    → Keyed c
    → Keyed (touched o k c)
touched-Keyed k c none e h = h
touched-Keyed k c (some a) e h =
    end-Keyed a (without k c) (without-Keyed k c h)
      (ap (λ i. lookup i (without k c)) (lookup-address k c a e) ∙ without_gone k c h)

-- A use of an entry changes what no key finds.
lookup-touched :
    (j k : ℕ) (c : List Address) (o : Option Address)
    → lookup j c ≡ o
    → Keyed c
    → lookup k (touched o j c) ≡ lookup k c
lookup-touched j k c none e h = refl
lookup-touched j k c (some a) e h = elim (Bool-cases (j == k)) [
  | inl q ↦ ground (
    arith,
    q,
    e,
    lookup-address j c a e,
    lookup-append k (without j c) (a ∷ []),
    without_gone j c h,
    ap (λ i. lookup i c) (key_same j k q),
    ap (λ i. lookup i (without j c)) (key_same j k q),
  )
  | inr q ↦ elim (Option-cases (lookup k c)) [
    | inl o ↦ ground (
      arith,
      q,
      o,
      lookup-address j c a e,
      lookup-append k (without j c) (a ∷ []),
      without_other j k c q,
    )
    | inr (x, o) ↦
        ground (arith, q, o, lookup-append k (without j c) (a ∷ []), without_other j k c q)
  ]
]

module _ (lru : LruCache) where
  pub find-Keyed : (k : ℕ) (c : List Address) → Keyed c → Keyed (lru.find k c).0
  find-Keyed k c h = rw (lru.find_lem k c) (touched-Keyed k c (lookup k c) refl h)

  pub find_lookup : (j k : ℕ) (c : List Address) → Keyed c → lookup k (lru.find j c).0 ≡ lookup k c
  find_lookup j k c h = rw (lru.find_lem j c) (lookup-touched j k c (lookup j c) refl h)

  pub put-Keyed : (n : ℕ) (a : Address) (c : List Address) → Keyed c → Keyed (lru.put n a c).0
  put-Keyed n a c h = rw (lru.put_lem n a c) (
      shrunk-Keyed n (without a.address c ++ (a ∷ [])) (listed (lookup a.address c)) (
        end-Keyed a (without a.address c) (without-Keyed a.address c h)
          (without_gone a.address c h)))

  pub put-others :
      (n : ℕ) (a : Address) (c : List Address) (k : ℕ)
      → (a.address == k) ≡ false
      → lookup k c ≡ none
      → lookup k (lru.put n a c).0 ≡ none
  put-others n a c k q h = rw (lru.put_lem n a c) (
      shrunk-Within n (without a.address c ++ (a ∷ [])) (listed (lookup a.address c)) k
        (end-Within a (without a.address c) c k (without-Within a.address c) q h))

  pub put-lookup :
      (n : ℕ) (a : Address) (c : List Address)
      → Keyed c
      → 0 < n
      → lookup a.address (lru.put n a c).0 ≡ some a
  put-lookup n a c h p = rw (lru.put_lem n a c) (
      shrunk_end n a (without a.address c) (listed (lookup a.address c)) p
        (without_gone a.address c h))

  pub use_lru-Keyed : (c : List Address) → Keyed c → Keyed (lru.use_lru c).0
  use_lru-Keyed [] h = rw (lru.use_lru_lem []) h
  use_lru-Keyed (a ∷ c) h = rw (lru.use_lru_lem (a ∷ c)) (rotate-Keyed a c h)

  pub use_lru-Within : (c : List Address) → Within (lru.use_lru c).0 c
  use_lru-Within [] k h = rw (lru.use_lru_lem []) refl
  use_lru-Within (a ∷ c) k h =
      rw (lru.use_lru_lem (a ∷ c)) (ground (arith, h, lookup-append k c (a ∷ [])))
