-- ===== src/Host/Promote.antt =====
-- What process_records of source/host_resolver.c does: it purges a cache, or promotes an address.
use aws_c_io.Base.{
  append_assoc, append-nil, ℕ, suc, ◌<◌, ◌≡◌, ◌⊎◌, true, false, Option, none, some, List, [], ◌∷◌,
  ◌++◌, ◌==◌, if◌then◌else◌, leb, length, refl, arith, Bool-cases, Option-cases, inl, inr, sym, ap,
  subst, ◌∙◌,
}
use aws_c_io.Host.Lru.{Address, LruCache, lookup}
use aws_c_io.Host.{Records, purge, promote, promote_lru, put_good, process_records}
use aws_c_io.Host.Purge.{
  live, dead, last_of, but_last, is_nil, Keyed, without_end, lookup-append, rotate-Keyed,
  purge_exact,
}

-- The least recently used address that has not expired.
abbrev pub first_live : ℕ → List Address → Option Address
first_live now [] = none
first_live now (a ∷ c) = if leb a.expiry now then first_live now c else some a

-- One address has been promoted.
pub record Promoted (a : Address) (c : List Address) (r r' : Records) : Type 0 where
  pub is_good : r'.good ≡ a ∷ []
  pub is_new : r'.new_addresses ≡ r.new_addresses ++ (a ∷ [])
  pub others : (k : ℕ) → lookup k r'.failed ≡ (if k == a.address then none else lookup k c)
  pub no_expiry : r'.expired_addresses ≡ r.expired_addresses

same : (i j : ℕ) → (i == j) ≡ true → i ≡ j
same i j q = ground arith

length_positive : (c : List Address) → is_nil c ≡ false → 0 < length c
length_positive [] h = cc
length_positive (a ∷ c) h = omega arith

last_of_positive : (c : List Address) → 0 < length c → 0 < length (last_of c)
last_of_positive [] h = omega arith
last_of_positive (a ∷ []) h = omega arith
last_of_positive (a ∷ b ∷ c) h = last_of_positive (b ∷ c) (omega arith)

module _ (lru : LruCache) (capacity now : ℕ) where
  promote_lru_dead :
      (a : Address) (c : List Address) (r : Records)
      → r.failed ≡ a ∷ c
      → leb a.expiry now ≡ true
      → promote_lru lru capacity now r ≡ (record r { failed = c ++ (a ∷ []) }, false)
  unfolding promote_lru
  promote_lru_dead a c r e l = ground (arith, e, l, lru.use_lru_lem r.failed)

  promote_lru_live :
      (a : Address) (c : List Address) (r : Records)
      → r.failed ≡ a ∷ c
      → r.good ≡ []
      → leb a.expiry now ≡ false
      → lookup a.address c ≡ none
      → 0 < capacity
      → promote_lru lru capacity now r ≡ (
        record r { good = a ∷ []; new_addresses = r.new_addresses ++ (a ∷ []); failed = c },
        true,
      )
  unfolding promote_lru put_good
  promote_lru_live a c r e g l h n = ground (
    arith,
    e,
    g,
    l,
    lru.use_lru_lem r.failed,
    lru.put_lem capacity a r.good,
    lru.remove_lem a.address (c ++ (a ∷ [])),
    without_end a c h,
    append-nil r.expired_addresses,
  )

  -- A round after another: the addresses `zs` have been seen and have expired.
  promote_from_none :
      (ys zs : List Address) (r : Records)
      → r.failed ≡ ys ++ zs
      → first_live now ys ≡ none
      → promote lru capacity now (length ys) r ≡ record r { failed = zs ++ ys }
  unfolding promote
  promote_from_none [] zs r e f = ground (arith, e, append-nil zs)
  promote_from_none (y ∷ ys) zs r e f = ground (
    arith,
    e,
    f,
    promote_lru_dead y (ys ++ zs) r e,
    promote_from_none ys (zs ++ (y ∷ [])) (record r { failed = (ys ++ zs) ++ (y ∷ []) })
        (append_assoc ys zs (y ∷ [])),
    append_assoc zs (y ∷ []) ys,
  )

  lookup_swap :
      (k : ℕ) (y : Address) (ys zs : List Address)
      → Keyed (y ∷ (ys ++ zs))
      → lookup k (ys ++ zs) ≡ (if k == y.address then none else lookup k (y ∷ (ys ++ zs)))
  lookup_swap k y ys zs h = elim (Bool-cases (k == y.address)) [
    | inl q ↦ ground (arith, q, h.0, ap (λ i. lookup i (ys ++ zs)) (same k y.address q))
    | inr q ↦ ground (arith, q)
  ]

  promote-round :
      (n : ℕ) (r r' : Records)
      → promote_lru lru capacity now r ≡ (r', false)
      → promote lru capacity now (suc n) r ≡ promote lru capacity now n r'
  unfolding promote
  promote-round n r r' e = ground (arith, e)

  promote-done :
      (n : ℕ) (r r' : Records)
      → promote_lru lru capacity now r ≡ (r', true)
      → promote lru capacity now (suc n) r ≡ r'
  unfolding promote
  promote-done n r r' e = ground (arith, e)

  lookup_rotate :
      (k : ℕ) (y : Address) (c : List Address)
      → Keyed (y ∷ c)
      → lookup k (c ++ (y ∷ [])) ≡ lookup k (y ∷ c)
  lookup_rotate k y c h = elim (Bool-cases (k == y.address)) [
    | inl q ↦
        ground
          (arith, q, h.0, lookup-append k c (y ∷ []), ap (λ i. lookup i c) (same k y.address q))
    | inr q ↦ elim (Option-cases (lookup k c)) [
      | inl o ↦ ground (arith, q, o, lookup-append k c (y ∷ []))
      | inr (b, o) ↦ ground (arith, q, o, lookup-append k c (y ∷ []))
    ]
  ]

  promote_from_some :
      (ys zs : List Address) (a : Address) (r : Records)
      → r.failed ≡ ys ++ zs
      → r.good ≡ []
      → Keyed (ys ++ zs)
      → 0 < capacity
      → first_live now ys ≡ some a
      → Promoted a (ys ++ zs) r (promote lru capacity now (length ys) r)
  promote_from_some [] zs a r e g h n f = cc
  promote_from_some (y ∷ ys) zs a r e g h n f = elim (Bool-cases (leb y.expiry now)) [
    | inl d ↦
        let r1 : Records = record r { failed = (ys ++ zs) ++ (y ∷ []) } in
        let p : Promoted a (ys ++ (zs ++ (y ∷ []))) r1 (promote lru capacity now (length ys) r1) =
          promote_from_some ys (zs ++ (y ∷ [])) a r1 (append_assoc ys zs (y ∷ [])) g
            (subst (λ c. Keyed c) (append_assoc ys zs (y ∷ [])) (rotate-Keyed y (ys ++ zs) h)) n
            (ground (arith, f, d)) in
        subst (λ q. Promoted a (y ∷ (ys ++ zs)) r q)
          (sym (promote-round (length ys) r r1 (promote_lru_dead y (ys ++ zs) r e d)))
          (record {
            is_good = p.is_good;
            is_new = p.is_new;
            others = λ k. ground (
              arith,
              p.others k,
              ap (λ c. lookup k c) (append_assoc ys zs (y ∷ [])),
              lookup_rotate k y (ys ++ zs) h,
            );
            no_expiry = p.no_expiry;
          })
    | inr d ↦
        let r2 : Records = record r {
          good = y ∷ [];
          new_addresses = r.new_addresses ++ (y ∷ []);
          failed = ys ++ zs;
        } in
        let q : y ≡ a = ground (arith, f, d) in
        subst (λ b. Promoted b (y ∷ (ys ++ zs)) r (promote lru capacity now (suc (length ys)) r)) q
          (subst (λ s. Promoted y (y ∷ (ys ++ zs)) r s)
            (sym (promote-done (length ys) r r2 (promote_lru_live y (ys ++ zs) r e g d h.0 n)))
            (record {
              is_good = refl;
              is_new = refl;
              others = λ k. lookup_swap k y ys zs h;
              no_expiry = refl;
            }))
  ]

-- With a good address, process_records takes out the expired ones, which are reported so, and keeps the
-- others in their order; where all have expired it keeps the most recently used one alone. No failed
-- address is touched.
pub process_records_purges :
    (lru : LruCache) (capacity now : ℕ) (r : Records)
    → Keyed r.good
    → 0 < length r.good
    → process_records lru capacity now r ≡ (
        if is_nil (live now r.good)
        then record r {
          good = last_of r.good;
          expired_addresses = r.expired_addresses ++ but_last r.good;
        }
        else record r {
          good = live now r.good;
          expired_addresses = r.expired_addresses ++ dead now r.good;
        })
unfolding process_records
process_records_purges lru capacity now r k n =
    ground (
      arith,
      purge_exact lru now r k n,
      last_of_positive r.good n,
      length_positive (live now r.good),
    )

-- Without a good address, and where the caches have room for one and list none twice, process_records promotes the
-- least recently used failed address that has not expired, and no other: it becomes the only good one, is reported as
-- new, and is no failed one any more. Where all have expired nothing changes.
pub process_records_promotes :
    (lru : LruCache) (capacity now : ℕ) (r : Records)
    → r.good ≡ []
    → Keyed r.failed
    → 0 < capacity
    → ((first_live now r.failed ≡ none) × (process_records lru capacity now r ≡ r))
      ⊎ ((a : Address) × (first_live now r.failed ≡ some a)
          × Promoted a r.failed r (process_records lru capacity now r))
unfolding process_records purge
process_records_promotes lru capacity now r g k n =
    let e : process_records lru capacity now r ≡ promote lru capacity now (length r.failed) r =
      ground (arith, g) in
    elim (Option-cases (first_live now r.failed)) [
      | inl f ↦
          inl
            (f, e ∙ promote_from_none lru capacity now r.failed [] r (sym (append-nil r.failed)) f)
      | inr (a, f) ↦ inr (
        a,
        f,
        subst (λ c. Promoted a c r (process_records lru capacity now r)) (append-nil r.failed)
            (subst (λ q. Promoted a (r.failed ++ []) r q) (sym e)
              (promote_from_some lru capacity now r.failed [] a r (sym (append-nil r.failed)) g
                (subst (λ c. Keyed c) (sym (append-nil r.failed)) k) n f)),
      )
    ]
