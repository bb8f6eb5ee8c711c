-- ===== src/Host/Caches.antt =====
-- What the purge of a host's caches in source/host_resolver.c keeps.
use aws_c_io.Base.{
  ℕ, zero, suc, ◌+◌, ◌≡◌, ◌⊎◌, true, none, List, ◌==◌, if◌then◌else◌, ltb, arith, Bool-cases,
  Option-cases, inl, inr, ◌∙◌,
}
use aws_c_io.Host.Lru.{Address, LruCache, lookup}
use aws_c_io.Host.{Records, drop_good, purge_lru, purge}
use aws_c_io.Host.Purge.{Keyed}
use aws_c_io.Host.Keys.{
  Within, find_lookup, put-others, use_lru-Keyed, use_lru-Within, without-Keyed, without-Within,
  without_gone,
}

abbrev pub Apart : List Address → List Address → Type 0
Apart c d = (k : ℕ) → (lookup k c ≡ none) ⊎ (lookup k d ≡ none)

-- No cache has a key twice, and no address is both good and failed.
pub record IsKept (r : Records) : Type 0 where
  pub good : Keyed r.good
  pub failed : Keyed r.failed
  pub apart : Apart r.good r.failed

pub shrink-Apart : (c c' d d' : List Address) → Apart c d → Within c' c → Within d' d → Apart c' d'
shrink-Apart c c' d d' h p q k = elim (h k) [ inl e ↦ inl (p k e) | inr e ↦ inr (q k e) ]

module _ (lru : LruCache) where
  pub find-Within : (k : ℕ) (c : List Address) → Keyed c → Within (lru.find k c).0 c
  find-Within k c h j e = find_lookup lru k j c h ∙ e

  pub remove-Within : (k : ℕ) (c : List Address) → Within (lru.remove k c).0 c
  remove-Within k c j e = rw (lru.remove_lem k c) (without-Within k c j e)

  pub remove-Keyed : (k : ℕ) (c : List Address) → Keyed c → Keyed (lru.remove k c).0
  remove-Keyed k c h = rw (lru.remove_lem k c) (without-Keyed k c h)

  pub remove_gone : (k : ℕ) (c : List Address) → Keyed c → lookup k (lru.remove k c).0 ≡ none
  remove_gone k c h = rw (lru.remove_lem k c) (without_gone k c h)

  -- An address stored in one cache that the other does not have.
  pub put-Apart :
      (n : ℕ) (a : Address) (c d : List Address)
      → Apart c d
      → lookup a.address d ≡ none
      → Apart (lru.put n a c).0 d
  put-Apart n a c d h e k = elim (Bool-cases (a.address == k)) [
    | inl q ↦ inr (ground (arith, q, e, key_of a.address k q))
    | inr q ↦ elim (h k) [ inl o ↦ inl (put-others lru n a c k q o) | inr o ↦ inr o ]
  ]
    where
      key_of : (i j : ℕ) → (i == j) ≡ true → i ≡ j
      key_of i j q = ground arith

  purge_lru-IsKept : (now : ℕ) (r : Records) → IsKept r → IsKept (purge_lru lru now r).0
  unfolding purge_lru drop_good
  purge_lru-IsKept now r h = elim (Option-cases (lru.use_lru r.good).1) [
    | inl o ↦ rw (purge_lru, o) h
    | inr (a, o) ↦ elim (Bool-cases (ltb a.expiry now)) [
      | inl q ↦
          rw (purge_lru, o, q)
            (record {
              good =
                  remove-Keyed a.address (lru.use_lru r.good).0 (use_lru-Keyed lru r.good h.good);
              failed = h.failed;
              apart =
                  shrink-Apart r.good (lru.remove a.address (lru.use_lru r.good).0).0 r.failed
                    r.failed h.apart
                    (λ k e.
                      remove-Within a.address (lru.use_lru r.good).0 k
                        (use_lru-Within lru r.good k e))
                    (λ k e. e);
            })
      | inr q ↦
          rw (purge_lru, o, q)
            (record {
              good = use_lru-Keyed lru r.good h.good;
              failed = h.failed;
              apart =
                  shrink-Apart r.good (lru.use_lru r.good).0 r.failed r.failed h.apart
                    (use_lru-Within lru r.good) (λ k e. e);
            })
    ]
  ]

  pub purge-IsKept :
      (now most e rounds : ℕ) (r : Records) → IsKept r → IsKept (purge lru now most e rounds r)
  unfolding purge
  purge-IsKept now most e zero r h = h
  purge-IsKept now most e (suc rounds) r h = elim (Bool-cases (ltb e most)) [
    | inl q ↦
        rw (purge, q)
          (purge-IsKept now most (if (purge_lru lru now r).1 then e + 1 else e) rounds
            (purge_lru lru now r).0 (purge_lru-IsKept now r h))
    | inr q ↦ rw (purge, q) h
  ]
