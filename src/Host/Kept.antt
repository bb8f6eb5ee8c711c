-- ===== src/Host/Kept.antt =====
-- The invariant of the caches of a host in source/host_resolver.c.
use aws_c_io.Base.{
  ℕ, zero, suc, ◌-◌, ◌≡◌, none, List, [], ◌∷◌, ◌++◌, ◌==◌, leb, length, Bool-cases, Option-cases,
  inl, inr, sym, ap, ◌∙◌,
}
use aws_c_io.Host.Lru.{Address, LruCache, lookup, set_in}
use aws_c_io.Host.{
  Records, drop_good, put_good, put_failed, purge, promote_lru, promote, process_records,
  record_connection_failure, update_address, update_address_cache,
}
use aws_c_io.Host.Keys.{
  lookup-address, find-Keyed, find_lookup, put-Keyed, use_lru-Keyed, use_lru-Within, set_in-Keyed,
  set_in-Within,
}
use aws_c_io.Host.Failures.{failed_once, renewed, fresh, find_value}
use aws_c_io.Host.Caches.{
  Apart, IsKept, shrink-Apart, find-Within, remove-Within, remove-Keyed, remove_gone, put-Apart,
  purge-IsKept,
}

-- The operations on the caches of a host: a round of its thread, or a failure that is recorded.
pub data Operation : Type 0 where
  resolved : ℕ → List ℕ → Operation
  unresolved : Operation
  connection_failed : ℕ → Operation

-- One operation at a time of the clock; a round of the thread is s_update_address_cache where the name was
-- resolved, and then process_records.
pub operate : LruCache → ℕ → ℕ → Operation → Records → Records
unfolding process_records record_connection_failure update_address_cache
operate lru capacity now (resolved new_expiration keys) r =
    process_records lru capacity now (update_address_cache lru capacity new_expiration keys r)
operate lru capacity now unresolved r = process_records lru capacity now r
operate lru capacity now (connection_failed key) r = record_connection_failure lru capacity key r

pub operate_all : LruCache → ℕ → List (ℕ × Operation) → Records → Records
unfolding operate
operate_all lru capacity [] r = r
operate_all lru capacity (o ∷ os) r = operate_all lru capacity os (operate lru capacity o.0 o.1 r)

module _ (lru : LruCache) where
  promote_lru-IsKept :
      (capacity now : ℕ) (r : Records) → IsKept r → IsKept (promote_lru lru capacity now r).0
  unfolding promote_lru put_good
  promote_lru-IsKept capacity now r h = elim (Option-cases (lru.use_lru r.failed).1) [
    | inl o ↦ rw (promote_lru, o) h
    | inr (a, o) ↦ elim (Bool-cases (leb a.expiry now)) [
      | inl q ↦
          rw (promote_lru, o, q)
            (record {
              good = h.good;
              failed = use_lru-Keyed lru r.failed h.failed;
              apart =
                  shrink-Apart r.good r.good r.failed (lru.use_lru r.failed).0 h.apart (λ k e. e)
                    (use_lru-Within lru r.failed);
            })
      | inr q ↦
          rw (promote_lru, o, q)
            (record {
              good = put-Keyed lru capacity a r.good h.good;
              failed =
                  remove-Keyed lru a.address (lru.use_lru r.failed).0
                    (use_lru-Keyed lru r.failed h.failed);
              apart =
                  put-Apart lru capacity a r.good (lru.remove a.address (lru.use_lru r.failed).0).0
                    (shrink-Apart r.good r.good r.failed
                      (lru.remove a.address (lru.use_lru r.failed).0).0 h.apart (λ k e. e)
                      (λ k e.
                        remove-Within lru a.address (lru.use_lru r.failed).0 k
                          (use_lru-Within lru r.failed k e)))
                    (remove_gone lru a.address (lru.use_lru r.failed).0
                      (use_lru-Keyed lru r.failed h.failed));
            })
    ]
  ]

  promote-IsKept :
      (capacity now rounds : ℕ) (r : Records)
      → IsKept r
      → IsKept (promote lru capacity now rounds r)
  unfolding promote
  promote-IsKept capacity now zero r h = h
  promote-IsKept capacity now (suc rounds) r h =
      elim (Bool-cases (promote_lru lru capacity now r).1) [
        | inl q ↦ rw (promote, q) (promote_lru-IsKept capacity now r h)
        | inr q ↦
            rw (promote, q)
              (promote-IsKept capacity now rounds (promote_lru lru capacity now r).0
                (promote_lru-IsKept capacity now r h))
      ]

  process_records-IsKept :
      (capacity now : ℕ) (r : Records) → IsKept r → IsKept (process_records lru capacity now r)
  unfolding process_records
  process_records-IsKept capacity now r h =
      let r1 : Records = purge lru now (length r.good - 1) 0 (length r.good) r in
      let h1 : IsKept r1 = purge-IsKept lru now (length r.good - 1) 0 (length r.good) r h in
      elim (Bool-cases (length r1.good == 0)) [
        | inl q ↦ rw (q) (promote-IsKept capacity now (length r1.failed) r1 h1)
        | inr q ↦ rw (q) h1
      ]

  -- The find that touches an entry.
  found_good-IsKept :
      (key : ℕ) (r : Records) → IsKept r → IsKept (record r { good = (lru.find key r.good).0 })
  found_good-IsKept key r h = record {
    good = find-Keyed lru key r.good h.good;
    failed = h.failed;
    apart =
        shrink-Apart r.good (lru.find key r.good).0 r.failed r.failed h.apart
          (find-Within lru key r.good h.good) (λ k e. e);
  }

  found_failed-IsKept :
      (key : ℕ) (r : Records) → IsKept r → IsKept (record r { failed = (lru.find key r.failed).0 })
  found_failed-IsKept key r h = record {
    good = h.good;
    failed = find-Keyed lru key r.failed h.failed;
    apart =
        shrink-Apart r.good r.good r.failed (lru.find key r.failed).0 h.apart (λ k e. e)
          (find-Within lru key r.failed h.failed);
  }

  set_good-IsKept :
      (b : Address) (r : Records) → IsKept r → IsKept (record r { good = set_in b r.good })
  set_good-IsKept b r h = record {
    good = set_in-Keyed b r.good h.good;
    failed = h.failed;
    apart =
        shrink-Apart r.good (set_in b r.good) r.failed r.failed h.apart (set_in-Within b r.good)
          (λ k e. e);
  }

  set_failed-IsKept :
      (b : Address) (r : Records) → IsKept r → IsKept (record r { failed = set_in b r.failed })
  set_failed-IsKept b r h = record {
    good = h.good;
    failed = set_in-Keyed b r.failed h.failed;
    apart =
        shrink-Apart r.good r.good r.failed (set_in b r.failed) h.apart (λ k e. e)
          (set_in-Within b r.failed);
  }

  put_good-IsKept :
      (capacity : ℕ) (a : Address) (r : Records)
      → IsKept r
      → lookup a.address r.failed ≡ none
      → IsKept (put_good lru capacity a r)
  unfolding put_good
  put_good-IsKept capacity a r h e = record {
    good = put-Keyed lru capacity a r.good h.good;
    failed = h.failed;
    apart = put-Apart lru capacity a r.good r.failed h.apart e;
  }

  put_failed-IsKept :
      (capacity : ℕ) (a : Address) (r : Records)
      → IsKept r
      → lookup a.address r.good ≡ none
      → IsKept (put_failed lru capacity a r)
  unfolding put_failed
  put_failed-IsKept capacity a r h e = record {
    good = h.good;
    failed = put-Keyed lru capacity a r.failed h.failed;
    apart =
        swap_Apart (lru.put capacity a r.failed).0 r.good
          (put-Apart lru capacity a r.failed r.good (swap_Apart r.good r.failed h.apart) e);
  }
    where
      swap_Apart : (c d : List Address) → Apart c d → Apart d c
      swap_Apart c d p k = elim (p k) [ inl x ↦ inr x | inr x ↦ inl x ]

  drop_good-IsKept : (key : ℕ) (r : Records) → IsKept r → IsKept (drop_good lru key r)
  unfolding drop_good
  drop_good-IsKept key r h = record {
    good = remove-Keyed lru key r.good h.good;
    failed = h.failed;
    apart =
        shrink-Apart r.good (lru.remove key r.good).0 r.failed r.failed h.apart
          (remove-Within lru key r.good) (λ k e. e);
  }

  drop_good_gone : (key : ℕ) (r : Records) → IsKept r → lookup key (drop_good lru key r).good ≡ none
  unfolding drop_good
  drop_good_gone key r h = remove_gone lru key r.good h.good

  failure-IsKept :
      (capacity key : ℕ) (r : Records)
      → IsKept r
      → IsKept (record_connection_failure lru capacity key r)
  unfolding record_connection_failure
  failure-IsKept capacity key r h = elim (Option-cases (lru.find key r.good).1) [
    | inl o ↦ elim (Option-cases (lru.find key r.failed).1) [
      | inl p ↦
          rw (record_connection_failure, o, p)
            (found_failed-IsKept key (record r { good = (lru.find key r.good).0 })
              (found_good-IsKept key r h))
      | inr (a, p) ↦
          rw (record_connection_failure, o, p)
            (set_failed-IsKept (failed_once a)
              (record r { good = (lru.find key r.good).0; failed = (lru.find key r.failed).0 })
              (found_failed-IsKept key (record r { good = (lru.find key r.good).0 })
                (found_good-IsKept key r h)))
    ]
    | inr (a, o) ↦
        let r1 : Records = record r { good = (lru.find key r.good).0 } in
        let h1 : IsKept r1 = found_good-IsKept key r h in
        rw (record_connection_failure, o)
          (put_failed-IsKept capacity (failed_once a) (drop_good lru key r1)
            (drop_good-IsKept key r1 h1)
            (ap (λ k. lookup k (drop_good lru key r1).good)
                (lookup-address key r.good a (sym (find_value lru key r.good) ∙ o))
              ∙ drop_good_gone key r1 h1))
  ]

  announced-IsKept :
      (l : List Address) (r : Records) → IsKept r → IsKept (record r { new_addresses = l })
  announced-IsKept l r h = record { good = h.good; failed = h.failed; apart = h.apart }

  update_address-IsKept :
      (capacity e key : ℕ) (r : Records) → IsKept r → IsKept (update_address lru capacity e key r)
  unfolding update_address
  update_address-IsKept capacity e key r h =
      let r1 : Records = record r { good = (lru.find key r.good).0 } in
      let h1 : IsKept r1 = found_good-IsKept key r h in
      let r2 : Records = record r1 { failed = (lru.find key r.failed).0 } in
      let h2 : IsKept r2 = found_failed-IsKept key r1 h1 in
      elim (Option-cases (lru.find key r.good).1) [
        | inl o ↦ elim (Option-cases (lru.find key r.failed).1) [
          | inl p ↦
              rw (update_address, o, p)
                (announced-IsKept
                  ((put_good lru capacity (fresh e key) r2).new_addresses ++ (fresh e key ∷ []))
                  (put_good lru capacity (fresh e key) r2)
                  (put_good-IsKept capacity (fresh e key) r2 h2 (
                    find_lookup lru key key r.failed h.failed
                    ∙ sym (find_value lru key r.failed)
                    ∙ p)))
          | inr (a, p) ↦ rw (update_address, o, p) (set_failed-IsKept (renewed e a) r2 h2)
        ]
        | inr (a, o) ↦ rw (update_address, o) (set_good-IsKept (renewed e a) r1 h1)
      ]

  update_address_cache-IsKept :
      (capacity e : ℕ) (keys : List ℕ) (r : Records)
      → IsKept r
      → IsKept (update_address_cache lru capacity e keys r)
  unfolding update_address_cache
  update_address_cache-IsKept capacity e [] r h = h
  update_address_cache-IsKept capacity e (key ∷ keys) r h =
      update_address_cache-IsKept capacity e keys (update_address lru capacity e key r)
        (update_address-IsKept capacity e key r h)

  operate-IsKept :
      (capacity now : ℕ) (o : Operation) (r : Records)
      → IsKept r
      → IsKept (operate lru capacity now o r)
  unfolding operate
  operate-IsKept capacity now (resolved e keys) r h =
      process_records-IsKept capacity now (update_address_cache lru capacity e keys r)
        (update_address_cache-IsKept capacity e keys r h)
  operate-IsKept capacity now unresolved r h = process_records-IsKept capacity now r h
  operate-IsKept capacity now (connection_failed key) r h = failure-IsKept capacity key r h

-- After any sequence of the rounds of a host's thread and of recorded failures, whatever the capacity,
-- no cache has an address twice, and no address is both good and failed, if it was so at first.
pub operate_all-IsKept :
    (lru : LruCache) (capacity : ℕ) (os : List (ℕ × Operation)) (r : Records)
    → IsKept r
    → IsKept (operate_all lru capacity os r)
unfolding operate_all
operate_all-IsKept lru capacity [] r h = h
operate_all-IsKept lru capacity (o ∷ os) r h =
    operate_all-IsKept lru capacity os (operate lru capacity o.0 o.1 r)
      (operate-IsKept lru capacity o.0 o.1 r h)
