-- ===== src/Host.antt =====
-- source/host_resolver.c: addresses, the caches that hold them, and what is done to the caches of one
-- host under its lock. A name and an address are numbers that stand for their strings.
pub mod Lru
pub mod Purge
pub mod Resolver
pub mod Promote
pub mod Keys
pub mod Failures
pub mod Caches
pub mod Kept
pub mod Entry
mod Tests
use aws_c_io.Base.{
  ℕ, zero, suc, ◌+◌, ◌-◌, Bool, true, false, Option, none, some, List, [], ◌∷◌, ◌++◌, ◌==◌,
  if◌then◌else◌, ltb, leb, length, is_some, u64,
}
use aws_c_io.Host.Lru.{Address, LruCache, set_in}

-- The two caches of one record type, with the lists that the entry keeps for its listeners.
pub record Records : Type 0 where
  pub good : List Address
  pub failed : List Address
  pub new_addresses : List Address
  pub expired_addresses : List Address

module _ (lru : LruCache) where
  -- aws_cache_remove on a good cache, whose on_remove copies the address to expired_addresses
  pub drop_good : ℕ → Records → Records
  drop_good key r =
      let removed = lru.remove key r.good in
      record r { good = removed.0; expired_addresses = r.expired_addresses ++ removed.1 }

  -- aws_cache_put on a good cache; what it evicts is removed like that.
  pub put_good : ℕ → Address → Records → Records
  put_good capacity a r =
      let stored = lru.put capacity a r.good in
      record r { good = stored.0; expired_addresses = r.expired_addresses ++ stored.1 }

  -- aws_cache_put on a cache of failed addresses
  pub put_failed : ℕ → Address → Records → Records
  put_failed capacity a r = record r { failed = (lru.put capacity a r.failed).0 }

  -- One round of the first loop of process_records, with whether it expired an address.
  pub purge_lru : ℕ → Records → Records × Bool
  unfolding drop_good
  purge_lru timestamp r =
      let used = lru.use_lru r.good in
      elim used.1 [
        | none ↦ (r, false)
        | some a ↦
            if ltb a.expiry timestamp
            then (drop_good a.address (record r { good = used.0 }), true)
            else (record r { good = used.0 }, false)
      ]

  -- The loop, for the rounds that are left; `most` is record_count - 1.
  pub purge : ℕ → ℕ → ℕ → ℕ → Records → Records
  unfolding purge_lru
  purge timestamp most expired_records zero r = r
  purge timestamp most expired_records (suc rounds) r = elim (ltb expired_records most) [
    | false ↦ r
    | true ↦
        let p = purge_lru timestamp r in
        purge timestamp most (if p.1 then expired_records + 1 else expired_records) rounds p.0
  ]

  -- One round of the second loop, with whether it has promoted an address.
  pub promote_lru : ℕ → ℕ → Records → Records × Bool
  unfolding put_good
  promote_lru capacity timestamp r =
      let used = lru.use_lru r.failed in
      elim used.1 [
        | none ↦ (r, false)
        | some a ↦
            if leb a.expiry timestamp
            then (record r { failed = used.0 }, false)
            else (let stored = put_good capacity a (record r { failed = used.0 }) in
                (
                  record stored {
                    new_addresses = r.new_addresses ++ (a ∷ []);
                    failed = (lru.remove a.address used.0).0;
                  },
                  true,
                ))
      ]

  pub promote : ℕ → ℕ → ℕ → Records → Records
  unfolding promote_lru
  promote capacity timestamp zero r = r
  promote capacity timestamp (suc rounds) r =
      let p = promote_lru capacity timestamp r in
      elim p.1 [ true ↦ p.0 | false ↦ promote capacity timestamp rounds p.0 ]

  -- process_records
  pub process_records : ℕ → ℕ → Records → Records
  unfolding purge promote
  process_records capacity timestamp r =
      let r1 = purge timestamp (length r.good - 1) 0 (length r.good) r in
      if length r1.good == 0 then promote capacity timestamp (length r1.failed) r1 else r1

  -- resolver_record_connection_failure, for the caches of the address's type
  pub record_connection_failure : ℕ → ℕ → Records → Records
  unfolding drop_good put_failed
  record_connection_failure capacity key r =
      let found = lru.find key r.good in
      elim found.1 [
        | some a ↦
            put_failed capacity
              (record a { connection_failure_count = u64 (a.connection_failure_count + 1) })
              (drop_good key (record r { good = found.0 }))
        | none ↦
            let in_failed = lru.find key r.failed in
            elim in_failed.1 [
              | none ↦ record r { good = found.0; failed = in_failed.0 }
              | some a ↦ record r {
                good = found.0;
                failed =
                    set_in
                      (record a { connection_failure_count = u64 (a.connection_failure_count + 1) })
                      in_failed.0;
              }
            ]
      ]

  -- One address of s_update_address_cache: a known one lives longer, another is stored and announced.
  pub update_address : ℕ → ℕ → ℕ → Records → Records
  unfolding put_good
  update_address capacity new_expiration key r =
      let found = lru.find key r.good in
      elim found.1 [
        | some a ↦ record r { good = set_in (record a { expiry = new_expiration }) found.0 }
        | none ↦
            let in_failed = lru.find key r.failed in
            elim in_failed.1 [
              | some a ↦ record r {
                good = found.0;
                failed = set_in (record a { expiry = new_expiration }) in_failed.0;
              }
              | none ↦
                  (let a : Address = record {
                    address = key;
                    expiry = new_expiration;
                    use_count = 0;
                    connection_failure_count = 0;
                  } in
                    let stored =
                      put_good capacity a (record r { good = found.0; failed = in_failed.0 }) in
                    record stored { new_addresses = stored.new_addresses ++ (a ∷ []) })
            ]
      ]

  -- s_update_address_cache, for the fresh addresses of one record type, where the caches have room for at least one:
  -- with a capacity of 0 the source reads an entry that the cache has just freed.
  pub update_address_cache : ℕ → ℕ → List ℕ → Records → Records
  unfolding update_address
  update_address_cache capacity new_expiration [] r = r
  update_address_cache capacity new_expiration (key ∷ keys) r =
      update_address_cache capacity new_expiration keys
        (update_address capacity new_expiration key r)
