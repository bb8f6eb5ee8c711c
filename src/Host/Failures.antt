-- ===== src/Host/Failures.antt =====
-- The failures of connections and the fresh addresses of source/host_resolver.c, in the caches of a host.
use aws_c_io.Base.{
  ℕ, ◌+◌, ◌<◌, ◌≡◌, false, Option, none, some, List, [], ◌∷◌, ◌++◌, ◌==◌, u64, refl, arith, sym, ap,
  subst, ◌∙◌,
}
use aws_c_io.Host.Lru.{Address, LruCache, lookup, without, set_in, listed}
use aws_c_io.Host.{
  Records, drop_good, put_good, put_failed, record_connection_failure, update_address,
}
use aws_c_io.Host.Purge.{Keyed}
use aws_c_io.Host.Keys.{
  lookup-address, find-Keyed, find_lookup, put-lookup, without_gone, without_other, lookup-set_in,
}

-- The entry after one more failure.
abbrev pub failed_once : Address → Address
failed_once a = record a { connection_failure_count = u64 (a.connection_failure_count + 1) }

-- A good address has become a failed one.
pub record Moved (key : ℕ) (a : Address) (r r' : Records) : Type 0 where
  pub is_failed : lookup key r'.failed ≡ some (failed_once a)
  pub not_good : lookup key r'.good ≡ none
  pub others : (k : ℕ) → (key == k) ≡ false → lookup k r'.good ≡ lookup k r.good
  pub is_reported : r'.expired_addresses ≡ r.expired_addresses ++ (a ∷ [])
  pub not_new : r'.new_addresses ≡ r.new_addresses

module _ (lru : LruCache) where
  pub remove-find :
      (key : ℕ) (c : List Address)
      → Keyed c
      → lru.remove key (lru.find key c).0 ≡ (without key (lru.find key c).0, listed (lookup key c))
  remove-find key c h =
      lru.remove_lem key (lru.find key c).0
      ∙ ap (λ o. (without key (lru.find key c).0, listed o)) (find_lookup lru key key c h)

  pub find_value : (key : ℕ) (c : List Address) → (lru.find key c).1 ≡ lookup key c
  find_value key c = ap (λ p. p.1) (lru.find_lem key c)

  failure_step :
      (capacity key : ℕ) (a : Address) (r : Records)
      → Keyed r.good
      → lookup key r.good ≡ some a
      → record_connection_failure lru capacity key r ≡ record r {
        good = without key (lru.find key r.good).0;
        expired_addresses = r.expired_addresses ++ (a ∷ []);
        failed = (lru.put capacity (failed_once a) r.failed).0;
      }
  unfolding record_connection_failure drop_good put_failed
  failure_step capacity key a r h e =
      ground (arith, e, find_value key r.good, remove-find key r.good h)

-- A failure recorded for a good address moves it to the failed ones, with one more failure on it: it
-- is not good any more and is reported as expired; the other good addresses stay.
pub record_connection_failure_moves :
    (lru : LruCache) (capacity key : ℕ) (a : Address) (r : Records)
    → Keyed r.good
    → Keyed r.failed
    → 0 < capacity
    → lookup key r.good ≡ some a
    → Moved key a r (record_connection_failure lru capacity key r)
record_connection_failure_moves lru capacity key a r h hf n e =
    subst (λ s. Moved key a r s) (sym (failure_step lru capacity key a r h e))
      (record {
        is_failed =
            subst
              (λ k. lookup k (lru.put capacity (failed_once a) r.failed).0 ≡ some (failed_once a))
              (lookup-address key r.good a e)
              (put-lookup lru capacity (failed_once a) r.failed hf n);
        not_good = without_gone key (lru.find key r.good).0 (find-Keyed lru key r.good h);
        others =
            λ k q. without_other key k (lru.find key r.good).0 q ∙ find_lookup lru key k r.good h;
        is_reported = refl;
        not_new = refl;
      })

-- What a fresh address does to one of the caches that knows it.
abbrev pub renewed : ℕ → Address → Address
renewed new_expiration a = record a { expiry = new_expiration }

abbrev pub fresh : ℕ → ℕ → Address
fresh new_expiration key = record {
  address = key;
  expiry = new_expiration;
  use_count = 0;
  connection_failure_count = 0;
}

-- What a fresh address comes to, by what the good and the failed cache know of it.
abbrev pub Updated : ℕ → ℕ → Records → Records → Option Address → Option Address → Type 0
Updated new_expiration key r r' (some a) known =
    (lookup key r'.good ≡ some (renewed new_expiration a))
    × ((k : ℕ) → lookup k r'.failed ≡ lookup k r.failed)
    × (r'.new_addresses ≡ r.new_addresses)
    × (r'.expired_addresses ≡ r.expired_addresses)
Updated new_expiration key r r' none (some a) =
    (lookup key r'.good ≡ none)
    × (lookup key r'.failed ≡ some (renewed new_expiration a))
    × (r'.new_addresses ≡ r.new_addresses)
    × (r'.expired_addresses ≡ r.expired_addresses)
Updated new_expiration key r r' none none =
    (lookup key r'.good ≡ some (fresh new_expiration key))
    × (lookup key r'.failed ≡ none)
    × (r'.new_addresses ≡ r.new_addresses ++ (fresh new_expiration key ∷ []))

set_renewed :
    (lru : LruCache) (e key : ℕ) (a : Address) (c : List Address)
    → Keyed c
    → lookup key c ≡ some a
    → lookup key (set_in (renewed e a) (lru.find key c).0) ≡ some (renewed e a)
set_renewed lru e key a c h q = ground (
  arith,
  q,
  lookup-address key c a q,
  find_lookup lru key key c h,
  lookup-set_in (renewed e a) key (lru.find key c).0,
)

renews_or_adds :
    (lru : LruCache) (capacity e key : ℕ) (r : Records) (o p : Option Address)
    → Keyed r.good
    → Keyed r.failed
    → 0 < capacity
    → lookup key r.good ≡ o
    → lookup key r.failed ≡ p
    → Updated e key r (update_address lru capacity e key r) o p
unfolding update_address put_good
renews_or_adds lru capacity e key r (some a) p h hf n qo qp =
    rw (update_address, find_value lru key r.good, qo)
      (set_renewed lru e key a r.good h qo, λ k. refl, refl, refl)
renews_or_adds lru capacity e key r none (some a) h hf n qo qp =
    rw (update_address, find_value lru key r.good, qo, find_value lru key r.failed, qp)
      (find_lookup lru key key r.good h ∙ qo, set_renewed lru e key a r.failed hf qp, refl, refl)
renews_or_adds lru capacity e key r none none h hf n qo qp =
    rw (update_address, find_value lru key r.good, qo, find_value lru key r.failed, qp)
      (
        put-lookup lru capacity (fresh e key) (lru.find key r.good).0 (find-Keyed lru key r.good h)
            n,
        find_lookup lru key key r.failed hf ∙ qp,
        refl,
      )

-- A fresh address that a cache knows only lives longer there, and nobody is told; a failed one is not
-- made good by it. One that neither cache knows becomes good, and is announced once.
pub update_address-Updated :
    (lru : LruCache) (capacity new_expiration key : ℕ) (r : Records)
    → Keyed r.good
    → Keyed r.failed
    → 0 < capacity
    → Updated new_expiration key r
        (update_address lru capacity new_expiration key r)
        (lookup key r.good)
        (lookup key r.failed)
update_address-Updated lru capacity new_expiration key r h hf n =
    renews_or_adds lru capacity new_expiration key r (lookup key r.good) (lookup key r.failed) h hf
      n refl refl
