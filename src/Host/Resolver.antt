-- ===== src/Host/Resolver.antt =====
-- The state of source/host_resolver.c: the resolver, its table and its entries.
use aws_c_io.Base.{ℕ, Bool, Option, none, some, List, [], ◌∷◌, ◌==◌, if◌then◌else◌}
use aws_c_io.Host.Lru.{Address}
use aws_c_io.Host.{Records}

-- Where a thread of aws_host_resolver_thread is: about to resolve the name, answering the callbacks it
-- has taken, or out of its loop.
pub data Phase : Type 0 where
  resolving answering exiting : Phase

-- struct host_entry, with the locals of its thread: the callbacks that it has taken and its error code
pub record HostEntry : Type 0 where
  pub host_name : ℕ
  pub max_ttl : ℕ
  pub aaaa_records : Records
  pub a_records : Records
  pub pending : List ℕ
  pub resolves_since_last_request : ℕ
  pub last_resolve_request_timestamp : ℕ
  pub is_active : Bool
  pub on_host_purge_complete : Option ℕ
  pub phase : Phase
  pub taken : List ℕ
  pub err_code : ℕ

-- A call of a resolution callback; code 0 is AWS_OP_SUCCESS.
pub record Answer : Type 0 where
  pub callback : ℕ
  pub error_code : ℕ
  pub addresses : List Address

-- struct default_host_resolver, with every entry whose thread has not completed its shutdown, and what
-- has been called: resolution callbacks, purge callbacks and s_cleanup_default_resolver.
pub record Resolver : Type 0 where
  pub table : List (ℕ × ℕ)
  pub entries : List (ℕ × HostEntry)
  pub next_entry : ℕ
  pub pending_shutdowns : ℕ
  pub is_active : Bool
  pub answers : List Answer
  pub purged : List ℕ
  pub clean_ups : ℕ

abbrev pub dns_query_failed : ℕ
dns_query_failed = 1

abbrev pub dns_host_removed_from_cache : ℕ
dns_host_removed_from_cache = 2

abbrev pub ns_per_sec : ℕ
ns_per_sec = 1000000000

-- A hash table by its keys.
abbrev pub find_in : {A : Type 0} → ℕ → List (ℕ × A) → Option A
find_in k [] = none
find_in k (x ∷ xs) = if x.0 == k then some x.1 else find_in k xs

abbrev pub remove_in : {A : Type 0} → ℕ → List (ℕ × A) → List (ℕ × A)
remove_in k [] = []
remove_in k (x ∷ xs) = if x.0 == k then remove_in k xs else x ∷ remove_in k xs

-- The entries that are left where one is freed.
abbrev pub free_entry : ℕ → List (ℕ × HostEntry) → List (ℕ × HostEntry)
free_entry k [] = []
free_entry k (x ∷ xs) = if x.0 == k then xs else x ∷ free_entry k xs

abbrev pub set_entry : ℕ → HostEntry → List (ℕ × HostEntry) → List (ℕ × HostEntry)
set_entry k e [] = []
set_entry k e (x ∷ xs) = if x.0 == k then (k, e) ∷ xs else x ∷ set_entry k e xs

abbrev pub no_records : Records
no_records = record { good = []; failed = []; new_addresses = []; expired_addresses = [] }
