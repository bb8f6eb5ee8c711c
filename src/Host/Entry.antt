-- ===== src/Host/Entry.antt =====
-- source/host_resolver.c: the resolver, its entries and the thread of each, in steps between the locks. A
-- host name, a callback and an entry are numbers; the launch of a thread succeeds.
pub mod Table
pub mod Present
pub mod Valid
pub mod Answers
pub mod Closing
mod Tests
use aws_c_io.Base.{
  ℕ, zero, suc, ◌+◌, ◌-◌, Bool, true, false, Option, none, some, List, [], ◌∷◌, ◌++◌, ◌==◌,
  if◌then◌else◌, ltb, is_some, u64, not, ◌&&◌, ◌||◌, ◌*◌, max, min, length, u64_mod, u32,
}
use aws_c_io.Host.Lru.{Address, LruCache, set_in, listed}
use aws_c_io.Host.{Records, process_records, update_address_cache}
use aws_c_io.Host.Resolver.{
  Answer, HostEntry, Phase, Resolver, answering, dns_host_removed_from_cache, dns_query_failed,
  exiting, find_in, free_entry, no_records, ns_per_sec, remove_in, resolving, set_entry,
}

-- s_shutdown_host_entry
pub shutdown_host_entry : HostEntry → HostEntry
shutdown_host_entry e = record e { is_active = false }

-- s_clear_default_resolver_entry_table_synced, for the entries of the table that is given
pub shutdown_table : List (ℕ × ℕ) → List (ℕ × HostEntry) → List (ℕ × HostEntry)
unfolding shutdown_host_entry
shutdown_table [] es = es
shutdown_table (x ∷ xs) es = elim (find_in x.1 es) [
  | none ↦ shutdown_table xs es
  | some e ↦ shutdown_table xs (set_entry x.1 (shutdown_host_entry e) es)
]

-- s_resolver_purge_cache
pub purge_cache : Resolver → Resolver
unfolding shutdown_table
purge_cache r = record r { entries = shutdown_table r.table r.entries; table = [] }

-- resolver_destroy
pub resolver_destroy : Resolver → Resolver
unfolding shutdown_table
resolver_destroy r = record r {
  entries = shutdown_table r.table r.entries;
  table = [];
  is_active = false;
  clean_ups = if r.pending_shutdowns == 0 then r.clean_ups + 1 else r.clean_ups;
}

-- s_resolver_purge_host_cache, with the callback given; where there is no entry, the task that calls it has run.
pub purge_host_cache : ℕ → ℕ → Resolver → Resolver
unfolding shutdown_host_entry
purge_host_cache name callback r = elim (find_in name r.table) [
  | none ↦ record r { purged = callback ∷ r.purged }
  | some i ↦ elim (find_in i r.entries) [
    | none ↦ r
    | some e ↦ record r {
      entries =
          set_entry i (shutdown_host_entry (record e { on_host_purge_complete = some callback }))
            r.entries;
      table = remove_in name r.table;
    }
  ]
]

-- create_and_init_host_entry, with the callback that waits in it
abbrev pub new_host_entry : ℕ → ℕ → ℕ → ℕ → HostEntry
new_host_entry timestamp name max_ttl callback = record {
  host_name = name;
  max_ttl = max_ttl;
  aaaa_records = no_records;
  a_records = no_records;
  pending = callback ∷ [];
  resolves_since_last_request = 0;
  last_resolve_request_timestamp = timestamp;
  is_active = true;
  on_host_purge_complete = none;
  phase = resolving;
  taken = [];
  err_code = 0;
}

pub create_and_init_host_entry : ℕ → ℕ → ℕ → ℕ → Resolver → Resolver
create_and_init_host_entry timestamp name max_ttl callback r = record r {
  entries = (r.next_entry, new_host_entry timestamp name max_ttl callback) ∷ r.entries;
  table = (name, r.next_entry) ∷ r.table;
  next_entry = r.next_entry + 1;
  pending_shutdowns = u32 (r.pending_shutdowns + 1);
}

module _ (lru : LruCache) where
  -- s_get_lru_address_entry_aux: where there is no good address the failed ones are used, to no effect.
  pub get_lru_address : Records → Records × Option Address
  get_lru_address r =
      let used = lru.use_lru r.good in
      elim used.1 [
        | some a ↦ (record r { good = used.0 }, some a)
        | none ↦ (record r { good = used.0; failed = (lru.use_lru r.failed).0 }, none)
      ]

  -- s_get_lru_address and s_copy_address_into_callback_set, for one record type
  pub copy_address_into_callback_set : Records → Records × List Address
  unfolding get_lru_address
  copy_address_into_callback_set r =
      let got = get_lru_address r in
      elim got.1 [
        | none ↦ (got.0, [])
        | some a ↦ (
          record (got.0) {
            good = set_in (record a { use_count = u64 (a.use_count + 1) }) (got.0).good;
          },
          a ∷ [],
        )
      ]

  -- default_resolve_host
  pub resolve_host : ℕ → ℕ → ℕ → ℕ → Resolver → Resolver
  unfolding create_and_init_host_entry
  resolve_host timestamp name max_ttl callback r = elim (find_in name r.table) [
    | none ↦ create_and_init_host_entry timestamp name max_ttl callback r
    | some i ↦ elim (find_in i r.entries) [
      | none ↦ r
      | some e ↦
          let aaaa = lru.use_lru e.aaaa_records.good in
          let a = lru.use_lru e.a_records.good in
          let used : HostEntry = record e {
            last_resolve_request_timestamp = timestamp;
            resolves_since_last_request = 0;
            aaaa_records = record (e.aaaa_records) { good = aaaa.0 };
            a_records = record (e.a_records) { good = a.0 };
          } in
          if is_some aaaa.1 || is_some a.1
          then record r {
            entries = set_entry i used r.entries;
            answers =
                record {
                  callback = callback;
                  error_code = 0;
                  addresses = listed aaaa.1 ++ listed a.1;
                }
                ∷ r.answers;
          }
          else record r {
            entries =
                set_entry i (record used { pending = e.pending ++ (callback ∷ []) }) r.entries;
          }
    ]
  ]

  -- aws_host_resolver_thread under the entry's lock, once the name has been resolved: to the fresh addresses
  -- of both record types, or with an error code. The clock is read three times.
  pub thread_resolved : ℕ → ℕ → ℕ → ℕ → List ℕ → List ℕ → HostEntry → HostEntry
  unfolding process_records update_address_cache
  thread_resolved timestamp aaaa_now a_now err_code aaaa a e =
      let new_expiry = u64 (timestamp + u64 (e.max_ttl * ns_per_sec)) in
      record e {
        aaaa_records = process_records lru e.max_ttl aaaa_now (
            if err_code == 0
            then update_address_cache lru e.max_ttl new_expiry aaaa e.aaaa_records
            else e.aaaa_records);
        a_records = process_records lru e.max_ttl a_now (
            if err_code == 0
            then update_address_cache lru e.max_ttl new_expiry a e.a_records
            else e.a_records);
        taken = e.pending;
        pending = [];
        err_code = err_code;
        phase = answering;
      }

  -- Its loop over the callbacks taken, one of them
  pub thread_answer : HostEntry → HostEntry × List Answer
  unfolding copy_address_into_callback_set
  thread_answer e = elim e.taken [
    | [] ↦ (e, [])
    | k ∷ ks ↦
        let aaaa = copy_address_into_callback_set e.aaaa_records in
        let a = copy_address_into_callback_set e.a_records in
        let vended = aaaa.1 ++ a.1 in
        (
          record e { aaaa_records = aaaa.0; a_records = a.0; taken = ks },
          record {
            callback = k;
            error_code =
                if length vended == 0
                then (if e.err_code == 0 then dns_query_failed else e.err_code)
                else 0;
            addresses = vended;
          }
              ∷ [],
        )
  ]

-- max_no_solicitation_interval
pub max_no_solicitation_interval : HostEntry → ℕ
max_no_solicitation_interval e = min (max 1 e.max_ttl * ns_per_sec) (u64_mod - 1)

-- Whether the thread goes on, at the end of a round.
pub keep_going : ℕ → HostEntry → Bool
unfolding max_no_solicitation_interval
keep_going now e =
    e.is_active
    && not (
        length e.pending == 0
        && ltb (u64 (e.last_resolve_request_timestamp + max_no_solicitation_interval e)) now)

-- What the end of a round, which clears the lists of new and expired addresses, leaves of the entry.
pub end_round : ℕ → HostEntry → HostEntry
unfolding keep_going
end_round now e = record e {
  is_active = keep_going now e;
  resolves_since_last_request = u32 (e.resolves_since_last_request + 1);
  aaaa_records = record (e.aaaa_records) { new_addresses = []; expired_addresses = [] };
  a_records = record (e.a_records) { new_addresses = []; expired_addresses = [] };
  phase = if keep_going now e then resolving else exiting;
}

-- The end of a round of the thread, after its waits: decided under both locks.
pub thread_decide : ℕ → ℕ → HostEntry → Resolver → Resolver
unfolding keep_going end_round
thread_decide now i e r = record r {
  entries = set_entry i (end_round now e) r.entries;
  table = if keep_going now e then r.table else remove_in e.host_name r.table;
}

abbrev pub removed : List ℕ → List Answer
removed [] = []
removed (k ∷ ks) =
    record { callback = k; error_code = dns_host_removed_from_cache; addresses = [] } ∷ removed ks

abbrev pub purge_calls : Option ℕ → List ℕ
purge_calls none = []
purge_calls (some k) = k ∷ []

-- The end of the thread: its purge callback, and at its exit s_on_host_entry_shutdown_completion with
-- s_clean_up_host_entry.
pub thread_exit : ℕ → HostEntry → Resolver → Resolver
thread_exit i e r =
    let left = r.pending_shutdowns - 1 in
    record r {
      entries = free_entry i r.entries;
      answers = removed e.pending ++ r.answers;
      purged = purge_calls e.on_host_purge_complete ++ r.purged;
      pending_shutdowns = left;
      clean_ups = if not r.is_active && (left == 0) then r.clean_ups + 1 else r.clean_ups;
    }

-- What happens to a resolver: calls of its users, and the steps of an entry's thread.
pub data ResolverStep : Type 0 where
  resolve : ℕ → ℕ → ℕ → ℕ → ResolverStep
  purging destroying : ResolverStep
  purging_host : ℕ → ℕ → ResolverStep
  thread_has_resolved : ℕ → ℕ → ℕ → ℕ → ℕ → List ℕ → List ℕ → ResolverStep
  thread_answers thread_exits : ℕ → ResolverStep
  thread_decides : ℕ → ℕ → ResolverStep

module _ (lru : LruCache) where
  -- Users call an active resolver only; a thread takes its steps in their order.
  pub resolver_step : ResolverStep → Resolver → Resolver
  unfolding resolve_host purge_cache resolver_destroy purge_host_cache thread_resolved thread_answer
      thread_decide thread_exit
  resolver_step (resolve timestamp name max_ttl callback) r =
      if r.is_active then resolve_host lru timestamp name max_ttl callback r else r
  resolver_step purging r = if r.is_active then purge_cache r else r
  resolver_step destroying r = if r.is_active then resolver_destroy r else r
  resolver_step (purging_host name callback) r =
      if r.is_active then purge_host_cache name callback r else r
  resolver_step (thread_has_resolved i timestamp aaaa_now a_now err_code aaaa a) r =
      elim (find_in i r.entries) [
        | none ↦ r
        | some e ↦ elim e.phase [
          | resolving ↦ record r {
            entries =
                set_entry i (thread_resolved lru timestamp aaaa_now a_now err_code aaaa a e)
                  r.entries;
          }
          | _ ↦ r
        ]
      ]
  resolver_step (thread_answers i) r = elim (find_in i r.entries) [
    | none ↦ r
    | some e ↦ elim e.phase [
      | answering ↦
          let p = thread_answer lru e in
          record r { entries = set_entry i p.0 r.entries; answers = p.1 ++ r.answers }
      | _ ↦ r
    ]
  ]
  resolver_step (thread_decides i now) r = elim (find_in i r.entries) [
    | none ↦ r
    | some e ↦ elim e.phase [
      | answering ↦ if length e.taken == 0 then thread_decide now i e r else r
      | _ ↦ r
    ]
  ]
  resolver_step (thread_exits i) r = elim (find_in i r.entries) [
    | none ↦ r
    | some e ↦ elim e.phase [ exiting ↦ thread_exit i e r | _ ↦ r ]
  ]

  pub resolver_steps : List ResolverStep → Resolver → Resolver
  unfolding resolver_step
  resolver_steps [] r = r
  resolver_steps (s ∷ ss) r = resolver_steps ss (resolver_step s r)
