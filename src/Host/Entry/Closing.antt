-- ===== src/Host/Entry/Closing.antt =====
-- When the resolver of source/host_resolver.c is cleaned up.
use aws_c_io.Base.{
  if_true, if_false, ℕ, ◌+◌, ◌≤◌, ◌<◌, ◌≡◌, Bool, true, false, some, List, [], ◌∷◌, ◌++◌, ◌==◌,
  if◌then◌else◌, length, refl, sym, arith, Bool-cases, Option-cases, inl, inr, subst, is_some, ◌||◌,
}
use aws_c_io.Host.Lru.{LruCache}
use aws_c_io.Host.Resolver.{
  HostEntry, Resolver, Phase, find_in, set_entry, resolving, answering, exiting,
}
use aws_c_io.Host.Entry.{
  shutdown_table, purge_cache, resolver_destroy, purge_host_cache, create_and_init_host_entry,
  resolve_host, thread_resolved, thread_answer, thread_decide, end_round, thread_exit, ResolverStep,
  resolve, purging, destroying, purging_host, thread_has_resolved, thread_answers, thread_exits,
  thread_decides, resolver_step, resolver_steps,
}
use aws_c_io.Host.Entry.Table.{total, total_same, total-free_entry, total-shutdown_table}

abbrev pub count : Resolver → ℕ
count r = total (λ e. 1) r.entries

-- The counter is that of the threads that have not completed their shutdown. The resolver has been cleaned
-- up once if it is shutting down and there is none, and not at all otherwise.
abbrev pub IsCounted : Resolver → Type 0
IsCounted r =
    (r.pending_shutdowns ≡ count r)
    × (r.clean_ups ≡ (if r.is_active then 0 else (if count r == 0 then 1 else 0)))

-- One step keeps it so, and adds one thread at most.
record Counts (r r' : Resolver) : Type 0 where
  counted : IsCounted r'
  few : count r' ≤ count r + 1

Counts-pair : (r r' : Resolver) → IsCounted r' × (count r' ≤ count r + 1) → Counts r r'
Counts-pair r r' p = record { counted = p.0; few = p.1 }

unchanged : (r : Resolver) → IsCounted r → Counts r r
unchanged r h = record { counted = h; few = omega arith }

if-Counts : (b : Bool) (r x y : Resolver) → Counts r x → Counts r y → Counts r (if b then x else y)
if-Counts true r x y p q = p
if-Counts false r x y p q = q

-- No thread is launched or ends.
same-Counts :
    (r r' : Resolver)
    → IsCounted r
    → total (λ e. 1) r'.entries ≡ count r
    → r'.pending_shutdowns ≡ r.pending_shutdowns
    → r'.clean_ups ≡ r.clean_ups
    → r'.is_active ≡ r.is_active
    → Counts r r'
same-Counts r r' h t p c a = Counts-pair r r' (ground (arith, t, p, c, a, h))

module _ (lru : LruCache) where
  set_count :
      (i : ℕ) (e e' : HostEntry) (r : Resolver)
      → find_in i r.entries ≡ some e
      → total (λ x. 1) (set_entry i e' r.entries) ≡ count r
  set_count i e e' r f = total_same (λ x. 1) i e e' r.entries f refl

  resolve-Counts :
      (t n m c : ℕ) (r : Resolver)
      → count r + 1 < 4294967296
      → r.is_active ≡ true
      → IsCounted r
      → Counts r (resolve_host lru t n m c r)
  unfolding resolve_host create_and_init_host_entry
  resolve-Counts t n m c r b g h = elim (Option-cases (find_in n r.table)) [
    | inl q ↦ rw (resolve_host, q) (Counts-pair r _ (ground (arith, g, h, b)))
    | inr (i, q) ↦ elim (Option-cases (find_in i r.entries)) [
      | inl p ↦ rw (resolve_host, q, p) (unchanged r h)
      | inr (e, p) ↦
          rw (resolve_host, q, p)
            (if-Counts
              (is_some (lru.use_lru e.aaaa_records.good).1
                || is_some (lru.use_lru e.a_records.good).1)
              r _ _ (same-Counts r _ h (set_count i e _ r p) refl refl refl)
              (same-Counts r _ h (set_count i e _ r p) refl refl refl))
    ]
  ]

  purge_host-Counts : (n c : ℕ) (r : Resolver) → IsCounted r → Counts r (purge_host_cache n c r)
  unfolding purge_host_cache
  purge_host-Counts n c r h = elim (Option-cases (find_in n r.table)) [
    | inl q ↦ rw (purge_host_cache, q) (same-Counts r _ h refl refl refl refl)
    | inr (i, q) ↦ elim (Option-cases (find_in i r.entries)) [
      | inl p ↦ rw (purge_host_cache, q, p) (unchanged r h)
      | inr (e, p) ↦
          rw (purge_host_cache, q, p) (same-Counts r _ h (set_count i e _ r p) refl refl refl)
    ]
  ]

  shutdown-count : (r : Resolver) → total (λ x. 1) (shutdown_table r.table r.entries) ≡ count r
  shutdown-count r = total-shutdown_table (λ x. 1) (λ e. refl) r.table r.entries

  destroy-Counts : (r : Resolver) → r.is_active ≡ true → IsCounted r → Counts r (resolver_destroy r)
  unfolding resolver_destroy
  destroy-Counts r g h = Counts-pair r (resolver_destroy r) (ground (arith, g, h, shutdown-count r))

  resolved_by :
      (i t u w c : ℕ) (aaaa a : List ℕ) (e : HostEntry) (p : Phase) (r : Resolver)
      → find_in i r.entries ≡ some e
      → IsCounted r
      → Counts r (elim p [
        | resolving ↦ record r {
          entries = set_entry i (thread_resolved lru t u w c aaaa a e) r.entries;
        }
        | _ ↦ r
      ])
  resolved_by i t u w c aaaa a e resolving r f h =
      same-Counts r _ h (set_count i e (thread_resolved lru t u w c aaaa a e) r f) refl refl refl
  resolved_by i t u w c aaaa a e answering r f h = unchanged r h
  resolved_by i t u w c aaaa a e exiting r f h = unchanged r h

  answers_by :
      (i : ℕ) (e : HostEntry) (p : Phase) (r : Resolver)
      → find_in i r.entries ≡ some e
      → IsCounted r
      → Counts r (elim p [
        | answering ↦ record r {
          entries = set_entry i (thread_answer lru e).0 r.entries;
          answers = (thread_answer lru e).1 ++ r.answers;
        }
        | _ ↦ r
      ])
  answers_by i e resolving r f h = unchanged r h
  answers_by i e answering r f h =
      same-Counts r _ h (set_count i e (thread_answer lru e).0 r f) refl refl refl
  answers_by i e exiting r f h = unchanged r h

  decides_by :
      (i now : ℕ) (e : HostEntry) (p : Phase) (r : Resolver)
      → find_in i r.entries ≡ some e
      → IsCounted r
      → Counts r (elim p [
        | answering ↦ if length e.taken == 0 then thread_decide now i e r else r
        | _ ↦ r
      ])
  unfolding thread_decide
  decides_by i now e resolving r f h = unchanged r h
  decides_by i now e answering r f h =
      if-Counts (length e.taken == 0) r (thread_decide now i e r) r
        (same-Counts r _ h (set_count i e (end_round now e) r f) refl refl refl) (unchanged r h)
  decides_by i now e exiting r f h = unchanged r h

  exits_by :
      (i : ℕ) (e : HostEntry) (p : Phase) (r : Resolver)
      → find_in i r.entries ≡ some e
      → IsCounted r
      → Counts r (elim p [ exiting ↦ thread_exit i e r | _ ↦ r ])
  unfolding thread_exit
  exits_by i e resolving r f h = unchanged r h
  exits_by i e answering r f h = unchanged r h
  exits_by i e exiting r f h =
      Counts-pair r (thread_exit i e r)
        (ground (arith, h, total-free_entry (λ x. 1) i e r.entries f))

  resolver_step-Counts :
      (s : ResolverStep) (r : Resolver)
      → count r + 1 < 4294967296
      → IsCounted r
      → Counts r (resolver_step lru s r)
  unfolding resolver_step purge_cache
  resolver_step-Counts (resolve t n m c) r b h = elim (Bool-cases r.is_active) [
    | inl q ↦
        subst (λ x. Counts r x) (sym (if_true r.is_active (resolve_host lru t n m c r) r q))
          (resolve-Counts t n m c r b q h)
    | inr q ↦
        subst (λ x. Counts r x) (sym (if_false r.is_active (resolve_host lru t n m c r) r q))
          (unchanged r h)
  ]
  resolver_step-Counts purging r b h =
      if-Counts r.is_active r (purge_cache r) r
        (same-Counts r _ h (shutdown-count r) refl refl refl) (unchanged r h)
  resolver_step-Counts destroying r b h = elim (Bool-cases r.is_active) [
    | inl q ↦
        subst (λ x. Counts r x) (sym (if_true r.is_active (resolver_destroy r) r q))
          (destroy-Counts r q h)
    | inr q ↦
        subst (λ x. Counts r x) (sym (if_false r.is_active (resolver_destroy r) r q))
          (unchanged r h)
  ]
  resolver_step-Counts (purging_host n c) r b h =
      if-Counts r.is_active r (purge_host_cache n c r) r (purge_host-Counts n c r h) (unchanged r h)
  resolver_step-Counts (thread_has_resolved i t u w c aaaa a) r b h =
      elim (Option-cases (find_in i r.entries)) [
        | inl q ↦ rw (resolver_step, q) (unchanged r h)
        | inr (e, q) ↦ rw (resolver_step, q) (resolved_by i t u w c aaaa a e e.phase r q h)
      ]
  resolver_step-Counts (thread_answers i) r b h = elim (Option-cases (find_in i r.entries)) [
    | inl q ↦ rw (resolver_step, q) (unchanged r h)
    | inr (e, q) ↦ rw (resolver_step, q) (answers_by i e e.phase r q h)
  ]
  resolver_step-Counts (thread_decides i now) r b h = elim (Option-cases (find_in i r.entries)) [
    | inl q ↦ rw (resolver_step, q) (unchanged r h)
    | inr (e, q) ↦ rw (resolver_step, q) (decides_by i now e e.phase r q h)
  ]
  resolver_step-Counts (thread_exits i) r b h = elim (Option-cases (find_in i r.entries)) [
    | inl q ↦ rw (resolver_step, q) (unchanged r h)
    | inr (e, q) ↦ rw (resolver_step, q) (exits_by i e e.phase r q h)
  ]

-- Over a history whose threads and steps are together fewer than 2^32, if it was so at first: the counter
-- is that of the threads that have not completed their shutdown, and the resolver has been cleaned up
-- once if it has been destroyed and there is none, and not at all otherwise.
pub resolver_steps-IsCounted :
    (lru : LruCache) (ss : List ResolverStep) (r : Resolver)
    → count r + length ss < 4294967296
    → IsCounted r
    → IsCounted (resolver_steps lru ss r)
unfolding resolver_steps
resolver_steps-IsCounted lru [] r b h = h
resolver_steps-IsCounted lru (s ∷ ss) r b h =
    let c : Counts r (resolver_step lru s r) = resolver_step-Counts lru s r (omega (arith, b)) h in
    resolver_steps-IsCounted lru ss (resolver_step lru s r) (omega (arith, b, c.few)) c.counted
