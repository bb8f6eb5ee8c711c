-- ===== src/Host/Entry/Answers.antt =====
-- Where the callbacks of the resolver of source/host_resolver.c are.
use aws_c_io.Base.{
  ℕ, ◌+◌, ◌≡◌, Bool, true, false, some, List, [], ◌∷◌, ◌++◌, ◌==◌, if◌then◌else◌, length,
  List-cases, refl, arith, Bool-cases, Option-cases, inl, inr, is_some, ◌||◌, ◌&&◌,
}
use aws_c_io.Host.Lru.{LruCache}
use aws_c_io.Host.Resolver.{
  HostEntry, Resolver, Answer, Phase, find_in, set_entry, resolving, answering, exiting,
}
use aws_c_io.Host.Entry.{
  removed, shutdown_host_entry, shutdown_table, purge_cache, resolver_destroy, purge_host_cache,
  create_and_init_host_entry, resolve_host, thread_resolved, thread_answer, thread_decide,
  end_round, thread_exit, ResolverStep, resolve, purging, destroying, purging_host,
  thread_has_resolved, thread_answers, thread_exits, thread_decides, resolver_step, resolver_steps,
}
use aws_c_io.Host.Entry.Table.{
  total, total-set_entry, total-free_entry, total_same, total-shutdown_table,
}
use aws_c_io.Host.Entry.Present.{IsValid}
use aws_c_io.Host.Entry.Valid.{resolver_step-IsValid}

-- How often a callback is in a list of waiting ones, and how often it has been called.
abbrev pub times : ℕ → List ℕ → ℕ
times k [] = 0
times k (x ∷ xs) = (if x == k then 1 else 0) + times k xs

abbrev pub calls : ℕ → List Answer → ℕ
calls k [] = 0
calls k (x ∷ xs) = (if x.callback == k then 1 else 0) + calls k xs

-- In an entry it waits for the thread, or for the answer of the round that has taken it.
abbrev pub taken_in : ℕ → Phase → List ℕ → ℕ
taken_in k answering taken = times k taken
taken_in k _ taken = 0

abbrev pub waiting : ℕ → HostEntry → ℕ
waiting k e = times k e.pending + taken_in k e.phase e.taken

abbrev pub held : ℕ → Resolver → ℕ
held k r = calls k r.answers + total (waiting k) r.entries

-- The calls of resolve_host with the callback that an active resolver has got.
abbrev pub asks : ℕ → ResolverStep → Resolver → ℕ
asks k (resolve timestamp name max_ttl callback) r = if r.is_active && (callback == k) then 1 else 0
asks k _ r = 0

abbrev pub requests : LruCache → ℕ → List ResolverStep → Resolver → ℕ
requests lru k [] r = 0
requests lru k (s ∷ ss) r = asks k s r + requests lru k ss (resolver_step lru s r)

times-append : (k : ℕ) (xs ys : List ℕ) → times k (xs ++ ys) ≡ times k xs + times k ys
times-append k [] ys = omega arith
times-append k (x ∷ xs) ys = omega (arith, times-append k xs ys)

calls-append : (k : ℕ) (xs ys : List Answer) → calls k (xs ++ ys) ≡ calls k xs + calls k ys
calls-append k [] ys = omega arith
calls-append k (x ∷ xs) ys = omega (arith, calls-append k xs ys)

calls-removed : (k : ℕ) (xs : List ℕ) → calls k (removed xs) ≡ times k xs
calls-removed k [] = refl
calls-removed k (x ∷ xs) = omega (arith, calls-removed k xs)

if-held :
    (k n : ℕ) (b : Bool) (x y : Resolver)
    → held k x ≡ n
    → held k y ≡ n
    → held k (if b then x else y) ≡ n
if-held k n true x y p q = p
if-held k n false x y p q = q

module _ (lru : LruCache) (k : ℕ) where
  thread_answer-waiting :
      (e : HostEntry)
      → e.phase ≡ answering
      → waiting k (thread_answer lru e).0 + calls k (thread_answer lru e).1 ≡ waiting k e
  unfolding thread_answer
  thread_answer-waiting e h = elim (List-cases e.taken) [
    | inl q ↦ ground (arith, q, h)
    | inr (c, ks, q) ↦ ground (arith, q, h)
  ]

  resolved_by :
      (i t u w c : ℕ) (aaaa a : List ℕ) (e : HostEntry) (p : Phase) (r : Resolver)
      → e.phase ≡ p
      → find_in i r.entries ≡ some e
      → held k (elim p [
        | resolving ↦ record r {
          entries = set_entry i (thread_resolved lru t u w c aaaa a e) r.entries;
        }
        | _ ↦ r
      ])
        ≡ held k r
  unfolding thread_resolved
  resolved_by i t u w c aaaa a e resolving r h f = omega (
    arith,
    total_same (waiting k) i e (thread_resolved lru t u w c aaaa a e) r.entries f
        (ground (arith, h)),
  )
  resolved_by i t u w c aaaa a e answering r h f = refl
  resolved_by i t u w c aaaa a e exiting r h f = refl

  answers_by :
      (i : ℕ) (e : HostEntry) (p : Phase) (r : Resolver)
      → e.phase ≡ p
      → find_in i r.entries ≡ some e
      → held k (elim p [
        | answering ↦ record r {
          entries = set_entry i (thread_answer lru e).0 r.entries;
          answers = (thread_answer lru e).1 ++ r.answers;
        }
        | _ ↦ r
      ])
        ≡ held k r
  answers_by i e resolving r h f = refl
  answers_by i e answering r h f = omega (
    arith,
    calls-append k (thread_answer lru e).1 r.answers,
    thread_answer-waiting e h,
    total-set_entry (waiting k) i e (thread_answer lru e).0 r.entries f,
  )
  answers_by i e exiting r h f = refl

  end_round-waiting :
      (now : ℕ) (e : HostEntry)
      → e.phase ≡ answering
      → (length e.taken == 0) ≡ true
      → waiting k (end_round now e) ≡ waiting k e
  unfolding end_round
  end_round-waiting now e h q = elim (List-cases e.taken) [
    | inl x ↦ ground (arith, x, h)
    | inr (c, ks, x) ↦ ground (arith, x, q)
  ]

  decides_by :
      (i now : ℕ) (e : HostEntry) (p : Phase) (r : Resolver)
      → e.phase ≡ p
      → find_in i r.entries ≡ some e
      → held k (elim p [
        | answering ↦ if length e.taken == 0 then thread_decide now i e r else r
        | _ ↦ r
      ])
        ≡ held k r
  unfolding thread_decide
  decides_by i now e resolving r h f = refl
  decides_by i now e answering r h f = elim (Bool-cases (length e.taken == 0)) [
    | inl q ↦ rw (q) (
        omega (
          arith,
          total_same (waiting k) i e (end_round now e) r.entries f (end_round-waiting now e h q),
        ))
    | inr q ↦ rw (q) refl
  ]
  decides_by i now e exiting r h f = refl

  exits_by :
      (i : ℕ) (e : HostEntry) (p : Phase) (r : Resolver)
      → e.phase ≡ p
      → find_in i r.entries ≡ some e
      → held k (elim p [ exiting ↦ thread_exit i e r | _ ↦ r ]) ≡ held k r
  unfolding thread_exit
  exits_by i e resolving r h f = refl
  exits_by i e answering r h f = refl
  exits_by i e exiting r h f = ground (
    arith,
    h,
    calls-append k (removed e.pending) r.answers,
    calls-removed k e.pending,
    total-free_entry (waiting k) i e r.entries f,
  )

  shutdown-held :
      (t : List (ℕ × ℕ)) (es : List (ℕ × HostEntry))
      → total (waiting k) (shutdown_table t es) ≡ total (waiting k) es
  unfolding shutdown_host_entry
  shutdown-held t es = total-shutdown_table (waiting k) (λ e. refl) t es

  purge_host-held : (n c : ℕ) (r : Resolver) → held k (purge_host_cache n c r) ≡ held k r
  unfolding purge_host_cache shutdown_host_entry
  purge_host-held n c r = elim (Option-cases (find_in n r.table)) [
    | inl q ↦ rw (purge_host_cache, q) refl
    | inr (i, q) ↦ elim (Option-cases (find_in i r.entries)) [
      | inl p ↦ rw (purge_host_cache, q, p) refl
      | inr (e, p) ↦
          rw (purge_host_cache, q, p)
            (omega (
              arith,
              total_same (waiting k) i e
                  (shutdown_host_entry (record e { on_host_purge_complete = some c })) r.entries p
                  refl,
            ))
    ]
  ]

  resolve-held :
      (t n m c : ℕ) (r : Resolver)
      → IsValid r
      → held k (resolve_host lru t n m c r) ≡ held k r + (if c == k then 1 else 0)
  unfolding resolve_host create_and_init_host_entry
  resolve-held t n m c r v = elim (Option-cases (find_in n r.table)) [
    | inl q ↦ rw (resolve_host, q) (omega arith)
    | inr (i, q) ↦ elim (Option-cases (find_in i r.entries)) [
      | inl p ↦ ground (arith, p, (v.table_InLoop n i q).1)
      | inr (e, p) ↦
          let used : HostEntry = record e {
            last_resolve_request_timestamp = t;
            resolves_since_last_request = 0;
            aaaa_records = record (e.aaaa_records) { good = (lru.use_lru e.aaaa_records.good).0 };
            a_records = record (e.a_records) { good = (lru.use_lru e.a_records.good).0 };
          } in
          rw (resolve_host, q, p)
            (if-held k (held k r + (if c == k then 1 else 0))
              (is_some (lru.use_lru e.aaaa_records.good).1
                || is_some (lru.use_lru e.a_records.good).1)
              _ _ (omega (arith, total_same (waiting k) i e used r.entries p refl))
              (omega (
                arith,
                times-append k e.pending (c ∷ []),
                total-set_entry (waiting k) i e (record used { pending = e.pending ++ (c ∷ []) })
                    r.entries p,
              )))
    ]
  ]

  resolver_step-held :
      (s : ResolverStep) (r : Resolver)
      → IsValid r
      → held k (resolver_step lru s r) ≡ held k r + asks k s r
  unfolding resolver_step purge_cache resolver_destroy
  resolver_step-held (resolve t n m c) r v = elim (Bool-cases r.is_active) [
    | inl q ↦ ground (arith, q, resolve-held t n m c r v)
    | inr q ↦ ground (arith, q)
  ]
  resolver_step-held purging r v = omega (
    arith,
    if-held k (held k r) r.is_active (purge_cache r) r
        (omega (arith, shutdown-held r.table r.entries)) refl,
  )
  resolver_step-held destroying r v = omega (
    arith,
    if-held k (held k r) r.is_active (resolver_destroy r) r
        (omega (arith, shutdown-held r.table r.entries)) refl,
  )
  resolver_step-held (purging_host n c) r v = omega (
    arith,
    if-held k (held k r) r.is_active (purge_host_cache n c r) r (purge_host-held n c r) refl,
  )
  resolver_step-held (thread_has_resolved i t u w c aaaa a) r v =
      elim (Option-cases (find_in i r.entries)) [
        | inl q ↦ rw (resolver_step, q) (omega arith)
        | inr (e, q) ↦
            rw (resolver_step, q) (omega (arith, resolved_by i t u w c aaaa a e e.phase r refl q))
      ]
  resolver_step-held (thread_answers i) r v = elim (Option-cases (find_in i r.entries)) [
    | inl q ↦ rw (resolver_step, q) (omega arith)
    | inr (e, q) ↦ rw (resolver_step, q) (omega (arith, answers_by i e e.phase r refl q))
  ]
  resolver_step-held (thread_decides i now) r v = elim (Option-cases (find_in i r.entries)) [
    | inl q ↦ rw (resolver_step, q) (omega arith)
    | inr (e, q) ↦ rw (resolver_step, q) (omega (arith, decides_by i now e e.phase r refl q))
  ]
  resolver_step-held (thread_exits i) r v = elim (Option-cases (find_in i r.entries)) [
    | inl q ↦ rw (resolver_step, q) (omega arith)
    | inr (e, q) ↦ rw (resolver_step, q) (omega (arith, exits_by i e e.phase r refl q))
  ]

-- Over any history of calls and of the threads' steps, a callback has been called, or waits in an
-- entry or for the answer of the round that has taken it, as often as it was at first and an active
-- resolver has been asked with it since: no request is lost, and none is answered twice. The table must
-- at first lead only to entries that have not been freed.
pub resolver_steps-held :
    (lru : LruCache) (k : ℕ) (ss : List ResolverStep) (r : Resolver)
    → IsValid r
    → held k (resolver_steps lru ss r) ≡ held k r + requests lru k ss r
unfolding resolver_steps
resolver_steps-held lru k [] r v = omega arith
resolver_steps-held lru k (s ∷ ss) r v = omega (
  arith,
  resolver_steps-held lru k ss (resolver_step lru s r) (resolver_step-IsValid lru s r v),
  resolver_step-held lru k s r v,
)
