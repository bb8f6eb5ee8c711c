-- ===== src/Host/Entry/Present.antt =====
-- The table of entries of source/host_resolver.c and the entries that have not been freed, call by call.
use aws_c_io.Base.{
  ℕ, ◌+◌, ◌<◌, ◌≡◌, Bool, true, false, some, List, [], ◌∷◌, ◌==◌, refl, sym, ap, arith, Bool-cases,
  Option-cases, inl, inr, ◌∙◌, subst,
}
use aws_c_io.Host.Resolver.{
  HostEntry, Resolver, Phase, find_in, remove_in, free_entry, set_entry, exiting,
}
use aws_c_io.Host.Entry.{
  shutdown_host_entry, shutdown_table, purge_cache, resolver_destroy, purge_host_cache,
  create_and_init_host_entry, new_host_entry, thread_decide, keep_going, end_round, thread_exit,
}
use aws_c_io.Host.Entry.Table.{
  same_key, find-set_same, find-set_other, find-free_other, find-remove_same, find-remove_other,
}

abbrev pub is_exiting : Phase → Bool
is_exiting exiting = true
is_exiting _ = false

-- An entry that has not been freed, of a host, with its thread in its loop
abbrev pub InLoop : ℕ → ℕ → List (ℕ × HostEntry) → Type 0
InLoop n i es =
    (e : HostEntry) × (find_in i es ≡ some e) × (e.host_name ≡ n) × (is_exiting e.phase ≡ false)

abbrev pub Below : ℕ → List (ℕ × HostEntry) → Type 0
Below m [] = Unit {0}
Below m (x ∷ xs) = (x.0 < m) × Below m xs

find-Below :
    (m i : ℕ) (e : HostEntry) (es : List (ℕ × HostEntry))
    → Below m es
    → find_in i es ≡ some e
    → i < m
find-Below m i e [] b f = ground arith
find-Below m i e (x ∷ xs) b f = elim (Bool-cases (x.0 == i)) [
  | inl q ↦ ground (arith, q, b.0)
  | inr q ↦ find-Below m i e xs b.1 (ground (arith, q, f))
]

free-Below : (m i : ℕ) (es : List (ℕ × HostEntry)) → Below m es → Below m (free_entry i es)
free-Below m i [] b = b
free-Below m i (x ∷ xs) b = elim (Bool-cases (x.0 == i)) [
  | inl q ↦ rw (q) b.1
  | inr q ↦ rw (q) (b.0, free-Below m i xs b.1)
]

suc-Below : (m : ℕ) (es : List (ℕ × HostEntry)) → Below m es → Below (m + 1) es
suc-Below m [] b = b
suc-Below m (x ∷ xs) b = (omega (arith, b.0), suc-Below m xs b.1)

-- The table leads, under a host's name, to an entry of that host that has not been freed and whose thread
-- is in its loop; the numbers of entries are not used again.
pub record IsValid (r : Resolver) : Type 0 where
  pub table_InLoop : (n i : ℕ) → find_in n r.table ≡ some i → InLoop n i r.entries
  pub is_fresh : Below r.next_entry r.entries

set-InLoop :
    (n i j : ℕ) (e e' : HostEntry) (es : List (ℕ × HostEntry))
    → find_in j es ≡ some e
    → e'.host_name ≡ e.host_name
    → (is_exiting e.phase ≡ false → is_exiting e'.phase ≡ false)
    → InLoop n i es
    → InLoop n i (set_entry j e' es)
set-InLoop n i j e e' es h hn hp (x, f, fn, fp) = elim (Bool-cases (j == i)) [
  | inl q ↦
      let same : x ≡ e = ground (arith, f, h, ap (λ k. find_in k es) (same_key j i q)) in
      (
        e',
        subst (λ k. find_in k (set_entry j e' es) ≡ some e') (same_key j i q)
            (find-set_same j e e' es h),
        ground (arith, hn, fn, same),
        hp (ground (arith, fp, same)),
      )
  | inr q ↦ (x, find-set_other j i e' es q ∙ f, fn, fp)
]

set-Below :
    (m i : ℕ) (e : HostEntry) (es : List (ℕ × HostEntry)) → Below m es → Below m (set_entry i e es)
set-Below m i e [] b = b
set-Below m i e (x ∷ xs) b = elim (Bool-cases (x.0 == i)) [
  | inl q ↦ rw (q) (subst (λ k. k < m) (same_key x.0 i q) b.0, b.1)
  | inr q ↦ rw (q) (b.0, set-Below m i e xs b.1)
]

-- One entry changes, and is of the same host; if its thread leaves its loop the table must not have it.
pub set-IsValid :
    (j : ℕ) (e e' : HostEntry) (r : Resolver)
    → find_in j r.entries ≡ some e
    → e'.host_name ≡ e.host_name
    → (is_exiting e.phase ≡ false → is_exiting e'.phase ≡ false)
    → IsValid r
    → IsValid (record r { entries = set_entry j e' r.entries })
set-IsValid j e e' r h hn hp v = record {
  table_InLoop = λ n i f. set-InLoop n i j e e' r.entries h hn hp (v.table_InLoop n i f);
  is_fresh = set-Below r.next_entry j e' r.entries v.is_fresh;
}

shutdown_table-Below :
    (t : List (ℕ × ℕ)) (m : ℕ) (es : List (ℕ × HostEntry))
    → Below m es
    → Below m (shutdown_table t es)
unfolding shutdown_table
shutdown_table-Below [] m es b = b
shutdown_table-Below (y ∷ t) m es b = elim (Option-cases (find_in y.1 es)) [
  | inl q ↦ rw (shutdown_table, q) (shutdown_table-Below t m es b)
  | inr (e, q) ↦
      rw (shutdown_table, q)
        (shutdown_table-Below t m (set_entry y.1 (shutdown_host_entry e) es)
          (set-Below m y.1 (shutdown_host_entry e) es b))
]

pub purge-IsValid : (r : Resolver) → IsValid r → IsValid (purge_cache r)
unfolding purge_cache
purge-IsValid r v = record {
  table_InLoop = λ n i f. ground (arith, f);
  is_fresh = shutdown_table-Below r.table r.next_entry r.entries v.is_fresh;
}

pub destroy-IsValid : (r : Resolver) → IsValid r → IsValid (resolver_destroy r)
unfolding resolver_destroy
destroy-IsValid r v = record {
  table_InLoop = λ n i f. ground (arith, f);
  is_fresh = shutdown_table-Below r.table r.next_entry r.entries v.is_fresh;
}

removed-InLoop :
    (m n i : ℕ) (r : Resolver)
    → IsValid r
    → find_in n (remove_in m r.table) ≡ some i
    → ((m == n) ≡ false) × InLoop n i r.entries
removed-InLoop m n i r v f = elim (Bool-cases (m == n)) [
  | inl q ↦ ground (
    arith,
    f,
    find-remove_same m r.table,
    ap (λ k. find_in k (remove_in m r.table)) (same_key m n q),
  )
  | inr q ↦ (q, v.table_InLoop n i (sym (find-remove_other m n r.table q) ∙ f))
]

pub purge_host-IsValid : (n k : ℕ) (r : Resolver) → IsValid r → IsValid (purge_host_cache n k r)
unfolding purge_host_cache shutdown_host_entry
purge_host-IsValid n k r v = elim (Option-cases (find_in n r.table)) [
  | inl q ↦
      rw (purge_host_cache, q) (record { table_InLoop = v.table_InLoop; is_fresh = v.is_fresh })
  | inr (i, q) ↦ elim (Option-cases (find_in i r.entries)) [
    | inl p ↦ rw (purge_host_cache, q, p) v
    | inr (e, p) ↦
        rw (purge_host_cache, q, p)
          (record {
            table_InLoop = λ m j f.
                set-InLoop m j i e
                  (shutdown_host_entry (record e { on_host_purge_complete = some k })) r.entries p
                  refl (λ d. d) (removed-InLoop n m j r v f).1;
            is_fresh =
                set-Below r.next_entry i
                  (shutdown_host_entry (record e { on_host_purge_complete = some k })) r.entries
                  v.is_fresh;
          })
  ]
]

pub create-IsValid :
    (t n m k : ℕ) (r : Resolver) → IsValid r → IsValid (create_and_init_host_entry t n m k r)
unfolding create_and_init_host_entry
create-IsValid t n m k r v = record {
  table_InLoop = λ h i f. elim (Bool-cases (n == h)) [
    | inl q ↦
        subst (λ j. InLoop h j ((r.next_entry, new_host_entry t n m k) ∷ r.entries))
          {x = r.next_entry} (ground (arith, f, q))
          (new_host_entry t n m k, ground arith, same_key n h q, refl)
    | inr q ↦
        let p : InLoop h i r.entries = v.table_InLoop h i (ground (arith, f, q)) in
        (p.0, ground (arith, p.1, find-Below r.next_entry i p.0 r.entries v.is_fresh p.1), p.2, p.3)
  ];
  is_fresh = (omega arith, suc-Below r.next_entry r.entries v.is_fresh);
}

-- An entry of another host is another entry.
other-InLoop :
    (n i j : ℕ) (e e' : HostEntry) (es : List (ℕ × HostEntry))
    → find_in i es ≡ some e
    → (e.host_name == n) ≡ false
    → InLoop n j es
    → InLoop n j (set_entry i e' es)
other-InLoop n i j e e' es h d (x, f, fn, fp) = elim (Bool-cases (i == j)) [
  | inl q ↦
      let same : x ≡ e = ground (arith, f, h, ap (λ k. find_in k es) (same_key i j q)) in
      ground (arith, d, fn, same)
  | inr q ↦ (x, find-set_other i j e' es q ∙ f, fn, fp)
]

pub decide-IsValid :
    (now i : ℕ) (e : HostEntry) (r : Resolver)
    → find_in i r.entries ≡ some e
    → IsValid r
    → IsValid (thread_decide now i e r)
unfolding thread_decide end_round
decide-IsValid now i e r h v = record {
  table_InLoop = λ n j f. elim (Bool-cases (keep_going now e)) [
    | inl q ↦
        set-InLoop n j i e (end_round now e) r.entries h (ground arith) (ground (arith, q))
          (v.table_InLoop n j (ground (arith, f, q)))
    | inr q ↦
        let p : ((e.host_name == n) ≡ false) × InLoop n j r.entries =
          removed-InLoop e.host_name n j r v (ground (arith, f, q)) in
        other-InLoop n i j e (end_round now e) r.entries h p.0 p.1
  ];
  is_fresh = set-Below r.next_entry i (end_round now e) r.entries v.is_fresh;
}

pub exit-IsValid :
    (i : ℕ) (e : HostEntry) (r : Resolver)
    → find_in i r.entries ≡ some e
    → is_exiting e.phase ≡ true
    → IsValid r
    → IsValid (thread_exit i e r)
unfolding thread_exit
exit-IsValid i e r h x v = record {
  table_InLoop = λ n j f. free-InLoop n j (v.table_InLoop n j f);
  is_fresh = free-Below r.next_entry i r.entries v.is_fresh;
}
  where
    free-InLoop : (n j : ℕ) → InLoop n j r.entries → InLoop n j (free_entry i r.entries)
    free-InLoop n j (y, f, fn, fp) = elim (Bool-cases (i == j)) [
      | inl q ↦
          let same : y ≡ e = ground (arith, f, h, ap (λ k. find_in k r.entries) (same_key i j q)) in
          ground (arith, x, fp, same)
      | inr q ↦ (y, find-free_other i j r.entries q ∙ f, fn, fp)
    ]
