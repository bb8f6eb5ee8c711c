-- ===== src/Host/Entry/Valid.antt =====
-- The table of entries of source/host_resolver.c and the entries that have not been freed, over histories.
use aws_c_io.Base.{
  ℕ, ◌≡◌, Bool, true, false, some, List, [], ◌∷◌, ◌++◌, ◌==◌, if◌then◌else◌, length, List-cases,
  refl, sym, ap, arith, Option-cases, inl, inr, ◌∙◌, is_some, ◌||◌, subst,
}
use aws_c_io.Host.Lru.{LruCache}
use aws_c_io.Host.Resolver.{
  HostEntry, Resolver, Phase, find_in, set_entry, resolving, answering, exiting,
}
use aws_c_io.Host.Entry.{
  purge_cache, resolver_destroy, purge_host_cache, resolve_host, thread_resolved, thread_answer,
  thread_decide, thread_exit, ResolverStep, resolve, purging, destroying, purging_host,
  thread_has_resolved, thread_answers, thread_exits, thread_decides, resolver_step, resolver_steps,
}
use aws_c_io.Host.Entry.Present.{
  Below, InLoop, IsValid, create-IsValid, decide-IsValid, destroy-IsValid, exit-IsValid, is_exiting,
  purge-IsValid, purge_host-IsValid, set-IsValid,
}

if-IsValid : (b : Bool) (x y : Resolver) → IsValid x → IsValid y → IsValid (if b then x else y)
if-IsValid true x y p q = p
if-IsValid false x y p q = q

-- What is called does not matter to the table.
called-IsValid :
    (r r' : Resolver)
    → r'.table ≡ r.table
    → r'.entries ≡ r.entries
    → r'.next_entry ≡ r.next_entry
    → IsValid r
    → IsValid r'
called-IsValid r r' t e n v = record {
  table_InLoop = λ h i f.
      subst (λ es. InLoop h i es) (sym e) (v.table_InLoop h i (sym (ap (λ u. find_in h u) t) ∙ f));
  is_fresh =
      subst (λ m. Below m r'.entries) (sym n)
        (subst (λ es. Below r.next_entry es) (sym e) v.is_fresh);
}

module _ (lru : LruCache) where
  resolve-IsValid : (t n m k : ℕ) (r : Resolver) → IsValid r → IsValid (resolve_host lru t n m k r)
  unfolding resolve_host
  resolve-IsValid t n m k r v = elim (Option-cases (find_in n r.table)) [
    | inl q ↦ rw (resolve_host, q) (create-IsValid t n m k r v)
    | inr (i, q) ↦ elim (Option-cases (find_in i r.entries)) [
      | inl p ↦ rw (resolve_host, q, p) v
      | inr (e, p) ↦
          let used : HostEntry = record e {
            last_resolve_request_timestamp = t;
            resolves_since_last_request = 0;
            aaaa_records = record (e.aaaa_records) { good = (lru.use_lru e.aaaa_records.good).0 };
            a_records = record (e.a_records) { good = (lru.use_lru e.a_records.good).0 };
          } in
          rw (resolve_host, q, p)
            (if-IsValid
              (is_some (lru.use_lru e.aaaa_records.good).1
                || is_some (lru.use_lru e.a_records.good).1)
              _ _
              (called-IsValid (record r { entries = set_entry i used r.entries }) _ refl refl refl
                (set-IsValid i e used r p refl (λ d. d) v))
              (set-IsValid i e (record used { pending = e.pending ++ (k ∷ []) }) r p refl (λ d. d)
                v))
    ]
  ]

  resolved_by :
      (i t u w c : ℕ) (aaaa a : List ℕ) (e : HostEntry) (p : Phase) (r : Resolver)
      → e.phase ≡ p
      → find_in i r.entries ≡ some e
      → IsValid r
      → IsValid (elim p [
        | resolving ↦ record r {
          entries = set_entry i (thread_resolved lru t u w c aaaa a e) r.entries;
        }
        | _ ↦ r
      ])
  unfolding thread_resolved
  resolved_by i t u w c aaaa a e resolving r h f v =
      set-IsValid i e (thread_resolved lru t u w c aaaa a e) r f refl (λ d. refl) v
  resolved_by i t u w c aaaa a e answering r h f v = v
  resolved_by i t u w c aaaa a e exiting r h f v = v

  thread_answer-host_name :
      (e : HostEntry)
      → ((thread_answer lru e).0.host_name ≡ e.host_name)
        × ((thread_answer lru e).0.phase ≡ e.phase)
  unfolding thread_answer
  thread_answer-host_name e = elim (List-cases e.taken) [
    | inl q ↦ ground (arith, q)
    | inr (k, ks, q) ↦ ground (arith, q)
  ]

  answers_by :
      (i : ℕ) (e : HostEntry) (p : Phase) (r : Resolver)
      → find_in i r.entries ≡ some e
      → IsValid r
      → IsValid (elim p [
        | answering ↦ record r {
          entries = set_entry i (thread_answer lru e).0 r.entries;
          answers = (thread_answer lru e).1 ++ r.answers;
        }
        | _ ↦ r
      ])
  answers_by i e resolving r f v = v
  answers_by i e answering r f v =
      called-IsValid (record r { entries = set_entry i (thread_answer lru e).0 r.entries }) _ refl
        refl refl
        (set-IsValid i e (thread_answer lru e).0 r f (thread_answer-host_name e).0
          (λ d. ap is_exiting (thread_answer-host_name e).1 ∙ d) v)
  answers_by i e exiting r f v = v

  decides_by :
      (i now : ℕ) (e : HostEntry) (p : Phase) (r : Resolver)
      → find_in i r.entries ≡ some e
      → IsValid r
      → IsValid (elim p [
        | answering ↦ if length e.taken == 0 then thread_decide now i e r else r
        | _ ↦ r
      ])
  decides_by i now e resolving r f v = v
  decides_by i now e answering r f v =
      if-IsValid (length e.taken == 0) (thread_decide now i e r) r (decide-IsValid now i e r f v) v
  decides_by i now e exiting r f v = v

  exits_by :
      (i : ℕ) (e : HostEntry) (p : Phase) (r : Resolver)
      → e.phase ≡ p
      → find_in i r.entries ≡ some e
      → IsValid r
      → IsValid (elim p [ exiting ↦ thread_exit i e r | _ ↦ r ])
  exits_by i e resolving r h f v = v
  exits_by i e answering r h f v = v
  exits_by i e exiting r h f v = exit-IsValid i e r f (ap is_exiting h) v

  pub resolver_step-IsValid :
      (s : ResolverStep) (r : Resolver) → IsValid r → IsValid (resolver_step lru s r)
  unfolding resolver_step
  resolver_step-IsValid (resolve t n m k) r v =
      if-IsValid r.is_active (resolve_host lru t n m k r) r (resolve-IsValid t n m k r v) v
  resolver_step-IsValid purging r v = if-IsValid r.is_active (purge_cache r) r (purge-IsValid r v) v
  resolver_step-IsValid destroying r v =
      if-IsValid r.is_active (resolver_destroy r) r (destroy-IsValid r v) v
  resolver_step-IsValid (purging_host n k) r v =
      if-IsValid r.is_active (purge_host_cache n k r) r (purge_host-IsValid n k r v) v
  resolver_step-IsValid (thread_has_resolved i t u w c aaaa a) r v =
      elim (Option-cases (find_in i r.entries)) [
        | inl q ↦ rw (resolver_step, q) v
        | inr (e, q) ↦ rw (resolver_step, q) (resolved_by i t u w c aaaa a e e.phase r refl q v)
      ]
  resolver_step-IsValid (thread_answers i) r v = elim (Option-cases (find_in i r.entries)) [
    | inl q ↦ rw (resolver_step, q) v
    | inr (e, q) ↦ rw (resolver_step, q) (answers_by i e e.phase r q v)
  ]
  resolver_step-IsValid (thread_decides i now) r v = elim (Option-cases (find_in i r.entries)) [
    | inl q ↦ rw (resolver_step, q) v
    | inr (e, q) ↦ rw (resolver_step, q) (decides_by i now e e.phase r q v)
  ]
  resolver_step-IsValid (thread_exits i) r v = elim (Option-cases (find_in i r.entries)) [
    | inl q ↦ rw (resolver_step, q) v
    | inr (e, q) ↦ rw (resolver_step, q) (exits_by i e e.phase r refl q v)
  ]

-- After any history of calls and of the threads' steps, the table leads only to entries that have not
-- been freed, each of the host it stands under and with its thread in its loop, if it was so at first.
pub resolver_steps-IsValid :
    (lru : LruCache) (ss : List ResolverStep) (r : Resolver)
    → IsValid r
    → IsValid (resolver_steps lru ss r)
unfolding resolver_steps
resolver_steps-IsValid lru [] r v = v
resolver_steps-IsValid lru (s ∷ ss) r v =
    resolver_steps-IsValid lru ss (resolver_step lru s r) (resolver_step-IsValid lru s r v)
