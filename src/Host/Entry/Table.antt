-- ===== src/Host/Entry/Table.antt =====
-- Sums over the entries of the resolver of source/host_resolver.c.
use aws_c_io.Base.{
  ℕ, ◌+◌, ◌≡◌, true, false, none, some, List, [], ◌∷◌, ◌==◌, refl, arith, Bool-cases, Option-cases,
  inl, inr, ◌∙◌,
}
use aws_c_io.Host.Resolver.{HostEntry, find_in, remove_in, free_entry, set_entry}
use aws_c_io.Host.Entry.{shutdown_host_entry, shutdown_table}

abbrev pub total : (HostEntry → ℕ) → List (ℕ × HostEntry) → ℕ
total f [] = 0
total f (x ∷ xs) = f x.1 + total f xs

module _ (f : HostEntry → ℕ) where
  pub total-set_entry :
      (k : ℕ) (e e' : HostEntry) (es : List (ℕ × HostEntry))
      → find_in k es ≡ some e
      → total f (set_entry k e' es) + f e ≡ total f es + f e'
  total-set_entry k e e' [] h = ground arith
  total-set_entry k e e' (x ∷ xs) h = elim (Bool-cases (x.0 == k)) [
    | inl q ↦ ground (arith, q, h)
    | inr q ↦ ground (arith, q, h, total-set_entry k e e' xs)
  ]

  pub total-free_entry :
      (k : ℕ) (e : HostEntry) (es : List (ℕ × HostEntry))
      → find_in k es ≡ some e
      → total f (free_entry k es) + f e ≡ total f es
  total-free_entry k e [] h = ground arith
  total-free_entry k e (x ∷ xs) h = elim (Bool-cases (x.0 == k)) [
    | inl q ↦ ground (arith, q, h)
    | inr q ↦ ground (arith, q, h, total-free_entry k e xs)
  ]

  -- A change that does not change the weight of the entry.
  pub total_same :
      (k : ℕ) (e e' : HostEntry) (es : List (ℕ × HostEntry))
      → find_in k es ≡ some e
      → f e' ≡ f e
      → total f (set_entry k e' es) ≡ total f es
  total_same k e e' es h q = omega (arith, q, total-set_entry k e e' es h)

  pub total-shutdown_table :
      ((e : HostEntry) → f (shutdown_host_entry e) ≡ f e)
      → (t : List (ℕ × ℕ)) (es : List (ℕ × HostEntry)) → total f (shutdown_table t es) ≡ total f es
  unfolding shutdown_table
  total-shutdown_table h [] es = refl
  total-shutdown_table h (x ∷ xs) es = elim (Option-cases (find_in x.1 es)) [
    | inl q ↦ rw (shutdown_table, q) (total-shutdown_table h xs es)
    | inr (e, q) ↦
        rw (shutdown_table, q)
          (total-shutdown_table h xs (set_entry x.1 (shutdown_host_entry e) es)
            ∙ total_same x.1 e (shutdown_host_entry e) es q (h e))
  ]

pub same_key : (i j : ℕ) → (i == j) ≡ true → i ≡ j
same_key i j q = ground arith

pub find-set_same :
    (k : ℕ) (e e' : HostEntry) (es : List (ℕ × HostEntry))
    → find_in k es ≡ some e
    → find_in k (set_entry k e' es) ≡ some e'
find-set_same k e e' [] h = ground arith
find-set_same k e e' (x ∷ xs) h = elim (Bool-cases (x.0 == k)) [
  | inl q ↦ ground (arith, q)
  | inr q ↦ ground (arith, q, h, find-set_same k e e' xs)
]

pub find-set_other :
    (j k : ℕ) (e' : HostEntry) (es : List (ℕ × HostEntry))
    → (j == k) ≡ false
    → find_in k (set_entry j e' es) ≡ find_in k es
find-set_other j k e' [] h = refl
find-set_other j k e' (x ∷ xs) h = elim (Bool-cases (x.0 == j)) [
  | inl q ↦ ground (arith, q, h)
  | inr q ↦ ground (arith, q, h, find-set_other j k e' xs)
]

pub find-free_other :
    (j k : ℕ) (es : List (ℕ × HostEntry))
    → (j == k) ≡ false
    → find_in k (free_entry j es) ≡ find_in k es
find-free_other j k [] h = refl
find-free_other j k (x ∷ xs) h = elim (Bool-cases (x.0 == j)) [
  | inl q ↦ ground (arith, q, h)
  | inr q ↦ ground (arith, q, h, find-free_other j k xs)
]

pub find-remove_same : (k : ℕ) (t : List (ℕ × ℕ)) → find_in k (remove_in k t) ≡ none
find-remove_same k [] = refl
find-remove_same k (x ∷ xs) = ground (arith, find-remove_same k xs)

pub find-remove_other :
    (j k : ℕ) (t : List (ℕ × ℕ)) → (j == k) ≡ false → find_in k (remove_in j t) ≡ find_in k t
find-remove_other j k [] h = refl
find-remove_other j k (x ∷ xs) h = elim (Bool-cases (x.0 == j)) [
  | inl q ↦ ground (arith, q, h, find-remove_other j k xs h)
  | inr q ↦ ground (arith, q, h, find-remove_other j k xs h)
]
