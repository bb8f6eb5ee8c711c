-- ===== src/Host/Lru.antt =====
-- The cache of aws-c-common (aws/common/lru_cache.h) that source/host_resolver.c keeps addresses in: its
-- functions are parameters, the laws are what the header documents. A cache is read as the list of its
-- entries, the least recently used one first, under their addresses.
use aws_c_io.Base.{
  ℕ, ◌≡◌, Option, none, some, List, [], ◌∷◌, ◌++◌, ◌==◌, if◌then◌else◌, ltb, length, refl,
}

-- struct aws_host_address, of one host and one record type
pub record Address : Type 0 where
  pub address : ℕ
  pub expiry : ℕ
  pub use_count : ℕ
  pub connection_failure_count : ℕ

abbrev pub lookup : ℕ → List Address → Option Address
lookup key [] = none
lookup key (a ∷ c) = if a.address == key then some a else lookup key c

abbrev pub without : ℕ → List Address → List Address
without key [] = []
without key (a ∷ c) = if a.address == key then c else a ∷ without key c

-- A write through the pointer to an entry.
abbrev pub set_in : Address → List Address → List Address
set_in b [] = []
set_in b (a ∷ c) = if a.address == b.address then b ∷ c else a ∷ set_in b c

abbrev pub listed : Option Address → List Address
listed none = []
listed (some a) = a ∷ []

-- The least recently used entry becomes the most recently used one.
abbrev pub rotated : List Address → List Address × Option Address
rotated [] = ([], none)
rotated (a ∷ c) = (c ++ (a ∷ []), some a)

abbrev pub touched : Option Address → ℕ → List Address → List Address
touched none key c = c
touched (some a) key c = without key c ++ (a ∷ [])

-- What is stored beyond the capacity drives out the least recently used entry.
abbrev pub shrunk : ℕ → List Address → List Address → List Address × List Address
shrunk capacity [] gone = ([], gone)
shrunk capacity (a ∷ c) gone =
    if ltb capacity (length (a ∷ c)) then (c, gone ++ (a ∷ [])) else (a ∷ c, gone)

pub record LruCache : Type 0 where
  pub find : ℕ → List Address → List Address × Option Address
  pub put : ℕ → Address → List Address → List Address × List Address
  pub remove : ℕ → List Address → List Address × List Address
  pub use_lru : List Address → List Address × Option Address
  pub find_lem : (k : ℕ) (c : List Address) → find k c ≡ (touched (lookup k c) k c, lookup k c)
  pub put_lem :
      (n : ℕ) (a : Address) (c : List Address)
      → put n a c ≡ shrunk n (without a.address c ++ (a ∷ [])) (listed (lookup a.address c))
  pub remove_lem : (k : ℕ) (c : List Address) → remove k c ≡ (without k c, listed (lookup k c))
  pub use_lru_lem : (c : List Address) → use_lru c ≡ rotated c

-- A cache that meets the laws.
abbrev pub list_cache : LruCache
list_cache = record {
  find = λ k c. (touched (lookup k c) k c, lookup k c);
  put = λ n a c. shrunk n (without a.address c ++ (a ∷ [])) (listed (lookup a.address c));
  remove = λ k c. (without k c, listed (lookup k c));
  use_lru = λ c. rotated c;
  find_lem = λ k c. refl;
  put_lem = λ n a c. refl;
  remove_lem = λ k c. refl;
  use_lru_lem = λ c. refl;
}
