-- ===== src/Host/Tests.antt =====
-- What has been proved of source/host_resolver.c, at concrete caches and histories.
use aws_c_io.Base.{ℕ, ◌≡◌, ◌⊎◌, none, some, List, [], ◌∷◌, ◌++◌, if◌then◌else◌, refl, arith}
use aws_c_io.Host.Lru.{Address, list_cache}
use aws_c_io.Host.{Records, process_records}
use aws_c_io.Host.Purge.{live, dead, last_of, but_last, is_nil}
use aws_c_io.Host.Promote.{Promoted, first_live, process_records_purges, process_records_promotes}
use aws_c_io.Host.Caches.{IsKept}
use aws_c_io.Host.Kept.{
  Operation, resolved, connection_failed, unresolved, operate_all, operate_all-IsKept,
}

abbrev at : ℕ → ℕ → Address
at address expiry = record {
  address = address;
  expiry = expiry;
  use_count = 0;
  connection_failure_count = 0;
}

abbrev two_good : Records
two_good = record {
  good = at 1 5 ∷ at 2 20 ∷ [];
  failed = at 3 30 ∷ [];
  new_addresses = [];
  expired_addresses = [];
}

abbrev no_good : Records
no_good = record {
  good = [];
  failed = at 3 4 ∷ at 4 30 ∷ [];
  new_addresses = [];
  expired_addresses = [];
}

two_good-IsKept : IsKept two_good
two_good-IsKept = record { good = ground arith; failed = ground arith; apart = λ k. ground arith }

process_records_purges_example : process_records list_cache 4 10 two_good ≡ (
    if is_nil (live 10 two_good.good)
    then record two_good {
      good = last_of two_good.good;
      expired_addresses = two_good.expired_addresses ++ but_last two_good.good;
    }
    else record two_good {
      good = live 10 two_good.good;
      expired_addresses = two_good.expired_addresses ++ dead 10 two_good.good;
    })
process_records_purges_example =
    process_records_purges list_cache 4 10 two_good (ground arith) (omega arith)

process_records_promotes_example :
    ((first_live 10 no_good.failed ≡ none) × (process_records list_cache 4 10 no_good ≡ no_good))
    ⊎ ((a : Address) × (first_live 10 no_good.failed ≡ some a)
        × Promoted a no_good.failed no_good (process_records list_cache 4 10 no_good))
process_records_promotes_example =
    process_records_promotes list_cache 4 10 no_good refl (ground arith) (omega arith)

abbrev two_rounds : List (ℕ × Operation)
two_rounds = (10, connection_failed 2) ∷ (11, resolved 50 (1 ∷ 6 ∷ [])) ∷ (12, unresolved) ∷ []

operate_all-IsKept_example : IsKept (operate_all list_cache 4 two_rounds two_good)
operate_all-IsKept_example = operate_all-IsKept list_cache 4 two_rounds two_good two_good-IsKept
