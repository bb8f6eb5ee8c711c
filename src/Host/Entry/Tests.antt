-- ===== src/Host/Entry/Tests.antt =====
-- What has been proved of the resolver of source/host_resolver.c, over a concrete history.
use aws_c_io.Base.{◌+◌, ◌≡◌, true, List, [], ◌∷◌, refl, arith}
use aws_c_io.Host.Lru.{list_cache}
use aws_c_io.Host.Resolver.{Resolver}
use aws_c_io.Host.Entry.{
  ResolverStep, resolve, destroying, thread_has_resolved, thread_answers, thread_decides,
  thread_exits, resolver_steps,
}
use aws_c_io.Host.Entry.Present.{IsValid}
use aws_c_io.Host.Entry.Valid.{resolver_steps-IsValid}
use aws_c_io.Host.Entry.Answers.{held, requests, resolver_steps-held}
use aws_c_io.Host.Entry.Closing.{IsCounted, resolver_steps-IsCounted}

abbrev new_resolver : Resolver
new_resolver = record {
  table = [];
  entries = [];
  next_entry = 0;
  pending_shutdowns = 0;
  is_active = true;
  answers = [];
  purged = [];
  clean_ups = 0;
}

abbrev one_host : List ResolverStep
one_host =
    resolve 1 100 30 7
    ∷ thread_has_resolved 0 2 2 2 0 [] (9 ∷ [])
    ∷ thread_answers 0
    ∷ resolve 3 100 30 8
    ∷ destroying
    ∷ thread_decides 0 4
    ∷ thread_exits 0
    ∷ []

-- Both requests have been answered, with success, and the resolver has been cleaned up.
one_host_run :
    ((resolver_steps list_cache one_host new_resolver).clean_ups ≡ 1)
    × ((resolver_steps list_cache one_host new_resolver).entries ≡ [])
    × (held 7 (resolver_steps list_cache one_host new_resolver) ≡ 1)
    × (held 8 (resolver_steps list_cache one_host new_resolver) ≡ 1)
unfolding resolver_steps
one_host_run = (refl, refl, refl, refl)

new_resolver-IsValid : IsValid new_resolver
new_resolver-IsValid = record { table_InLoop = λ n i f. ground (arith, f); is_fresh = ground arith }

resolver_steps-IsValid_example : IsValid (resolver_steps list_cache one_host new_resolver)
resolver_steps-IsValid_example =
    resolver_steps-IsValid list_cache one_host new_resolver new_resolver-IsValid

resolver_steps-held_example :
    held 7 (resolver_steps list_cache one_host new_resolver)
    ≡ held 7 new_resolver + requests list_cache 7 one_host new_resolver
resolver_steps-held_example =
    resolver_steps-held list_cache 7 one_host new_resolver new_resolver-IsValid

resolver_steps-IsCounted_example : IsCounted (resolver_steps list_cache one_host new_resolver)
resolver_steps-IsCounted_example =
    resolver_steps-IsCounted list_cache one_host new_resolver (ground arith) (refl, refl)
