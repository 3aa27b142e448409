-- ===== src/Precache/Tests.antt =====
-- A ranking of three pairs, a network that answers for one name, and the theorems applied to them.
use power_blockade.Base.{
  ℕ, ◌+◌, ◌≡◌, refl, ◌↔◌, true, false, some, List, [], ◌∷◌, contains, lookup, ◌==◌, string_eq,
  nat_eq, pair_eq, if◌then◌else◌, take,
}
use power_blockade.Base.Texts.{codes}
use power_blockade.Precache.{
  Pair, PairTtl, Cache, seconds, get_pairs_needing_refresh, answers, raises, soa, other, Network,
  Warming, WarmingSettings, precache_warming_job, min_response_ttl, needs_refresh,
  get_precache_stats,
}
use power_blockade.Precache.Freshness.{IsFresh, refresh-IsFresh}
use power_blockade.Precache.Recorded.{Warm, record_all}

abbrev a_pair : Pair
a_pair = ("a.example", 1)

abbrev b_pair : Pair
b_pair = ("b.example", 28)

abbrev c_pair : Pair
c_pair = ("c.example", 1)

-- `a` was warmed at second 1000 with a TTL of 300.
abbrev cache : Cache
cache = (a_pair, record { ttl = 300; last_warmed = some (seconds 1000) }) ∷ []

negative_ttl :
    min_response_ttl (record { rcode = 0; answer = []; authority = soa 900 60 ∷ other 5 ∷ [] })
    ≡ some 60
unfolding min_response_ttl
negative_ttl = refl

abbrev ranking : List Pair
ranking = a_pair ∷ b_pair ∷ c_pair ∷ []

due_pairs : get_pairs_needing_refresh (seconds 1239) cache ranking false 60 ≡ b_pair ∷ c_pair ∷ []
unfolding get_pairs_needing_refresh needs_refresh lookup
due_pairs = refl

-- 60 seconds, a fifth of the TTL, before its end.
due_at_the_margin : get_pairs_needing_refresh (seconds 1240) cache ranking false 60 ≡ ranking
unfolding get_pairs_needing_refresh needs_refresh lookup
due_at_the_margin = refl

abbrev network : Network
network now pair =
    if pair == b_pair
    then answers (record { rcode = 0; answer = 120 ∷ 60 ∷ []; authority = [] })
    else raises (codes "timeout")

abbrev clock : ℕ → ℕ
clock i = seconds (1239 + i)

abbrev settings : WarmingSettings
settings = record {
  enabled = true;
  domain_count = 10;
  ignore_ttl = false;
  custom_refresh = 60;
  max_queries = 5;
}

abbrev b_entry : PairTtl
b_entry = record { ttl = 60; last_warmed = some (seconds 1239) }

abbrev after : Warming
after = record {
  success = 1;
  failed = 1;
  pauses = 0;
  cache =
      (a_pair, record { ttl = 300; last_warmed = some (seconds 1000) }) ∷ (b_pair, b_entry) ∷ [];
}

job_runs :
    precache_warming_job (λ n. take n ranking) network clock (seconds 1239) settings cache
    ≡ some (b_pair ∷ c_pair ∷ [], after)
unfolding precache_warming_job needs_refresh
job_runs = refl

stats : get_precache_stats (seconds 1250) after.cache ≡ (2, 2, 0)
unfolding get_precache_stats
stats = refl

refresh-IsFresh_example :
    (contains (get_pairs_needing_refresh (seconds 1239) cache ranking false 60) a_pair ≡ false)
    ↔ IsFresh (seconds 1239) (lookup a_pair cache)
refresh-IsFresh_example = refresh-IsFresh (seconds 1239) 60 cache ranking a_pair refl

abbrev observed : List Warm
observed =
    record { at = seconds 2000; pair = a_pair; ttl = 60 }
    ∷ record { at = seconds 2050; pair = b_pair; ttl = 30 }
    ∷ record { at = seconds 2100; pair = a_pair; ttl = 900 }
    ∷ []

keeps_shortest :
    lookup a_pair (record_all observed cache)
    ≡ some (record { ttl = 60; last_warmed = some (seconds 2100) })
unfolding record_all lookup
keeps_shortest = refl
