-- ===== src/Precache.antt =====
-- Cache warming on the primary: admin-ui/app/services/precache.py. Times are microseconds, a TTL is
-- in seconds. The DNS exchange and the database's ranking of pairs are parameters.
pub mod Freshness
pub mod Recorded
pub mod Pass
mod Tests
use power_blockade.Base.{
  ℕ, zero, suc, ◌+◌, ◌*◌, ◌/◌, ◌%◌, String, Bool, true, false, not, ◌&&◌, ◌||◌, Option, none, some,
  List, [], ◌∷◌, ◌++◌, ◌==◌, nat_eq, string_eq, pair_eq, list_eq, ltb, leb, if◌then◌else◌, contains,
  add, union, select, map, take, length, min, max, lookup, insert,
}
use power_blockade.Base.Texts.{Text}

abbrev pub Pair : Type 0
Pair = String × ℕ

pub record PairTtl : Type 0 where
  pub ttl : ℕ
  pub last_warmed : Option ℕ

-- _pair_ttl_cache
abbrev pub Cache : Type 0
Cache = List (Pair × PairTtl)

abbrev pub warmed : ℕ → ℕ → Option PairTtl → PairTtl
warmed now ttl none = record { ttl = ttl; last_warmed = some now }
warmed now ttl (some cached) = record { ttl = min cached.ttl ttl; last_warmed = some now }

unfoldable pub record_warmed_pair : ℕ → Pair → ℕ → Cache → Cache
unfolding insert lookup
record_warmed_pair now key ttl cache = insert key (warmed now ttl (lookup key cache)) cache

-- Seconds and minutes.
abbrev pub seconds : ℕ → ℕ
seconds s = s * 1_000_000

abbrev pub minutes : ℕ → ℕ
minutes m = m * 60_000_000

-- max(ttl * 0.2, 30) seconds
abbrev pub safety_margin : ℕ → ℕ
safety_margin ttl = max (ttl * 200_000) (seconds 30)

-- `age >= refresh_threshold`, with what both sides lack added to both.
abbrev pub is_old : ℕ → Bool → ℕ → ℕ → ℕ → Bool
is_old now ignore_ttl custom_refresh_minutes ttl last =
    if ignore_ttl
    then leb (last + minutes custom_refresh_minutes) now
    else leb (last + seconds ttl) (now + safety_margin ttl)

abbrev pub stale_at : ℕ → Bool → ℕ → ℕ → Option ℕ → Bool
stale_at now ignore_ttl custom ttl none = true
stale_at now ignore_ttl custom ttl (some last) = is_old now ignore_ttl custom ttl last

abbrev pub cached_stale : ℕ → Bool → ℕ → Option PairTtl → Bool
cached_stale now ignore_ttl custom none = true
cached_stale now ignore_ttl custom (some c) = stale_at now ignore_ttl custom c.ttl c.last_warmed

unfoldable pub needs_refresh : ℕ → Bool → ℕ → Cache → Pair → Bool
unfolding lookup
needs_refresh now ignore_ttl custom cache pair =
    cached_stale now ignore_ttl custom (lookup pair cache)

unfoldable pub get_pairs_needing_refresh : ℕ → Cache → List Pair → Bool → ℕ → List Pair
unfolding needs_refresh
get_pairs_needing_refresh now cache pairs ignore_ttl custom =
    select (needs_refresh now ignore_ttl custom cache) pairs

-- An RRset of the AUTHORITY section: its TTL, and the minimum of its first record if it is an SOA.
pub data Authority : Type 0 where
  soa : (ttl minimum : ℕ) → Authority
  other : (ttl : ℕ) → Authority

pub record Response : Type 0 where
  pub rcode : ℕ
  pub answer : List ℕ
  pub authority : List Authority

abbrev pub soa_ttls : List Authority → List ℕ
soa_ttls [] = []
soa_ttls (soa ttl minimum ∷ rest) = min ttl minimum ∷ soa_ttls rest
soa_ttls (other ttl ∷ rest) = soa_ttls rest

abbrev pub minimum : List ℕ → Option ℕ
minimum [] = none
minimum (t ∷ ts) = elim (minimum ts) [ none ↦ some t | some u ↦ some (min t u) ]

abbrev pub response_ttls : List ℕ → List Authority → List ℕ
response_ttls [] authority = soa_ttls authority
response_ttls (t ∷ ts) authority = t ∷ ts

unfoldable pub min_response_ttl : Response → Option ℕ
min_response_ttl response = minimum (response_ttls response.answer response.authority)

-- `rcode <n>`, or the first 200 characters of an exception.
pub data WarmError : Type 0 where
  rcode : ℕ → WarmError
  exception : Text → WarmError

pub record PairWarmOutcome : Type 0 where
  pub ttl : Option ℕ
  pub error : Option WarmError

-- What the exchange of one query gives.
pub data Exchange : Type 0 where
  answers : Response → Exchange
  raises : Text → Exchange

abbrev pub ttl_or_fallback : Option ℕ → ℕ
ttl_or_fallback none = 300
ttl_or_fallback (some t) = t

unfoldable pub warm_pair_ex : Exchange → PairWarmOutcome
unfolding min_response_ttl
warm_pair_ex (raises message) = record { ttl = none; error = some (exception (take 200 message)) }
warm_pair_ex (answers response) =
    if response.rcode == 0
    then record { ttl = some (ttl_or_fallback (min_response_ttl response)); error = none }
    else record { ttl = none; error = some (rcode response.rcode) }

-- The exchange for a pair at an instant.
abbrev pub Network : Type 0
Network = ℕ → Pair → Exchange

pub record Warming : Type 0 where
  pub success : ℕ
  pub failed : ℕ
  pub pauses : ℕ
  pub cache : Cache

abbrev pub note_outcome : ℕ → Pair → Option ℕ → Warming → Warming
note_outcome now pair none w = record w { failed = w.failed + 1 }
note_outcome now pair (some ttl) w = record w {
  success = w.success + 1;
  cache = record_warmed_pair now pair ttl w.cache;
}

-- The loop of warm_cache at index `i` of `total`: `clock i` is the time of the i-th query.
unfoldable pub warm_from : Network → (ℕ → ℕ) → ℕ → ℕ → ℕ → List Pair → Warming → Warming
unfolding warm_pair_ex record_warmed_pair
warm_from network clock batch_size total i [] w = w
warm_from network clock batch_size total i (pair ∷ pairs) w =
    let now = clock i in
    let w' = note_outcome now pair (warm_pair_ex (network now pair)).ttl w in
    let pause = (i + 1) % batch_size == 0 && ltb (i + 1) total in
    warm_from network clock batch_size total (i + 1) pairs
      (record w' { pauses = if pause then w'.pauses + 1 else w'.pauses })

unfoldable pub warm_cache : Network → (ℕ → ℕ) → ℕ → List Pair → Cache → Warming
unfolding warm_from
warm_cache network clock batch_size pairs cache =
    warm_from network clock batch_size (length pairs) 0 pairs
      (record { success = 0; failed = 0; pauses = 0; cache = cache })

pub record WarmingSettings : Type 0 where
  pub enabled : Bool
  pub domain_count : ℕ
  pub ignore_ttl : Bool
  pub custom_refresh : ℕ
  pub max_queries : ℕ

-- `top limit` is get_top_pairs_to_warm(db, hours=24, limit=limit). `none`: nothing is sent.
unfoldable pub precache_warming_job :
    (ℕ → List Pair) → Network → (ℕ → ℕ) → ℕ → WarmingSettings → Cache → Option (List Pair × Warming)
unfolding get_pairs_needing_refresh warm_cache
precache_warming_job top network clock now settings cache =
    let pairs = take settings.max_queries (
      get_pairs_needing_refresh now cache (top settings.domain_count) settings.ignore_ttl
        settings.custom_refresh) in
    if not settings.enabled
    then none
    else if pairs == []
    then none
    else some (pairs, warm_cache network clock 50 pairs cache)

-- get_top_domains_to_warm: the names of the top pairs, each once, in their order.
unfoldable pub get_top_domains_to_warm : List Pair → List String
unfolding union
get_top_domains_to_warm pairs = union [] (map (λ (qname, _). qname) pairs)

abbrev pub stats_fresh : ℕ → PairTtl → Bool
stats_fresh now c = elim c.last_warmed [ none ↦ false | some last ↦ ltb now (last + seconds c.ttl) ]

-- The counts of get_precache_stats: cached, fresh and expired pairs.
unfoldable pub get_precache_stats : ℕ → Cache → ℕ × ℕ × ℕ
get_precache_stats now cache = (
  length cache,
  length (select (λ (_, c). stats_fresh now c) cache),
  length (select (λ (_, c). not (stats_fresh now c)) cache),
)
