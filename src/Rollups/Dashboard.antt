-- ===== src/Rollups/Dashboard.antt =====
-- The counters of the dashboard: _raw_edge_aggregate, _build_result and get_dashboard_stats of
-- admin-ui/app/services/rollups.py, with the cache of 60 seconds in front. Percentages, rates and
-- the reported ages are left out.
use power_blockade.Base.{
  ℕ, ◌+◌, ◌-◌, ◌*◌, ◌/◌, Option, none, some, List, nat_eq, string_eq, pair_eq, ltb, leb,
  if◌then◌else◌, select, lookup, insert,
}
use power_blockade.Rollups.{
  DnsQueryEvent, QueryRollup, hour, sum_by, count_one, blocked_one, nxdomain_one, servfail_one,
  hit_one, latency_one, names_of, count_distinct, in_window, hourly_between, or_zero, start_of_hour,
}

-- The dictionary that is added up.
pub record Aggregate : Type 0 where
  pub total_queries : ℕ
  pub blocked_queries : ℕ
  pub nxdomain_count : ℕ
  pub servfail_count : ℕ
  pub cache_hits : ℕ
  pub latency_weighted_sum : ℕ
  pub unique_domains : ℕ

-- _raw_edge_aggregate
unfoldable pub raw_edge_aggregate : List DnsQueryEvent → ℕ → ℕ → Aggregate
unfolding count_distinct
raw_edge_aggregate events start end =
    let row = select (in_window start end) events in
    record {
      total_queries = sum_by count_one row;
      blocked_queries = sum_by blocked_one row;
      nxdomain_count = sum_by nxdomain_one row;
      servfail_count = sum_by servfail_one row;
      cache_hits = sum_by hit_one row;
      latency_weighted_sum = sum_by latency_one row;
      unique_domains = count_distinct (names_of row);
    }

-- _add_dicts
unfoldable pub add_dicts : Aggregate → Aggregate → Aggregate
add_dicts a b = record {
  total_queries = a.total_queries + b.total_queries;
  blocked_queries = a.blocked_queries + b.blocked_queries;
  nxdomain_count = a.nxdomain_count + b.nxdomain_count;
  servfail_count = a.servfail_count + b.servfail_count;
  cache_hits = a.cache_hits + b.cache_hits;
  latency_weighted_sum = a.latency_weighted_sum + b.latency_weighted_sum;
  unique_domains = a.unique_domains + b.unique_domains;
}

-- A NULL times a number is a NULL, which a sum passes over.
abbrev pub weighted : QueryRollup → ℕ
weighted r = or_zero r.avg_latency_ms * r.total_queries

unfoldable pub rollup_sums : List QueryRollup → ℕ → ℕ → Aggregate
rollup_sums rollups start end =
    let rows = select (hourly_between start end) rollups in
    record {
      total_queries = sum_by (λ r. r.total_queries) rows;
      blocked_queries = sum_by (λ r. r.blocked_queries) rows;
      nxdomain_count = sum_by (λ r. r.nxdomain_count) rows;
      servfail_count = sum_by (λ r. r.servfail_count) rows;
      cache_hits = sum_by (λ r. r.cache_hits) rows;
      latency_weighted_sum = sum_by weighted rows;
      unique_domains = sum_by (λ r. r.unique_domains) rows;
    }

pub record Stats : Type 0 where
  pub total_queries : ℕ
  pub blocked_queries : ℕ
  pub nxdomain_count : ℕ
  pub servfail_count : ℕ
  pub cache_hits : ℕ
  pub avg_latency_ms : ℕ
  pub unique_domains : ℕ
  pub time_saved_ms : ℕ
  pub edge_delta_total : ℕ

-- _build_result
unfoldable pub build_result : Aggregate → ℕ → Stats
build_result accum edge_delta_total = record {
  total_queries = accum.total_queries;
  blocked_queries = accum.blocked_queries;
  nxdomain_count = accum.nxdomain_count;
  servfail_count = accum.servfail_count;
  cache_hits = accum.cache_hits;
  avg_latency_ms =
      if ltb 0 accum.total_queries then accum.latency_weighted_sum / accum.total_queries else 0;
  unique_domains = accum.unique_domains;
  time_saved_ms = accum.cache_hits * 5;
  edge_delta_total = edge_delta_total;
}

-- `if start < end` the range of raw events is added to both sums.
unfoldable pub add_edge : List DnsQueryEvent → ℕ → ℕ → Aggregate × ℕ → Aggregate × ℕ
unfolding raw_edge_aggregate add_dicts
add_edge events start end sums =
    let edge = raw_edge_aggregate events start end in
    if ltb start end then (add_dicts sums.0 edge, sums.1 + edge.total_queries) else sums

-- The first full hour of the window.
abbrev pub full_start : ℕ → ℕ
full_start window_start =
    let start_hour = start_of_hour window_start in
    if ltb start_hour window_start then start_hour + hour else start_hour

unfoldable pub fresh_stats : ℕ → ℕ → List DnsQueryEvent → List QueryRollup → Stats
unfolding rollup_sums add_edge build_result
fresh_stats now hours events rollups =
    let window_start = now - hours * hour in
    let current_hour = start_of_hour now in
    let from = full_start window_start in
    let accum = rollup_sums rollups from current_hour in
    let first = add_edge events window_start from (accum, 0) in
    let both = add_edge events current_hour now first in build_result both.0 both.1

-- _stats_cache: by the three parts of the key, the time.monotonic() of the result and the result.
-- That clock is in microseconds here.
abbrev pub StatsCache : Type 0
StatsCache = List ((ℕ × (ℕ × ℕ)) × (ℕ × Stats))

abbrev pub young : ℕ → Option (ℕ × Stats) → Option Stats
young clock none = none
young clock (some (ts, kept)) = if ltb (clock - ts) 60_000_000 then some kept else none

unfoldable pub get_dashboard_stats :
    ℕ → ℕ → ℕ → List DnsQueryEvent → List QueryRollup → StatsCache → Stats × StatsCache
unfolding raw_edge_aggregate build_result fresh_stats lookup insert
get_dashboard_stats clock now hours events rollups cache =
    let window_start = now - hours * hour in
    let raw = raw_edge_aggregate events window_start now in
    let key : ℕ × (ℕ × ℕ) = (hours, (start_of_hour window_start, start_of_hour now)) in
    let result = fresh_stats now hours events rollups in
    if leb hours 1
    then (build_result raw raw.total_queries, cache)
    else elim (young clock (lookup key cache)) [
      | some kept ↦ (kept, cache)
      | none ↦ (result, insert key (clock, result) cache)
    ]
