-- ===== src/Rollups/Tests.antt =====
-- Three events over two hours, and the theorems applied to them.
use power_blockade.Base.{
  ℕ, ◌+◌, ◌-◌, ◌*◌, ◌≡◌, refl, arith, Bool, true, false, Option, none, some, List, [], ◌∷◌, length,
  if◌then◌else◌, add, lookup,
}
use power_blockade.Base.Texts.{codes}
use power_blockade.Rollups.{
  DnsQueryEvent, QueryRollup, hour, compute_hourly_rollup, compute_daily_rollup,
  backfill_hourly_rollups, hourly_row,
}
use power_blockade.Rollups.Upsert.{Key, found}
use power_blockade.Rollups.Hourly.{of_hour, hour_groups, group_key, rolled_up, hourly-found}
use power_blockade.Rollups.Conserved.{Counter}
use power_blockade.Rollups.Dashboard.{get_dashboard_stats}
use power_blockade.Rollups.Exact.{shown, counted, dashboard-exact}

abbrev event : ℕ → Option ℕ → Bool → ℕ → DnsQueryEvent
event t c b r = record {
  event_id = none;
  event_seq = none;
  client_ip = codes "10.0.0.7";
  qtype = 1;
  block_reason = none;
  blocklist_name = none;
  ts = t;
  node_id = some 1;
  client_id = c;
  is_internal = false;
  qname = codes "a.example";
  rcode = r;
  blocked = b;
  latency_ms = some 3;
}

abbrev events : List DnsQueryEvent
events =
    event (10 * hour + 5) (some 7) true 0
    ∷ event (10 * hour + 9) (some 7) false 3
    ∷ event (11 * hour) none false 2
    ∷ []

abbrev two_queries : QueryRollup
two_queries = record {
  bucket_start = 10 * hour;
  granularity = "hourly";
  client_id = some 7;
  node_id = some 1;
  total_queries = 2;
  blocked_queries = 1;
  nxdomain_count = 1;
  servfail_count = 0;
  cache_hits = 2;
  avg_latency_ms = some 3;
  unique_domains = 1;
}

rolls_up : compute_hourly_rollup (10 * hour) events [] ≡ some (two_queries ∷ [], 1)
unfolding compute_hourly_rollup add
rolls_up = refl

-- The row of the hour is overwritten.
rolls_up_again :
    compute_hourly_rollup (10 * hour) events (record two_queries { total_queries = 1 } ∷ [])
    ≡ some (two_queries ∷ [], 1)
unfolding compute_hourly_rollup add
rolls_up_again = refl

by_day :
    compute_daily_rollup 0 (two_queries ∷ [])
    ≡ some (two_queries ∷ record two_queries { bucket_start = 0; granularity = "daily" } ∷ [], 1)
unfolding compute_daily_rollup add
by_day = refl

hourly-found_example :
    (after : List QueryRollup) × ((compute_hourly_rollup (10 * hour) events []
        ≡ some (after, length (hour_groups (10 * hour) events)))
      × ((k : Key)
          → found k after ≡ (
              if rolled_up (10 * hour) events k
              then hourly_row (10 * hour) (of_hour (10 * hour) events) (group_key k) ∷ []
              else found k [])))
hourly-found_example = hourly-found (10 * hour) events [] (λ k. omega arith)

dashboard-exact_example :
    (after : List QueryRollup) × ((count : ℕ) × ((backfill_hourly_rollups
            (12 * hour + 100)
            2
            events
            []
          ≡ some (after, count))
        × ((c : Counter)
            → shown c (get_dashboard_stats 0 (12 * hour + 100) 2 events after []).0
              ≡ counted c events (12 * hour + 100 - 2 * hour) (12 * hour + 100))))
unfolding lookup
dashboard-exact_example =
    dashboard-exact 0 (12 * hour + 100) 2 2 events [] [] (omega arith) (omega arith) (omega arith)
      (omega arith) refl refl
