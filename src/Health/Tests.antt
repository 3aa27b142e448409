-- ===== src/Health/Tests.antt =====
-- A node that is healthy and one that was not seen for long.
use power_blockade.Base.{ℕ, ◌≡◌, refl, not, ◌&&◌, Option, none, some, List, [], ◌∷◌}
use power_blockade.Base.Int.{ℤ, pos, ltb_ℤ}
use power_blockade.Nodes.{Node, active, aware, node_state_transitions_job}
use power_blockade.Retention.{NodeMetrics}
use power_blockade.Health.{
  Floats, HealthThresholds, stale_heartbeat, compute_health_warnings, all_warnings, node_warnings,
  metrics_warnings, heartbeat_warnings, cache_warnings, system_health, node_data, latest,
}
use power_blockade.Health.Quiet.{is_empty, all_healthy, compute-healthy}
use power_blockade.Health.Page.{IsOther, job-IsOther}

-- Rates by their parts alone.
abbrev parts : Floats
parts = record { Float = ℤ; percent = λ part total. part; less = ltb_ℤ }

abbrev thresholds : HealthThresholds parts
thresholds = record {
  cache_hit_warning = pos 50;
  cache_hit_critical = pos 20;
  servfail_warning = pos 5;
  timeout_warning = pos 2;
  slow_warning = pos 10;
  stale_minutes = 5;
}

abbrev node : ℕ → ℕ → Node
node number seen = record {
  id = number;
  name = "pi";
  api_key = "k";
  ip_address = none;
  version = none;
  status = active;
  last_seen = some (aware seen);
  last_heartbeat = none;
  last_error = none;
  quarantine_entry_time = none;
  quarantine_reason = none;
  config_version = 0;
  queries_total = 0;
  queries_blocked = 0;
}

abbrev metrics : ℕ → ℕ → NodeMetrics
metrics number time = record {
  node_id = number;
  ts = time;
  cache_hits = pos 0;
  cache_misses = pos 0;
  cache_entries = pos 0;
  packetcache_hits = pos 0;
  packetcache_misses = pos 0;
  answers_0_1 = pos 0;
  answers_1_10 = pos 0;
  answers_10_100 = pos 0;
  answers_100_1000 = pos 0;
  answers_slow = pos 0;
  concurrent_queries = pos 0;
  outgoing_timeouts = pos 0;
  servfail_answers = pos 0;
  nxdomain_answers = pos 0;
  questions = pos 0;
  all_outqueries = pos 0;
  uptime_seconds = pos 0;
}

abbrev now : ℕ
now = 600_000_000

abbrev rows : List NodeMetrics
rows = metrics 1 now ∷ metrics 2 now ∷ []

abbrev nodes : List Node
nodes = node 1 now ∷ node 2 0 ∷ []

one_stale : system_health parts thresholds now rows nodes ≡ stale_heartbeat "pi" 10 ∷ []
unfolding system_health node_data latest compute_health_warnings all_warnings node_warnings
    metrics_warnings heartbeat_warnings cache_warnings
one_stale = refl

abbrev unmeasured : List (Node × Option NodeMetrics)
unmeasured = (node 1 now, none) ∷ []

compute-healthy_example :
    is_empty (compute_health_warnings parts thresholds now unmeasured)
    ≡ (not (is_empty unmeasured) && all_healthy parts thresholds now unmeasured)
compute-healthy_example = compute-healthy parts thresholds now unmeasured

job-IsOther_example :
    IsOther parts
      (system_health parts thresholds now rows (node_state_transitions_job 5 30 now nodes))
job-IsOther_example = job-IsOther parts thresholds now 30 rows nodes
