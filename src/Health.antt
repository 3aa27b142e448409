-- ===== src/Health.antt =====
-- The warnings of the page on the system's health: admin-ui/app/routers/system.py over the rows of
-- nodes and of their metrics. A warning is a constructor for its title, its message and its advice.
-- Percentages are floats: their arithmetic is a parameter. Times are microseconds.
pub mod Quiet
pub mod Page
mod Tests
use power_blockade.Base.{
  ℕ, ◌+◌, ◌-◌, ◌/◌, String, Bool, true, false, not, ◌&&◌, ◌||◌, Option, none, some, List, [], ◌∷◌,
  ◌++◌, ◌==◌, nat_eq, ltb, if◌then◌else◌, map, select,
}
use power_blockade.Base.Int.{ℤ, pos, pos_part, neg_part, sub_ℕ, ltb_ℤ}
use power_blockade.Nodes.{Node, active, status_eq, minutes, instant, DateTime}
use power_blockade.Retention.{NodeMetrics}

-- `(part / total) * 100` and `<` on floats.
pub record Floats : Type 1 where
  pub Float : Type 0
  pub percent : ℤ → ℤ → Float
  pub less : Float → Float → Bool

pub data Severity : Type 0 where
  critical warning info : Severity

module _ (f : Floats) where
  pub data HealthWarning : Type 0 where
    no_active_nodes : HealthWarning
    no_metrics_data : String → HealthWarning
    stale_heartbeat : String → ℕ → HealthWarning
    stale_metrics : String → ℕ → HealthWarning
    very_low_hit_rate : String → f.Float → HealthWarning
    low_hit_rate : String → f.Float → HealthWarning
    high_servfail_rate : String → f.Float → HealthWarning
    high_timeout_rate : String → f.Float → HealthWarning
    many_slow_queries : String → f.Float → HealthWarning

  abbrev pub severity : HealthWarning → Severity
  severity (very_low_hit_rate name rate) = critical
  severity (many_slow_queries name rate) = info
  severity _ = warning

  pub record HealthThresholds : Type 0 where
    pub cache_hit_warning : f.Float
    pub cache_hit_critical : f.Float
    pub servfail_warning : f.Float
    pub timeout_warning : f.Float
    pub slow_warning : f.Float
    pub stale_minutes : ℕ

  -- The warning if the condition holds.
  abbrev pub when : Bool → HealthWarning → List HealthWarning
  when c w = if c then w ∷ [] else []

  abbrev pub old : ℕ → ℕ → ℕ → Bool
  old stale_minutes now time = ltb (minutes stale_minutes) (now - time)

  abbrev pub age_mins : ℕ → ℕ → ℕ
  age_mins now time = (now - time) / 60_000_000

  unfoldable pub heartbeat_warnings : ℕ → ℕ → String → Option DateTime → List HealthWarning
  heartbeat_warnings stale_minutes now name none = []
  heartbeat_warnings stale_minutes now name (some last_seen) =
      when (old stale_minutes now (instant last_seen))
        (stale_heartbeat name (age_mins now (instant last_seen)))

  -- Only more than 100 are a meaningful sample.
  abbrev pub meaningful : ℤ → Bool
  meaningful total = ltb_ℤ (pos 100) total

  abbrev pub plus : ℤ → ℤ → ℤ
  plus a b = sub_ℕ (pos_part a + pos_part b) (neg_part a + neg_part b)

  abbrev pub too_low : HealthThresholds → String → f.Float → List HealthWarning
  too_low t name rate =
      if f.less rate t.cache_hit_critical
      then very_low_hit_rate name rate ∷ []
      else when (f.less rate t.cache_hit_warning) (low_hit_rate name rate)

  unfoldable pub cache_warnings : HealthThresholds → String → NodeMetrics → List HealthWarning
  cache_warnings t name m =
      let total_queries = plus m.cache_hits m.cache_misses in
      if meaningful total_queries then too_low t name (f.percent m.cache_hits total_queries) else []

  -- A rate of a meaningful sample above its limit.
  abbrev pub exceeds : ℤ → ℤ → f.Float → Bool
  exceeds part total limit = meaningful total && f.less limit (f.percent part total)

  abbrev pub total_answers : NodeMetrics → ℤ
  total_answers m =
      plus (plus (plus (plus m.answers_0_1 m.answers_1_10) m.answers_10_100) m.answers_100_1000)
        m.answers_slow

  -- The warnings of a node that has metrics.
  unfoldable pub metrics_warnings : HealthThresholds → ℕ → Node → NodeMetrics → List HealthWarning
  unfolding heartbeat_warnings cache_warnings
  metrics_warnings t now node m =
      heartbeat_warnings t.stale_minutes now node.name node.last_seen
      ++ (when (old t.stale_minutes now m.ts) (stale_metrics node.name (age_mins now m.ts))
          ++ (cache_warnings t node.name m
              ++ (when (exceeds m.servfail_answers m.questions t.servfail_warning)
                    (high_servfail_rate node.name (f.percent m.servfail_answers m.questions))
                  ++ (when (exceeds m.outgoing_timeouts m.all_outqueries t.timeout_warning) (
                        high_timeout_rate node.name
                          (f.percent m.outgoing_timeouts m.all_outqueries))
                      ++ when (exceeds m.answers_slow (total_answers m) t.slow_warning) (
                          many_slow_queries node.name
                            (f.percent m.answers_slow (total_answers m)))))))

  unfoldable pub node_warnings :
      HealthThresholds → ℕ → Node → Option NodeMetrics → List HealthWarning
  unfolding metrics_warnings
  node_warnings t now node none = no_metrics_data node.name ∷ []
  node_warnings t now node (some m) = metrics_warnings t now node m

  unfoldable pub all_warnings :
      HealthThresholds → ℕ → List (Node × Option NodeMetrics) → List HealthWarning
  unfolding node_warnings
  all_warnings t now [] = []
  all_warnings t now ((node, metrics) ∷ items) =
      node_warnings t now node metrics ++ all_warnings t now items

  unfoldable pub compute_health_warnings :
      HealthThresholds → ℕ → List (Node × Option NodeMetrics) → List HealthWarning
  unfolding all_warnings
  compute_health_warnings t now [] = no_active_nodes ∷ []
  compute_health_warnings t now (item ∷ items) = all_warnings t now (item ∷ items)

-- The later of two rows; of two rows at one time the one that was met first.
abbrev pub later_of : NodeMetrics → Option NodeMetrics → NodeMetrics
later_of m none = m
later_of m (some rest) = if ltb m.ts rest.ts then rest else m

-- The latest row of a node.
unfoldable pub latest : ℕ → List NodeMetrics → Option NodeMetrics
latest id [] = none
latest id (m ∷ rows) =
    let rest = latest id rows in if m.node_id == id then some (later_of m rest) else rest

-- The active nodes, each with its latest metrics.
unfoldable pub node_data : List NodeMetrics → List Node → List (Node × Option NodeMetrics)
unfolding latest
node_data rows nodes =
    map (λ (n : Node). (n, latest n.id rows)) (select (λ (n : Node). n.status == active) nodes)

-- The warnings of the page.
unfoldable pub system_health :
    (f : Floats) → HealthThresholds f → ℕ → List NodeMetrics → List Node → List (HealthWarning f)
unfolding compute_health_warnings node_data
system_health f t now rows nodes = compute_health_warnings f t now (node_data rows nodes)
