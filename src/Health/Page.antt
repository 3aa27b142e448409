-- ===== src/Health/Page.antt =====
-- The page after the job that marks nodes as stale.
use power_blockade.Base.{
  ℕ, ◌≡◌, refl, String, Bool, true, false, Option, none, some, List, [], ◌∷◌, ◌++◌, arith, ◌==◌,
  if◌then◌else◌, map, select, All, All-append, Bool-cases, inl, inr,
}
use power_blockade.Nodes.{
  Node, active, status_eq, seen_before, instant, DateTime, node_state_transitions_job,
}
use power_blockade.Nodes.Transitions.{IsTimely, job-IsTimely}
use power_blockade.Retention.{NodeMetrics}
use power_blockade.Health.{
  Floats, HealthWarning, HealthThresholds, stale_heartbeat, stale_metrics, low_hit_rate,
  high_servfail_rate, high_timeout_rate, many_slow_queries, when, old, meaningful, plus,
  heartbeat_warnings, cache_warnings, exceeds, age_mins, total_answers, metrics_warnings,
  node_warnings, all_warnings, compute_health_warnings, node_data, latest, system_health,
}

module _ (f : Floats) where
  abbrev pub is_heartbeat : HealthWarning f → Bool
  is_heartbeat (stale_heartbeat name age) = true
  is_heartbeat _ = false

  abbrev pub IsOther : List (HealthWarning f) → Type 0
  IsOther = All (λ w. is_heartbeat w ≡ false)

  when-IsOther : (c : Bool) (w : HealthWarning f) → is_heartbeat w ≡ false → IsOther (when f c w)
  when-IsOther true w h = (h, tt)
  when-IsOther false w h = tt

  IsOther-append : (xs ys : List (HealthWarning f)) → IsOther xs → IsOther ys → IsOther (xs ++ ys)
  IsOther-append xs ys h k = All-append _ xs ys h k

  heartbeat-IsOther :
      (stale_minutes now : ℕ) (name : String) (o : Option DateTime)
      → seen_before stale_minutes now o ≡ false
      → IsOther (heartbeat_warnings f stale_minutes now name o)
  unfolding heartbeat_warnings
  heartbeat-IsOther stale_minutes now name none h = tt
  heartbeat-IsOther stale_minutes now name (some seen) h =
      let recent : old f stale_minutes now (instant seen) ≡ false = ground arith in rw recent tt

  cache-IsOther :
      (t : HealthThresholds f) (name : String) (m : NodeMetrics)
      → IsOther (cache_warnings f t name m)
  unfolding cache_warnings
  cache-IsOther t name m = elim (Bool-cases (meaningful f (plus f m.cache_hits m.cache_misses))) [
    | inr n ↦ rw n tt
    | inl e ↦
        let rate = f.percent m.cache_hits (plus f m.cache_hits m.cache_misses) in
        elim (Bool-cases (f.less rate t.cache_hit_critical)) [
          | inl low ↦ rw (e, low) (refl, tt)
          | inr enough ↦
              rw (e, enough)
                (when-IsOther (f.less rate t.cache_hit_warning) (low_hit_rate name rate) refl)
        ]
  ]

  metrics-IsOther :
      (t : HealthThresholds f) (now : ℕ) (node : Node) (m : NodeMetrics)
      → seen_before t.stale_minutes now node.last_seen ≡ false
      → IsOther (metrics_warnings f t now node m)
  unfolding metrics_warnings
  metrics-IsOther t now node m h =
      IsOther-append _ _ (heartbeat-IsOther t.stale_minutes now node.name node.last_seen h) (
        IsOther-append _ _
          (when-IsOther (old f t.stale_minutes now m.ts)
            (stale_metrics node.name (age_mins f now m.ts)) refl)
          (IsOther-append _ _ (cache-IsOther t node.name m) (
            IsOther-append _ _
              (when-IsOther (exceeds f m.servfail_answers m.questions t.servfail_warning)
                (high_servfail_rate node.name (f.percent m.servfail_answers m.questions)) refl)
              (IsOther-append _ _
                (when-IsOther (exceeds f m.outgoing_timeouts m.all_outqueries t.timeout_warning)
                  (high_timeout_rate node.name (f.percent m.outgoing_timeouts m.all_outqueries))
                  refl)
                (when-IsOther (exceeds f m.answers_slow (total_answers f m) t.slow_warning)
                  (many_slow_queries node.name (f.percent m.answers_slow (total_answers f m)))
                  refl)))))

  node-IsOther :
      (t : HealthThresholds f) (now : ℕ) (node : Node) (o : Option NodeMetrics)
      → seen_before t.stale_minutes now node.last_seen ≡ false
      → IsOther (node_warnings f t now node o)
  unfolding node_warnings
  node-IsOther t now node none h = (refl, tt)
  node-IsOther t now node (some m) h = metrics-IsOther t now node m h

  data_rows-IsOther :
      (t : HealthThresholds f) (now offline_minutes : ℕ) (rows : List NodeMetrics)
      (nodes : List Node)
      → All (IsTimely t.stale_minutes offline_minutes now) nodes
      → IsOther (all_warnings f t now (node_data rows nodes))
  unfolding all_warnings node_data
  data_rows-IsOther t now offline_minutes rows [] all = tt
  data_rows-IsOther t now offline_minutes rows (n ∷ nodes) all =
      of_status (n.status == active)
        (λ e. all.0.active_recent ((status_eq.beq_iff n.status active).0 e))
        (data_rows-IsOther t now offline_minutes rows nodes all.1)
    where
      of_status :
          (b : Bool)
          → (b ≡ true → seen_before t.stale_minutes now n.last_seen ≡ false)
          → IsOther (all_warnings f t now (node_data rows nodes))
          → IsOther (
              all_warnings f t now (
                map
                  (λ (n : Node). (n, latest n.id rows))
                  (let rest = select (λ (n : Node). n.status == active) nodes in
                    if b then n ∷ rest else rest)))
      of_status true h rest =
          IsOther-append _ _ (node-IsOther t now n (latest n.id rows) (h refl)) rest
      of_status false h rest = rest

  compute-IsOther :
      (t : HealthThresholds f) (now : ℕ) (items : List (Node × Option NodeMetrics))
      → IsOther (all_warnings f t now items)
      → IsOther (compute_health_warnings f t now items)
  unfolding compute_health_warnings
  compute-IsOther t now [] other = (refl, tt)
  compute-IsOther t now (item ∷ items) other = other

  -- If the job that marks nodes as stale has just run, with the stale minutes of the page, then the
  -- page warns of no stale heartbeat.
  pub job-IsOther :
      (t : HealthThresholds f) (now offline_minutes : ℕ) (rows : List NodeMetrics)
      (nodes : List Node)
      → IsOther (
          system_health f t now rows
            (node_state_transitions_job t.stale_minutes offline_minutes now nodes))
  unfolding system_health
  job-IsOther t now offline_minutes rows nodes = compute-IsOther t now _ (
      data_rows-IsOther t now offline_minutes rows _
        (job-IsTimely t.stale_minutes offline_minutes now nodes))
