-- ===== src/Health/Quiet.antt =====
-- When there is nothing to warn of.
use power_blockade.Base.{
  ℕ, ◌≡◌, refl, ◌∙◌, String, Bool, true, false, not, ◌&&◌, ◌||◌, Option, none, some, List, [], ◌∷◌,
  ◌++◌, Bool-cases, inl, inr, leb, arith, sym, ◌+◌, ◌*◌,
}
use power_blockade.Base.Int.{ℤ, pos, negsuc, leb_ℤ}
use power_blockade.Nodes.{Node, instant, DateTime}
use power_blockade.Retention.{NodeMetrics}
use power_blockade.Health.{
  Floats, HealthWarning, HealthThresholds, when, old, meaningful, plus, too_low, heartbeat_warnings,
  cache_warnings, exceeds, total_answers, age_mins, stale_metrics, high_servfail_rate,
  high_timeout_rate, many_slow_queries, metrics_warnings, node_warnings, all_warnings,
  compute_health_warnings,
}

abbrev pub is_empty {ℓ} : {A : Type ℓ} → List A → Bool
is_empty [] = true
is_empty (a ∷ xs) = false

is_empty-append {ℓ} :
    {A : Type ℓ} (xs ys : List A) → is_empty (xs ++ ys) ≡ (is_empty xs && is_empty ys)
is_empty-append [] ys = refl
is_empty-append (a ∷ xs) ys = refl

joined {ℓ} :
    {A : Type ℓ} (xs ys : List A) {p q : Bool}
    → is_empty xs ≡ p
    → is_empty ys ≡ q
    → is_empty (xs ++ ys) ≡ (p && q)
joined xs ys h k = is_empty-append xs ys ∙ rw (h, k) refl

module _ (f : Floats) where
  is_empty-when : (c : Bool) (w : HealthWarning f) → is_empty (when f c w) ≡ not c
  is_empty-when true w = refl
  is_empty-when false w = refl

  -- At a time that is at most so many minutes, of 60,000,000 microseconds, before `now`.
  abbrev pub recent : ℕ → ℕ → ℕ → Bool
  recent stale_minutes now time = leb now (time + stale_minutes * 60_000_000)

  abbrev pub recent_heartbeat : ℕ → ℕ → Option DateTime → Bool
  recent_heartbeat stale_minutes now none = true
  recent_heartbeat stale_minutes now (some last_seen) = recent stale_minutes now (instant last_seen)

  -- A total of at most 100, which says nothing of a rate.
  abbrev pub small : ℤ → Bool
  small total = leb_ℤ total (pos 100)

  -- No rate of hits over a sample of more than 100 is below either limit.
  abbrev pub enough_hits : HealthThresholds f → NodeMetrics → Bool
  enough_hits t m =
      let total = plus f m.cache_hits m.cache_misses in
      small total
      || (not (f.less (f.percent m.cache_hits total) t.cache_hit_critical)
          && not (f.less (f.percent m.cache_hits total) t.cache_hit_warning))

  abbrev sum_from : ℤ → List ℤ → ℤ
  sum_from total [] = total
  sum_from total (n ∷ ns) = sum_from (plus f total n) ns

  -- The answers of all five classes.
  abbrev pub all_answers : NodeMetrics → ℤ
  all_answers m =
      sum_from m.answers_0_1
        (m.answers_1_10 ∷ m.answers_10_100 ∷ m.answers_100_1000 ∷ m.answers_slow ∷ [])

  -- No rate over a sample of more than 100 is above the limit.
  abbrev pub within : ℤ → ℤ → f.Float → Bool
  within part total limit = small total || not (f.less limit (f.percent part total))

  -- A node with metrics, seen and measured lately, with no rate of a large sample beyond its limit.
  abbrev pub healthy : HealthThresholds f → ℕ → Node → Option NodeMetrics → Bool
  healthy t now node none = false
  healthy t now node (some m) =
      recent_heartbeat t.stale_minutes now node.last_seen
      && (recent t.stale_minutes now m.ts
          && (enough_hits t m
              && (within m.servfail_answers m.questions t.servfail_warning
                  && (within m.outgoing_timeouts m.all_outqueries t.timeout_warning
                      && within m.answers_slow (all_answers m) t.slow_warning))))

  abbrev pub all_healthy : HealthThresholds f → ℕ → List (Node × Option NodeMetrics) → Bool
  all_healthy t now [] = true
  all_healthy t now ((node, metrics) ∷ items) =
      healthy t now node metrics && all_healthy t now items

  not-old :
      (stale_minutes now time : ℕ)
      → not (old f stale_minutes now time) ≡ recent stale_minutes now time
  not-old stale_minutes now time = ground arith

  not-meaningful : (total : ℤ) → not (meaningful f total) ≡ small total
  not-meaningful (pos n) = ground arith
  not-meaningful (negsuc n) = ground arith

  not-exceeds :
      (part total : ℤ) (limit : f.Float)
      → not (exceeds f part total limit) ≡ within part total limit
  not-exceeds part total limit = elim (Bool-cases (meaningful f total)) [
    | inl e ↦ rw (sym (not-meaningful total), e) refl
    | inr n ↦ rw (sym (not-meaningful total), n) refl
  ]

  is_empty-heartbeat :
      (stale_minutes now : ℕ) (name : String) (o : Option DateTime)
      → is_empty (heartbeat_warnings f stale_minutes now name o)
        ≡ recent_heartbeat stale_minutes now o
  unfolding heartbeat_warnings
  is_empty-heartbeat stale_minutes now name none = refl
  is_empty-heartbeat stale_minutes now name (some last_seen) =
      is_empty-when _ _ ∙ not-old stale_minutes now (instant last_seen)

  is_empty-too_low :
      (t : HealthThresholds f) (name : String) (rate : f.Float)
      → is_empty (too_low f t name rate)
        ≡ (not (f.less rate t.cache_hit_critical) && not (f.less rate t.cache_hit_warning))
  is_empty-too_low t name rate = elim (Bool-cases (f.less rate t.cache_hit_critical)) [
    | inl e ↦ rw e refl
    | inr n ↦ rw n (is_empty-when _ _)
  ]

  is_empty-cache :
      (t : HealthThresholds f) (name : String) (m : NodeMetrics)
      → is_empty (cache_warnings f t name m) ≡ enough_hits t m
  unfolding cache_warnings
  is_empty-cache t name m = elim (Bool-cases (meaningful f (plus f m.cache_hits m.cache_misses))) [
    | inl e ↦
        rw (sym (not-meaningful (plus f m.cache_hits m.cache_misses)), e)
          (is_empty-too_low t name _)
    | inr n ↦ rw (sym (not-meaningful (plus f m.cache_hits m.cache_misses)), n) refl
  ]

  is_empty-rate :
      (part total : ℤ) (limit : f.Float) (w : HealthWarning f)
      → is_empty (when f (exceeds f part total limit) w) ≡ within part total limit
  is_empty-rate part total limit w = is_empty-when _ w ∙ not-exceeds part total limit

  is_empty-metrics :
      (t : HealthThresholds f) (now : ℕ) (node : Node) (m : NodeMetrics)
      → is_empty (metrics_warnings f t now node m) ≡ healthy t now node (some m)
  unfolding metrics_warnings
  is_empty-metrics t now node m =
      joined _ _ (is_empty-heartbeat t.stale_minutes now node.name node.last_seen) (
        joined _ _
          (is_empty-when (old f t.stale_minutes now m.ts)
              (stale_metrics node.name (age_mins f now m.ts))
            ∙ not-old t.stale_minutes now m.ts)
          (joined _ _ (is_empty-cache t node.name m) (
            joined _ _
              (is_empty-rate m.servfail_answers m.questions t.servfail_warning
                (high_servfail_rate node.name (f.percent m.servfail_answers m.questions)))
              (joined _ _
                (is_empty-rate m.outgoing_timeouts m.all_outqueries t.timeout_warning
                  (high_timeout_rate node.name (f.percent m.outgoing_timeouts m.all_outqueries)))
                (is_empty-rate m.answers_slow (total_answers f m) t.slow_warning
                  (many_slow_queries node.name (f.percent m.answers_slow (total_answers f m))))))))

  node-healthy :
      (t : HealthThresholds f) (now : ℕ) (node : Node) (o : Option NodeMetrics)
      → is_empty (node_warnings f t now node o) ≡ healthy t now node o
  unfolding node_warnings
  node-healthy t now node none = refl
  node-healthy t now node (some m) = is_empty-metrics t now node m

  all-healthy :
      (t : HealthThresholds f) (now : ℕ) (items : List (Node × Option NodeMetrics))
      → is_empty (all_warnings f t now items) ≡ all_healthy t now items
  unfolding all_warnings
  all-healthy t now [] = refl
  all-healthy t now ((node, metrics) ∷ items) =
      is_empty-append (node_warnings f t now node metrics) (all_warnings f t now items)
      ∙ rw (node-healthy t now node metrics, all-healthy t now items) refl

  -- There is no warning exactly if there is some node, and every node has metrics, was seen, if ever,
  -- and measured no longer than the stale minutes ago, and none of its rates is, over a sample of
  -- more than 100, beyond its limit.
  pub compute-healthy :
      (t : HealthThresholds f) (now : ℕ) (items : List (Node × Option NodeMetrics))
      → is_empty (compute_health_warnings f t now items)
        ≡ (not (is_empty items) && all_healthy t now items)
  unfolding compute_health_warnings
  compute-healthy t now [] = refl
  compute-healthy t now (item ∷ items) = all-healthy t now (item ∷ items)
