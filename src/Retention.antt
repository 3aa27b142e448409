-- ===== src/Retention.antt =====
-- What is kept of the statistics: admin-ui/app/services/retention.py, with the numbers of days from
-- the settings. Times are microseconds.
pub mod Kept
mod Tests
use power_blockade.Base.{
  ℕ, ◌+◌, ◌-◌, ◌*◌, ◌≤◌, ◌≡◌, refl, ◌∙◌, ap, ◌↔◌, Bool, true, false, not, Option, none, some, List,
  [], ◌∷◌, arith, ltb, leb, if◌then◌else◌, select, length, ◌>>=◌, Bool-cases, inl, inr,
}
use power_blockade.Base.Int.{ℤ, pos, negsuc, leb_ℤ}
use power_blockade.Settings.{
  Rows, get_retention_events_days, get_retention_rollups_days, get_retention_node_metrics_days,
}
use power_blockade.Rollups.{DnsQueryEvent, QueryRollup}

-- A row of node_metrics.
pub record NodeMetrics : Type 0 where
  pub node_id : ℕ
  pub ts : ℕ
  pub cache_hits : ℤ
  pub cache_misses : ℤ
  pub cache_entries : ℤ
  pub packetcache_hits : ℤ
  pub packetcache_misses : ℤ
  pub answers_0_1 : ℤ
  pub answers_1_10 : ℤ
  pub answers_10_100 : ℤ
  pub answers_100_1000 : ℤ
  pub answers_slow : ℤ
  pub concurrent_queries : ℤ
  pub outgoing_timeouts : ℤ
  pub servfail_answers : ℤ
  pub nxdomain_answers : ℤ
  pub questions : ℤ
  pub all_outqueries : ℤ
  pub uptime_seconds : ℤ

abbrev pub day : ℕ
day = 86_400_000_000

-- `now - timedelta(days=days)`; a negative number of days lies ahead. None is the OverflowError of a
-- time before the year 1, which begins 719,162 days before the epoch, or behind the year 9999, which
-- ends 2,932,897 days behind it. A time before the epoch is 0 here: no row is older than either.
abbrev pub cutoff : ℕ → ℤ → Option ℕ
cutoff now (pos days) =
    if leb (days * day) (now + 719_162 * day) then some (now - days * day) else none
cutoff now (negsuc days) =
    let ahead = now + (days + 1) * day in if ltb ahead (2_932_897 * day) then some ahead else none

-- The rows that are left, and the number of those deleted.
abbrev pub delete_before {ℓ} : {A : Type ℓ} → (A → ℕ) → ℕ → List A → List A × ℕ
delete_before time end rows =
    (select (λ a. not (ltb (time a) end)) rows, length (select (λ a. ltb (time a) end) rows))

-- `days` is none if it is to be read from the settings. The result is none for the ValueError
-- of a text that is no number, or for the OverflowError.
abbrev pub days_or : Option ℤ → Option ℤ → Option ℤ
days_or none setting = setting
days_or (some days) setting = some days

unfoldable pub cleanup_old_events :
    ℕ → Rows → Option ℤ → List DnsQueryEvent → Option (List DnsQueryEvent × ℕ)
cleanup_old_events now settings days events = do
  n ← days_or days (get_retention_events_days settings)
  end ← cutoff now n
  some (delete_before (λ e. e.ts) end events)

unfoldable pub cleanup_old_rollups :
    ℕ → Rows → Option ℤ → List QueryRollup → Option (List QueryRollup × ℕ)
cleanup_old_rollups now settings days rollups = do
  n ← days_or days (get_retention_rollups_days settings)
  end ← cutoff now n
  some (delete_before (λ r. r.bucket_start) end rollups)

unfoldable pub cleanup_old_node_metrics :
    ℕ → Rows → Option ℤ → List NodeMetrics → Option (List NodeMetrics × ℕ)
cleanup_old_node_metrics now settings days metrics = do
  n ← days_or days (get_retention_node_metrics_days settings)
  end ← cutoff now n
  some (delete_before (λ m. m.ts) end metrics)

-- The three tables.
pub record Tables : Type 0 where
  pub events : List DnsQueryEvent
  pub rollups : List QueryRollup
  pub metrics : List NodeMetrics

-- Each clean-up commits for itself, so an exception in one leaves the work of those before it: the tables, and whether the job came to its end. The clean-ups read the clock one after the
-- other; one time stands for the three.
abbrev pub after_metrics : Tables → Option (List NodeMetrics × ℕ) → Tables × Bool
after_metrics t none = (t, false)
after_metrics t (some m) = (record t { metrics = m.0 }, true)

abbrev pub after_rollups : ℕ → Rows → Tables → Option (List QueryRollup × ℕ) → Tables × Bool
after_rollups now settings t none = (t, false)
after_rollups now settings t (some r) =
    after_metrics (record t { rollups = r.0 })
      (cleanup_old_node_metrics now settings none t.metrics)

abbrev pub after_events : ℕ → Rows → Tables → Option (List DnsQueryEvent × ℕ) → Tables × Bool
after_events now settings t none = (t, false)
after_events now settings t (some e) =
    after_rollups now settings (record t { events = e.0 })
      (cleanup_old_rollups now settings none t.rollups)

unfoldable pub run_retention_job : ℕ → Rows → Tables → Tables × Bool
unfolding cleanup_old_events cleanup_old_rollups cleanup_old_node_metrics
run_retention_job now settings t =
    after_events now settings t (cleanup_old_events now settings none t.events)
