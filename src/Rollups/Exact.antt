-- ===== src/Rollups/Exact.antt =====
-- The dashboard after a backfill counts as the raw events do.
use power_blockade.Base.{
  ℕ, ◌+◌, ◌-◌, ◌*◌, ◌≤◌, min, max, ◌≡◌, refl, ◌∙◌, ap, none, some, List, [], arith, nat_eq,
  string_eq, pair_eq, lookup, ltb, leb, select, Bool-cases, inl, inr,
}
use power_blockade.Rollups.{
  DnsQueryEvent, QueryRollup, hour, in_window, hourly_between, sum_by, backfill_hourly_rollups,
  backfill_from, start_of_hour,
}
use power_blockade.Rollups.Conserved.{
  Counter, total, blocked, nxdomain, servfail, hits, raw, column, IsBalanced, events-split,
  rollups-split,
}
use power_blockade.Rollups.Backfill.{IsBackTo, backfill_from-IsBackTo}
use power_blockade.Rollups.Dashboard.{
  Aggregate, Stats, raw_edge_aggregate, rollup_sums, add_dicts, add_edge, build_result, fresh_stats,
  full_start, StatsCache, get_dashboard_stats, young,
}

abbrev value : Counter → Aggregate → ℕ
value total a = a.total_queries
value blocked a = a.blocked_queries
value nxdomain a = a.nxdomain_count
value servfail a = a.servfail_count
value hits a = a.cache_hits

-- The counter as the dashboard shows it.
abbrev pub shown : Counter → Stats → ℕ
shown total s = s.total_queries
shown blocked s = s.blocked_queries
shown nxdomain s = s.nxdomain_count
shown servfail s = s.servfail_count
shown hits s = s.cache_hits

-- The counter of the raw events from `start` to before `end`.
abbrev pub counted : Counter → List DnsQueryEvent → ℕ → ℕ → ℕ
counted c events start end = sum_by (raw c) (select (in_window start end) events)

value-raw :
    (c : Counter) (events : List DnsQueryEvent) (start end : ℕ)
    → value c (raw_edge_aggregate events start end) ≡ counted c events start end
unfolding raw_edge_aggregate
value-raw total events start end = refl
value-raw blocked events start end = refl
value-raw nxdomain events start end = refl
value-raw servfail events start end = refl
value-raw hits events start end = refl

value-rollups :
    (c : Counter) (rows : List QueryRollup) (start end : ℕ)
    → value c (rollup_sums rows start end)
      ≡ sum_by (column c) (select (hourly_between start end) rows)
unfolding rollup_sums
value-rollups total rows start end = refl
value-rollups blocked rows start end = refl
value-rollups nxdomain rows start end = refl
value-rollups servfail rows start end = refl
value-rollups hits rows start end = refl

value-add : (c : Counter) (a b : Aggregate) → value c (add_dicts a b) ≡ value c a + value c b
unfolding add_dicts
value-add total a b = refl
value-add blocked a b = refl
value-add nxdomain a b = refl
value-add servfail a b = refl
value-add hits a b = refl

shown-build : (c : Counter) (a : Aggregate) (edge : ℕ) → shown c (build_result a edge) ≡ value c a
unfolding build_result
shown-build total a edge = refl
shown-build blocked a edge = refl
shown-build nxdomain a edge = refl
shown-build servfail a edge = refl
shown-build hits a edge = refl

value-edge :
    (c : Counter) (events : List DnsQueryEvent) (start end : ℕ) (sums : Aggregate × ℕ)
    → start ≤ end
    → value c (add_edge events start end sums).0 ≡ value c sums.0 + counted c events start end
unfolding add_edge
value-edge c events start end sums le = elim (Bool-cases (ltb start end)) [
  | inl e ↦ rw e (
      value-add c sums.0 (raw_edge_aggregate events start end)
      ∙ ap (λ n. value c sums.0 + n) (value-raw c events start end))
  | inr e ↦
      let same : end ≡ start = ground arith in
      rw e (
        rw same (
          omega (arith, events-split (raw c) start start start events (omega arith) (omega arith))))
]

-- If the rollups of the full hours of the window have the counters of their events, the dashboard
-- shows the counters of the events of the whole window.
fresh_stats-exact :
    (c : Counter) (now hours : ℕ) (events : List DnsQueryEvent) (rows : List QueryRollup)
    → 1 ≤ hours
    → hours * hour ≤ now
    → IsBalanced events rows (full_start (now - hours * hour)) (start_of_hour now)
    → shown c (fresh_stats now hours events rows) ≡ counted c events (now - hours * hour) now
unfolding fresh_stats
fresh_stats-exact c now hours events rows one room b =
    let start = now - hours * hour in
    let from = full_start start in
    let current = start_of_hour now in
    let sums : Aggregate × ℕ = (rollup_sums rows from current, 0) in
    let first = add_edge events start from sums in
    let both = add_edge events current now first in
    let h1 : start ≤ from = ground arith in
    let h2 : from ≤ current = ground arith in
    let h3 : current ≤ now = omega arith in
    shown-build c both.0 both.1
    ∙ omega (
      arith,
      value-edge c events current now first h3,
      value-edge c events start from sums h1,
      value-rollups c rows from current,
      b c,
      events-split (raw c) start from now events h1 (omega arith),
      events-split (raw c) from current now events h2 h3,
    )

-- The first full hour of the window is one of the hours that end with the current one.
full_start-aligned :
    (now hours : ℕ)
    → 1 ≤ hours
    → hours * hour ≤ now
    → (m : ℕ) × ((m ≤ hours) × (full_start (now - hours * hour) ≡ start_of_hour now - m * hour))
full_start-aligned now hours one room =
    let start = now - hours * hour in
    elim (Bool-cases (ltb (start_of_hour start) start)) [
      | inl e ↦ (hours - 1, (omega arith, rw e (omega arith)))
      | inr e ↦ (hours, (omega arith, rw e (omega arith)))
    ]

shown-answer :
    (c : Counter) (clock now hours : ℕ) (events : List DnsQueryEvent) (rows : List QueryRollup)
    (cache : StatsCache)
    → young clock (lookup (hours, (start_of_hour (now - hours * hour), start_of_hour now)) cache)
      ≡ none
    → shown c (fresh_stats now hours events rows) ≡ counted c events (now - hours * hour) now
    → shown c (get_dashboard_stats clock now hours events rows cache).0
      ≡ counted c events (now - hours * hour) now
unfolding get_dashboard_stats
shown-answer c clock now hours events rows cache cold h = elim (Bool-cases (leb hours 1)) [
  | inl e ↦ rw e (
      shown-build c (raw_edge_aggregate events (now - hours * hour) now)
        (raw_edge_aggregate events (now - hours * hour) now).total_queries
      ∙ value-raw c events (now - hours * hour) now)
  | inr e ↦ rw e (rw cold h)
]

no_hours : (now : ℕ) → start_of_hour now - 0 * hour ≡ start_of_hour now
no_hours now = omega arith

IsBackTo-none :
    (current : ℕ) (events : List DnsQueryEvent) (rows : List QueryRollup)
    → IsBackTo current 0 events rows
IsBackTo-none current events rows m h c =
    let none_back : current - m * hour ≡ current = omega arith in
    rw none_back (
      omega (
        arith,
        events-split (raw c) current current current events (omega arith) (omega arith),
        rollups-split (column c) current current current rows (omega arith) (omega arith),
      ))

-- After a backfill of at least the hours of the window and at most 720, on a table without hourly
-- rollups before the current hour, each of the five counters of the dashboard is that of the events
-- of the window that are not internal, if the cache has no answer that is younger than 60 seconds.
-- The backfill does not raise.
pub dashboard-exact :
    (clock now hours n : ℕ) (events : List DnsQueryEvent) (rows : List QueryRollup)
    (cache : StatsCache)
    → 1 ≤ hours
    → hours ≤ n
    → n ≤ 720
    → n * hour ≤ start_of_hour now
    → select (hourly_between 0 (start_of_hour now)) rows ≡ []
    → young clock (lookup (hours, (start_of_hour (now - hours * hour), start_of_hour now)) cache)
      ≡ none
    → (after : List QueryRollup) × ((count : ℕ) × ((backfill_hourly_rollups now n events rows
            ≡ some (after, count))
          × ((c : Counter)
              → shown c (get_dashboard_stats clock now hours events after cache).0
                ≡ counted c events (now - hours * hour) now)))
unfolding backfill_hourly_rollups
dashboard-exact clock now hours n events rows cache one le most room fresh cold =
    let filled =
      backfill_from-IsBackTo (start_of_hour now) 0 n events rows (omega arith)
        (rw (no_hours now) fresh) (IsBackTo-none (start_of_hour now) events rows) in
    let clamped : max 1 (min n 720) ≡ n = omega arith in
    let aligned = full_start-aligned now hours one (omega arith) in
    (
      filled.0,
      (
        filled.1.0,
        (
          ap (λ k. backfill_from (start_of_hour now) 1 k events rows) clamped ∙ filled.1.1.0,
          λ c. shown-answer c clock now hours events filled.0 cache cold (
              fresh_stats-exact c now hours events filled.0 one (omega arith)
                (rw (aligned.1.1) (filled.1.1.1 aligned.0 (omega (arith, aligned.1.0, le))))),
        ),
      ),
    )
