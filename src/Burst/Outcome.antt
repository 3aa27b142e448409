-- ===== src/Burst/Outcome.antt =====
-- The counts of a burst and its status.
use native.Mathlib.Nat.{mul-suc}
use power_blockade.Base.{
  ℕ, ◌+◌, ◌*◌, ◌≤◌, ◌≡◌, refl, Bool, not, List, [], ◌∷◌, arith, ◌↔◌, length, map, take, select,
  String, nat_eq, length-map, length-take, length-select_le, length-union_le,
}
use power_blockade.Precache.{Pair, PairWarmOutcome, Cache, get_pairs_needing_refresh, needs_refresh}
use power_blockade.Burst.{
  PairResult, warm_one, total, failures, deduped, run_burst, ranked, status_for, completed,
  boot_burst_locked, BootBurstConfig,
}
use power_blockade.Burst.Retries.{warm_one-IsCourse}

module _ (before : String → String → Bool) (send : Pair → ℕ → PairWarmOutcome)
    (max_retries base : ℕ) where
  abbrev pub result : Pair → PairResult
  result pair = (warm_one (send pair) max_retries base pair).result

  abbrev pub sent : List Pair → ℕ
  sent pairs = total (map (λ r. r.attempts) (map result pairs))

  result_le :
      (pair : Pair) → (1 ≤ (result pair).attempts) × ((result pair).attempts ≤ max_retries + 1)
  result_le pair =
      let course = warm_one-IsCourse (send pair) base pair max_retries in
      (omega (arith, course.attempts), omega (arith, course.attempts, course.bounded))

  sent_le : (pairs : List Pair) → sent pairs ≤ (max_retries + 1) * length pairs
  sent_le [] = omega arith
  sent_le (pair ∷ pairs) =
      rw (mul-suc (max_retries + 1) (length pairs))
        (omega (arith, sent_le pairs, (result_le pair).1))

  sent_ge : (pairs : List Pair) → length pairs ≤ sent pairs
  sent_ge [] = omega arith
  sent_ge (pair ∷ pairs) = omega (arith, sent_ge pairs, (result_le pair).0)

  failures_le : (rs : List PairResult) → length (failures rs) ≤ length rs
  failures_le rs = length-select_le (λ r. not r.ok) rs

  -- A burst counts each pair of the ranking once, however often it is listed, as warmed or as failed;
  -- it sends at least one query for each and at most one more than the retries.
  pub run_burst-counts :
      (pairs : List Pair)
      → let stats = run_burst before send max_retries base pairs in
        (stats.attempted_pairs ≡ length (deduped pairs))
        × (stats.succeeded + stats.failed ≡ stats.attempted_pairs)
        × (stats.attempted_pairs ≤ stats.queries_sent)
        × (stats.queries_sent ≤ (max_retries + 1) * stats.attempted_pairs)
        × (length stats.top_failures ≤ 10)
  unfolding run_burst
  run_burst-counts pairs =
      let work = deduped pairs in
      let results = map result work in
      (
        refl,
        omega (arith, failures_le results, length-map result work),
        sent_ge work,
        sent_le work,
        omega (arith, length-take 10 (ranked before (failures results))),
      )

  -- The status of a burst is completed exactly when no pair failed: one that had failures is never
  -- reported as simply warm.
  pub status-completed_iff :
      (pairs : List Pair)
      → let stats = run_burst before send max_retries base pairs in
        (status_for stats stats.attempted_pairs ≡ completed) ↔ (stats.failed ≡ 0)
  unfolding status_for
  status-completed_iff pairs = let counts = run_burst-counts pairs in ground (arith, counts.1)

length-deduped_le : (pairs : List Pair) → length (deduped pairs) ≤ length pairs
length-deduped_le pairs = omega (arith, length-union_le [] pairs)

-- A burst under the lock attempts at most the ceiling of pairs; and the candidates that it skips as
-- fresh and those that it attempts are together no more than all of them.
pub locked-bounded :
    (before : String → String → Bool) (send : Pair → ℕ → PairWarmOutcome) (top : ℕ → List Pair)
    (now : ℕ) (cache : Cache) (config : BootBurstConfig)
    → let result = boot_burst_locked before send top now cache config in
      (result.stats.attempted_pairs ≤ config.max_queries)
      × (result.skipped_fresh + result.stats.attempted_pairs ≤ result.candidates)
unfolding boot_burst_locked get_pairs_needing_refresh run_burst
locked-bounded before send top now cache config =
    let candidates = deduped (top config.domain_count) in
    let needs = needs_refresh now config.ignore_ttl config.custom_refresh_minutes cache in
    let due = take config.max_queries (select needs candidates) in
    ground (
      arith,
      length-deduped_le due,
      length-take config.max_queries (select needs candidates),
      length-select_le needs candidates,
    )
