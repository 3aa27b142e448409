-- ===== src/Burst.antt =====
-- The warm burst at boot: admin-ui/app/services/boot_burst.py. Times are in any one unit. What the
-- clock, the random jitter, the probes and the sends give are parameters.
pub mod Pacing
pub mod Ready
pub mod Retries
pub mod Outcome
mod Tests
use power_blockade.Base.{
  ℕ, zero, suc, ◌+◌, ◌-◌, ◌*◌, ◌^◌, max, String, Bool, true, false, not, ◌&&◌, ◌||◌, Option, none,
  some, List, [], ◌∷◌, ◌++◌, ◌==◌, nat_eq, string_eq, pair_eq, leb, ltb, if◌then◌else◌, select, map,
  length, take, union, lookup, insert,
}
use power_blockade.Precache.{
  Pair, Cache, PairWarmOutcome, WarmError, exception, record_warmed_pair, get_pairs_needing_refresh,
}

pub record PairResult : Type 0 where
  pub pair : Pair
  pub ok : Bool
  pub attempts : ℕ
  pub error : Option WarmError

-- `outcome.error or error`: an exception without a text does not count.
abbrev pub or_error : Option WarmError → Option WarmError → Option WarmError
or_error none error = error
or_error (some (exception [])) error = error
or_error (some e) error = some e

-- The result of a pair, the TTL that it records, and the sleeps before its retries.
pub record Warmed : Type 0 where
  pub result : PairResult
  pub ttl : Option ℕ
  pub backoffs : List ℕ

abbrev pub warm_ok : Pair → ℕ → ℕ → Warmed
warm_ok pair attempt ttl = record {
  result = record { pair = pair; ok = true; attempts = attempt + 1; error = none };
  ttl = some ttl;
  backoffs = [];
}

abbrev pub warm_failed : Pair → ℕ → Option WarmError → Warmed
warm_failed pair attempt error = record {
  result = record { pair = pair; ok = false; attempts = attempt + 1; error = error };
  ttl = none;
  backoffs = [];
}

abbrev pub ok_or : Pair → ℕ → Option ℕ → Warmed → Warmed
ok_or pair attempt none other = other
ok_or pair attempt (some ttl) other = warm_ok pair attempt ttl

-- The loop of _warm_one from an attempt on, with `left` more behind it: `send attempt` is the outcome
-- of an attempt.
unfoldable pub attempt_from : (ℕ → PairWarmOutcome) → ℕ → Pair → ℕ → Option WarmError → ℕ → Warmed
attempt_from send base pair attempt error zero =
    ok_or pair attempt (send attempt).ttl
      (warm_failed pair attempt (or_error (send attempt).error error))
attempt_from send base pair attempt error (suc left) =
    let rest =
      attempt_from send base pair (attempt + 1) (or_error (send attempt).error error) left in
    ok_or pair attempt (send attempt).ttl
      (record rest { backoffs = base * 2 ^ attempt ∷ rest.backoffs })

unfoldable pub warm_one : (ℕ → PairWarmOutcome) → ℕ → ℕ → Pair → Warmed
unfolding attempt_from
warm_one send max_retries base pair = attempt_from send base pair 0 none max_retries

-- sorted(failures, key=lambda r: (-r.attempts, r.pair[0], r.pair[1])); `before` compares the names.
abbrev pub ranks_before : (String → String → Bool) → PairResult → PairResult → Bool
ranks_before before r s =
    ltb s.attempts r.attempts
    || (r.attempts == s.attempts
        && (before r.pair.0 s.pair.0 || (r.pair.0 == s.pair.0 && leb r.pair.1 s.pair.1)))

unfoldable pub insert_ranked :
    (String → String → Bool) → PairResult → List PairResult → List PairResult
insert_ranked before r [] = r ∷ []
insert_ranked before r (s ∷ ss) =
    let rest = insert_ranked before r ss in if ranks_before before r s then r ∷ s ∷ ss else s ∷ rest

unfoldable pub ranked : (String → String → Bool) → List PairResult → List PairResult
unfolding insert_ranked
ranked before [] = []
ranked before (r ∷ rs) = insert_ranked before r (ranked before rs)

pub record BurstStats : Type 0 where
  pub attempted_pairs : ℕ
  pub queries_sent : ℕ
  pub succeeded : ℕ
  pub failed : ℕ
  pub top_failures : List PairResult

abbrev pub total : List ℕ → ℕ
total [] = 0
total (n ∷ ns) = n + total ns

abbrev pub failures : List PairResult → List PairResult
failures = select (λ r. not r.ok)

-- dict.fromkeys(pairs)
abbrev pub deduped : List Pair → List Pair
deduped pairs = union [] pairs

-- run_burst: each pair's result, whatever the order in which the workers come to them. `before` is
-- the order of names, and `send` the outcomes of a pair's attempts.
unfoldable pub run_burst :
    (String → String → Bool) → (Pair → ℕ → PairWarmOutcome) → ℕ → ℕ → List Pair → BurstStats
unfolding warm_one ranked union
run_burst before send max_retries base pairs =
    let work = deduped pairs in
    let results = map (λ pair. (warm_one (send pair) max_retries base pair).result) work in
    let unanswered = failures results in
    record {
      attempted_pairs = length work;
      queries_sent = total (map (λ r. r.attempts) results);
      succeeded = length results - length unanswered;
      failed = length unanswered;
      top_failures = take 10 (ranked before unanswered);
    }

pub data BurstStatus : Type 0 where
  completed partially failed no_pairs skipped_lock unready disabled : BurstStatus

unfoldable pub status_for : BurstStats → ℕ → BurstStatus
status_for stats attempted =
    if attempted == 0
    then completed
    else if stats.failed == 0
    then completed
    else if stats.succeeded == 0
    then failed
    else partially

pub record BootBurstResult : Type 0 where
  pub status : BurstStatus
  pub candidates : ℕ
  pub skipped_fresh : ℕ
  pub stats : BurstStats

abbrev pub no_stats : BurstStats
no_stats = record {
  attempted_pairs = 0;
  queries_sent = 0;
  succeeded = 0;
  failed = 0;
  top_failures = [];
}

abbrev pub burst_result : BurstStatus → ℕ → ℕ → BurstStats → BootBurstResult
burst_result status candidates skipped stats = record {
  status = status;
  candidates = candidates;
  skipped_fresh = skipped;
  stats = stats;
}

pub record BootBurstConfig : Type 0 where
  pub domain_count : ℕ
  pub max_queries : ℕ
  pub ignore_ttl : Bool
  pub custom_refresh_minutes : ℕ

-- _boot_burst_locked, with the retries and the backoff, in microseconds, that run_burst has by
-- default.
unfoldable pub boot_burst_locked :
    (String → String → Bool)
    → (Pair → ℕ → PairWarmOutcome)
    → (ℕ → List Pair)
    → ℕ
    → Cache
    → BootBurstConfig
    → BootBurstResult
unfolding get_pairs_needing_refresh status_for run_burst union
boot_burst_locked before send top now cache config =
    let candidates = deduped (top config.domain_count) in
    let needing =
      get_pairs_needing_refresh now cache candidates config.ignore_ttl
        config.custom_refresh_minutes in
    let skipped = length candidates - length needing in
    let due = take config.max_queries needing in
    let stats = run_burst before send 2 500_000 due in
    if length candidates == 0
    then burst_result no_pairs 0 0 no_stats
    else if length due == 0
    then burst_result completed (length candidates) skipped no_stats
    else burst_result (status_for stats stats.attempted_pairs) (length candidates) skipped stats

-- What the lock gives: it is held elsewhere when it gives no result.
abbrev pub skipped_or : Option BootBurstResult → BootBurstResult
skipped_or none = burst_result skipped_lock 0 0 no_stats
skipped_or (some result) = result

-- _boot_burst_entry: `ready` is what the wait gives.
unfoldable pub boot_burst_entry : Bool → Bool → Bool → Option BootBurstResult → BootBurstResult
boot_burst_entry precache_enabled boot_burst_enabled ready locked =
    if not precache_enabled || not boot_burst_enabled
    then burst_result disabled 0 0 no_stats
    else if not ready
    then burst_result unready 0 0 no_stats
    else skipped_or locked
