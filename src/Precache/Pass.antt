-- ===== src/Precache/Pass.antt =====
-- A warming pass: the counts of `warm_cache`, the ceiling of the job, and the counts of the stats.
use power_blockade.Base.{
  ℕ, ◌+◌, ◌≤◌, ◌≡◌, refl, Bool, true, not, Option, none, some, List, [], ◌∷◌, arith, nat_eq, length,
  select, take, length-take, All, inl, inr, Bool-cases, suc, zero, string_eq, pair_eq, list_eq,
}
use power_blockade.Precache.{
  Pair, Cache, Network, Warming, note_outcome, warm_from, warm_cache, warm_pair_ex,
  get_precache_stats, stats_fresh, WarmingSettings, precache_warming_job, get_pairs_needing_refresh,
  needs_refresh,
}
use power_blockade.Precache.Recorded.{Warm, record_all}

-- The answers that a pass gets, in its order: the i-th pair is asked at `clock i`.
abbrev pub answered : ℕ → Pair → Option ℕ → List Warm → List Warm
answered now pair none ws = ws
answered now pair (some ttl) ws = record { at = now; pair = pair; ttl = ttl } ∷ ws

abbrev pub warms : Network → (ℕ → ℕ) → ℕ → List Pair → List Warm
warms network clock i [] = []
warms network clock i (pair ∷ pairs) =
    answered (clock i) pair (warm_pair_ex (network (clock i) pair)).ttl
      (warms network clock (i + 1) pairs)

-- What a pass from `w` over `n` pairs, with the answers `ws`, comes to.
record IsPass (n : ℕ) (ws : List Warm) (w after : Warming) : Type 0 where
  successes : after.success ≡ w.success + length ws
  total : after.success + after.failed ≡ w.success + w.failed + n
  caches : after.cache ≡ record_all ws w.cache

IsPass-step :
    (now n p : ℕ) (pair : Pair) (o : Option ℕ) (ws : List Warm) (w after : Warming)
    → IsPass n ws (record (note_outcome now pair o w) { pauses = p }) after
    → IsPass (suc n) (answered now pair o ws) w after
unfolding record_all
IsPass-step now n p pair none ws w after h = record {
  successes = h.successes;
  total = omega (arith, h.total);
  caches = h.caches;
}
IsPass-step now n p pair (some ttl) ws w after h = record {
  successes = omega (arith, h.successes);
  total = omega (arith, h.total);
  caches = h.caches;
}

from-IsPass :
    (network : Network) (clock : ℕ → ℕ) (batch_size total i : ℕ) (pairs : List Pair) (w : Warming)
    → IsPass
        (length pairs)
        (warms network clock i pairs)
        w
        (warm_from network clock batch_size total i pairs w)
unfolding warm_from record_all
from-IsPass network clock batch_size total i [] w = record {
  successes = omega arith;
  total = omega arith;
  caches = refl;
}
from-IsPass network clock batch_size total i (pair ∷ pairs) w =
    IsPass-step (clock i) (length pairs) _ pair (warm_pair_ex (network (clock i) pair)).ttl
      (warms network clock (i + 1) pairs) w _
      (from-IsPass network clock batch_size total (i + 1) pairs _)

-- A pass over pairs counts each of them once, as a success or a failure, its successes are the
-- answers with a TTL, and it leaves the cache as recording exactly these answers in their order does,
-- each at the time of its query: a failure leaves no trace in the cache.
pub warm_cache-counts :
    (network : Network) (clock : ℕ → ℕ) (batch_size : ℕ) (pairs : List Pair) (cache : Cache)
    → let w = warm_cache network clock batch_size pairs cache in
      let ws = warms network clock 0 pairs in
      (w.success ≡ length ws)
      × (w.success + w.failed ≡ length pairs)
      × (w.cache ≡ record_all ws cache)
unfolding warm_cache
warm_cache-counts network clock batch_size pairs cache =
    let pass =
      from-IsPass network clock batch_size (length pairs) 0 pairs
        (record { success = 0; failed = 0; pauses = 0; cache = cache }) in
    (omega (arith, pass.successes), omega (arith, pass.total), pass.caches)

take_le : (n : ℕ) (xs : List Pair) → length (take n xs) ≤ n
take_le n xs = omega (arith, length-take n xs)

-- Every pair of a list is due.
abbrev pub AllDue : ℕ → WarmingSettings → Cache → List Pair → Type 0
AllDue now settings cache =
    All (λ pair. needs_refresh now settings.ignore_ttl settings.custom_refresh cache pair ≡ true)

AllDue-select :
    (now : ℕ) (settings : WarmingSettings) (cache : Cache) (pairs : List Pair)
    → AllDue now settings cache
        (select (needs_refresh now settings.ignore_ttl settings.custom_refresh cache) pairs)
AllDue-select now settings cache [] = tt
AllDue-select now settings cache (pair ∷ pairs) =
    elim (Bool-cases (needs_refresh now settings.ignore_ttl settings.custom_refresh cache pair)) [
      | inl e ↦ rw e (e, AllDue-select now settings cache pairs)
      | inr e ↦ rw e (AllDue-select now settings cache pairs)
    ]

AllDue-take :
    (now n : ℕ) (settings : WarmingSettings) (cache : Cache) (pairs : List Pair)
    → AllDue now settings cache pairs
    → AllDue now settings cache (take n pairs)
AllDue-take now zero settings cache pairs h = tt
AllDue-take now (suc n) settings cache [] h = tt
AllDue-take now (suc n) settings cache (pair ∷ pairs) h =
    (h.0, AllDue-take now n settings cache pairs h.1)

sent_pairs :
    (top : ℕ → List Pair) (network : Network) (clock : ℕ → ℕ) (now : ℕ) (settings : WarmingSettings)
    (cache : Cache) {pairs : List Pair} {w : Warming}
    → precache_warming_job top network clock now settings cache ≡ some (pairs, w)
    → (settings.enabled ≡ true)
      × (pairs
          ≡ take settings.max_queries (
              get_pairs_needing_refresh now cache
                (top settings.domain_count)
                settings.ignore_ttl
                settings.custom_refresh))
      × (w ≡ warm_cache network clock 50 pairs cache)
unfolding precache_warming_job
sent_pairs top network clock now settings cache h = ground arith

-- What the job sends, it sends only when warming is enabled: at most the ceiling of queries, each for
-- a pair that is due, and the cache is then what warming these pairs leaves.
pub job-AllDue :
    (top : ℕ → List Pair) (network : Network) (clock : ℕ → ℕ) (now : ℕ) (settings : WarmingSettings)
    (cache : Cache) {pairs : List Pair} {w : Warming}
    → precache_warming_job top network clock now settings cache ≡ some (pairs, w)
    → (settings.enabled ≡ true)
      × (length pairs ≤ settings.max_queries)
      × AllDue now settings cache pairs
      × (w.success + w.failed ≡ length pairs)
      × (w.cache ≡ record_all (warms network clock 0 pairs) cache)
unfolding get_pairs_needing_refresh
job-AllDue top network clock now settings cache {pairs} {w} h =
    let (enabled, chosen, ran) = sent_pairs top network clock now settings cache h in
    let counts = warm_cache-counts network clock 50 pairs cache in
    rw ran (
      enabled,
      rw chosen (take_le settings.max_queries _),
      rw chosen (
          AllDue-take now settings.max_queries settings cache _
            (AllDue-select now settings cache (top settings.domain_count))),
      counts.1,
      counts.2,
    )

select-both {ℓ} :
    {A : Type ℓ} (p : A → Bool) (xs : List A)
    → length (select p xs) + length (select (λ x. not (p x)) xs) ≡ length xs
select-both p [] = omega arith
select-both p (x ∷ xs) = ground (arith, select-both p xs)

-- The statistics count each cached pair once, as fresh or as expired.
pub stats-total :
    (now : ℕ) (cache : Cache)
    → let stats = get_precache_stats now cache in stats.1 + stats.2 ≡ stats.0
unfolding get_precache_stats
stats-total now cache = select-both (λ (_, c). stats_fresh now c) cache
