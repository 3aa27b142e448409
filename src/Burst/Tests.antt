-- ===== src/Burst/Tests.antt =====
-- A burst over two pairs, and the theorems applied to it.
use power_blockade.Base.{
  ℕ, ◌+◌, ◌*◌, ◌≤◌, ◌≡◌, refl, String, Bool, true, false, none, some, List, [], ◌∷◌, length,
  string_eq, ◌==◌, leb, select, if◌then◌else◌, arith, suc, add,
}
use power_blockade.Precache.{Pair, PairWarmOutcome, rcode}
use power_blockade.Burst.{warm_one, run_burst, status_for, partially, BurstStats, BootBurstConfig}
use power_blockade.Burst.Pacing.{qps_slots, qname_times, in_window, qps_slots-rate}
use power_blockade.Burst.Ready.{Round, wait_for_dns_readiness, Answers, wait-Answers}

-- Readings of the clock and stretches of the gaps.
abbrev calls : List (ℕ × ℕ)
calls = (0, 3) ∷ (1, 0) ∷ (90, 4) ∷ (91, 0) ∷ []

slots : qps_slots 20 calls 0 ≡ 0 ∷ 23 ∷ 90 ∷ 114 ∷ []
unfolding qps_slots
slots = refl

abbrev sends : List (ℕ × String)
sends = (0, "a.example") ∷ (5, "b.example") ∷ (6, "a.example") ∷ []

abbrev no_sends : List (String × ℕ)
no_sends = []

send_times :
    qname_times 200 sends [] ≡ ("a.example", 0) ∷ ("b.example", 5) ∷ ("a.example", 206) ∷ []
unfolding qname_times
send_times = refl

-- The edge answers from round 2 on, the recursor from round 1 on.
abbrev rounds : ℕ → Round
rounds i = record { dns_probe = leb 2 i; recursor_probe = leb 1 i; clock = i * 2 }

becomes_ready : wait_for_dns_readiness rounds 0 120 61 ≡ some true
unfolding wait_for_dns_readiness
becomes_ready = refl

too_late : wait_for_dns_readiness rounds 0 1 61 ≡ some false
unfolding wait_for_dns_readiness
too_late = refl

-- The third attempt for `a` has a TTL; `b` has none.
abbrev send : Pair → ℕ → PairWarmOutcome
send (qname, qtype) attempt =
    if qname == "a.example"
    then if leb 2 attempt
      then record { ttl = some 60; error = none }
      else record { ttl = none; error = some (rcode 2) }
    else record { ttl = none; error = some (rcode 5) }

abbrev before : String → String → Bool
before a b = false

abbrev pairs : List Pair
pairs = ("a.example", 1) ∷ ("b.example", 1) ∷ ("a.example", 1) ∷ []

abbrev stats : BurstStats
stats = run_burst before send 2 500 pairs

is_partial : status_for stats stats.attempted_pairs ≡ partially
unfolding status_for run_burst add
is_partial = refl

sends_six : stats.queries_sent ≡ 6
unfolding run_burst add
sends_six = refl

backs_off : (warm_one (send ("a.example", 1)) 2 500 ("a.example", 1)).backoffs ≡ 500 ∷ 1000 ∷ []
unfolding warm_one
backs_off = refl

qps_slots-rate_example : length (select (in_window 20 (20 + 2 * 20)) (qps_slots 20 calls 0)) ≤ 2
qps_slots-rate_example = qps_slots-rate 20 2 20 calls 0

wait-Answers_example : Answers rounds (0 + 120) 0 (wait_for_dns_readiness rounds 0 120 (suc 60))
wait-Answers_example = wait-Answers rounds 0 120 60 (omega arith)

abbrev burst_config : BootBurstConfig
burst_config = record {
  domain_count = 10;
  max_queries = 1;
  ignore_ttl = false;
  custom_refresh_minutes = 60;
}
