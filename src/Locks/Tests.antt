-- ===== src/Locks/Tests.antt =====
-- Two instances whose hashes of one name differ.
use power_blockade.Base.{ℕ, ◌+◌, ◌≡◌, ◌≢◌, ◌↔◌, refl, arith, String}
use power_blockade.Base.Int.{ℤ, pos, negsuc}
use power_blockade.Locks.{lock_id, running, Locks, lock_of, Reach, start, init, Soon}
use power_blockade.Locks.Exclusive.{both_run_iff}
use power_blockade.Locks.Progress.{runs_next}

-- As with a random seed: every process has its own hash of a text.
abbrev hash : ℕ → String → ℤ
hash seed name = pos (seed + 11)

abbrev seed : ℕ → ℕ
seed i = i

abbrev job : ℕ → String
job i = "blocklist_update"

negative : lock_id (λ s n. negsuc 4) 0 "blocklist_update" ≡ 5
unfolding lock_id
negative = refl

both_run_iff_example :
    ((l : Locks) × (Reach hash seed job l × ((l.phase 1 ≡ running) × (l.phase 2 ≡ running))))
    ↔ (lock_of hash seed job 1 ≢ lock_of hash seed job 2)
both_run_iff_example = both_run_iff hash seed job 1 2 (ground arith)

runs_next_example :
    (m : Locks) × (Soon hash seed job (init hash seed job) m × (m.phase 3 ≡ running))
runs_next_example = runs_next hash seed job (init hash seed job) 3 start refl
