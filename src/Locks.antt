-- ===== src/Locks.antt =====
-- The advisory lock around a job: run_with_advisory_lock of admin-ui/app/services/scheduler.py,
-- called by several instances of the program on one database. `hash` is Python's hash of a text in
-- a process, which depends on the seed of the process. Each call of the wrapper is a session of the
-- database. Two things are not steps: an unlock that fails, and a connection that is lost while the
-- job runs, at which the database gives the lock back and the job runs on.
pub mod Exclusive
pub mod Progress
mod Tests
use power_blockade.Base.{
  ℕ, ◌+◌, ◌%◌, ◌≡◌, String, Bool, true, false, Option, none, some, List, [], ◌∷◌, ◌==◌, nat_eq, ◌⊎◌,
  if◌then◌else◌,
}
use power_blockade.Base.Int.{ℤ, pos_part, neg_part}

-- `abs(hash(job_name)) % (2**31)`
unfoldable pub lock_id : (ℕ → String → ℤ) → ℕ → String → ℕ
lock_id hash seed job_name = let h = hash seed job_name in (pos_part h + neg_part h) % 2_147_483_648

-- Where a call stands.
pub data Phase : Type 0 where
  waiting : Phase
  running : Phase
  skipped : Phase
  done : Phase

-- Who holds a lock, by its id, and the phase of each session.
pub record Locks : Type 0 where
  pub holder : ℕ → Option ℕ
  pub phase : ℕ → Phase

abbrev pub update {ℓ} : {A : Type ℓ} → (ℕ → A) → ℕ → A → ℕ → A
update f i a j = if i == j then a else f j

-- What the call of session `i` does with its lock: it takes a free one and runs the job, and skips
-- it if the lock is held.
abbrev pub try_lock : ℕ → ℕ → Option ℕ → Locks → Locks
try_lock i lock none l = record {
  holder = update l.holder lock (some i);
  phase = update l.phase i running;
}
try_lock i lock (some other) l = record l { phase = update l.phase i skipped }

-- The end of the job, by its result or by an exception: the lock is given back.
abbrev pub unlock : ℕ → ℕ → Locks → Locks
unlock i lock l = record { holder = update l.holder lock none; phase = update l.phase i done }

-- The seed and the job of each session.
module _ (hash : ℕ → String → ℤ) (seed : ℕ → ℕ) (job : ℕ → String) where
  abbrev pub lock_of : ℕ → ℕ
  lock_of i = lock_id hash (seed i) (job i)

  -- The steps of the calls, in whatever order. `fail` is an exception of the lock statement.
  pub data Step (l : Locks) : Locks → Type 0 where
    attempt :
        (i : ℕ) → l.phase i ≡ waiting → Step l (try_lock i (lock_of i) (l.holder (lock_of i)) l)
    fail : (i : ℕ) → l.phase i ≡ waiting → Step l (record l { phase = update l.phase i skipped })
    finish : (i : ℕ) → l.phase i ≡ running → Step l (unlock i (lock_of i) l)

  abbrev pub init : Locks
  init = record { holder = λ lock. none; phase = λ i. waiting }

  pub data Reach : Locks → Type 0 where
    start : Reach init
    later : {l m : Locks} → Reach l → Step l m → Reach m

  -- What is reached by one step, or by the end of one running job and one step behind it.
  abbrev pub Soon : Locks → Locks → Type 0
  Soon l m = Step l m ⊎ ((k : ℕ) × ((l.phase k ≡ running) × Step (unlock k (lock_of k) l) m))
