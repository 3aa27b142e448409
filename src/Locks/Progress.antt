-- ===== src/Locks/Progress.antt =====
-- No lock is lost: who holds one runs its job, and gives it back.
use power_blockade.Base.{
  ℕ, ◌≡◌, ◌≢◌, refl, ◌∙◌, sym, ap, String, Option, none, some, arith, ◌==◌, nat_eq, Bool-cases,
  Option-cases, inl, inr,
}
use power_blockade.Base.Int.{ℤ}
use power_blockade.Locks.{
  Phase, waiting, running, skipped, done, Locks, update, try_lock, unlock, lock_of, Step, attempt,
  fail, finish, Reach, start, later, Soon,
}
use power_blockade.Locks.Exclusive.{same_nat, other_nat, update-at, update-away, some_same}

module _ (hash : ℕ → String → ℤ) (seed : ℕ → ℕ) (job : ℕ → String) where
  abbrev lock : ℕ → ℕ
  lock = lock_of hash seed job

  -- Whoever holds a lock runs the job that it is for.
  abbrev IsInUse : Locks → Type 0
  IsInUse l = (x k : ℕ) → l.holder x ≡ some k → (l.phase k ≡ running) × (lock k ≡ x)

  waiting_other : (l : Locks) (i k : ℕ) → l.phase i ≡ waiting → l.phase k ≡ running → i ≢ k
  waiting_other l i k w r same = absurd (ground (arith, sym w ∙ ap l.phase same ∙ r))

  moved-IsInUse :
      (l : Locks) (i : ℕ) (p : Phase)
      → l.phase i ≡ waiting
      → IsInUse l
      → IsInUse (record l { phase = update l.phase i p })
  moved-IsInUse l i p w h x k held =
      let used = h x k held in
      (update-away l.phase i k p (waiting_other l i k w used.0) ∙ used.0, used.1)

  attempt-IsInUse :
      (l : Locks) (i : ℕ) (o : Option ℕ)
      → l.phase i ≡ waiting
      → IsInUse l
      → IsInUse (try_lock i (lock i) o l)
  attempt-IsInUse l i (some other) w h x k held = moved-IsInUse l i skipped w h x k held
  attempt-IsInUse l i none w h x k held = elim (Bool-cases (lock i == x)) [
    | inl e ↦
        let same = same_nat (lock i) x e in
        let mine : i ≡ k =
          some_same i k (sym (update-at l.holder (lock i) x (some i) same) ∙ held) in
        (update-at l.phase i k running mine, ap lock (sym mine) ∙ same)
    | inr e ↦
        moved-IsInUse l i running w h x k
          (sym (update-away l.holder (lock i) x (some i) (other_nat (lock i) x e)) ∙ held)
  ]

  finish-IsInUse : (l : Locks) (i : ℕ) → IsInUse l → IsInUse (unlock i (lock i) l)
  finish-IsInUse l i h x k held = elim (Bool-cases (lock i == x)) [
    | inl e ↦
        absurd
          (ground (arith, sym (update-at l.holder (lock i) x none (same_nat (lock i) x e)) ∙ held))
    | inr e ↦
        let apart = other_nat (lock i) x e in
        let used = h x k (sym (update-away l.holder (lock i) x none apart) ∙ held) in
        (update-away l.phase i k done (λ same. apart (ap lock same ∙ used.1)) ∙ used.0, used.1)
  ]

  step-IsInUse : (l m : Locks) → IsInUse l → Step hash seed job l m → IsInUse m
  step-IsInUse l m h (attempt i w) = attempt-IsInUse l i (l.holder (lock i)) w h
  step-IsInUse l m h (fail i w) = moved-IsInUse l i skipped w h
  step-IsInUse l m h (finish i w) = finish-IsInUse l i h

  holders_run : (l : Locks) → Reach hash seed job l → IsInUse l
  holders_run l start = λ x k held. absurd (ground (arith, held))
  holders_run l (later {l = before} r s) = step-IsInUse before l (holders_run before r) s

  runs_free :
      (l : Locks) (i : ℕ)
      → l.phase i ≡ waiting
      → l.holder (lock i) ≡ none
      → (try_lock i (lock i) (l.holder (lock i)) l).phase i ≡ running
  runs_free l i w free =
      ap (λ o. (try_lock i (lock i) o l).phase i) free ∙ update-at l.phase i i running refl

  -- No lock is lost, also when a job raises: from every state that is reached, a call that has not
  -- tried its lock yet can run its job by its next step, at once or behind the end of one other job.
  pub runs_next :
      (l : Locks) (i : ℕ)
      → Reach hash seed job l
      → l.phase i ≡ waiting
      → (m : Locks) × (Soon hash seed job l m × (m.phase i ≡ running))
  runs_next l i reached w = elim (Option-cases (l.holder (lock i))) [
    | inl free ↦
        (try_lock i (lock i) (l.holder (lock i)) l, (inl (attempt i w), runs_free l i w free))
    | inr (k, held) ↦
        let used = holders_run l reached (lock i) k held in
        let after = unlock k (lock k) l in
        let apart : k ≢ i = λ same. waiting_other l i k w used.0 (sym same) in
        let still : after.phase i ≡ waiting = update-away l.phase k i done apart ∙ w in
        let free : after.holder (lock i) ≡ none =
          update-at l.holder (lock k) (lock i) none used.1 in
        (
          try_lock i (lock i) (after.holder (lock i)) after,
          (inr (k, (used.0, attempt i still)), runs_free after i still free),
        )
  ]
