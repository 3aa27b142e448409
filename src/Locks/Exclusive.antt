-- ===== src/Locks/Exclusive.antt =====
-- Which jobs can run at the same time.
use power_blockade.Base.{
  ℕ, ◌≡◌, ◌≢◌, ◌↔◌, refl, ◌∙◌, sym, ap, String, true, false, Option, none, some, arith, ◌==◌,
  nat_eq, if◌then◌else◌, Bool-cases, inl, inr,
}
use power_blockade.Base.Int.{ℤ}
use power_blockade.Locks.{
  Phase, running, skipped, done, Locks, update, try_lock, lock_of, Step, attempt, fail, finish,
  init, Reach, start, later,
}

pub same_nat : (i j : ℕ) → (i == j) ≡ true → i ≡ j
same_nat i j h = ground (arith, nat_eq.beq_iff i j)

pub other_nat : (i j : ℕ) → (i == j) ≡ false → i ≢ j
other_nat i j h e = ground (arith, nat_eq.beq_iff i j)

pub update-at {ℓ} : {A : Type ℓ} (f : ℕ → A) (i j : ℕ) (a : A) → i ≡ j → update f i a j ≡ a
update-at f i j a h = ap (λ b. if b then a else f j) ((nat_eq.beq_iff i j).1 h)

pub update-away {ℓ} : {A : Type ℓ} (f : ℕ → A) (i j : ℕ) (a : A) → i ≢ j → update f i a j ≡ f j
update-away f i j a h = elim (Bool-cases (i == j)) [
  | inl e ↦ absurd (h (same_nat i j e))
  | inr e ↦ ap (λ b. if b then a else f j) e
]

pub some_same : (i j : ℕ) → some i ≡ some j → i ≡ j
some_same i j h = ground arith

-- A session that runs behind the move of another, which does not run, ran before it.
still_running :
    (l : Locks) (i j : ℕ) (p : Phase)
    → p ≢ running
    → update l.phase i p j ≡ running
    → l.phase j ≡ running
still_running l i j p n r = elim (Bool-cases (i == j)) [
  | inl e ↦ absurd (n (sym (update-at l.phase i j p (same_nat i j e)) ∙ r))
  | inr e ↦ sym (update-away l.phase i j p (other_nat i j e)) ∙ r
]

module _ (hash : ℕ → String → ℤ) (seed : ℕ → ℕ) (job : ℕ → String) where
  abbrev lock : ℕ → ℕ
  lock = lock_of hash seed job

  -- A session whose job runs holds its lock.
  abbrev IsHolding : Locks → Type 0
  IsHolding l = (i : ℕ) → l.phase i ≡ running → l.holder (lock i) ≡ some i

  -- A session that did not move and whose lock nobody else took.
  kept_lock :
      (l : Locks) (i j : ℕ) (o : Option ℕ)
      → IsHolding l
      → l.holder (lock i) ≢ some j
      → l.phase j ≡ running
      → update l.holder (lock i) o (lock j) ≡ some j
  kept_lock l i j o h free r =
      update-away l.holder (lock i) (lock j) o (λ same. free (ap l.holder same ∙ h j r)) ∙ h j r

  attempt-IsHolding :
      (i : ℕ) (l : Locks) (o : Option ℕ)
      → l.holder (lock i) ≡ o
      → IsHolding l
      → IsHolding (try_lock i (lock i) o l)
  attempt-IsHolding i l none free h j r = elim (Bool-cases (i == j)) [
    | inl e ↦
        let same = same_nat i j e in
        update-at l.holder (lock i) (lock j) (some i) (ap lock same) ∙ ap some same
    | inr e ↦
        kept_lock l i j (some i) h (λ g. ground (arith, free, g))
          (sym (update-away l.phase i j running (other_nat i j e)) ∙ r)
  ]
  attempt-IsHolding i l (some other) taken h j r =
      h j (still_running l i j skipped (ground arith) r)

  step-IsHolding : (l m : Locks) → IsHolding l → Step hash seed job l m → IsHolding m
  step-IsHolding l m h (attempt i w) = attempt-IsHolding i l (l.holder (lock i)) refl h
  step-IsHolding l m h (fail i w) = λ j r. h j (still_running l i j skipped (ground arith) r)
  step-IsHolding l m h (finish i w) = λ j r. elim (Bool-cases (i == j)) [
    | inl e ↦ absurd (ground (arith, update-at l.phase i j done (same_nat i j e), r))
    | inr e ↦
        kept_lock l i j none h (λ g. other_nat i j e (some_same i j (sym (h i w) ∙ g)))
          (sym (update-away l.phase i j done (other_nat i j e)) ∙ r)
  ]

  running_holds : (l : Locks) → Reach hash seed job l → IsHolding l
  running_holds l start = λ i r. absurd (ground (arith, r))
  running_holds l (later {l = before} r s) = step-IsHolding before l (running_holds before r) s

  -- From the start, one session after the other.
  abbrev first : ℕ → Locks
  first i = try_lock i (lock i) none (init hash seed job)

  abbrev second : ℕ → ℕ → Locks
  second i j = try_lock j (lock j) ((first i).holder (lock j)) (first i)

  second-phases :
      (i j : ℕ)
      → i ≢ j
      → lock i ≢ lock j
      → ((second i j).phase i ≡ running) × ((second i j).phase j ≡ running)
  second-phases i j n apart =
      let free : (first i).holder (lock j) ≡ none =
        update-away (init hash seed job).holder (lock i) (lock j) (some i) apart in
      (
        ap (λ o. (try_lock j (lock j) o (first i)).phase i) free
            ∙ update-away (first i).phase j i running (λ e. n (sym e))
            ∙ update-at (init hash seed job).phase i i running refl,
        ap (λ o. (try_lock j (lock j) o (first i)).phase j) free
            ∙ update-at (first i).phase j j running refl,
      )

  -- The jobs of two sessions can run at the same time exactly when the ids of their locks differ:
  -- so two of one name can whenever the hashes of their instances give different ids.
  pub both_run_iff :
      (i j : ℕ)
      → i ≢ j
      → ((l : Locks) × (Reach hash seed job l × ((l.phase i ≡ running) × (l.phase j ≡ running))))
        ↔ (lock_of hash seed job i ≢ lock_of hash seed job j)
  both_run_iff i j n = (
    λ (l, (r, (ri, rj))) same.
        n (
          some_same i j (sym (running_holds l r i ri) ∙ ap l.holder same ∙ running_holds l r j rj)),
    λ apart. (
      second i j,
      (
        later (later start (attempt i refl))
            (attempt j (update-away (init hash seed job).phase i j running n)),
        second-phases i j n apart,
      ),
    ),
  )
