-- ===== src/Burst/Retries.antt =====
-- `_warm_one`: the attempts for one pair.
use mathlib.Core.Path.{subst}
use power_blockade.Base.{
  ℕ, zero, suc, ◌+◌, ◌*◌, ◌^◌, ◌≤◌, ◌<◌, ◌≡◌, refl, true, false, Option, none, some, List, [], ◌∷◌,
  arith, ◌⊎◌, inl, inr, ◌≢◌, ◌==◌, nat_eq, Bool-cases, length, Option-cases, ap, ◌∙◌,
}
use power_blockade.Precache.{Pair, PairWarmOutcome, WarmError}
use power_blockade.Burst.{Warmed, or_error, warm_ok, warm_failed, attempt_from, warm_one}

module _ (send : ℕ → PairWarmOutcome) (base : ℕ) (pair : Pair) where
  -- The sleeps before the retries that `n` attempts from this one on end with.
  abbrev pub doubling : ℕ → ℕ → List ℕ
  doubling attempt zero = []
  doubling attempt (suc n) = base * 2 ^ attempt ∷ doubling (attempt + 1) n

  -- From an attempt on, with `left` more behind it: every attempt that is slept behind has no TTL, the
  -- sleeps double, and the last attempt has a TTL, which the pair is answered with, or the budget is
  -- spent.
  pub record IsCourse (attempt left : ℕ) (w : Warmed) : Type 0 where
    pub attempts : w.result.attempts ≡ attempt + length w.backoffs + 1
    pub bounded : length w.backoffs ≤ left
    pub sleeps : w.backoffs ≡ doubling attempt (length w.backoffs)
    pub unanswered : (k : ℕ) → attempt ≤ k → k < attempt + length w.backoffs → (send k).ttl ≡ none
    pub last : (send (attempt + length w.backoffs)).ttl ≡ w.ttl
    pub ends :
        ((w.result.ok ≡ true) × (w.ttl ≢ none))
        ⊎ ((w.result.ok ≡ false) × (w.ttl ≡ none) × (length w.backoffs ≡ left))

  at_once :
      (attempt left ttl : ℕ)
      → (send attempt).ttl ≡ some ttl
      → IsCourse attempt left (warm_ok pair attempt ttl)
  at_once attempt left ttl h = record {
    attempts = omega arith;
    bounded = omega arith;
    sleeps = refl;
    unanswered = λ k a b. absurd (omega (arith, a, b));
    last = subst (λ n. (send n).ttl ≡ some ttl) (omega arith) h;
    ends = inl (refl, λ e. cc);
  }

  spent :
      (attempt : ℕ) (error : Option WarmError)
      → (send attempt).ttl ≡ none
      → IsCourse attempt 0 (warm_failed pair attempt error)
  spent attempt error h = record {
    attempts = omega arith;
    bounded = omega arith;
    sleeps = refl;
    unanswered = λ k a b. absurd (omega (arith, a, b));
    last = subst (λ n. (send n).ttl ≡ none) (omega arith) h;
    ends = inr (refl, refl, refl);
  }

  retried :
      (attempt left : ℕ) (w : Warmed)
      → (send attempt).ttl ≡ none
      → IsCourse (attempt + 1) left w
      → IsCourse attempt (suc left) (record w { backoffs = base * 2 ^ attempt ∷ w.backoffs })
  retried attempt left w h c = record {
    attempts = omega (arith, c.attempts);
    bounded = omega (arith, c.bounded);
    sleeps = ap (λ l. base * 2 ^ attempt ∷ l) c.sleeps;
    unanswered = λ k a b. elim (Bool-cases (k == attempt)) [
      | inl e ↦ ap (λ n. (send n).ttl) ((nat_eq.beq_iff k attempt).0 e) ∙ h
      | inr e ↦ c.unanswered k (ground arith) (omega (arith, b))
    ];
    last = subst (λ n. (send n).ttl ≡ w.ttl) (omega arith) c.last;
    ends = ground (arith, c.ends);
  }

  from-IsCourse :
      (attempt left : ℕ) (error : Option WarmError)
      → IsCourse attempt left (attempt_from send base pair attempt error left)
  unfolding attempt_from
  from-IsCourse attempt zero error = elim (Option-cases (send attempt).ttl) [
    | inl e ↦ rw e (spent attempt (or_error (send attempt).error error) e)
    | inr (ttl, e) ↦ rw e (at_once attempt 0 ttl e)
  ]
  from-IsCourse attempt (suc left) error = elim (Option-cases (send attempt).ttl) [
    | inl e ↦ rw e (
        retried attempt left _ e
          (from-IsCourse (attempt + 1) left (or_error (send attempt).error error)))
    | inr (ttl, e) ↦ rw e (at_once attempt (suc left) ttl e)
  ]

  -- A pair is tried until an attempt has a TTL or `max_retries` more attempts than the first are
  -- spent: all attempts but the last one have none and are followed by a sleep, each sleep is twice
  -- the one before, and the pair is warmed exactly when the last attempt has a TTL, which is recorded.
  pub warm_one-IsCourse :
      (max_retries : ℕ) → IsCourse 0 max_retries (warm_one send max_retries base pair)
  unfolding warm_one
  warm_one-IsCourse max_retries = from-IsCourse 0 max_retries none
