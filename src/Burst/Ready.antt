-- ===== src/Burst/Ready.antt =====
-- The readiness gate, wait_for_dns_readiness of admin-ui/app/services/boot_burst.py.
use mathlib.Core.Path.{subst}
use power_blockade.Base.{
  ℕ, zero, suc, ◌+◌, Bool, true, false, ◌&&◌, Option, none, some, leb, if◌then◌else◌, ◌≤◌, ◌<◌, ◌≡◌,
  refl, arith, nat_eq, Bool-cases, inl, inr, ◌≢◌,
}

-- A round of the probes: whether both pass, and the clock behind them.
pub record Round : Type 0 where
  pub dns_probe : Bool
  pub recursor_probe : Bool
  pub clock : ℕ

-- The loop of wait_for_dns_readiness from round `i` on. `none`: the fuel is spent.
unfoldable pub ready_from : (ℕ → Round) → ℕ → ℕ → ℕ → Option Bool
ready_from rounds deadline i zero = none
ready_from rounds deadline i (suc fuel) =
    let rest = ready_from rounds deadline (i + 1) fuel in
    let round = rounds i in
    if round.dns_probe && round.recursor_probe
    then some true
    else if leb deadline round.clock
    then some false
    else rest

unfoldable pub wait_for_dns_readiness : (ℕ → Round) → ℕ → ℕ → ℕ → Option Bool
unfolding ready_from
wait_for_dns_readiness rounds start timeout fuel = ready_from rounds (start + timeout) 0 fuel

and_left : (a b : Bool) → (a && b) ≡ true → a ≡ true
and_left a b h = ground arith

and_right : (a b : Bool) → (a && b) ≡ true → b ≡ true
and_right a b h = ground arith

module _ (rounds : ℕ → Round) (deadline : ℕ) where
  -- Both probes pass in some round from `i` on, and in none of the rounds before it from `i` on has
  -- the clock reached the deadline.
  pub data ReadyFrom : ℕ → Type 0 where
    now : (i : ℕ) → (rounds i).dns_probe ≡ true → (rounds i).recursor_probe ≡ true → ReadyFrom i
    later : (i : ℕ) → (rounds i).clock < deadline → ReadyFrom (i + 1) → ReadyFrom i

  ready-ReadyFrom : (i fuel : ℕ) → ready_from rounds deadline i fuel ≡ some true → ReadyFrom i
  unfolding ready_from
  ready-ReadyFrom i zero h = cc
  ready-ReadyFrom i (suc fuel) h =
      elim (Bool-cases ((rounds i).dns_probe && (rounds i).recursor_probe)) [
        | inl e ↦ now i (and_left _ _ e) (and_right _ _ e)
        | inr e ↦ elim (Bool-cases (leb deadline (rounds i).clock)) [
          | inl late ↦ cc (rw (e, late) at h)
          | inr early ↦ later i (ground arith) (ready-ReadyFrom (i + 1) fuel (rw (e, early) at h))
        ]
      ]

  ready-next :
      (i : ℕ)
      → ((rounds i).dns_probe && (rounds i).recursor_probe) ≡ false
      → leb deadline (rounds i).clock ≡ true
      → ¬ ReadyFrom i
  ready-next i e late (now _ d a) = cc (rw (d, a) at e)
  ready-next i e late (later _ t r) = ground arith

  not_later :
      (i : ℕ)
      → ((rounds i).dns_probe && (rounds i).recursor_probe) ≡ false
      → ¬ ReadyFrom (i + 1)
      → ¬ ReadyFrom i
  not_later i e n (now _ d a) = cc (rw (d, a) at e)
  not_later i e n (later _ t r) = n r

  not_ready : (i fuel : ℕ) → ready_from rounds deadline i fuel ≡ some false → ¬ ReadyFrom i
  unfolding ready_from
  not_ready i zero h = cc
  not_ready i (suc fuel) h = elim (Bool-cases ((rounds i).dns_probe && (rounds i).recursor_probe)) [
    | inl e ↦ cc (rw e at h)
    | inr e ↦ elim (Bool-cases (leb deadline (rounds i).clock)) [
      | inl late ↦ ready-next i e late
      | inr early ↦ not_later i e (not_ready (i + 1) fuel (rw (e, early) at h))
    ]
  ]

  -- The answer, once the fuel is enough.
  abbrev pub Answers : ℕ → Option Bool → Type 0
  Answers i none = ⊥
  Answers i (some true) = ReadyFrom i
  Answers i (some false) = ¬ ReadyFrom i

  ends :
      (i fuel j : ℕ)
      → i + fuel ≡ j
      → deadline ≤ (rounds j).clock
      → ready_from rounds deadline i (suc fuel) ≢ none
  unfolding ready_from
  ends i zero j k h e =
      let same : j ≡ i = omega (arith, k) in
      let late : deadline ≤ (rounds i).clock = subst (λ n. deadline ≤ (rounds n).clock) same h in
      ground arith
  ends i (suc fuel) j k h e = ground (arith, ends (i + 1) fuel j (omega (arith, k)) h)

  answers :
      (i : ℕ) (o : Option Bool)
      → (o ≡ none → ⊥)
      → (o ≡ some true → ReadyFrom i)
      → (o ≡ some false → ¬ ReadyFrom i)
      → Answers i o
  answers i none a b c = a refl
  answers i (some true) a b c = b refl
  answers i (some false) a b c = c refl

-- If some round's clock has reached the deadline, the gate answers, after at most that round and the
-- ones before it; the answer is yes exactly when both probes pass in some round before which no
-- clock has reached the deadline.
pub wait-Answers :
    (rounds : ℕ → Round) (start timeout last : ℕ)
    → start + timeout ≤ (rounds last).clock
    → Answers rounds (start + timeout) 0 (wait_for_dns_readiness rounds start timeout (suc last))
unfolding wait_for_dns_readiness
wait-Answers rounds start timeout last h =
    answers rounds (start + timeout) 0 _ (ends rounds (start + timeout) 0 last last (omega arith) h)
      (ready-ReadyFrom rounds (start + timeout) 0 (suc last))
      (not_ready rounds (start + timeout) 0 (suc last))
