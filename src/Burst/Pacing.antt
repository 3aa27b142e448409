-- ===== src/Burst/Pacing.antt =====
-- QPSPacer and QnamePacer of admin-ui/app/services/boot_burst.py: how far apart the sends of a burst
-- are planned.
use native.Mathlib.Nat.{suc-mul}
use power_blockade.Base.{
  ℕ, ◌+◌, max, String, List, [], ◌∷◌, Option, none, some, lookup, insert, zero, suc, ◌*◌, ◌≤◌, ◌≡◌,
  refl, Bool, ◌&&◌, arith, ◌==◌, nat_eq, string_eq, length, select, ltb, leb, if◌then◌else◌,
  lookup-insert, Bool-cases, inl, inr, ap, ◌∙◌,
}

-- QPSPacer.wait: the clock's reading and the jitter's stretch of the gap, which is never negative.
-- The slot, and the next slot.
unfoldable pub qps_wait : ℕ → ℕ → ℕ → ℕ → ℕ × ℕ
qps_wait interval now stretch next_slot =
    let slot = max next_slot now in (slot, slot + (interval + stretch))

-- The slots of calls of `wait`, by their readings and stretches in the order in which they take the
-- lock.
unfoldable pub qps_slots : ℕ → List (ℕ × ℕ) → ℕ → List ℕ
unfolding qps_wait
qps_slots interval [] next_slot = []
qps_slots interval ((now, stretch) ∷ calls) next_slot =
    let (slot, next) = qps_wait interval now stretch next_slot in
    slot ∷ qps_slots interval calls next

abbrev pub send_at : ℕ → ℕ → Option ℕ → ℕ
send_at min_interval now none = now
send_at min_interval now (some last) = max last now + min_interval

-- QnamePacer.wait: the time that it waits for, and `_last`.
unfoldable pub qname_wait : ℕ → ℕ → String → List (String × ℕ) → ℕ × List (String × ℕ)
unfolding lookup insert
qname_wait min_interval now qname last =
    let at = send_at min_interval now (lookup qname last) in (at, insert qname at last)

-- The names and times of calls of `wait`, in the order in which they take the lock.
unfoldable pub qname_times : ℕ → List (ℕ × String) → List (String × ℕ) → List (String × ℕ)
unfolding qname_wait
qname_times min_interval [] last = []
qname_times min_interval ((now, qname) ∷ calls) last =
    let (at, last') = qname_wait min_interval now qname last in
    (qname, at) ∷ qname_times min_interval calls last'

-- The first time is not before `low`, and each next one at least the interval later.
abbrev pub Spaced : ℕ → ℕ → List ℕ → Type 0
Spaced interval low [] = Unit
Spaced interval low (t ∷ ts) = (low ≤ t) × Spaced interval (t + interval) ts

Spaced-lower :
    (interval low high : ℕ) (ts : List ℕ)
    → low ≤ high
    → Spaced interval high ts
    → Spaced interval low ts
Spaced-lower interval low high [] h k = tt
Spaced-lower interval low high (t ∷ ts) h k = (omega (arith, h, k.0), k.1)

-- The slots of the QPS pacer are at least the interval apart, whatever the clock says and the jitter
-- adds: jitter never advances a query.
pub qps_slots-Spaced :
    (interval : ℕ) (calls : List (ℕ × ℕ)) (next_slot : ℕ)
    → Spaced interval next_slot (qps_slots interval calls next_slot)
unfolding qps_slots
qps_slots-Spaced interval [] next_slot = tt
qps_slots-Spaced interval (call ∷ calls) next_slot =
    (omega arith, Spaced-lower interval _ _ _ (omega arith) (qps_slots-Spaced interval calls _))

abbrev pub in_window : ℕ → ℕ → ℕ → Bool
in_window from end t = leb from t && ltb t end

abbrev span : ℕ → ℕ → ℕ
span interval zero = 0
span interval (suc n) = interval + span interval n

span-mul : (interval n : ℕ) → span interval n ≡ n * interval
span-mul interval zero = omega arith
span-mul interval (suc n) = rw (suc-mul n interval) (omega (arith, span-mul interval n))

before_le :
    (interval n low end : ℕ) (ts : List ℕ)
    → Spaced interval low ts
    → end ≤ low + span interval n
    → length (select (λ t. ltb t end) ts) ≤ n
before_le interval n low end [] h k = omega arith
before_le interval zero low end (t ∷ ts) h k =
    ground (arith, before_le interval zero (t + interval) end ts h.1)
before_le interval (suc n) low end (t ∷ ts) h k =
    ground (arith, before_le interval n (t + interval) end ts h.1)

window_before_le :
    (from end : ℕ) (ts : List ℕ)
    → length (select (in_window from end) ts) ≤ length (select (λ t. ltb t end) ts)
window_before_le from end [] = omega arith
window_before_le from end (t ∷ ts) = ground (arith, window_before_le from end ts)

window_span_le :
    (interval n low from : ℕ) (ts : List ℕ)
    → Spaced interval low ts
    → length (select (in_window from (from + span interval n)) ts) ≤ n
window_span_le interval n low from [] h = omega arith
window_span_le interval n low from (t ∷ ts) h = elim (Bool-cases (leb from t)) [
  | inl e ↦
      let all =
        before_le interval n from (from + span interval n) (t ∷ ts) (ground arith, h.1)
          (omega arith) in
      omega (arith, all, window_before_le from (from + span interval n) (t ∷ ts))
  | inr e ↦ rw e (window_span_le interval n (t + interval) from ts h.1)
]

-- In any window of `n` intervals, at most `n` slots of the QPS pacer lie: the planned rate is never
-- above the ceiling, whatever the clock says and the jitter adds.
pub qps_slots-rate :
    (interval n from : ℕ) (calls : List (ℕ × ℕ)) (next_slot : ℕ)
    → length (select (in_window from (from + n * interval)) (qps_slots interval calls next_slot))
      ≤ n
qps_slots-rate interval n from calls next_slot =
    rw (← span-mul interval n)
      (window_span_le interval n next_slot from _ (qps_slots-Spaced interval calls next_slot))

-- The times at which one name is sent.
abbrev pub times_of : String → List (String × ℕ) → List ℕ
times_of name [] = []
times_of name ((qname, at) ∷ sends) =
    let rest = times_of name sends in if qname == name then at ∷ rest else rest

-- At least the interval behind the last time, if there was one.
abbrev pub SpacedAfter : ℕ → Option ℕ → List ℕ → Type 0
SpacedAfter interval none [] = Unit
SpacedAfter interval none (t ∷ ts) = Spaced interval (t + interval) ts
SpacedAfter interval (some last) ts = Spaced interval (last + interval) ts

SpacedAfter-nil : (interval : ℕ) (o : Option ℕ) → SpacedAfter interval o []
SpacedAfter-nil interval none = tt
SpacedAfter-nil interval (some last) = tt

SpacedAfter-at :
    (interval now : ℕ) (name : String) (o o' : Option ℕ) (ts : List ℕ)
    → o ≡ o'
    → Spaced interval (send_at interval now o + interval) ts
    → SpacedAfter interval o' (send_at interval now o ∷ ts)
SpacedAfter-at interval now name o none ts e h = h
SpacedAfter-at interval now name none (some last) ts e h = cc
SpacedAfter-at interval now name (some l) (some last) ts e h = (ground (arith), h)

-- Two sends of one name are at least the interval apart, whatever other names are sent between them
-- and whatever the clock says.
pub qname_times-SpacedAfter :
    (interval : ℕ) (calls : List (ℕ × String)) (last : List (String × ℕ)) (name : String)
    → SpacedAfter interval (lookup name last) (times_of name (qname_times interval calls last))
unfolding qname_times qname_wait
qname_times-SpacedAfter interval [] last name = SpacedAfter-nil interval (lookup name last)
qname_times-SpacedAfter interval ((now, qname) ∷ calls) last name =
    let at = send_at interval now (lookup qname last) in
    let rest : SpacedAfter interval (lookup name (insert qname at last))
        (times_of name (qname_times interval calls (insert qname at last))) =
      qname_times-SpacedAfter interval calls (insert qname at last) name in
    elim (Bool-cases (qname == name)) [
      | inl e ↦
          let stored : lookup name (insert qname at last) ≡ some at =
            lookup-insert qname name at last ∙ rw e refl in
          rw e (
            SpacedAfter-at interval now name (lookup qname last) (lookup name last) _
              (ap (λ n. lookup n last) ((string_eq.beq_iff qname name).0 e)) (rw stored at rest))
      | inr e ↦
          let stored : lookup name (insert qname at last) ≡ lookup name last =
            lookup-insert qname name at last ∙ rw e refl in
          rw e (rw stored at rest)
    ]
