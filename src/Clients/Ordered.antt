-- ===== src/Clients/Ordered.antt =====
-- The rules in the order of their priorities.
use power_blockade.Base.{◌≡◌, ◌⊎◌, true, false, List, [], ◌∷◌, arith, All, Bool-cases, inl, inr}
use power_blockade.Base.Int.{ℤ, leb_ℤ}
use power_blockade.Clients.{ClientResolverRule}
use power_blockade.Clients.Rules.{insert_rule, by_priority}
use power_blockade.Clients.Members.{IsAmong}

abbrev pub IsAhead : ClientResolverRule → ClientResolverRule → Type 0
IsAhead r s = leb_ℤ r.priority s.priority ≡ true

abbrev pub IsOrdered : List ClientResolverRule → Type 0
IsOrdered [] = Unit
IsOrdered (r ∷ rules) = All (IsAhead r) rules × IsOrdered rules

leb_trans : (a b c : ℤ) → leb_ℤ a b ≡ true → leb_ℤ b c ≡ true → leb_ℤ a c ≡ true
leb_trans a b c h k = ground arith

leb_total : (a b : ℤ) → leb_ℤ a b ≡ false → leb_ℤ b a ≡ true
leb_total a b h = ground arith

module _ {ℓ} (P : ClientResolverRule → Type ℓ) where
  All-insert_rule :
      (r : ClientResolverRule) (rules : List ClientResolverRule)
      → P r
      → All P rules
      → All P (insert_rule r rules)
  unfolding insert_rule
  All-insert_rule r [] p all = (p, tt)
  All-insert_rule r (s ∷ rules) p all = elim (Bool-cases (leb_ℤ r.priority s.priority)) [
    | inl e ↦ rw e (p, all)
    | inr n ↦ rw n (all.0, All-insert_rule r rules p all.1)
  ]

  All-inserted :
      (r : ClientResolverRule) (rules : List ClientResolverRule)
      → All P (insert_rule r rules)
      → P r × All P rules
  unfolding insert_rule
  All-inserted r [] all = all
  All-inserted r (s ∷ rules) all = elim (Bool-cases (leb_ℤ r.priority s.priority)) [
    | inl e ↦ rw e at all
    | inr n ↦
        let there : P s × All P (insert_rule r rules) = rw n at all in
        let rest : P r × All P rules = All-inserted r rules there.1 in (rest.0, (there.0, rest.1))
  ]

  pub All-by_priority : (rules : List ClientResolverRule) → All P (by_priority rules) → All P rules
  unfolding by_priority
  All-by_priority [] all = tt
  All-by_priority (r ∷ rules) all =
      let there : P r × All P (by_priority rules) = All-inserted r (by_priority rules) all in
      (there.0, All-by_priority rules there.1)

All-IsAhead :
    (r s : ClientResolverRule) (rules : List ClientResolverRule)
    → IsAhead r s
    → All (IsAhead s) rules
    → All (IsAhead r) rules
All-IsAhead r s [] h all = tt
All-IsAhead r s (t ∷ rules) h all =
    (leb_trans r.priority s.priority t.priority h all.0, All-IsAhead r s rules h all.1)

insert_rule-IsOrdered :
    (r : ClientResolverRule) (rules : List ClientResolverRule)
    → IsOrdered rules
    → IsOrdered (insert_rule r rules)
unfolding insert_rule
insert_rule-IsOrdered r [] o = (tt, tt)
insert_rule-IsOrdered r (s ∷ rules) o = elim (Bool-cases (leb_ℤ r.priority s.priority)) [
  | inl e ↦ rw e ((e, All-IsAhead r s rules e o.0), o)
  | inr n ↦ rw n (
    All-insert_rule (IsAhead s) r rules (leb_total r.priority s.priority n) o.0,
    insert_rule-IsOrdered r rules o.1,
  )
]

pub by_priority-IsOrdered : (rules : List ClientResolverRule) → IsOrdered (by_priority rules)
unfolding by_priority
by_priority-IsOrdered [] = tt
by_priority-IsOrdered (r ∷ rules) =
    insert_rule-IsOrdered r (by_priority rules) (by_priority-IsOrdered rules)

IsAmong-inserted :
    (x r : ClientResolverRule) (rules : List ClientResolverRule)
    → IsAmong x (insert_rule r rules)
    → (x ≡ r) ⊎ IsAmong x rules
unfolding insert_rule
IsAmong-inserted x r [] h = h
IsAmong-inserted x r (s ∷ rules) h = elim (Bool-cases (leb_ℤ r.priority s.priority)) [
  | inl e ↦ rw e at h
  | inr n ↦
      let there : (x ≡ s) ⊎ IsAmong x (insert_rule r rules) = rw n at h in
      elim there [
        | inl same ↦ inr (inl same)
        | inr later ↦ elim (IsAmong-inserted x r rules later) [
          | inl same ↦ inl same
          | inr behind ↦ inr (inr behind)
        ]
      ]
]

pub IsAmong-by_priority :
    (x : ClientResolverRule) (rules : List ClientResolverRule)
    → IsAmong x (by_priority rules)
    → IsAmong x rules
unfolding by_priority
IsAmong-by_priority x [] h = h
IsAmong-by_priority x (r ∷ rules) h = elim (IsAmong-inserted x r (by_priority rules) h) [
  | inl same ↦ inl same
  | inr later ↦ inr (IsAmong-by_priority x rules later)
]

pub ordered_enabled :
    (rules : List ClientResolverRule)
    → All (λ r. r.enabled ≡ true) rules
    → All (λ r. r.enabled ≡ true) (by_priority rules)
unfolding by_priority
ordered_enabled [] all = tt
ordered_enabled (r ∷ rules) all =
    All-insert_rule _ r (by_priority rules) all.0 (ordered_enabled rules all.1)
