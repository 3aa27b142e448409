-- ===== src/Clients/Nearest.antt =====
-- The rule that an address matches is the one of least priority.
use power_blockade.Base.{
  ◌≡◌, refl, ◌&&◌, Bool, true, false, Option, none, some, List, [], ◌∷◌, arith, select, All,
  Bool-cases, inl, inr,
}
use power_blockade.Base.Int.{leb_ℤ}
use power_blockade.Base.Texts.{Text}
use power_blockade.Base.Addresses.{Ipv6}
use power_blockade.Clients.{ClientResolverRule}
use power_blockade.Clients.Groups.{ip_in_cidr}
use power_blockade.Clients.Rules.{by_priority, first_match, get_matching_rule}
use power_blockade.Clients.Members.{
  IsAmong, All-select, IsAmong-select, All-select_given, All-unselect,
}
use power_blockade.Clients.Ordered.{
  IsAhead, IsOrdered, All-by_priority, by_priority-IsOrdered, IsAmong-by_priority, ordered_enabled,
}

abbrev pub serves : Ipv6 → Text → ClientResolverRule → Bool
serves ipv6 ip r = r.enabled && ip_in_cidr ipv6 ip r.subnet

abbrev IsFirst : Ipv6 → Text → List ClientResolverRule → Option ClientResolverRule → Type 0
IsFirst ipv6 ip rules none = All (λ s. serves ipv6 ip s ≡ false) rules
IsFirst ipv6 ip rules (some r) =
    IsAmong r rules
    × ((serves ipv6 ip r ≡ true)
        × All (λ s. serves ipv6 ip s ≡ true → leb_ℤ r.priority s.priority ≡ true) rules)

-- What a search finds: no rule, and then none is enabled and matches; or one of the rules, enabled
-- and matching, with no greater priority than any other such rule.
abbrev pub IsNearest : Ipv6 → Text → List ClientResolverRule → Option ClientResolverRule → Type 0
IsNearest ipv6 ip rules none = All (λ s. serves ipv6 ip s ≡ false) rules
IsNearest ipv6 ip rules (some r) =
    IsAmong r rules
    × ((serves ipv6 ip r ≡ true)
        × All (λ s. leb_ℤ r.priority s.priority ≡ true) (select (serves ipv6 ip) rules))

module _ (ipv6 : Ipv6) (ip : Text) where
  never_behind :
      (r : ClientResolverRule) (rules : List ClientResolverRule)
      → All (IsAhead r) rules
      → All (λ s. serves ipv6 ip s ≡ true → leb_ℤ r.priority s.priority ≡ true) rules
  never_behind r [] all = tt
  never_behind r (s ∷ rules) all = (λ h. all.0, never_behind r rules all.1)

  IsFirst-cons :
      (s : ClientResolverRule) (rules : List ClientResolverRule) (o : Option ClientResolverRule)
      → serves ipv6 ip s ≡ false
      → IsFirst ipv6 ip rules o
      → IsFirst ipv6 ip (s ∷ rules) o
  IsFirst-cons s rules none h near = (h, near)
  IsFirst-cons s rules (some r) h near =
      (inr near.0, (near.1.0, (λ k. absurd (ground arith), near.1.1)))

  -- On rules that are all enabled and in order, the first match is the nearest.
  first_match-IsFirst :
      (rules : List ClientResolverRule)
      → All (λ r. r.enabled ≡ true) rules
      → IsOrdered rules
      → IsFirst ipv6 ip rules (first_match ipv6 ip rules)
  unfolding first_match
  first_match-IsFirst [] on o = tt
  first_match-IsFirst (r ∷ rules) on o = elim (Bool-cases (ip_in_cidr ipv6 ip r.subnet)) [
    | inl e ↦ rw e (inl refl, (ground arith, (λ h. ground arith, never_behind r rules o.0)))
    | inr n ↦ rw n (IsFirst-cons r rules _ (ground arith) (first_match-IsFirst rules on.1 o.1))
  ]

  -- A search among the enabled rules in order, as a search among all of them.
  IsFirst-unsorted :
      (rules : List ClientResolverRule) (o : Option ClientResolverRule)
      → IsFirst ipv6 ip (by_priority (select (λ r. r.enabled) rules)) o
      → IsFirst ipv6 ip rules o
  IsFirst-unsorted rules none near =
      All-unselect (λ r. r.enabled) _ rules (λ s off. ground arith)
        (All-by_priority _ (select (λ r. r.enabled) rules) near)
  IsFirst-unsorted rules (some r) near = (
    IsAmong-select (λ r. r.enabled) r rules
        (IsAmong-by_priority r (select (λ r. r.enabled) rules) near.0),
    (
      near.1.0,
      All-unselect (λ r. r.enabled) _ rules (λ s off on. absurd (ground arith))
          (All-by_priority _ (select (λ r. r.enabled) rules) near.1.1),
    ),
  )

  IsNearest-first :
      (rules : List ClientResolverRule) (o : Option ClientResolverRule)
      → IsFirst ipv6 ip rules o
      → IsNearest ipv6 ip rules o
  IsNearest-first rules none near = near
  IsNearest-first rules (some r) near =
      (near.0, (near.1.0, All-select_given (serves ipv6 ip) (IsAhead r) rules near.1.1))

  -- The rule that is found for an address is one of the rules, enabled, with the address in its
  -- subnet, and no other such rule has a lesser priority; if none is found, there is no such rule.
  pub get_matching_rule-IsNearest :
      (rules : List ClientResolverRule) → IsNearest ipv6 ip rules (get_matching_rule ipv6 ip rules)
  unfolding get_matching_rule
  get_matching_rule-IsNearest rules =
      let enabled_rules = select (λ r. r.enabled) rules in
      IsNearest-first rules _ (
        IsFirst-unsorted rules _ (
          first_match-IsFirst (by_priority enabled_rules)
            (ordered_enabled enabled_rules (All-select (λ r. r.enabled) rules))
            (by_priority-IsOrdered enabled_rules)))
