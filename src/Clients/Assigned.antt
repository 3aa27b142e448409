-- ===== src/Clients/Assigned.antt =====
-- Which group every client is in after auto-assign, client by client.
use power_blockade.Base.{
  ℕ, ◌+◌, ◌≡◌, refl, ◌∙◌, sym, Bool, true, false, Option, none, some, List, [], ◌∷◌, arith,
  if◌then◌else◌, map, select, length, Bool-cases, inl, inr,
}
use power_blockade.Base.Texts.{Text}
use power_blockade.Base.Addresses.{Ipv6}
use power_blockade.Clients.{Client, ClientGroup, Store}
use power_blockade.Clients.Groups.{
  ip_in_cidr, is_none, assign_by, has_cidr, auto_assign_by_cidr, assign_all, auto_assign_groups,
}

-- Whether the address is in the group's network.
abbrev pub reaches : Ipv6 → Text → Option Text → Bool
reaches ipv6 ip none = false
reaches ipv6 ip (some []) = false
reaches ipv6 ip (some (c ∷ s)) = ip_in_cidr ipv6 ip (c ∷ s)

-- The first group whose network has the address.
unfoldable pub first_group : Ipv6 → Text → List ClientGroup → Option ℕ
first_group ipv6 ip [] = none
first_group ipv6 ip (g ∷ groups) =
    let rest = first_group ipv6 ip groups in if reaches ipv6 ip g.cidr then some g.id else rest

abbrev in_group : Client → Option ℕ → Client
in_group c none = c
in_group c (some id) = record c { group_id = some id }

-- A client that has a group keeps it; another one joins the first that has its address, if any.
abbrev pub placed : Ipv6 → List ClientGroup → Client → Client
placed ipv6 groups c = if is_none c.group_id then in_group c (first_group ipv6 c.ip groups) else c

abbrev pub ungrouped : List Client → ℕ
ungrouped clients = length (select (λ c. is_none c.group_id) clients)

place_one :
    (ipv6 : Ipv6) (id : ℕ) (o : Option Text) (groups : List ClientGroup) (clients : List Client)
    → map (placed ipv6 groups) (assign_by ipv6 id clients o).0
      ≡ map
          (λ c.
            if is_none c.group_id
            then in_group c (if reaches ipv6 c.ip o then some id else first_group ipv6 c.ip groups)
            else c)
          clients
place_one ipv6 id none groups clients = refl
place_one ipv6 id (some []) groups clients = refl
place_one ipv6 id (some (k ∷ cidr)) groups [] = refl
place_one ipv6 id (some (k ∷ cidr)) groups (c ∷ clients) =
    let rest = place_one ipv6 id (some (k ∷ cidr)) groups clients in ground (arith, rest)

count_one :
    (ipv6 : Ipv6) (id : ℕ) (o : Option Text) (clients : List Client)
    → (assign_by ipv6 id clients o).1 + ungrouped (assign_by ipv6 id clients o).0
      ≡ ungrouped clients
count_one ipv6 id none clients = omega arith
count_one ipv6 id (some []) clients = omega arith
count_one ipv6 id (some (k ∷ cidr)) [] = omega arith
count_one ipv6 id (some (k ∷ cidr)) (c ∷ clients) =
    let rest = count_one ipv6 id (some (k ∷ cidr)) clients in ground (arith, rest)

placed_none : (ipv6 : Ipv6) (clients : List Client) → map (placed ipv6 []) clients ≡ clients
unfolding first_group
placed_none ipv6 [] = refl
placed_none ipv6 (c ∷ clients) = ground (arith, placed_none ipv6 clients)

assign_all-placed :
    (ipv6 : Ipv6) (groups : List ClientGroup) (clients : List Client)
    → (assign_all ipv6 groups clients).0 ≡ map (placed ipv6 groups) clients
unfolding assign_all auto_assign_by_cidr first_group
assign_all-placed ipv6 [] clients = sym (placed_none ipv6 clients)
assign_all-placed ipv6 (g ∷ groups) clients =
    assign_all-placed ipv6 groups (auto_assign_by_cidr ipv6 g clients).0
    ∙ place_one ipv6 g.id g.cidr groups clients

assign_all-ungrouped :
    (ipv6 : Ipv6) (groups : List ClientGroup) (clients : List Client)
    → (assign_all ipv6 groups clients).1 + ungrouped (assign_all ipv6 groups clients).0
      ≡ ungrouped clients
unfolding assign_all auto_assign_by_cidr
assign_all-ungrouped ipv6 [] clients = omega arith
assign_all-ungrouped ipv6 (g ∷ groups) clients =
    let one = auto_assign_by_cidr ipv6 g clients in
    omega (arith, assign_all-ungrouped ipv6 groups one.0, count_one ipv6 g.id g.cidr clients)

reaches-has_cidr :
    (ipv6 : Ipv6) (ip : Text) (o : Option Text) → is_none o ≡ true → reaches ipv6 ip o ≡ false
reaches-has_cidr ipv6 ip none h = refl
reaches-has_cidr ipv6 ip (some s) h = absurd (ground arith)

first_group-select :
    (ipv6 : Ipv6) (ip : Text) (groups : List ClientGroup)
    → first_group ipv6 ip (select has_cidr groups) ≡ first_group ipv6 ip groups
unfolding first_group
first_group-select ipv6 ip [] = refl
first_group-select ipv6 ip (g ∷ groups) = elim (Bool-cases (is_none g.cidr)) [
  | inl e ↦ rw (e, reaches-has_cidr ipv6 ip g.cidr e) (first_group-select ipv6 ip groups)
  | inr n ↦ rw (n, first_group-select ipv6 ip groups) refl
]

placed-select :
    (ipv6 : Ipv6) (groups : List ClientGroup) (clients : List Client)
    → map (placed ipv6 (select has_cidr groups)) clients ≡ map (placed ipv6 groups) clients
placed-select ipv6 groups [] = refl
placed-select ipv6 groups (c ∷ clients) =
    rw (first_group-select ipv6 c.ip groups, placed-select ipv6 groups clients) refl

-- Auto-assign leaves every client that has a group where it is, puts each other client into the
-- first group in the order of the table whose network has its address, if there is one, and
-- answers with the number of clients that had no group before and have one now.
pub auto_assign_groups-placed :
    (ipv6 : Ipv6) (s : Store)
    → let answer : Store × ℕ = auto_assign_groups ipv6 s in
      (answer.0.clients ≡ map (placed ipv6 s.groups) s.clients)
      × (answer.1 + ungrouped answer.0.clients ≡ ungrouped s.clients)
unfolding auto_assign_groups
auto_assign_groups-placed ipv6 s = (
  assign_all-placed ipv6 (select has_cidr s.groups) s.clients
      ∙ placed-select ipv6 s.groups s.clients,
  assign_all-ungrouped ipv6 (select has_cidr s.groups) s.clients,
)
