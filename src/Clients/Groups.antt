-- ===== src/Clients/Groups.antt =====
-- Groups of clients: admin-ui/app/routers/client_groups.py. The result is the store after the
-- request; `none` is an exception, by which the transaction is rolled back.
use power_blockade.Base.{
  ℕ, ◌+◌, Bool, true, false, not, ◌&&◌, ◌||◌, Option, none, some, List, [], ◌∷◌, ◌++◌, ◌==◌, nat_eq,
  list_eq, option_eq, leb, if◌then◌else◌, map, select, contains, length,
}
use power_blockade.Base.Int.{ℤ, pos}
use power_blockade.Base.Texts.{Text, codes}
use power_blockade.Base.Addresses.{Ipv6, IpAddress, IpNetwork, ip_address, ip_network, in_network}
use power_blockade.Admin.{get_row, save_row, drop_row}
use power_blockade.Admin.Zones.{or_none}
use power_blockade.Clients.{Client, ClientGroup, Store, client_id_of, group_id_of, group_name}

abbrev pub colors : List Text
colors =
    codes "slate"
    ∷ codes "red"
    ∷ codes "orange"
    ∷ codes "amber"
    ∷ codes "yellow"
    ∷ codes "lime"
    ∷ codes "green"
    ∷ codes "emerald"
    ∷ codes "teal"
    ∷ codes "cyan"
    ∷ codes "sky"
    ∷ codes "blue"
    ∷ codes "indigo"
    ∷ codes "violet"
    ∷ codes "purple"
    ∷ codes "fuchsia"
    ∷ codes "pink"
    ∷ codes "rose"
    ∷ []

abbrev pub both_in : Option IpAddress → Option IpNetwork → Bool
both_in none network = false
both_in (some ip) none = false
both_in (some ip) (some network) = in_network ip network

-- An address or a network that cannot be read is no match. `ip_in_subnet` of ptr_resolver.py is
-- the same.
unfoldable pub ip_in_cidr : Ipv6 → Text → Text → Bool
unfolding ip_address ip_network in_network
ip_in_cidr ipv6 ip cidr = both_in (ip_address ipv6 ip) (ip_network ipv6 cidr)

abbrev pub is_none {ℓ} : {A : Type ℓ} → Option A → Bool
is_none none = true
is_none (some a) = false

-- Whether the group takes the client: one without a group, in its network.
abbrev pub takes : Ipv6 → Text → Client → Bool
takes ipv6 cidr c = is_none c.group_id && ip_in_cidr ipv6 c.ip cidr

abbrev pub assign : Ipv6 → ℕ → Text → List Client → List Client
assign ipv6 id cidr = map (λ c. if takes ipv6 cidr c then record c { group_id = some id } else c)

-- A group without a network, or with an empty one, takes nobody.
abbrev pub assign_by : Ipv6 → ℕ → List Client → Option Text → List Client × ℕ
assign_by ipv6 id clients none = (clients, 0)
assign_by ipv6 id clients (some []) = (clients, 0)
assign_by ipv6 id clients (some (c ∷ s)) =
    (assign ipv6 id (c ∷ s) clients, length (select (takes ipv6 (c ∷ s)) clients))

unfoldable pub auto_assign_by_cidr : Ipv6 → ClientGroup → List Client → List Client × ℕ
auto_assign_by_cidr ipv6 g clients = assign_by ipv6 g.id clients g.cidr

-- `ClientGroup.cidr.isnot(None)`
abbrev pub has_cidr : ClientGroup → Bool
has_cidr g = not (is_none g.cidr)

unfoldable pub assign_all : Ipv6 → List ClientGroup → List Client → List Client × ℕ
unfolding auto_assign_by_cidr
assign_all ipv6 [] clients = (clients, 0)
assign_all ipv6 (g ∷ groups) clients =
    let one = auto_assign_by_cidr ipv6 g clients in
    let rest = assign_all ipv6 groups one.0 in (rest.0, one.1 + rest.1)

-- The clients after the request, and the number of the answer.
unfoldable pub auto_assign_groups : Ipv6 → Store → Store × ℕ
unfolding assign_all
auto_assign_groups ipv6 s =
    let all = assign_all ipv6 (select has_cidr s.groups) s.clients in
    (record s { clients = all.0 }, all.1)

-- A text of the form that is neither empty nor a network.
unfoldable pub invalid_cidr : Ipv6 → Text → Bool
unfolding ip_network
invalid_cidr ipv6 [] = false
invalid_cidr ipv6 (c ∷ s) = is_none (ip_network ipv6 (c ∷ s))

-- The widths of the columns.
abbrev pub group_fits : ClientGroup → Bool
group_fits g = leb (length g.name) 100 && cidr_fits g.cidr
  where
    cidr_fits : Option Text → Bool
    cidr_fits none = true
    cidr_fits (some cidr) = leb (length cidr) 50

abbrev pub color_or_slate : Text → Text
color_or_slate color = if contains colors color then color else codes "slate"

abbrev pub new_group : ℕ → Text → Text → Text → Text → ClientGroup
new_group id name description cidr color = record {
  id = id;
  name = name;
  description = or_none description;
  cidr = or_none cidr;
  color = color_or_slate color;
}

-- A name that is taken and a network that cannot be read change nothing; the redirect says so.
unfoldable pub create_group : Ipv6 → Text → Text → Text → Text → Store → Option Store
unfolding invalid_cidr auto_assign_by_cidr
create_group ipv6 name description cidr color s =
    let g = new_group s.next_group name description cidr color in
    if contains (map group_name s.groups) name || invalid_cidr ipv6 cidr
    then some s
    else if group_fits g
    then some (record s {
      clients = (auto_assign_by_cidr ipv6 g s.clients).0;
      groups = s.groups ++ (g ∷ []);
      next_group = s.next_group + 1;
    })
    else none

-- The clients of the group are in none afterwards.
abbrev pub leave : ℕ → List Client → List Client
leave id = map (λ c. if c.group_id == some id then record c { group_id = none } else c)

abbrev pub delete_found : ℕ → Store → Option ClientGroup → Store
delete_found id s none = s
delete_found id s (some g) = record s {
  clients = leave id s.clients;
  groups = drop_row group_id_of id s.groups;
}

unfoldable pub delete_group : ℕ → Store → Store
unfolding get_row
delete_group id s = delete_found id s (get_row group_id_of id s.groups)

abbrev pub others_names : ℕ → List ClientGroup → List Text
others_names id groups = map group_name (select (λ g. not (g.id == id)) groups)

-- Clients are assigned if the network is another one.
abbrev pub update_found :
    Ipv6 → ℕ → Text → Text → Text → Text → Store → Option ClientGroup → Option Store
update_found ipv6 id name description cidr color s none = some s
update_found ipv6 id name description cidr color s (some old) =
    let g = new_group id name description cidr color in
    if contains (others_names id s.groups) name || invalid_cidr ipv6 cidr
    then some s
    else if group_fits g
    then some (record s {
      clients = if g.cidr == old.cidr then s.clients else (auto_assign_by_cidr ipv6 g s.clients).0;
      groups = save_row group_id_of g s.groups;
    })
    else none

unfoldable pub update_group : Ipv6 → ℕ → Text → Text → Text → Text → Store → Option Store
unfolding get_row invalid_cidr auto_assign_by_cidr
update_group ipv6 id name description cidr color s =
    update_found ipv6 id name description cidr color s (get_row group_id_of id s.groups)

-- `group_id if group_id and group_id > 0 else None`
abbrev pub chosen_group : Option ℤ → Option ℕ
chosen_group (some (pos n)) = if n == 0 then none else some n
chosen_group _ = none

-- The foreign key.
abbrev pub known_group : List ClientGroup → Option ℕ → Bool
known_group groups none = true
known_group groups (some id) = contains (map group_id_of groups) id

abbrev pub set_found : Option ℕ → Store → Option Client → Option Store
set_found group s none = some s
set_found group s (some c) =
    if known_group s.groups group
    then some
        (record s { clients = save_row client_id_of (record c { group_id = group }) s.clients })
    else none

unfoldable pub set_client_group : ℕ → Option ℤ → Store → Option Store
unfolding get_row
set_client_group id group s = set_found (chosen_group group) s (get_row client_id_of id s.clients)
