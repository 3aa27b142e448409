-- ===== src/Clients/Rules.antt =====
-- Which name server is asked about an address: the rules of admin-ui/app/routers/client_resolver.py
-- and get_matching_rule of admin-ui/app/services/ptr_resolver.py.
use power_blockade.Base.{
  ℕ, ◌+◌, Bool, true, not, ◌&&◌, Option, none, some, List, [], ◌∷◌, ◌++◌, list_eq, nat_eq, leb,
  if◌then◌else◌, map, select, contains, length,
}
use power_blockade.Base.Int.{ℤ, leb_ℤ}
use power_blockade.Base.Texts.{Text, strip}
use power_blockade.Base.Addresses.{Ipv6}
use power_blockade.Admin.{get_row, save_row, drop_row}
use power_blockade.Admin.Zones.{or_none}
use power_blockade.Clients.{ClientResolverRule, Store, rule_id_of, rule_subnet}
use power_blockade.Clients.Groups.{ip_in_cidr}

abbrev pub new_rule : ℕ → Text → Text → Text → ℤ → ClientResolverRule
new_rule id subnet nameserver description priority = record {
  id = id;
  subnet = strip subnet;
  nameserver = strip nameserver;
  enabled = true;
  priority = priority;
  description = or_none (strip description);
}

abbrev pub text_fits : Option Text → Bool
text_fits none = true
text_fits (some s) = leb (length s) 255

-- The unique subnet, and the widths of the columns.
abbrev pub rule_fits : ClientResolverRule → List ClientResolverRule → Bool
rule_fits r rules =
    not (contains (map rule_subnet rules) r.subnet)
    && (leb (length r.subnet) 64 && (leb (length r.nameserver) 255 && text_fits r.description))

unfoldable pub client_resolver_add : Text → Text → Text → ℤ → Store → Option Store
unfolding strip
client_resolver_add subnet nameserver description priority s =
    let r = new_rule s.next_rule subnet nameserver description priority in
    if rule_fits r s.rules
    then some (record s { rules = s.rules ++ (r ∷ []); next_rule = s.next_rule + 1 })
    else none

abbrev pub toggle_found : Store → Option ClientResolverRule → Store
toggle_found s none = s
toggle_found s (some r) = record s {
  rules = save_row rule_id_of (record r { enabled = not r.enabled }) s.rules;
}

unfoldable pub client_resolver_toggle : ℕ → Store → Store
unfolding get_row
client_resolver_toggle id s = toggle_found s (get_row rule_id_of id s.rules)

-- A row that is not there is not deleted.
unfoldable pub client_resolver_delete : ℕ → Store → Store
client_resolver_delete id s = record s { rules = drop_row rule_id_of id s.rules }

-- ORDER BY priority. Rules of one priority stay in the order of the table.
unfoldable pub insert_rule : ClientResolverRule → List ClientResolverRule → List ClientResolverRule
insert_rule r [] = r ∷ []
insert_rule r (s ∷ rules) =
    let rest = insert_rule r rules in
    if leb_ℤ r.priority s.priority then r ∷ s ∷ rules else s ∷ rest

unfoldable pub by_priority : List ClientResolverRule → List ClientResolverRule
unfolding insert_rule
by_priority [] = []
by_priority (r ∷ rules) = insert_rule r (by_priority rules)

unfoldable pub first_match : Ipv6 → Text → List ClientResolverRule → Option ClientResolverRule
unfolding ip_in_cidr
first_match ipv6 ip [] = none
first_match ipv6 ip (r ∷ rules) =
    let rest = first_match ipv6 ip rules in if ip_in_cidr ipv6 ip r.subnet then some r else rest

unfoldable pub get_matching_rule : Ipv6 → Text → List ClientResolverRule → Option ClientResolverRule
unfolding first_match by_priority
get_matching_rule ipv6 ip rules = first_match ipv6 ip (by_priority (select (λ r. r.enabled) rules))
