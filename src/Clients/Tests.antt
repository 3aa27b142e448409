-- ===== src/Clients/Tests.antt =====
-- Two groups, three clients and two rules of one network.
use power_blockade.Base.{
  ℕ, ◌+◌, String, ◌≡◌, ◌≢◌, refl, true, false, Option, none, some, List, [], ◌∷◌, arith, nat_eq,
  map,
}
use power_blockade.Base.Int.{pos}
use power_blockade.Base.Texts.{Text, codes, split_on}
use power_blockade.Base.Addresses.{
  Ipv6, ip_address, ip_network, in_network, ipv4_address, ipv4_network, netmask, octet,
}
use power_blockade.Admin.Tables.{IsTable}
use power_blockade.Clients.{client_id_of, ClientGroup, ClientResolverRule, Store, new_client, by_ip}
use power_blockade.Clients.Groups.{ip_in_cidr, auto_assign_groups, assign_all, auto_assign_by_cidr}
use power_blockade.Clients.Rules.{get_matching_rule, first_match, by_priority, insert_rule}
use power_blockade.Clients.Names.{
  truthy, Session, opened, resolve_client_hostname, seconds, named_or_ask, ask, cached,
}
use power_blockade.Clients.Assigned.{placed, ungrouped, auto_assign_groups-placed}
use power_blockade.Clients.Nearest.{IsNearest, get_matching_rule-IsNearest}
use power_blockade.Clients.Cached.{resolve_again}
use power_blockade.Clients.Grouped.{IsGrouped}
use power_blockade.Clients.Requests.{create, delete, set_group, auto_assign, Request, serve}
use power_blockade.Clients.Always.{serve-IsGrouped}

abbrev no_v6 : Ipv6
no_v6 = record { read_address = λ s. none; read_network = λ s. none }

abbrev group : ℕ → String → String → ClientGroup
group id name cidr = record {
  id = id;
  name = codes name;
  description = none;
  cidr = some (codes cidr);
  color = codes "slate";
}

abbrev rule : ℕ → String → ℕ → ClientResolverRule
rule id subnet priority = record {
  id = id;
  subnet = codes subnet;
  nameserver = codes "9.9.9.9";
  enabled = true;
  priority = pos priority;
  description = none;
}

abbrev store : Store
store = record {
  clients =
      new_client 1 (codes "1.0.0.1")
      ∷ record (new_client 2 (codes "1.0.0.2")) { group_id = some 2 }
      ∷ new_client 3 (codes "2.0.0.1")
      ∷ [];
  groups = group 1 "a" "1.0.0.0/8" ∷ group 2 "b" "0.0.0.0/6" ∷ [];
  rules = rule 1 "0.0.0.0/1" 100 ∷ rule 2 "1.0.0.0/8" 10 ∷ [];
  next_client = 4;
  next_group = 3;
  next_rule = 3;
}

two_assigned : (auto_assign_groups no_v6 store).1 ≡ 2
unfolding auto_assign_groups assign_all auto_assign_by_cidr ip_in_cidr ip_address ip_network
    in_network ipv4_address ipv4_network netmask octet split_on
two_assigned = refl

auto_assign_groups-placed_example :
    let answer : Store × ℕ = auto_assign_groups no_v6 store in
    (answer.0.clients ≡ map (placed no_v6 store.groups) store.clients)
    × (answer.1 + ungrouped answer.0.clients ≡ 2)
auto_assign_groups-placed_example = auto_assign_groups-placed no_v6 store

nearest : get_matching_rule no_v6 (codes "1.0.0.9") store.rules ≡ some (rule 2 "1.0.0.0/8" 10)
unfolding get_matching_rule first_match by_priority insert_rule ip_in_cidr ip_address ip_network
    in_network ipv4_address ipv4_network netmask octet split_on
nearest = refl

get_matching_rule-IsNearest_example :
    IsNearest no_v6
      (codes "1.0.0.9")
      store.rules
      (get_matching_rule no_v6 (codes "1.0.0.9") store.rules)
get_matching_rule-IsNearest_example =
    get_matching_rule-IsNearest no_v6 (codes "1.0.0.9") store.rules

abbrev found_name : Text → Text → Option Text
found_name ip nameserver = some (codes "phone.lan")

abbrev no_name : Text → Text → Option Text
no_name ip nameserver = none

asks :
    (resolve_client_hostname no_v6 found_name 0 false (codes "1.0.0.1") (opened store)).0.asked ≢ []
unfolding resolve_client_hostname named_or_ask ask cached by_ip get_matching_rule first_match
    by_priority insert_rule ip_in_cidr ip_address ip_network in_network ipv4_address ipv4_network
    netmask octet split_on
asks e = ground arith

named :
    truthy (resolve_client_hostname no_v6 found_name 0 false (codes "1.0.0.1") (opened store)).1
    ≡ true
unfolding resolve_client_hostname named_or_ask ask cached by_ip get_matching_rule first_match
    by_priority insert_rule ip_in_cidr ip_address ip_network in_network ipv4_address ipv4_network
    netmask octet split_on
named = refl

store-IsTable : IsTable client_id_of 4 store.clients
store-IsTable = ((refl, (refl, (refl, tt))), λ id h. ground arith)

resolve_again_example :
    let first : Session × Option Text =
      resolve_client_hostname no_v6 found_name 0 false (codes "1.0.0.1") (opened store) in
    (resolve_client_hostname no_v6 no_name (seconds 299) false (codes "1.0.0.1") first.0).0
    ≡ first.0
resolve_again_example =
    resolve_again no_v6 found_name no_name 0 (seconds 299) false (codes "1.0.0.1") (opened store)
      store-IsTable asks refl

abbrev requests : List (ℕ × Request)
requests =
    (1, set_group 3 (some (pos 1)))
    ∷ (2, create (codes "c") [] (codes "2.0.0.0/8") (codes "red"))
    ∷ (3, delete 2)
    ∷ (4, auto_assign)
    ∷ []

store-IsGrouped : IsGrouped no_v6 store
unfolding ip_network ipv4_address ipv4_network netmask octet split_on
store-IsGrouped = (
  ((refl, (refl, tt)), λ id h. ground arith),
  ((refl, (refl, tt)), ((refl, (refl, tt)), (refl, (refl, (refl, tt))))),
)

serve-IsGrouped_example : IsGrouped no_v6 (serve no_v6 found_name requests store)
serve-IsGrouped_example = serve-IsGrouped no_v6 found_name requests store store-IsGrouped
