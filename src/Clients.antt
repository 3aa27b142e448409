-- ===== src/Clients.antt =====
-- The devices that ask, the groups that they are sorted into and the rules by which their names are
-- looked up: the rows of admin-ui/app/models/client.py, client_group.py and
-- client_resolver_rule.py. Times are microseconds.
pub mod Groups
pub mod Rules
pub mod Names
pub mod Assigned
pub mod Members
pub mod Ordered
pub mod Nearest
pub mod Found
pub mod Cached
pub mod Requests
pub mod Grouped
pub mod Invariant
pub mod Always
mod Tests
use power_blockade.Base.{
  ℕ, Bool, Option, List, ◌==◌, list_eq, nat_eq, none, some, [], ◌∷◌, if◌then◌else◌,
}
use power_blockade.Base.Int.{ℤ}
use power_blockade.Base.Texts.{Text}

pub record Client : Type 0 where
  pub id : ℕ
  pub ip : Text
  pub display_name : Option Text
  pub rdns_name : Option Text
  pub rdns_last_resolved_at : Option ℕ
  pub rdns_last_error : Option Text
  pub group_id : Option ℕ
  pub last_seen : Option ℕ

pub record ClientGroup : Type 0 where
  pub id : ℕ
  pub name : Text
  pub description : Option Text
  pub cidr : Option Text
  pub color : Text

pub record ClientResolverRule : Type 0 where
  pub id : ℕ
  pub subnet : Text
  pub nameserver : Text
  pub enabled : Bool
  pub priority : ℤ
  pub description : Option Text

-- The tables, and the sequences of their ids.
pub record Store : Type 0 where
  pub clients : List Client
  pub groups : List ClientGroup
  pub rules : List ClientResolverRule
  pub next_client : ℕ
  pub next_group : ℕ
  pub next_rule : ℕ

abbrev pub client_id_of : Client → ℕ
client_id_of c = c.id

abbrev pub group_id_of : ClientGroup → ℕ
group_id_of g = g.id

abbrev pub rule_id_of : ClientResolverRule → ℕ
rule_id_of r = r.id

abbrev pub client_ip_of : Client → Text
client_ip_of c = c.ip

abbrev pub group_name : ClientGroup → Text
group_name g = g.name

abbrev pub rule_subnet : ClientResolverRule → Text
rule_subnet r = r.subnet

-- The row of an address, which is unique.
unfoldable pub by_ip : Text → List Client → Option Client
by_ip ip [] = none
by_ip ip (c ∷ clients) = let rest = by_ip ip clients in if c.ip == ip then some c else rest

-- Client(ip=ip)
abbrev pub new_client : ℕ → Text → Client
new_client id address = record {
  id = id;
  ip = address;
  display_name = none;
  rdns_name = none;
  rdns_last_resolved_at = none;
  rdns_last_error = none;
  group_id = none;
  last_seen = none;
}
