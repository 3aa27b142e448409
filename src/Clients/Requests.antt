-- ===== src/Clients/Requests.antt =====
-- The requests on clients, groups and rules as one data type, and what every sequence of them is.
use power_blockade.Base.{ℕ, Option, none, some, List, [], ◌∷◌}
use power_blockade.Base.Int.{ℤ}
use power_blockade.Base.Texts.{Text}
use power_blockade.Base.Addresses.{Ipv6}
use power_blockade.Clients.{Store}
use power_blockade.Clients.Groups.{
  create_group, delete_group, update_group, auto_assign_groups, set_client_group,
}
use power_blockade.Clients.Rules.{
  client_resolver_add, client_resolver_toggle, client_resolver_delete,
}
use power_blockade.Clients.Names.{clients_set_name, clients_resolve, background_resolve_clients}

-- Requests of the user, and the background task after a batch of events.
pub data Request : Type 0 where
  create : Text → Text → Text → Text → Request
  delete : ℕ → Request
  update : ℕ → Text → Text → Text → Text → Request
  auto_assign : Request
  set_group : ℕ → Option ℤ → Request
  add_rule : Text → Text → Text → ℤ → Request
  toggle_rule : ℕ → Request
  delete_rule : ℕ → Request
  set_name : ℕ → Text → Request
  resolve : ℕ → Request
  resolve_new : List Text → Request

-- An exception leaves the tables.
abbrev pub or_kept : Option Store → Store → Store
or_kept none s = s
or_kept (some after) s = after

module _ (ipv6 : Ipv6) (ptr_lookup : Text → Text → Option Text) where
  unfoldable pub handle : ℕ → Request → Store → Option Store
  unfolding create_group delete_group update_group auto_assign_groups set_client_group
      client_resolver_add client_resolver_toggle client_resolver_delete clients_set_name
      clients_resolve background_resolve_clients
  handle now (create name description cidr color) s =
      create_group ipv6 name description cidr color s
  handle now (delete id) s = some (delete_group id s)
  handle now (update id name description cidr color) s =
      update_group ipv6 id name description cidr color s
  handle now auto_assign s = some (auto_assign_groups ipv6 s).0
  handle now (set_group id group) s = set_client_group id group s
  handle now (add_rule subnet nameserver description priority) s =
      client_resolver_add subnet nameserver description priority s
  handle now (toggle_rule id) s = some (client_resolver_toggle id s)
  handle now (delete_rule id) s = some (client_resolver_delete id s)
  handle now (set_name id name) s = clients_set_name id name s
  handle now (resolve id) s = some (clients_resolve ipv6 ptr_lookup now id s)
  handle now (resolve_new ips) s = some (background_resolve_clients ipv6 ptr_lookup now ips s)

  -- Requests at their times, one after the other.
  unfoldable pub serve : List (ℕ × Request) → Store → Store
  unfolding handle
  serve [] s = s
  serve ((now, r) ∷ requests) s = serve requests (or_kept (handle now r s) s)
