-- ===== src/Clients/Names.antt =====
-- The names of clients: resolve_client_hostname and bulk_resolve_clients of
-- admin-ui/app/services/ptr_resolver.py, what admin-ui/app/routers/client_resolver.py does with
-- clients, and the background task of admin-ui/app/routers/node_sync.py. The lookup itself is a
-- parameter: the host name that a name server gives for an address.
use power_blockade.Base.{
  ℕ, ◌+◌, ◌-◌, ◌*◌, Bool, true, false, ◌&&◌, Option, none, some, List, [], ◌∷◌, ◌++◌, list_eq,
  nat_eq, ltb, if◌then◌else◌, insert,
}
use power_blockade.Base.Texts.{Text, codes, strip}
use power_blockade.Base.Addresses.{Ipv6}
use power_blockade.Admin.{get_row, save_row}
use power_blockade.Admin.Zones.{or_none}
use power_blockade.Clients.{Client, ClientResolverRule, Store, by_ip, new_client, client_id_of}
use power_blockade.Clients.Rules.{get_matching_rule, text_fits}

-- What is committed, what the session sees, and the lookups that were made: an address and the name
-- server that was asked.
pub record Session : Type 0 where
  pub stored : Store
  pub current : Store
  pub asked : List (Text × Text)

abbrev pub opened : Store → Session
opened s = record { stored = s; current = s; asked = [] }

-- Whether a text or NULL counts as true.
abbrev pub truthy : Option Text → Bool
truthy none = false
truthy (some []) = false
truthy (some (c ∷ s)) = true

abbrev pub seconds : ℕ → ℕ
seconds n = n * 1_000_000

-- What is answered from the row alone, if the row is recent enough: `some` of the answer.
abbrev pub recent : ℕ → Client → Option ℕ → Option (Option Text)
recent now c none = none
recent now c (some at) =
    if truthy c.rdns_name && ltb (now - at) (seconds 3600)
    then some c.rdns_name
    else if truthy c.rdns_last_error && ltb (now - at) (seconds 300)
    then some c.display_name
    else none

unfoldable pub cached : ℕ → Bool → Client → Option (Option Text)
cached now true c = none
cached now false c = recent now c c.rdns_last_resolved_at

-- The row after a lookup at a name server.
unfoldable pub looked_up : ℕ → Text → Option Text → Client → Client
looked_up now nameserver hostname c =
    if truthy hostname
    then record c { rdns_last_resolved_at = some now; rdns_name = hostname; rdns_last_error = none }
    else record c {
      rdns_last_resolved_at = some now;
      rdns_last_error = some (codes "PTR lookup failed via " ++ nameserver);
    }

-- The lookup, and the commit after it.
unfoldable pub ask :
    (Text → Text → Option Text) → ℕ → Client → Text → Session → Session × Option Text
unfolding looked_up
ask ptr_lookup now c nameserver s =
    let hostname = ptr_lookup c.ip nameserver in
    let after : Store = record s.current {
      clients = save_row client_id_of (looked_up now nameserver hostname c) s.current.clients;
    } in
    (
      record { stored = after; current = after; asked = s.asked ++ ((c.ip, nameserver) ∷ []) },
      if truthy hostname then hostname else c.display_name,
    )

abbrev pub ask_rule :
    (Text → Text → Option Text)
    → ℕ
    → Client
    → Session
    → Option ClientResolverRule
    → Session × Option Text
ask_rule ptr_lookup now c s none = (s, none)
ask_rule ptr_lookup now c s (some r) = ask ptr_lookup now c r.nameserver s

-- A name that was given, or else a lookup if there is a rule.
unfoldable pub named_or_ask :
    Ipv6 → (Text → Text → Option Text) → ℕ → Client → Session → Session × Option Text
unfolding get_matching_rule ask
named_or_ask ipv6 ptr_lookup now c s =
    if truthy c.display_name
    then (s, c.display_name)
    else ask_rule ptr_lookup now c s (get_matching_rule ipv6 c.ip s.current.rules)

abbrev pub cached_or :
    Ipv6
    → (Text → Text → Option Text)
    → ℕ
    → Client
    → Session
    → Option (Option Text)
    → Session × Option Text
cached_or ipv6 ptr_lookup now c s (some answer) = (s, answer)
cached_or ipv6 ptr_lookup now c s none = named_or_ask ipv6 ptr_lookup now c s

-- The row of the address, added without a commit if there is none.
abbrev pub row_of : Text → Session → Option Client → Session × Client
row_of ip s (some c) = (s, c)
row_of ip s none = (
  record s {
    current = record s.current {
      clients = s.current.clients ++ (new_client s.current.next_client ip ∷ []);
      next_client = s.current.next_client + 1;
    };
  },
  new_client s.current.next_client ip,
)

-- The session, and the name that is returned.
unfoldable pub resolve_client_hostname :
    Ipv6 → (Text → Text → Option Text) → ℕ → Bool → Text → Session → Session × Option Text
unfolding named_or_ask cached by_ip
resolve_client_hostname ipv6 ptr_lookup now force ip s =
    let row : Session × Client = row_of ip s (by_ip ip s.current.clients) in
    cached_or ipv6 ptr_lookup now row.1 row.0 (cached now force row.1)

-- A dictionary of the names.
unfoldable pub bulk_resolve_clients :
    Ipv6
    → (Text → Text → Option Text)
    → ℕ
    → List Text
    → Session
    → List (Text × Option Text)
    → Session × List (Text × Option Text)
unfolding resolve_client_hostname insert
bulk_resolve_clients ipv6 ptr_lookup now [] s results = (s, results)
bulk_resolve_clients ipv6 ptr_lookup now (ip ∷ ips) s results =
    let one : Session × Option Text = resolve_client_hostname ipv6 ptr_lookup now false ip s in
    bulk_resolve_clients ipv6 ptr_lookup now ips one.0 (insert ip one.1 results)

unfoldable pub resolve_each : Ipv6 → (Text → Text → Option Text) → ℕ → List Text → Session → Session
unfolding resolve_client_hostname
resolve_each ipv6 ptr_lookup now [] s = s
resolve_each ipv6 ptr_lookup now (ip ∷ ips) s =
    resolve_each ipv6 ptr_lookup now ips (resolve_client_hostname ipv6 ptr_lookup now false ip s).0

-- What is committed when the session is closed.
unfoldable pub background_resolve_clients :
    Ipv6 → (Text → Text → Option Text) → ℕ → List Text → Store → Store
unfolding resolve_each
background_resolve_clients ipv6 ptr_lookup now ips s =
    (resolve_each ipv6 ptr_lookup now ips (opened s)).stored

abbrev pub resolve_found : Ipv6 → (Text → Text → Option Text) → ℕ → Store → Option Client → Store
resolve_found ipv6 ptr_lookup now s none = s
resolve_found ipv6 ptr_lookup now s (some c) =
    (resolve_client_hostname ipv6 ptr_lookup now true c.ip (opened s)).0.stored

unfoldable pub clients_resolve : Ipv6 → (Text → Text → Option Text) → ℕ → ℕ → Store → Store
unfolding resolve_client_hostname get_row
clients_resolve ipv6 ptr_lookup now id s =
    resolve_found ipv6 ptr_lookup now s (get_row client_id_of id s.clients)

abbrev pub named : Text → Store → Option Client → Option Store
named name s none = some s
named name s (some c) =
    let after = record c { display_name = or_none (strip name) } in
    if text_fits after.display_name
    then some (record s { clients = save_row client_id_of after s.clients })
    else none

unfoldable pub clients_set_name : ℕ → Text → Store → Option Store
unfolding get_row strip
clients_set_name id display_name s = named display_name s (get_row client_id_of id s.clients)
