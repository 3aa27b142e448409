-- ===== src/Clients/Always.antt =====
-- Every sequence of requests keeps the groups in order.
use power_blockade.Base.{
  ℕ, ◌≡◌, refl, Bool, true, false, Option, none, some, List, [], ◌∷◌, arith, list_eq, nat_eq,
  Option-cases, Bool-cases, inl, inr, All-append,
}
use power_blockade.Base.Int.{ℤ}
use power_blockade.Base.Texts.{Text, strip}
use power_blockade.Base.Addresses.{Ipv6}
use power_blockade.Admin.{get_row}
use power_blockade.Admin.Zones.{or_none}
use power_blockade.Clients.{
  Client, ClientGroup, ClientResolverRule, Store, by_ip, new_client, client_id_of, group_id_of,
}
use power_blockade.Clients.Groups.{
  known_group, delete_group, update_group, set_client_group, chosen_group,
}
use power_blockade.Clients.Rules.{
  rule_fits, new_rule, toggle_found, text_fits, client_resolver_add, client_resolver_toggle,
  client_resolver_delete, get_matching_rule,
}
use power_blockade.Clients.Names.{
  Session, opened, truthy, cached, looked_up, ask, ask_rule, named_or_ask, cached_or, row_of,
  resolve_client_hostname, resolve_each, background_resolve_clients, resolve_found, clients_resolve,
  named, clients_set_name,
}
use power_blockade.Clients.Grouped.{IsGrouped, IsMember, All-save, All-get_row}
use power_blockade.Clients.Invariant.{
  create-IsGrouped, deleted-IsGrouped, updated-IsGrouped, assigned-IsGrouped, set-IsGrouped,
}
use power_blockade.Clients.Requests.{
  Request, create, delete, update, auto_assign, set_group, add_rule, toggle_rule, delete_rule,
  set_name, resolve, resolve_new, handle, or_kept, serve,
}

-- The row of an address is in a group that exists, as all rows are.
by_ip-known :
    (groups : List ClientGroup) (ip : Text) (clients : List Client) (c : Client)
    → by_ip ip clients ≡ some c
    → IsMember groups clients
    → known_group groups c.group_id ≡ true
unfolding by_ip
by_ip-known groups ip [] c h all = absurd (ground arith)
by_ip-known groups ip (d ∷ clients) c h all =
    ground (arith, by_ip-known groups ip clients c, all.0, all.1)

-- Both what is committed and what the session sees.
abbrev IsInOrder : Ipv6 → Session → Type 0
IsInOrder ipv6 s = IsGrouped ipv6 s.stored × IsGrouped ipv6 s.current

grouped_same :
    (now : ℕ) (nameserver : Text) (hostname : Option Text) (c : Client) (groups : List ClientGroup)
    → known_group groups c.group_id ≡ true
    → known_group groups (looked_up now nameserver hostname c).group_id ≡ true
unfolding looked_up
grouped_same now nameserver hostname c groups known = elim (Bool-cases (truthy hostname)) [
  | inl e ↦ rw e known
  | inr n ↦ rw n known
]

module _ (ipv6 : Ipv6) (ptr : Text → Text → Option Text) (now : ℕ) where
  ask-IsInOrder :
      (c : Client) (nameserver : Text) (s : Session)
      → known_group s.current.groups c.group_id ≡ true
      → IsInOrder ipv6 s
      → IsInOrder ipv6 (ask ptr now c nameserver s).0
  unfolding ask
  ask-IsInOrder c nameserver s known (w, v) =
      let d : Client = looked_up now nameserver (ptr c.ip nameserver) c in
      let members =
        All-save client_id_of _ d s.current.clients
          (grouped_same now nameserver (ptr c.ip nameserver) c s.current.groups known) v.1.1.1 in
      ((v.0, (v.1.0, (v.1.1.0, members))), (v.0, (v.1.0, (v.1.1.0, members))))

  rule-IsInOrder :
      (c : Client) (o : Option ClientResolverRule) (s : Session)
      → known_group s.current.groups c.group_id ≡ true
      → IsInOrder ipv6 s
      → IsInOrder ipv6 (ask_rule ptr now c s o).0
  rule-IsInOrder c none s known w = w
  rule-IsInOrder c (some r) s known w = ask-IsInOrder c r.nameserver s known w

  cached-IsInOrder :
      (c : Client) (hit : Option (Option Text)) (s : Session)
      → known_group s.current.groups c.group_id ≡ true
      → IsInOrder ipv6 s
      → IsInOrder ipv6 (cached_or ipv6 ptr now c s hit).0
  unfolding named_or_ask
  cached-IsInOrder c (some answer) s known w = w
  cached-IsInOrder c none s known w = elim (Bool-cases (truthy c.display_name)) [
    | inl e ↦ rw e w
    | inr n ↦ rw n (rule-IsInOrder c (get_matching_rule ipv6 c.ip s.current.rules) s known w)
  ]

  row-IsInOrder :
      (ip : Text) (s : Session)
      → IsInOrder ipv6 s
      → let row : Session × Client = row_of ip s (by_ip ip s.current.clients) in
        IsInOrder ipv6 row.0 × (known_group row.0.current.groups row.1.group_id ≡ true)
  row-IsInOrder ip s (w, v) = elim (Option-cases (by_ip ip s.current.clients)) [
    | inl absent ↦ rw absent (
      (
        w,
        (
          v.0,
          (
            v.1.0,
            (
              v.1.1.0,
              All-append _ s.current.clients (new_client s.current.next_client ip ∷ []) v.1.1.1
                  (refl, tt),
            ),
          ),
        ),
      ),
      refl,
    )
    | inr (c, found) ↦
        rw found ((w, v), by_ip-known s.current.groups ip s.current.clients c found v.1.1.1)
  ]

  resolve-IsInOrder :
      (force : Bool) (ip : Text) (s : Session)
      → IsInOrder ipv6 s
      → IsInOrder ipv6 (resolve_client_hostname ipv6 ptr now force ip s).0
  unfolding resolve_client_hostname
  resolve-IsInOrder force ip s w =
      let row : Session × Client = row_of ip s (by_ip ip s.current.clients) in
      let (v, known) = row-IsInOrder ip s w in
      cached-IsInOrder row.1 (cached now force row.1) row.0 known v

  each-IsInOrder :
      (ips : List Text) (s : Session)
      → IsInOrder ipv6 s
      → IsInOrder ipv6 (resolve_each ipv6 ptr now ips s)
  unfolding resolve_each
  each-IsInOrder [] s w = w
  each-IsInOrder (ip ∷ ips) s w =
      each-IsInOrder ips (resolve_client_hostname ipv6 ptr now false ip s).0
        (resolve-IsInOrder false ip s w)

  found-IsGrouped :
      (s : Store) (o : Option Client)
      → IsGrouped ipv6 s
      → IsGrouped ipv6 (resolve_found ipv6 ptr now s o)
  found-IsGrouped s none w = w
  found-IsGrouped s (some c) w = (resolve-IsInOrder true c.ip (opened s) (w, w)).0

named-IsGrouped :
    (ipv6 : Ipv6) (id : ℕ) (name : Text) (s : Store) (o : Option Client)
    → get_row client_id_of id s.clients ≡ o
    → IsGrouped ipv6 s
    → IsGrouped ipv6 (or_kept (named name s o) s)
named-IsGrouped ipv6 id name s none found w = w
named-IsGrouped ipv6 id name s (some c) found w =
    let after : Client = record c { display_name = or_none (strip name) } in
    let members =
      All-save client_id_of _ after s.clients
        (All-get_row client_id_of _ id s.clients c found w.1.1.1) w.1.1.1 in
    elim (Bool-cases (text_fits after.display_name)) [
      | inl e ↦ rw e (w.0, (w.1.0, (w.1.1.0, members)))
      | inr n ↦ rw n w
    ]

added-IsGrouped :
    (ipv6 : Ipv6) (subnet nameserver description : Text) (priority : ℤ) (s : Store)
    → IsGrouped ipv6 s
    → IsGrouped ipv6 (or_kept (client_resolver_add subnet nameserver description priority s) s)
unfolding client_resolver_add
added-IsGrouped ipv6 subnet nameserver description priority s w =
    elim (Bool-cases
      (rule_fits (new_rule s.next_rule subnet nameserver description priority) s.rules)) [
        | inl e ↦ rw e w
        | inr n ↦ rw n w
      ]

toggled-IsGrouped :
    (ipv6 : Ipv6) (s : Store) (o : Option ClientResolverRule)
    → IsGrouped ipv6 s
    → IsGrouped ipv6 (toggle_found s o)
toggled-IsGrouped ipv6 s none w = w
toggled-IsGrouped ipv6 s (some r) w = w

module _ (ipv6 : Ipv6) (ptr : Text → Text → Option Text) where
  handle-IsGrouped :
      (now : ℕ) (r : Request) (s : Store)
      → IsGrouped ipv6 s
      → IsGrouped ipv6 (or_kept (handle ipv6 ptr now r s) s)
  unfolding handle delete_group update_group set_client_group clients_set_name clients_resolve
      background_resolve_clients client_resolver_toggle client_resolver_delete
  handle-IsGrouped now (create name description cidr color) s w =
      create-IsGrouped ipv6 name description cidr color s w
  handle-IsGrouped now (delete id) s w =
      deleted-IsGrouped ipv6 id s (get_row group_id_of id s.groups) w
  handle-IsGrouped now (update id name description cidr color) s w =
      updated-IsGrouped ipv6 id name description cidr color s (get_row group_id_of id s.groups) refl
        w
  handle-IsGrouped now auto_assign s w = assigned-IsGrouped ipv6 s w
  handle-IsGrouped now (set_group id group) s w =
      set-IsGrouped ipv6 (chosen_group group) s (get_row client_id_of id s.clients) w
  handle-IsGrouped now (add_rule subnet nameserver description priority) s w =
      added-IsGrouped ipv6 subnet nameserver description priority s w
  handle-IsGrouped now (toggle_rule id) s w = toggled-IsGrouped ipv6 s _ w
  handle-IsGrouped now (delete_rule id) s w = w
  handle-IsGrouped now (set_name id name) s w =
      named-IsGrouped ipv6 id name s (get_row client_id_of id s.clients) refl w
  handle-IsGrouped now (resolve id) s w =
      found-IsGrouped ipv6 ptr now s (get_row client_id_of id s.clients) w
  handle-IsGrouped now (resolve_new ips) s w = (each-IsInOrder ipv6 ptr now ips (opened s) (w, w)).0

  -- If groups have distinct ids, behind their sequence, and distinct names, each group's network is
  -- NULL or can be read, and each client is in no group or in one that exists, then all of that
  -- holds after every sequence of requests and of lookups in the background.
  pub serve-IsGrouped :
      (requests : List (ℕ × Request)) (s : Store)
      → IsGrouped ipv6 s
      → IsGrouped ipv6 (serve ipv6 ptr requests s)
  unfolding serve
  serve-IsGrouped [] s w = w
  serve-IsGrouped ((now, r) ∷ requests) s w =
      serve-IsGrouped requests (or_kept (handle ipv6 ptr now r s) s) (handle-IsGrouped now r s w)
