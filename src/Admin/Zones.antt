-- ===== src/Admin/Zones.antt =====
-- Forward zones: the requests of admin-ui/app/routers/forward_zones.py, and the file that
-- admin-ui/app/services/forward_zones.py makes of them.
use mathlib.Core.Option
use power_blockade.Base.{
  ℕ, ◌+◌, String, Bool, true, false, not, ◌&&◌, Option, none, some, List, [], ◌∷◌, ◌++◌, ◌==◌,
  nat_eq, list_eq, option_eq, leb, if◌then◌else◌, map, select, contains, length,
}
use power_blockade.Base.Texts.{Text, codes, strip, join}
use power_blockade.Base.Int.{ℤ, pos, negsuc, int}
use power_blockade.Admin.{
  Store, ForwardZone, of_zone, Change, record_change, get_row, save_row, drop_row, zone_id,
}
use power_blockade.Admin.Entries.{cleaned}

abbrev pub zone_change : String → ForwardZone → Option ForwardZone → Option ForwardZone → Change
zone_change action z before after = record {
  entity_type = "forward_zone";
  entity_id = some z.id;
  action = action;
  before_data = Option.map of_zone before;
  after_data = Option.map of_zone after;
  comment = none;
}

-- A node_id that is not NULL must be that of a node.
abbrev pub known_node : List ℕ → Option ℕ → Bool
known_node nodes none = true
known_node nodes (some id) = contains nodes id

-- The unique domain, its 255 characters, and the foreign key.
abbrev pub zone_fits : List ℕ → ForwardZone → List ForwardZone → Bool
zone_fits nodes z others =
    not (contains (map (λ o. o.domain) others) z.domain)
    && (leb (length z.domain) 255 && known_node nodes z.node_id)

-- db.add(zone) and db.flush()
unfoldable pub insert_zone : ForwardZone → Store → Option Store
insert_zone z s =
    if zone_fits s.nodes z s.zones
    then some (record s { zones = s.zones ++ (z ∷ []); next_zone = s.next_zone + 1 })
    else none

-- `text or None`
abbrev pub or_none : Text → Option Text
or_none [] = none
or_none (c ∷ s) = some (c ∷ s)

-- The form's node: only if the zone is not for all, and if its text is an integer. A negative one
-- names no node: it fails the flush as id 0 does.
abbrev pub node_or_zero : ℤ → ℕ
node_or_zero (pos n) = n
node_or_zero (negsuc n) = 0

unfoldable pub chosen_node : Bool → Text → Option ℕ
unfolding int
chosen_node true node_id = none
chosen_node false [] = none
chosen_node false (c ∷ s) = Option.map node_or_zero (int (c ∷ s))

unfoldable pub forward_zones_add : ℕ → Text → Text → Text → Bool → Text → Store → Option Store
unfolding cleaned strip chosen_node insert_zone record_change
forward_zones_add actor domain servers description apply_globally node_id s =
    let z : ForwardZone = record {
      id = s.next_zone;
      domain = cleaned domain;
      servers = strip servers;
      description = or_none (strip description);
      enabled = true;
      node_id = chosen_node apply_globally node_id;
    } in
    Option.map (record_change actor (zone_change "create" z none (some z))) (insert_zone z s)

abbrev pub toggle_found : ℕ → Store → Option ForwardZone → Store
toggle_found actor s none = s
toggle_found actor s (some z) =
    let after : ForwardZone = record z { enabled = not z.enabled } in
    record_change actor (zone_change "toggle" z (some z) (some after))
      (record s { zones = save_row zone_id after s.zones })

unfoldable pub forward_zones_toggle : ℕ → ℕ → Store → Store
unfolding get_row record_change
forward_zones_toggle actor id s = toggle_found actor s (get_row zone_id id s.zones)

abbrev pub delete_found : ℕ → Store → Option ForwardZone → Store
delete_found actor s none = s
delete_found actor s (some z) =
    record_change actor (zone_change "delete" z (some z) none)
      (record s { zones = drop_row zone_id z.id s.zones })

unfoldable pub forward_zones_delete : ℕ → ℕ → Store → Store
unfolding get_row record_change
forward_zones_delete actor id s = delete_found actor s (get_row zone_id id s.zones)

-- A zone that every node forwards.
abbrev pub is_global : ForwardZone → Bool
is_global z = z.enabled && z.node_id == none

abbrev pub zone_line : ForwardZone → Text
zone_line z = z.domain ++ (b'=' ∷ z.servers)

abbrev pub newline : Text
newline = b'\n' ∷ []

unfoldable pub generate_forward_zones_config : List ForwardZone → Text
unfolding join
generate_forward_zones_config zones = join newline (
    codes "# Forward zones for PowerDNS Recursor"
    ∷ (codes "# Generated automatically - do not edit manually" ++ newline)
    ∷ map zone_line (select is_global zones))

-- forward_zones_apply: the file, and the number of zones that its message names.
unfoldable pub forward_zones_apply : List ForwardZone → Text × ℕ
unfolding generate_forward_zones_config
forward_zones_apply zones = (
  generate_forward_zones_config zones,
  length (select is_global zones)
      + length (select (λ z. z.enabled && not (z.node_id == none)) zones),
)
