-- ===== src/Admin/Edits.antt =====
-- The requests that edit or delete a row keep the tables well-formed.
use power_blockade.Base.{
  ℕ, ◌≡◌, refl, String, true, not, Option, none, some, nat_eq, string_eq, list_eq, guarded,
}
use power_blockade.Blocklists.{Blocklist}
use power_blockade.Admin.{
  Store, ForwardZone, get_row, save_row, drop_row, list_id, zone_id, entry_id, EntryRow,
}
use power_blockade.Admin.Lists
use power_blockade.Admin.Lists.{
  new_blocklist, insert_blocklist, edit_found, edit_blocklist, list_change, set_schedule,
  schedule_fits, blocklists_add, blocklists_add_preset, blocklists_update_frequency,
  blocklists_toggle, blocklists_update_schedule, blocklists_delete,
}
use power_blockade.Admin.Entries
use power_blockade.Admin.Entries.{
  entry_fits, insert_entry, new_entry, entries_add, entries_delete, cleaned,
}
use power_blockade.Admin.Zones
use power_blockade.Admin.Zones.{
  or_none, chosen_node, insert_zone, zone_change, forward_zones_add, forward_zones_toggle,
  forward_zones_delete, toggle_found,
}
use power_blockade.Admin.Invariant.{
  url, IsWellFormed, record-IsWellFormed, save_list-IsWellFormed, drop_list-IsWellFormed,
  drop_zone-IsWellFormed, save_zone-IsWellFormed,
}

pub some-same : (x y : Store) → some x ≡ some y → x ≡ y
some-same x y h = (guarded true x y h).1

pub edit_found-IsWellFormed :
    (actor : ℕ) (action : String) (f : Blocklist → Blocklist) (id : ℕ) (s : Store)
    (o : Option Blocklist)
    → get_row list_id id s.blocklists ≡ o
    → ((b : Blocklist) → list_id (f b) ≡ list_id b)
    → ((b : Blocklist) → url (f b) ≡ url b)
    → IsWellFormed s
    → IsWellFormed (edit_found actor action f s o)
edit_found-IsWellFormed actor action f id s none h k u w = w
edit_found-IsWellFormed actor action f id s (some b) h k u w =
    record-IsWellFormed actor (list_change action b (some b) (some (f b)))
      (record s { blocklists = save_row list_id (f b) s.blocklists })
      (save_list-IsWellFormed id b (f b) s h (k b) (u b) w)

pub edit-IsWellFormed :
    (actor : ℕ) (action : String) (f : Blocklist → Blocklist) (id : ℕ) (s : Store)
    → ((b : Blocklist) → list_id (f b) ≡ list_id b)
    → ((b : Blocklist) → url (f b) ≡ url b)
    → IsWellFormed s
    → IsWellFormed (edit_blocklist actor action f id s)
unfolding edit_blocklist
edit-IsWellFormed actor action f id s k u w =
    edit_found-IsWellFormed actor action f id s (get_row list_id id s.blocklists) refl k u w

pub delete_list-IsWellFormed :
    (actor : ℕ) (s : Store) (o : Option Blocklist)
    → IsWellFormed s
    → IsWellFormed (Lists.delete_found actor s o)
delete_list-IsWellFormed actor s none w = w
delete_list-IsWellFormed actor s (some b) w =
    record-IsWellFormed actor (list_change "delete" b (some b) none) _
      (drop_list-IsWellFormed b.id s w)

pub delete_zone-IsWellFormed :
    (actor : ℕ) (s : Store) (o : Option ForwardZone)
    → IsWellFormed s
    → IsWellFormed (Zones.delete_found actor s o)
delete_zone-IsWellFormed actor s none w = w
delete_zone-IsWellFormed actor s (some z) w =
    record-IsWellFormed actor (zone_change "delete" z (some z) none) _
      (drop_zone-IsWellFormed z.id s w)

pub delete_entry-IsWellFormed :
    (actor : ℕ) (s : Store) (o : Option EntryRow)
    → IsWellFormed s
    → IsWellFormed (Entries.delete_found actor s o)
delete_entry-IsWellFormed actor s none w = w
delete_entry-IsWellFormed actor s (some e) w =
    record-IsWellFormed actor (Entries.entry_change "delete" e true)
      (record s { entries = drop_row entry_id e.id s.entries }) w

pub toggle_zone-IsWellFormed :
    (actor id : ℕ) (s : Store) (o : Option ForwardZone)
    → get_row zone_id id s.zones ≡ o
    → IsWellFormed s
    → IsWellFormed (toggle_found actor s o)
toggle_zone-IsWellFormed actor id s none h w = w
toggle_zone-IsWellFormed actor id s (some z) h w =
    let after : ForwardZone = record z { enabled = not z.enabled } in
    record-IsWellFormed actor (zone_change "toggle" z (some z) (some after))
      (record s { zones = save_row zone_id after s.zones })
      (save_zone-IsWellFormed id z after s h refl refl w)
