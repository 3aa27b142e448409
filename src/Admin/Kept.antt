-- ===== src/Admin/Kept.antt =====
-- Every request, and so every sequence of them, keeps the tables well-formed.
use power_blockade.Base.{
  ℕ, ◌≡◌, ◌≢◌, refl, true, not, some, List, [], ◌∷◌, nat_eq, string_eq, list_eq,
}
use power_blockade.Base.Texts.{Text, codes}
use power_blockade.Base.Texts
use power_blockade.Blocklists.{Blocklist}
use power_blockade.Admin.{Store, get_row, list_id, zone_id, change_id, entry_id, or_store}
use power_blockade.Admin.Rows.{get_row-absent}
use power_blockade.Admin.Tables.{next-new}
use power_blockade.Admin.Strings
use power_blockade.Admin.Lists.{
  new_blocklist, insert_blocklist, edit_blocklist, set_schedule, schedule_fits,
  blocklists_update_frequency, blocklists_toggle,
}
use power_blockade.Admin.Entries.{new_entry, cleaned}
use power_blockade.Admin.Zones.{or_none, chosen_node}
use power_blockade.Admin.Rollback.Restored.{HasFreshLog, IsUndone, edits-IsUndone}
use power_blockade.Admin.Rollback.Kept.{rollback-IsWellFormed}
use power_blockade.Admin.Invariant.{IsWellFormed}
use power_blockade.Admin.Requests.{
  Request, add_list, add_preset, update_frequency, toggle_list, update_schedule, delete_list,
  add_entry, delete_entry, add_zone, toggle_zone, delete_zone, rollback, handle, serve,
}
use power_blockade.Admin.Edits.{
  edit-IsWellFormed, delete_list-IsWellFormed, delete_zone-IsWellFormed, delete_entry-IsWellFormed,
  toggle_zone-IsWellFormed,
}
use power_blockade.Admin.Inserts.{
  preset-IsWellFormed, add_list-IsWellFormed, add_zone-IsWellFormed, add_entry-IsWellFormed,
  guarded-IsWellFormed,
}

handle-IsWellFormed :
    (actor : ℕ) (r : Request) (s : Store)
    → IsWellFormed s
    → IsWellFormed (or_store (handle actor r s) s)
unfolding handle
handle-IsWellFormed actor (add_list name u format list_type hours) s w =
    add_list-IsWellFormed actor
      (new_blocklist s.next_blocklist (Strings.strip name) (Strings.strip u) (Texts.strip format)
        (Strings.strip list_type) true hours)
      s refl w
handle-IsWellFormed actor (add_preset name u format list_type) s w =
    let b =
      new_blocklist s.next_blocklist (Strings.strip name) (Strings.strip u) (Texts.strip format)
        (Strings.strip list_type) true 24 in
    preset-IsWellFormed b s (insert_blocklist b s) refl refl w
handle-IsWellFormed actor (update_frequency id hours) s w =
    edit-IsWellFormed actor "update_frequency" (λ b. record b { update_frequency_hours = hours }) id
      s (λ b. refl) (λ b. refl) w
handle-IsWellFormed actor (toggle_list id) s w =
    edit-IsWellFormed actor "toggle" (λ b. record b { enabled = not b.enabled }) id s (λ b. refl)
      (λ b. refl) w
handle-IsWellFormed actor (update_schedule id on start end days) s w =
    guarded-IsWellFormed (schedule_fits start end days (get_row list_id id s.blocklists))
      (edit_blocklist actor "update_schedule" (set_schedule on start end days) id s) s
      (edit-IsWellFormed actor "update_schedule" (set_schedule on start end days) id s (λ b. refl)
        (λ b. refl) w)
      w
handle-IsWellFormed actor (delete_list id) s w =
    delete_list-IsWellFormed actor s (get_row list_id id s.blocklists) w
handle-IsWellFormed actor (add_entry d entry_type) s w =
    add_entry-IsWellFormed actor (new_entry s.next_entry (cleaned d) entry_type) s w
handle-IsWellFormed actor (delete_entry id) s w =
    delete_entry-IsWellFormed actor s (get_row entry_id id s.entries) w
handle-IsWellFormed actor (add_zone d servers description all node) s w =
    add_zone-IsWellFormed actor
      (record {
        id = s.next_zone;
        domain = cleaned d;
        servers = Texts.strip servers;
        description = or_none (Texts.strip description);
        enabled = true;
        node_id = chosen_node all node;
      })
      s refl w
handle-IsWellFormed actor (toggle_zone id) s w =
    toggle_zone-IsWellFormed actor id s (get_row zone_id id s.zones) refl w
handle-IsWellFormed actor (delete_zone id) s w =
    delete_zone-IsWellFormed actor s (get_row zone_id id s.zones) w
handle-IsWellFormed actor (rollback id) s w = rollback-IsWellFormed actor s w id

-- Whatever requests add, edit, toggle and delete lists, entries and forward zones, or take back
-- recorded changes, in whatever order, the ids of lists, zones and changes stay unique and behind
-- their sequences, no two lists share an url, and no two forward zones a domain.
pub serve-IsWellFormed :
    (rs : List (ℕ × Request)) (s : Store) → IsWellFormed s → IsWellFormed (serve rs s)
unfolding serve
serve-IsWellFormed [] s w = w
serve-IsWellFormed ((actor, r) ∷ rs) s w =
    serve-IsWellFormed rs (or_store (handle actor r s) s) (handle-IsWellFormed actor r s w)

fresh_log : (s : Store) → IsWellFormed s → HasFreshLog s
fresh_log s w =
    get_row-absent change_id s.next_change s.changes
      (next-new change_id s.next_change s.changes w.1.1.1.1)

-- After any requests on well-formed tables, taking back a toggle or a change of the frequency of a
-- list that is there succeeds, and leaves the lists as they were before it.
pub served-IsUndone :
    (rs : List (ℕ × Request)) (start : Store)
    → IsWellFormed start
    → (actor id hours : ℕ) (b : Blocklist) → id ≢ 0
    → get_row list_id id (serve rs start).blocklists ≡ some b
    → IsUndone actor (serve rs start) (blocklists_toggle actor id (serve rs start))
      × IsUndone actor
          (serve rs start)
          (blocklists_update_frequency actor id hours (serve rs start))
served-IsUndone rs start w actor id hours b nz found =
    let s = serve rs start in
    let kept = serve-IsWellFormed rs start w in
    edits-IsUndone actor id hours s b (fresh_log s kept) kept.0.0 nz found
