-- ===== src/Admin/Requests.antt =====
-- The administrator's requests on lists, entries and forward zones as one data type, the rollback
-- of a recorded change among them; the requests that apply them are in Filter.Apply and Admin.Zones.
use mathlib.Core.Option
use power_blockade.Base.{ℕ, String, Bool, Option, some, List, [], ◌∷◌, nat_eq, string_eq, list_eq}
use power_blockade.Base.Texts.{Text}
use power_blockade.Admin.{Store, or_store}
use power_blockade.Admin.Lists.{
  blocklists_add, blocklists_add_preset, blocklists_update_frequency, blocklists_toggle,
  blocklists_update_schedule, blocklists_delete,
}
use power_blockade.Admin.Entries.{entries_add, entries_delete}
use power_blockade.Admin.Zones.{forward_zones_add, forward_zones_toggle, forward_zones_delete}
use power_blockade.Admin.Rollback.{rollback_change}

pub data Request : Type 0 where
  add_list : String → String → Text → String → ℕ → Request
  add_preset : String → String → Text → String → Request
  update_frequency : ℕ → ℕ → Request
  toggle_list : ℕ → Request
  update_schedule : ℕ → Bool → Text → Text → List Text → Request
  delete_list : ℕ → Request
  add_entry : Text → String → Request
  delete_entry : ℕ → Request
  add_zone : Text → Text → Text → Bool → Text → Request
  toggle_zone : ℕ → Request
  delete_zone : ℕ → Request
  rollback : ℕ → Request

unfoldable pub handle : ℕ → Request → Store → Option Store
unfolding blocklists_add blocklists_add_preset blocklists_update_frequency blocklists_toggle
    blocklists_update_schedule blocklists_delete entries_add entries_delete forward_zones_add
    forward_zones_toggle forward_zones_delete rollback_change
handle actor (add_list name url format list_type hours) s =
    blocklists_add actor name url format list_type hours s
handle actor (add_preset name url format list_type) s =
    some (blocklists_add_preset name url format list_type s)
handle actor (update_frequency id hours) s = some (blocklists_update_frequency actor id hours s)
handle actor (toggle_list id) s = some (blocklists_toggle actor id s)
handle actor (update_schedule id on start end days) s =
    blocklists_update_schedule actor id on start end days s
handle actor (delete_list id) s = some (blocklists_delete actor id s)
handle actor (add_entry domain entry_type) s = entries_add actor domain entry_type s
handle actor (delete_entry id) s = some (entries_delete actor id s)
handle actor (add_zone domain servers description all node) s =
    forward_zones_add actor domain servers description all node s
handle actor (toggle_zone id) s = some (forward_zones_toggle actor id s)
handle actor (delete_zone id) s = some (forward_zones_delete actor id s)
handle actor (rollback id) s = Option.map (λ answer. answer.0) (rollback_change actor id s)

-- Requests of users one after the other.
unfoldable pub serve : List (ℕ × Request) → Store → Store
unfolding handle
serve [] s = s
serve ((actor, r) ∷ rs) s = serve rs (or_store (handle actor r s) s)
