-- ===== src/Admin/Rollback.antt =====
-- Taking back a recorded change: rollback_change of admin-ui/app/routers/audit.py. The message that
-- it answers with is a constructor.
pub mod Restored
pub mod Remade
pub mod Kept
use mathlib.Core.Option
use power_blockade.Base.{
  ℕ, ◌+◌, String, Bool, true, false, not, ◌&&◌, ◌||◌, Option, none, some, List, [], ◌∷◌, ◌++◌, ◌==◌,
  nat_eq, string_eq, list_eq, if◌then◌else◌, map, select, contains, ◌>>=◌,
}
use power_blockade.Base.Texts.{Text, codes}
use power_blockade.Base.Decimal.{show}
use power_blockade.Blocklists.{Blocklist}
use power_blockade.Admin.{
  Store, ForwardZone, Snapshot, of_blocklist, of_zone, of_entry, ConfigChange, Change,
  record_change, get_row, save_row, drop_row, list_id, zone_id, change_id,
}
use power_blockade.Admin.Lists.{new_blocklist, insert_blocklist, list_change, without_list}
use power_blockade.Admin.Zones.{insert_zone, zone_change, zone_fits}

pub data Message : Type 0 where
  change_not_found : Message
  not_supported : Message
  cannot_rollback : Message
  already_exists : Message
  restored : Message
  missing_id : Message
  not_found : Message
  rolled_back : Message
  already_deleted : Message
  deleted : Message
  unsupported_type : Message

abbrev pub Answer : Type 0
Answer = Store × Message

-- The first list of an url, or the first zone of a domain.
abbrev pub has_url : String → List Blocklist → Bool
has_url url rows = contains (map (λ b. b.url) rows) url

abbrev pub has_domain : Text → List ForwardZone → Bool
has_domain domain rows = contains (map (λ z. z.domain) rows) domain

abbrev pub commented : Text → Change → Change
commented comment c = record c { comment = some comment }

-- _rollback_delete: a new row from the recorded one. Of a list only six columns come back.
unfoldable pub rollback_delete : ℕ → ConfigChange → Snapshot → Store → Option Answer
unfolding insert_blocklist insert_zone record_change show
rollback_delete actor change (of_blocklist old) s =
    let b =
      new_blocklist s.next_blocklist old.name old.url old.format old.list_type old.enabled
        old.update_frequency_hours in
    let done =
      commented (codes "Rolled back delete from change #" ++ show change.id)
        (list_change "rollback_restore" b none (some b)) in
    if has_url old.url s.blocklists
    then some (s, already_exists)
    else Option.map (λ after. (record_change actor done after, restored)) (insert_blocklist b s)
rollback_delete actor change (of_zone old) s =
    let z : ForwardZone = record old { id = s.next_zone } in
    let done =
      commented (codes "Rolled back delete from change #" ++ show change.id)
        (zone_change "rollback_restore" z none (some z)) in
    if has_domain old.domain s.zones
    then some (s, already_exists)
    else Option.map (λ after. (record_change actor done after, restored)) (insert_zone z s)
rollback_delete actor change (of_entry old) s = some (s, unsupported_type)

-- `if not change.entity_id`: 0 is no id.
abbrev pub real_id : Option ℕ → Option ℕ
real_id none = none
real_id (some id) = if id == 0 then none else some id

-- The columns that an update brings back.
abbrev pub revert_list : Blocklist → Blocklist → Blocklist
revert_list old b = record b {
  name = old.name;
  enabled = old.enabled;
  update_frequency_hours = old.update_frequency_hours;
}

abbrev pub revert_zone : ForwardZone → ForwardZone → ForwardZone
revert_zone old z = record z {
  domain = old.domain;
  servers = old.servers;
  description = old.description;
  enabled = old.enabled;
}

-- The row that is found, with its recorded state, or the exception of a domain that another zone
-- has by now.
unfoldable pub rollback_list_update :
    ℕ → Text → Blocklist → Option Blocklist → Store → Option Answer
unfolding record_change
rollback_list_update actor comment old none s = some (s, not_found)
rollback_list_update actor comment old (some b) s =
    let after = revert_list old b in
    some (
      record_change actor
          (commented comment (list_change "rollback_update" b (some b) (some after)))
          (record s { blocklists = save_row list_id after s.blocklists }),
      rolled_back,
    )

unfoldable pub rollback_zone_update :
    ℕ → Text → ForwardZone → Option ForwardZone → Store → Option Answer
unfolding record_change
rollback_zone_update actor comment old none s = some (s, not_found)
rollback_zone_update actor comment old (some z) s =
    let after = revert_zone old z in
    if has_domain old.domain (drop_row zone_id z.id s.zones)
    then none
    else some (
      record_change actor
          (commented comment (zone_change "rollback_update" z (some z) (some after)))
          (record s { zones = save_row zone_id after s.zones }),
      rolled_back,
    )

abbrev pub update_kind : ℕ → Text → Snapshot → ℕ → Store → Option Answer
update_kind actor comment (of_blocklist b) id s =
    rollback_list_update actor comment b (get_row list_id id s.blocklists) s
update_kind actor comment (of_zone z) id s =
    rollback_zone_update actor comment z (get_row zone_id id s.zones) s
update_kind actor comment (of_entry e) id s = some (s, unsupported_type)

abbrev pub update_known : ℕ → Text → Snapshot → Option ℕ → Store → Option Answer
update_known actor comment old none s = some (s, missing_id)
update_known actor comment old (some id) s = update_kind actor comment old id s

-- _rollback_update
unfoldable pub rollback_update : ℕ → ConfigChange → Snapshot → Store → Option Answer
unfolding rollback_list_update rollback_zone_update get_row show
rollback_update actor change old s =
    update_known actor (codes "Rolled back change #" ++ show change.id) old
      (real_id change.entity_id) s

abbrev pub drop_list : ℕ → Text → Store → Option Blocklist → Answer
drop_list actor comment s none = (s, already_deleted)
drop_list actor comment s (some b) = (
  record_change actor (commented comment (list_change "rollback_delete" b (some b) none))
      (record s {
        blocklists = drop_row list_id b.id s.blocklists;
        stored = without_list b.id s.stored;
      }),
  deleted,
)

abbrev pub drop_zone : ℕ → Text → Store → Option ForwardZone → Answer
drop_zone actor comment s none = (s, already_deleted)
drop_zone actor comment s (some z) = (
  record_change actor (commented comment (zone_change "rollback_delete" z (some z) none))
      (record s { zones = drop_row zone_id z.id s.zones }),
  deleted,
)

-- _rollback_create, where the id is known not to be NULL or 0.
unfoldable pub rollback_create : ℕ → ConfigChange → ℕ → Store → Answer
unfolding record_change get_row show
rollback_create actor change id s =
    let comment = codes "Rolled back create from change #" ++ show change.id in
    if change.entity_type == "blocklist"
    then drop_list actor comment s (get_row list_id id s.blocklists)
    else drop_zone actor comment s (get_row zone_id id s.zones)

abbrev pub supported : String → Bool
supported entity_type = entity_type == "blocklist" || entity_type == "forward_zone"

abbrev pub updates : String → Bool
updates action =
    action == "create"
    || (action == "toggle" || (action == "update" || action == "update_frequency"))

-- The branches by the action and by what was recorded.
abbrev pub without_before : ℕ → ConfigChange → Store → Option ℕ → Option Answer
without_before actor change s none = some (s, cannot_rollback)
without_before actor change s (some id) =
    if change.action == "create"
    then some (rollback_create actor change id s)
    else some (s, cannot_rollback)

abbrev pub dispatch : ℕ → ConfigChange → Option Snapshot → Store → Option Answer
dispatch actor change none s = without_before actor change s (real_id change.entity_id)
dispatch actor change (some old) s =
    if change.action == "delete"
    then rollback_delete actor change old s
    else if updates change.action
    then rollback_update actor change old s
    else some (s, cannot_rollback)

abbrev pub rollback_found : ℕ → Option ConfigChange → Store → Option Answer
rollback_found actor none s = some (s, change_not_found)
rollback_found actor (some change) s =
    if supported change.entity_type
    then dispatch actor change change.before_data s
    else some (s, not_supported)

unfoldable pub rollback_change : ℕ → ℕ → Store → Option Answer
unfolding get_row rollback_create rollback_update rollback_delete
rollback_change actor id s = rollback_found actor (get_row change_id id s.changes) s
