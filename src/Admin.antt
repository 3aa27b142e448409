-- ===== src/Admin.antt =====
-- The tables that an administrator edits, and the log of the changes: admin-ui/app/models/blocklist.py,
-- manual_entry.py, forward_zone.py and config_change.py, with record_change and model_to_dict of
-- admin-ui/app/services/config_audit.py. A request answers with the store after it; `none` is an
-- exception, by which the transaction is rolled back.
pub mod Strings
pub mod Rows
pub mod Tables
pub mod Lists
pub mod Entries
pub mod Zones
pub mod Rollback
pub mod Invariant
pub mod Requests
pub mod Edits
pub mod Inserts
pub mod Kept
mod Tests
use power_blockade.Base.{
  ℕ, ◌+◌, ◌*◌, String, Bool, true, false, Option, none, some, List, [], ◌∷◌, ◌++◌, ◌==◌, nat_eq,
  if◌then◌else◌, map, select, not,
}
use power_blockade.Base.Texts.{Text}
use power_blockade.Blocklists.{Blocklist, BlocklistEntry, ManualEntry}

pub record ForwardZone : Type 0 where
  pub id : ℕ
  pub domain : Text
  pub servers : Text
  pub description : Option Text
  pub enabled : Bool
  pub node_id : Option ℕ

-- A row of manual_entries with its id.
pub record EntryRow : Type 0 where
  pub id : ℕ
  pub entry : ManualEntry

-- What model_to_dict makes of a row: all its columns.
pub data Snapshot : Type 0 where
  of_blocklist : Blocklist → Snapshot
  of_zone : ForwardZone → Snapshot
  of_entry : EntryRow → Snapshot

pub record ConfigChange : Type 0 where
  pub id : ℕ
  pub entity_type : String
  pub entity_id : Option ℕ
  pub action : String
  pub actor_user_id : Option ℕ
  pub before_data : Option Snapshot
  pub after_data : Option Snapshot
  pub comment : Option Text

-- The tables, the ids of the nodes that a foreign key may name, and the sequences of the ids.
pub record Store : Type 0 where
  pub blocklists : List Blocklist
  pub stored : List BlocklistEntry
  pub entries : List EntryRow
  pub zones : List ForwardZone
  pub changes : List ConfigChange
  pub nodes : List ℕ
  pub next_blocklist : ℕ
  pub next_entry : ℕ
  pub next_zone : ℕ
  pub next_change : ℕ

-- What is recorded of a change, before it has an id.
pub record Change : Type 0 where
  pub entity_type : String
  pub entity_id : Option ℕ
  pub action : String
  pub before_data : Option Snapshot
  pub after_data : Option Snapshot
  pub comment : Option Text

unfoldable pub record_change : ℕ → Change → Store → Store
record_change actor c s = record s {
  changes =
      s.changes
      ++ (record {
        id = s.next_change;
        entity_type = c.entity_type;
        entity_id = c.entity_id;
        action = c.action;
        actor_user_id = some actor;
        before_data = c.before_data;
        after_data = c.after_data;
        comment = c.comment;
      }
          ∷ []);
  next_change = s.next_change + 1;
}

-- `db.get(Model, id)` on a table whose rows have an id.
unfoldable pub get_row {ℓ} : {A : Type ℓ} → (A → ℕ) → ℕ → List A → Option A
get_row key id [] = none
get_row key id (a ∷ rows) = let rest = get_row key id rows in if key a == id then some a else rest

-- A row that was edited, written back.
abbrev pub save_row {ℓ} : {A : Type ℓ} → (A → ℕ) → A → List A → List A
save_row key row = map (λ a. if key a == key row then row else a)

-- `db.delete(row)`
abbrev pub drop_row {ℓ} : {A : Type ℓ} → (A → ℕ) → ℕ → List A → List A
drop_row key id = select (λ a. not (key a == id))

abbrev pub list_id : Blocklist → ℕ
list_id b = b.id

abbrev pub zone_id : ForwardZone → ℕ
zone_id z = z.id

abbrev pub change_id : ConfigChange → ℕ
change_id c = c.id

abbrev pub entry_id : EntryRow → ℕ
entry_id e = e.id

-- An exception leaves the tables.
abbrev pub or_store : Option Store → Store → Store
or_store none s = s
or_store (some after) s = after
