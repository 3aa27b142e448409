-- ===== src/Admin/Entries.antt =====
-- The requests on manual entries: entries_add of admin-ui/app/routers/blocklists.py and
-- entries_delete of routers/entries.py. The comment of an entry is left out.
use mathlib.Core.Option
use power_blockade.Base.{
  ℕ, ◌+◌, String, Bool, true, false, not, ◌&&◌, Option, none, some, List, [], ◌∷◌, ◌++◌, ◌==◌,
  nat_eq, list_eq, leb, if◌then◌else◌, map, contains, length,
}
use power_blockade.Base.Texts.{Text, strip, lower, rstrip}
use power_blockade.Admin.{
  Store, EntryRow, of_entry, Change, record_change, get_row, drop_row, entry_id,
}
use power_blockade.Admin.Strings

-- `text.strip().lower().rstrip(".")`
unfoldable pub cleaned : Text → Text
unfolding strip lower rstrip
cleaned s = rstrip (λ c. c == b'.') (lower (strip s))

abbrev pub entry_change : String → EntryRow → Bool → Change
entry_change action e deleted = record {
  entity_type = "manual_entry";
  entity_id = some e.id;
  action = action;
  before_data = if deleted then some (of_entry e) else none;
  after_data = if deleted then none else some (of_entry e);
  comment = none;
}

-- The domain is unique and has at most 255 characters, the type at most 10.
abbrev pub entry_fits : EntryRow → List EntryRow → Bool
entry_fits e rows =
    not (contains (map (λ r. r.entry.domain) rows) e.entry.domain)
    && (leb (length e.entry.domain) 255 && leb (Strings.length e.entry.entry_type) 10)

-- db.add(e) and db.flush()
unfoldable pub insert_entry : EntryRow → Store → Option Store
insert_entry e s =
    if entry_fits e s.entries
    then some (record s { entries = s.entries ++ (e ∷ []); next_entry = s.next_entry + 1 })
    else none

abbrev pub new_entry : ℕ → Text → String → EntryRow
new_entry id domain entry_type = record {
  id = id;
  entry = record { domain = domain; entry_type = entry_type };
}

unfoldable pub entries_add : ℕ → Text → String → Store → Option Store
unfolding cleaned insert_entry record_change
entries_add actor domain entry_type s =
    let e = new_entry s.next_entry (cleaned domain) entry_type in
    Option.map (record_change actor (entry_change "create" e false)) (insert_entry e s)

abbrev pub delete_found : ℕ → Store → Option EntryRow → Store
delete_found actor s none = s
delete_found actor s (some e) =
    record_change actor (entry_change "delete" e true)
      (record s { entries = drop_row entry_id e.id s.entries })

unfoldable pub entries_delete : ℕ → ℕ → Store → Store
unfolding get_row record_change
entries_delete actor id s = delete_found actor s (get_row entry_id id s.entries)
