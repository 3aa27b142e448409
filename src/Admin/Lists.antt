-- ===== src/Admin/Lists.antt =====
-- The requests that edit the lists: admin-ui/app/routers/blocklists.py. A value longer than its
-- column, or a second list of one url, is an exception of the flush.
use power_blockade.Base.{
  ℕ, ◌+◌, String, Bool, true, false, not, ◌&&◌, Option, none, some, List, [], ◌∷◌, ◌++◌, ◌==◌,
  nat_eq, string_eq, leb, if◌then◌else◌, map, select, contains,
}
use mathlib.Core.Option
use power_blockade.Base
use power_blockade.Base.Texts.{Text, join}
use power_blockade.Base.Texts
use power_blockade.Blocklists.{Blocklist, BlocklistEntry}
use power_blockade.Admin.{
  Store, of_blocklist, Change, record_change, get_row, save_row, drop_row, list_id, or_store,
}
use power_blockade.Admin.Strings.{strip, length}

-- A new row; the columns that are not given have their defaults.
abbrev pub new_blocklist : ℕ → String → String → Text → String → Bool → ℕ → Blocklist
new_blocklist id name url format list_type enabled update_frequency_hours = record {
  id = id;
  name = name;
  url = url;
  format = format;
  list_type = list_type;
  enabled = enabled;
  update_frequency_hours = update_frequency_hours;
  last_updated = none;
  last_update_status = none;
  last_error = none;
  entry_count = 0;
  schedule_enabled = false;
  schedule_start = none;
  schedule_end = none;
  schedule_days = none;
}

-- The limits of the columns, and the unique url.
abbrev pub insertable : Blocklist → List Blocklist → Bool
insertable b rows =
    leb (length b.name) 255
    && (leb (Base.length b.format) 50
        && (leb (length b.list_type) 10 && not (contains (map (λ r. r.url) rows) b.url)))

-- db.add(b) and db.flush()
unfoldable pub insert_blocklist : Blocklist → Store → Option Store
insert_blocklist b s =
    if insertable b s.blocklists
    then some
        (record s { blocklists = s.blocklists ++ (b ∷ []); next_blocklist = s.next_blocklist + 1 })
    else none

abbrev pub list_change : String → Blocklist → Option Blocklist → Option Blocklist → Change
list_change action b before after = record {
  entity_type = "blocklist";
  entity_id = some b.id;
  action = action;
  before_data = Option.map of_blocklist before;
  after_data = Option.map of_blocklist after;
  comment = none;
}

unfoldable pub blocklists_add : ℕ → String → String → Text → String → ℕ → Store → Option Store
unfolding insert_blocklist record_change strip Texts.strip
blocklists_add actor name url format list_type update_frequency_hours s =
    let b =
      new_blocklist s.next_blocklist (strip name) (strip url) (Texts.strip format) (strip list_type)
        true update_frequency_hours in
    Option.map (record_change actor (list_change "create" b none (some b))) (insert_blocklist b s)

-- A failed insert is rolled back without a word, and nothing is recorded.
unfoldable pub blocklists_add_preset : String → String → Text → String → Store → Store
unfolding insert_blocklist strip Texts.strip
blocklists_add_preset name url format list_type s =
    let b =
      new_blocklist s.next_blocklist (strip name) (strip url) (Texts.strip format) (strip list_type)
        true 24 in
    or_store (insert_blocklist b s) s

-- What the requests have in common that change a row and record both states of it. A row that is
-- not found is left alone.
abbrev pub edit_found : ℕ → String → (Blocklist → Blocklist) → Store → Option Blocklist → Store
edit_found actor action f s none = s
edit_found actor action f s (some b) =
    record_change actor (list_change action b (some b) (some (f b)))
      (record s { blocklists = save_row list_id (f b) s.blocklists })

unfoldable pub edit_blocklist : ℕ → String → (Blocklist → Blocklist) → ℕ → Store → Store
unfolding get_row record_change
edit_blocklist actor action f id s = edit_found actor action f s (get_row list_id id s.blocklists)

unfoldable pub blocklists_update_frequency : ℕ → ℕ → ℕ → Store → Store
unfolding edit_blocklist
blocklists_update_frequency actor id update_frequency_hours =
    edit_blocklist actor "update_frequency"
      (λ b. record b { update_frequency_hours = update_frequency_hours }) id

unfoldable pub blocklists_toggle : ℕ → ℕ → Store → Store
unfolding edit_blocklist
blocklists_toggle actor id =
    edit_blocklist actor "toggle" (λ b. record b { enabled = not b.enabled }) id

-- `text.strip() if text else None`
abbrev pub stripped : Text → Option Text
stripped [] = none
stripped (c ∷ s) = some (Texts.strip (c ∷ s))

-- `",".join(days) if days else None`
abbrev pub joined : List Text → Option Text
joined [] = none
joined (day ∷ days) = some (join (b',' ∷ []) (day ∷ days))

abbrev pub fits : ℕ → Option Text → Bool
fits most none = true
fits most (some s) = leb (Base.length s) most

-- The columns of the schedule hold 5, 5 and 20 characters.
abbrev pub set_schedule : Bool → Text → Text → List Text → Blocklist → Blocklist
set_schedule schedule_enabled start end days b = record b {
  schedule_enabled = schedule_enabled;
  schedule_start = stripped start;
  schedule_end = stripped end;
  schedule_days = joined days;
}

abbrev pub schedule_fits : Text → Text → List Text → Option Blocklist → Bool
schedule_fits start end days none = true
schedule_fits start end days (some b) =
    fits 5 (stripped start) && (fits 5 (stripped end) && fits 20 (joined days))

unfoldable pub blocklists_update_schedule :
    ℕ → ℕ → Bool → Text → Text → List Text → Store → Option Store
unfolding edit_blocklist get_row Texts.strip join
blocklists_update_schedule actor id schedule_enabled start end days s =
    let after =
      edit_blocklist actor "update_schedule" (set_schedule schedule_enabled start end days) id s in
    if schedule_fits start end days (get_row list_id id s.blocklists) then some after else none

-- The stored domains go with their list.
abbrev pub without_list : ℕ → List BlocklistEntry → List BlocklistEntry
without_list id = select (λ e. not (e.blocklist_id == id))

abbrev pub delete_found : ℕ → Store → Option Blocklist → Store
delete_found actor s none = s
delete_found actor s (some b) =
    record_change actor (list_change "delete" b (some b) none) (record s {
      blocklists = drop_row list_id b.id s.blocklists;
      stored = without_list b.id s.stored;
    })

unfoldable pub blocklists_delete : ℕ → ℕ → Store → Store
unfolding get_row record_change
blocklists_delete actor id s = delete_found actor s (get_row list_id id s.blocklists)
