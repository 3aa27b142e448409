-- ===== src/Filter.antt =====
-- From the tables to the zone files: regenerate_rpz and update_blocklists_job of
-- admin-ui/app/services/scheduler.py, fetch_and_parse_blocklist of blocklist_manager.py, and
-- blocklists_apply of admin-ui/app/routers/blocklists.py. The download is a parameter.
pub mod Effective
pub mod Stored
pub mod Update
pub mod Apply
pub mod Scheduled
mod Tests
use power_blockade.Base.{
  ℕ, zero, suc, ◌+◌, ◌*◌, String, Bool, true, false, not, ◌&&◌, ◌||◌, Option, none, some, List, [],
  ◌∷◌, ◌++◌, ◌==◌, nat_eq, list_eq, string_eq, ltb, leb, if◌then◌else◌, contains, union, minus,
  select, map, take, length,
}
use power_blockade.Base.Texts.{Text, codes}
use power_blockade.Blocklists.{Blocklist, BlocklistEntry, ManualEntry}
use power_blockade.Rpz.{parse_blocklist_lines}
use power_blockade.Rpz.Zone.{render_rpz_zone, render_rpz_whitelist}

pub record Db : Type 0 where
  pub blocklists : List Blocklist
  pub entries : List BlocklistEntry
  pub manual : List ManualEntry

-- The directory rpz under the shared directory: a file that was never written is `none`.
pub record Files : Type 0 where
  pub combined : Option Text
  pub whitelist : Option Text

pub record Domains : Type 0 where
  pub blocked : List Text
  pub allow : List Text

abbrev pub manual_domains : String → List ManualEntry → List Text
manual_domains entry_type [] = []
manual_domains entry_type (m ∷ ms) =
    let rest = manual_domains entry_type ms in
    if m.entry_type == entry_type then m.domain ∷ rest else rest

-- The stored domains of one list.
abbrev pub entries_of : ℕ → List BlocklistEntry → List Text
entries_of id [] = []
entries_of id (e ∷ es) =
    let rest = entries_of id es in if e.blocklist_id == id then e.domain ∷ rest else rest

-- `allow_domains |= ...` or `blocked_domains |= ...`, by the type of the list.
unfoldable pub contribute : String → List Text → Domains → Domains
unfolding union
contribute list_type domains d =
    if list_type == "allow"
    then record d { allow = union d.allow domains }
    else record d { blocked = union d.blocked domains }

abbrev pub manual_sets : List ManualEntry → Domains
manual_sets manual = record {
  blocked = union [] (manual_domains "block" manual);
  allow = union [] (manual_domains "allow" manual);
}

unfoldable pub gather : List BlocklistEntry → Domains → List Blocklist → Domains
unfolding contribute
gather entries d [] = d
gather entries d (bl ∷ bls) =
    gather entries (if bl.enabled then contribute bl.list_type (entries_of bl.id entries) d else d)
      bls

unfoldable pub collect : Db → Domains
unfolding gather union
collect db = gather db.entries (manual_sets db.manual) db.blocklists

-- The two files that a set of blocked and one of allowed domains makes.
unfoldable pub write_zones : ℕ → Domains → Files
unfolding render_rpz_zone render_rpz_whitelist minus
write_zones now d = record {
  combined = some (render_rpz_zone now (minus d.blocked d.allow) (codes "blocklist-combined"));
  whitelist = some (render_rpz_whitelist now d.allow);
}

unfoldable pub regenerate_rpz : ℕ → Db → Files
unfolding collect write_zones
regenerate_rpz now db = write_zones now (collect db)

-- A download gives the lines of the file, or raises with a message.
pub data Download : Type 0 where
  lines : List Text → Download
  raises : Text → Download

-- The domains of a list, or the message of the exception that goes on.
pub data Fetched : Type 0 where
  domains : List Text → Fetched
  failed : Text → Fetched

unfoldable pub fetch_and_parse_blocklist : (String → Download) → String → Text → Fetched
unfolding parse_blocklist_lines
fetch_and_parse_blocklist download url fmt = elim (download url) [
  | lines ls ↦ domains (parse_blocklist_lines ls fmt)
  | raises message ↦ failed message
]

-- Microseconds.
abbrev pub hours : ℕ → ℕ
hours h = h * 3_600_000_000

-- The rows that the job selects and does not pass over. The next time of a list is not behind
-- the year 9999.
abbrev pub never_or_old : ℕ → ℕ → Option ℕ → Bool
never_or_old now freq none = true
never_or_old now freq (some last) = leb (last + hours freq) now

unfoldable pub is_due : ℕ → Blocklist → Bool
is_due now bl =
    bl.enabled
    && (ltb 0 bl.update_frequency_hours
        && never_or_old now bl.update_frequency_hours bl.last_updated)

-- db.query(BlocklistEntry).filter(BlocklistEntry.blocklist_id == id).delete()
abbrev pub without_list : ℕ → List BlocklistEntry → List BlocklistEntry
without_list id = select (λ e. not (e.blocklist_id == id))

abbrev pub new_entries : ℕ → List Text → List BlocklistEntry
new_entries id = map (λ d. record { blocklist_id = id; domain = d })

abbrev pub mark_success : ℕ → List Text → Blocklist → Blocklist
mark_success now ds bl = record bl {
  last_update_status = some "success";
  last_error = none;
  entry_count = length ds;
  last_updated = some now;
}

abbrev pub mark_failed : ℕ → Text → Blocklist → Blocklist
mark_failed now message bl = record bl {
  last_update_status = some "failed";
  last_error = some message;
  last_updated = some now;
}

-- The column `domain` is a String(255): a longer value makes the statement, and with it the whole
-- transaction of the job, fail.
abbrev pub all_fit : List Text → Bool
all_fit [] = true
all_fit (d ∷ ds) = leb (length d) 255 && all_fit ds

pub record Progress : Type 0 where
  pub rows : List Blocklist
  pub entries : List BlocklistEntry
  pub updated_count : ℕ
  pub sound : Bool

-- The outcome of one due list, before the rest of the loop.
unfoldable pub update_one : ℕ → Fetched → Blocklist → List BlocklistEntry → Progress
update_one now (failed message) bl entries = record {
  rows = mark_failed now (take 500 message) bl ∷ [];
  entries = entries;
  updated_count = 0;
  sound = true;
}
update_one now (domains ds) bl entries = record {
  rows = mark_success now ds bl ∷ [];
  entries = without_list bl.id entries ++ new_entries bl.id ds;
  updated_count = 1;
  sound = all_fit ds;
}

abbrev pub pass_over : Blocklist → List BlocklistEntry → Progress
pass_over bl entries = record { rows = bl ∷ []; entries = entries; updated_count = 0; sound = true }

abbrev pub visit : (String → Download) → ℕ → Blocklist → List BlocklistEntry → Progress
visit download now bl entries =
    if is_due now bl
    then update_one now (fetch_and_parse_blocklist download bl.url bl.format) bl entries
    else pass_over bl entries

unfoldable pub update_rows :
    (String → Download) → ℕ → List Blocklist → List BlocklistEntry → Progress
unfolding is_due fetch_and_parse_blocklist update_one
update_rows download now [] entries = record {
  rows = [];
  entries = entries;
  updated_count = 0;
  sound = true;
}
update_rows download now (bl ∷ bls) entries =
    let one = visit download now bl entries in
    let rest = update_rows download now bls one.entries in
    record {
      rows = one.rows ++ rest.rows;
      entries = rest.entries;
      updated_count = one.updated_count + rest.updated_count;
      sound = one.sound && rest.sound;
    }

-- The end of the job. `seconds` is the time that the zones are stamped with. A transaction that
-- fails is rolled back before any file is written.
unfoldable pub finish : ℕ → Db → Files → Progress → Db × Files
unfolding regenerate_rpz
finish seconds db files p =
    let db' : Db = record db { blocklists = p.rows; entries = p.entries } in
    if p.sound
    then (db', if ltb 0 p.updated_count then regenerate_rpz seconds db' else files)
    else (db, files)

unfoldable pub update_blocklists_job : (String → Download) → ℕ → ℕ → Db → Files → Db × Files
unfolding update_rows finish
update_blocklists_job download now seconds db files =
    finish seconds db files (update_rows download now db.blocklists db.entries)
