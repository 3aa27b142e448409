-- ===== src/Filter/Apply.antt =====
-- The request blocklists_apply of admin-ui/app/routers/blocklists.py, which downloads every enabled
-- list itself and writes the zones from what it got.
use power_blockade.Base.{
  ℕ, ◌≡◌, refl, String, Bool, true, false, not, ◌&&◌, ◌||◌, some, List, [], ◌∷◌, ◌++◌, ◌==◌, nat_eq,
  list_eq, string_eq, arith, if◌then◌else◌, contains, minus, contains-union, contains-minus, ◌∙◌,
}
use power_blockade.Base.Texts.{Text, codes}
use power_blockade.Blocklists.{Blocklist, BlocklistEntry}
use power_blockade.Rpz.Zone.{render_rpz_zone, render_rpz_whitelist}
use power_blockade.Filter.{
  Db, Files, Domains, manual_domains, contribute, manual_sets, write_zones, Download, Fetched,
  domains, failed, fetch_and_parse_blocklist, without_list, new_entries, mark_success, mark_failed,
  all_fit,
}

pub record Applying : Type 0 where
  pub rows : List Blocklist
  pub entries : List BlocklistEntry
  pub to_add : List BlocklistEntry
  pub sets : Domains
  pub sound : Bool

-- The body of the loop, on an enabled list.
unfoldable pub apply_one : ℕ → Fetched → Blocklist → Applying → Applying
unfolding contribute
apply_one now (failed message) bl s = record s {
  rows = s.rows ++ (mark_failed now message bl ∷ []);
}
apply_one now (domains ds) bl s = record {
  rows = s.rows ++ (mark_success now ds bl ∷ []);
  entries = without_list bl.id s.entries;
  to_add = s.to_add ++ new_entries bl.id ds;
  sets = contribute bl.list_type ds s.sets;
  sound = s.sound && all_fit ds;
}

-- The loop takes only the enabled lists from the table; the other rows stay.
unfoldable pub apply_list : (String → Download) → ℕ → Blocklist → Applying → Applying
unfolding apply_one fetch_and_parse_blocklist
apply_list download now bl s =
    if bl.enabled
    then apply_one now (fetch_and_parse_blocklist download bl.url bl.format) bl s
    else record s { rows = s.rows ++ (bl ∷ []) }

unfoldable pub apply_all : (String → Download) → ℕ → List Blocklist → Applying → Applying
unfolding apply_list
apply_all download now [] s = s
apply_all download now (bl ∷ bls) s = apply_all download now bls (apply_list download now bl s)

abbrev pub begin : Db → Applying
begin db = record {
  rows = [];
  entries = db.entries;
  to_add = [];
  sets = manual_sets db.manual;
  sound = true;
}

-- The files are written before the entries are inserted: where that fails, only the tables go back.
unfoldable pub blocklists_apply : (String → Download) → ℕ → ℕ → Db → Db × Files
unfolding apply_all write_zones
blocklists_apply download now seconds db =
    let s = apply_all download now db.blocklists (begin db) in
    (
      if s.sound then record db { blocklists = s.rows; entries = s.entries ++ s.to_add } else db,
      write_zones seconds s.sets,
    )

abbrev fetched_contains : Fetched → Text → Bool
fetched_contains (domains ds) d = contains ds d
fetched_contains (failed message) d = false

-- Some enabled list with the given answer to `list_type == "allow"` has the domain in its download.
abbrev pub some_download : (String → Download) → Bool → List Blocklist → Text → Bool
some_download download allow [] d = false
some_download download allow (bl ∷ bls) d =
    (bl.enabled
      && ((if bl.list_type == "allow" then allow else not allow)
          && fetched_contains (fetch_and_parse_blocklist download bl.url bl.format) d))
    || some_download download allow bls d

apply_one-contains :
    (now : ℕ) (f : Fetched) (bl : Blocklist) (s : Applying) (d : Text)
    → (contains (apply_one now f bl s).sets.blocked d ≡ (
        contains s.sets.blocked d
        || ((if bl.list_type == "allow" then false else true) && fetched_contains f d)))
      × (contains (apply_one now f bl s).sets.allow d ≡ (
          contains s.sets.allow d
          || ((if bl.list_type == "allow" then true else false) && fetched_contains f d)))
unfolding apply_one
apply_one-contains now (failed message) bl s d = ground arith
apply_one-contains now (domains ds) bl s d =
    ground (arith, contains-union s.sets.blocked ds d, contains-union s.sets.allow ds d)

apply_list-contains :
    (download : String → Download) (now : ℕ) (bl : Blocklist) (s : Applying) (d : Text)
    → (contains (apply_list download now bl s).sets.blocked d
        ≡ (contains s.sets.blocked d || some_download download false (bl ∷ []) d))
      × (contains (apply_list download now bl s).sets.allow d
          ≡ (contains s.sets.allow d || some_download download true (bl ∷ []) d))
unfolding apply_list
apply_list-contains download now bl s d =
    ground
      (arith, apply_one-contains now (fetch_and_parse_blocklist download bl.url bl.format) bl s d)

apply_all-contains :
    (download : String → Download) (now : ℕ) (bls : List Blocklist) (s : Applying) (d : Text)
    → (contains (apply_all download now bls s).sets.blocked d
        ≡ (contains s.sets.blocked d || some_download download false bls d))
      × (contains (apply_all download now bls s).sets.allow d
          ≡ (contains s.sets.allow d || some_download download true bls d))
unfolding apply_all
apply_all-contains download now [] s d = ground arith
apply_all-contains download now (bl ∷ bls) s d = ground (
  arith,
  apply_all-contains download now bls (apply_list download now bl s) d,
  apply_list-contains download now bl s d,
)

-- The two sets that an apply writes.
abbrev pub applied : (String → Download) → ℕ → Db → Domains
applied download now db = (apply_all download now db.blocklists (begin db)).sets

-- The zones that an apply writes: blocked is what a manual entry or the download of an enabled list
-- blocks and none allows. The entries that are stored for a list do not count: a list whose download
-- fails neither blocks nor allows anything.
pub apply-exact :
    (download : String → Download) (now seconds : ℕ) (db : Db)
    → ((blocklists_apply download now seconds db).1.combined
        ≡ some (
            render_rpz_zone seconds
              (minus (applied download now db).blocked (applied download now db).allow)
              (codes "blocklist-combined")))
      × ((blocklists_apply download now seconds db).1.whitelist
          ≡ some (render_rpz_whitelist seconds (applied download now db).allow))
      × ((d : Text)
          → contains (minus (applied download now db).blocked (applied download now db).allow) d ≡ (
              (contains (manual_domains "block" db.manual) d
                || some_download download false db.blocklists d)
              && not (
                  contains (manual_domains "allow" db.manual) d
                  || some_download download true db.blocklists d)))
unfolding blocklists_apply write_zones
apply-exact download now seconds db = (
  refl,
  refl,
  λ d.
      contains-minus (applied download now db).blocked (applied download now db).allow d
      ∙ ground (
        arith,
        apply_all-contains download now db.blocklists (begin db) d,
        contains-union [] (manual_domains "block" db.manual) d,
        contains-union [] (manual_domains "allow" db.manual) d,
      ),
)
