-- ===== src/Filter/Tests.antt =====
-- A small database, a job run on it, and the theorems applied to them.
use power_blockade.Base.{
  ◌≡◌, refl, String, true, false, not, ◌&&◌, ◌||◌, none, some, [], ◌∷◌, All, contains, minus,
  nat_eq, list_eq, ℕ, zero, suc, arith, ◌==◌, string_eq, if◌then◌else◌,
}
use power_blockade.Base.Texts.{Text, codes}
use power_blockade.Blocklists.{Blocklist}
use power_blockade.Rpz.Zone.{render_rpz_zone, render_rpz_whitelist}
use power_blockade.Filter.{
  Db, Files, Download, lines, raises, manual_domains, entries_of, hours, collect, regenerate_rpz,
  update_blocklists_job, is_due, fetch_and_parse_blocklist, contribute,
}
use power_blockade.Schedule.{Now}
use power_blockade.Schedule.Check.{IsSettled}
use power_blockade.Filter.Scheduled.{run_schedule_check, IsCurrent, scheduled-IsCurrent}
use power_blockade.Filter.Effective.{
  effective_blocked, wants_blocked, wants_allowed, regenerate-exact,
}
use power_blockade.Filter.Update.{expected, all_due_fit, update-stores, update-rolls_back}
use power_blockade.Filter.Apply.{blocklists_apply, some_download, applied, apply_all, apply-exact}

abbrev blocklist : ℕ → String → String → Blocklist
blocklist id url list_type = record {
  id = id;
  name = url;
  url = url;
  format = codes "domains";
  list_type = list_type;
  enabled = true;
  update_frequency_hours = 24;
  last_updated = none;
  last_update_status = none;
  last_error = none;
  entry_count = 0;
  schedule_enabled = false;
  schedule_start = none;
  schedule_end = none;
  schedule_days = none;
}

abbrev ads : Text
ads = codes "ads.example"

abbrev good : Text
good = codes "good.example"

-- "ads" answers, and "fine" does not.
abbrev download : String → Download
download url = if url == "ads" then lines (ads ∷ good ∷ []) else raises (codes "timeout")

abbrev db : Db
db = record {
  blocklists = blocklist 1 "ads" "block" ∷ blocklist 2 "fine" "allow" ∷ [];
  entries = record { blocklist_id = 2; domain = good } ∷ [];
  manual = record { domain = codes "bad.example"; entry_type = "block" } ∷ [];
}

abbrev no_files : Files
no_files = record { combined = none; whitelist = none }

-- The allow list keeps its stored entry over the failed download, and so `good` is not blocked.
job_keeps_allowed :
    effective_blocked (update_blocklists_job download (hours 1) 7 db no_files).0
    ≡ codes "bad.example" ∷ ads ∷ []
unfolding update_blocklists_job collect minus
job_keeps_allowed = refl

-- An apply at the same time blocks `good`.
apply_forgets_allowed :
    minus (applied download (hours 1) db).blocked (applied download (hours 1) db).allow
    ≡ codes "bad.example" ∷ ads ∷ good ∷ []
unfolding minus apply_all contribute
apply_forgets_allowed = refl

regenerate-exact_example :
    ((regenerate_rpz 7 db).combined
      ≡ some (render_rpz_zone 7 (effective_blocked db) (codes "blocklist-combined")))
    × ((regenerate_rpz 7 db).whitelist ≡ some (render_rpz_whitelist 7 (collect db).allow))
    × ((d : Text)
        → contains (effective_blocked db) d ≡ (wants_blocked db d && not (wants_allowed db d)))
    × ((d : Text) → contains (collect db).allow d ≡ wants_allowed db d)
regenerate-exact_example = regenerate-exact 7 db

fits : all_due_fit download (hours 1) db.blocklists ≡ true
unfolding is_due fetch_and_parse_blocklist
fits = refl

update-stores_example :
    All
      (λ bl.
        entries_of bl.id (update_blocklists_job download (hours 1) 7 db no_files).0.entries
        ≡ expected download (hours 1) bl (entries_of bl.id db.entries))
      db.blocklists
update-stores_example =
    update-stores download (hours 1) 7 db no_files (((λ e. omega (arith, e)), tt), (tt, tt)) fits

-- One name of 256 letters.
abbrev letters : ℕ → Text
letters zero = []
letters (suc n) = b'a' ∷ letters n

abbrev too_long : String → Download
too_long url = lines (letters 256 ∷ [])

does_not_fit : all_due_fit too_long (hours 1) db.blocklists ≡ false
unfolding is_due fetch_and_parse_blocklist
does_not_fit = refl

update-rolls_back_example : update_blocklists_job too_long (hours 1) 7 db no_files ≡ (db, no_files)
update-rolls_back_example = update-rolls_back too_long (hours 1) 7 db no_files does_not_fit

apply-exact_example :
    ((blocklists_apply download (hours 1) 7 db).1.combined
      ≡ some (
          render_rpz_zone 7
            (minus (applied download (hours 1) db).blocked (applied download (hours 1) db).allow)
            (codes "blocklist-combined")))
    × ((blocklists_apply download (hours 1) 7 db).1.whitelist
        ≡ some (render_rpz_whitelist 7 (applied download (hours 1) db).allow))
    × ((d : Text)
        → contains
            (minus (applied download (hours 1) db).blocked (applied download (hours 1) db).allow)
            d
          ≡ ((contains (manual_domains "block" db.manual) d
                || some_download download false db.blocklists d)
              && not (
                  contains (manual_domains "allow" db.manual) d
                  || some_download download true db.blocklists d)))
apply-exact_example = apply-exact download (hours 1) 7 db

-- A Friday at noon.
abbrev noon : Now
noon = record { hour = 12; minute = 0; weekday = 4 }

scheduled-IsCurrent_example :
    let after = run_schedule_check noon 8 db (regenerate_rpz 7 db) in
    IsCurrent after.0 after.1 × All (IsSettled noon) after.0.blocklists
scheduled-IsCurrent_example = scheduled-IsCurrent noon 8 db (regenerate_rpz 7 db) (7, refl)
