-- ===== src/Filter/Scheduled.antt =====
-- run_schedule_check of admin-ui/app/services/blocklist_scheduler.py as a whole: the tables and the
-- zone files.
use mathlib.Core.Path.{subst}
use power_blockade.Base.{ℕ, ◌≡◌, refl, if◌then◌else◌, Bool-cases, inl, inr, All}
use power_blockade.Schedule.{Now, check_schedules, changed}
use power_blockade.Schedule.Check.{IsSettled, check-IsSettled, check-unchanged}
use power_blockade.Filter.{Db, Files, regenerate_rpz}

-- `seconds` is the time that the zones are stamped with.
unfoldable pub run_schedule_check : Now → ℕ → Db → Files → Db × Files
unfolding check_schedules changed regenerate_rpz
run_schedule_check now seconds db files =
    let c = check_schedules now db.blocklists in
    let db' : Db = record db { blocklists = c.blocklists } in
    if changed c then (db', regenerate_rpz seconds db') else (db, files)

-- The zone files are those of the tables, written at some time.
abbrev pub IsCurrent : Db → Files → Type 0
IsCurrent db files = (seconds : ℕ) × (files ≡ regenerate_rpz seconds db)

-- If the zone files are those of the tables before a schedule check, they are those of the tables
-- after it, and every list with a schedule is then enabled exactly when its schedule says so: no
-- switch of a list is left out of the zones.
pub scheduled-IsCurrent :
    (now : Now) (seconds : ℕ) (db : Db) (files : Files)
    → IsCurrent db files
    → let after = run_schedule_check now seconds db files in
      IsCurrent after.0 after.1 × All (IsSettled now) after.0.blocklists
unfolding run_schedule_check
scheduled-IsCurrent now seconds db files h =
    elim (Bool-cases (changed (check_schedules now db.blocklists))) [
      | inl e ↦ rw e ((seconds, refl), check-IsSettled now db.blocklists)
      | inr e ↦ rw e (
        h,
        subst (All (IsSettled now)) (check-unchanged now db.blocklists e)
            (check-IsSettled now db.blocklists),
      )
    ]
