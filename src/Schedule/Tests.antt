-- ===== src/Schedule/Tests.antt =====
-- Concrete schedules, and the theorems applied to them.
use power_blockade.Base.{◌≡◌, refl, true, false, none, some, [], ◌∷◌, All, ltb, arith}
use power_blockade.Base.Texts.{codes}
use power_blockade.Base.Int.{pos, negsuc}
use power_blockade.Blocklists.{Blocklist}
use power_blockade.Schedule.{
  Now, parse_time, is_time_in_range, is_blocklist_active, check_schedules, changed,
}
use power_blockade.Schedule.Range.{minutes_until, in_range-clock}
use power_blockade.Schedule.Check.{IsSettled, check-IsSettled}

parses : parse_time (codes " 7:05:x") ≡ some (pos 7, pos 5)
unfolding parse_time
parses = refl

parses_negative : parse_time (codes "-1:30") ≡ some (negsuc 0, pos 30)
unfolding parse_time
parses_negative = refl

refuses : parse_time (codes "0705") ≡ none
unfolding parse_time
refuses = refl

abbrev nightly : Blocklist
nightly = record {
  id = 1;
  name = "ads";
  url = "https://lists.example/ads";
  format = codes "hosts";
  list_type = "block";
  enabled = true;
  update_frequency_hours = 24;
  last_updated = none;
  last_update_status = none;
  last_error = none;
  entry_count = 0;
  schedule_enabled = true;
  schedule_start = some (codes "22:00");
  schedule_end = some (codes "06:30");
  schedule_days = some (codes "mon,fri");
}

-- A Friday, five to ten in the evening and half past eleven.
abbrev evening : Now
evening = record { hour = 21; minute = 55; weekday = 4 }

abbrev night : Now
night = record { hour = 23; minute = 30; weekday = 4 }

active_at_night : is_blocklist_active nightly night ≡ true
unfolding is_blocklist_active
active_at_night = refl

inactive_in_the_evening : is_blocklist_active nightly evening ≡ false
unfolding is_blocklist_active
inactive_in_the_evening = refl

switches_off : changed (check_schedules evening (nightly ∷ [])) ≡ true
unfolding check_schedules changed is_blocklist_active
switches_off = refl

in_range-clock_example :
    is_time_in_range (pos 23) (pos 30) (pos 22) (pos 0) (pos 6) (pos 30)
    ≡ ltb (minutes_until 22 0 23 30) (minutes_until 22 0 6 30)
in_range-clock_example =
    in_range-clock 23 30 22 0 6 30 (omega arith, omega arith) (omega arith, omega arith)
      (omega arith, omega arith)

check-IsSettled_example :
    All (IsSettled evening) (check_schedules evening (nightly ∷ [])).blocklists
check-IsSettled_example = check-IsSettled evening (nightly ∷ [])
