-- ===== src/Schedule.antt =====
-- Time-of-day schedules of blocklists: admin-ui/app/services/blocklist_scheduler.py. The present
-- enters as the hour, the minute and the weekday (Monday is 0) in the configured time zone.
pub mod Range
pub mod Check
mod Tests
use power_blockade.Base.{
  ℕ, zero, suc, ◌+◌, ◌*◌, String, Bool, true, false, not, ◌&&◌, ◌||◌, Option, none, some, List, [],
  ◌∷◌, ◌++◌, ◌==◌, nat_eq, list_eq, if◌then◌else◌, contains,
}
use power_blockade.Base.Texts.{Text, codes, lower, split_on, starts_with}
use power_blockade.Base.Int.{ℤ, pos, pos_part, neg_part, sub_ℕ, ltb_ℤ, leb_ℤ, int}
use power_blockade.Blocklists.{Blocklist}

-- `h * 60 + m` on integers.
abbrev pub minute_of_day : ℤ → ℤ → ℤ
minute_of_day h m = sub_ℕ (pos_part h * 60 + pos_part m) (neg_part h * 60 + neg_part m)

abbrev parse_parts : List Text → Option (ℤ × ℤ)
parse_parts (h ∷ m ∷ _) = elim (int h) [
  | none ↦ none
  | some hour ↦ elim (int m) [ none ↦ none | some minute ↦ some (hour, minute) ]
]
parse_parts _ = none

-- An empty text and one without ':' are refused first; a third part is not looked at.
unfoldable pub parse_time : Text → Option (ℤ × ℤ)
unfolding int split_on
parse_time time_str =
    if not (contains time_str b':') then none else parse_parts (split_on b':' time_str)

unfoldable pub is_time_in_range : ℤ → ℤ → ℤ → ℤ → ℤ → ℤ → Bool
is_time_in_range current_hour current_minute start_hour start_minute end_hour end_minute =
    let current = minute_of_day current_hour current_minute in
    let start = minute_of_day start_hour start_minute in
    let end = minute_of_day end_hour end_minute in
    if leb_ℤ start end
    then leb_ℤ start current && ltb_ℤ current end
    else leb_ℤ start current || ltb_ℤ current end

pub record Now : Type 0 where
  pub hour : ℕ
  pub minute : ℕ
  pub weekday : ℕ

-- day_map.get(weekday, "")
unfoldable pub day_name : ℕ → Text
day_name weekday =
    if weekday == 0
    then codes "mon"
    else if weekday == 1
    then codes "tue"
    else if weekday == 2
    then codes "wed"
    else if weekday == 3
    then codes "thu"
    else if weekday == 4
    then codes "fri"
    else if weekday == 5
    then codes "sat"
    else if weekday == 6
    then codes "sun"
    else []

-- `part in text`
unfoldable pub occurs_in : Text → Text → Bool
unfolding starts_with
occurs_in part [] = starts_with part []
occurs_in part (c ∷ text) = starts_with part (c ∷ text) || occurs_in part text

abbrev pub text_or_empty : Option Text → Text
text_or_empty none = []
text_or_empty (some t) = t

-- The day test of is_blocklist_active: no schedule_days means every day.
unfoldable pub day_allowed : Option Text → ℕ → Bool
unfolding day_name occurs_in lower
day_allowed schedule_days weekday =
    let days = lower (text_or_empty schedule_days) in
    let day = day_name weekday in
    if days == [] then true else if day == [] then true else occurs_in day days

abbrev active_between : Option Text → Now → Option (ℤ × ℤ) → Option (ℤ × ℤ) → Bool
active_between schedule_days now (some (start_hour, start_minute)) (some (end_hour, end_minute)) =
    if day_allowed schedule_days now.weekday
    then is_time_in_range (pos now.hour) (pos now.minute) start_hour start_minute end_hour
        end_minute
    else false
active_between schedule_days now _ _ = true

unfoldable pub is_blocklist_active : Blocklist → Now → Bool
unfolding is_time_in_range day_allowed parse_time
is_blocklist_active bl now =
    if bl.schedule_enabled
    then active_between bl.schedule_days now (parse_time (text_or_empty bl.schedule_start))
        (parse_time (text_or_empty bl.schedule_end))
    else true

pub record Checked : Type 0 where
  pub blocklists : List Blocklist
  pub enabled_count : ℕ
  pub disabled_count : ℕ

-- One round of the loop, for a list that takes part in it.
abbrev visit : Bool → Blocklist → Checked → Checked
visit should_be_active bl rest =
    if should_be_active && not bl.enabled
    then record {
      blocklists = record bl { enabled = true } ∷ rest.blocklists;
      enabled_count = rest.enabled_count + 1;
      disabled_count = rest.disabled_count;
    }
    else if not should_be_active && bl.enabled
    then record {
      blocklists = record bl { enabled = false } ∷ rest.blocklists;
      enabled_count = rest.enabled_count;
      disabled_count = rest.disabled_count + 1;
    }
    else record rest { blocklists = bl ∷ rest.blocklists }

-- The loop of run_schedule_check over the rows with schedule_enabled; the others stay.
unfoldable pub check_schedules : Now → List Blocklist → Checked
check_schedules now [] = record { blocklists = []; enabled_count = 0; disabled_count = 0 }
check_schedules now (bl ∷ bls) =
    let rest = check_schedules now bls in
    if bl.schedule_enabled
    then visit (is_blocklist_active bl now) bl rest
    else record rest { blocklists = bl ∷ rest.blocklists }

-- `changed`: whether the check commits and regenerates the zones.
unfoldable pub changed : Checked → Bool
changed c = not (c.enabled_count == 0) || not (c.disabled_count == 0)
