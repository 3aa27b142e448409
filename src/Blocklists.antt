-- ===== src/Blocklists.antt =====
-- The tables behind the filter: admin-ui/app/models/blocklist.py, blocklist_entry.py and
-- manual_entry.py. Times are microseconds with a time zone. A text that the program only compares
-- is a String, and one that it takes apart is a Text.
use power_blockade.Base.{ℕ, String, Bool, Option}
use power_blockade.Base.Texts.{Text}

pub record Blocklist : Type 0 where
  pub id : ℕ
  pub name : String
  pub url : String
  pub format : Text
  pub list_type : String
  pub enabled : Bool
  pub update_frequency_hours : ℕ
  pub last_updated : Option ℕ
  pub last_update_status : Option String
  pub last_error : Option Text
  pub entry_count : ℕ
  pub schedule_enabled : Bool
  pub schedule_start : Option Text
  pub schedule_end : Option Text
  pub schedule_days : Option Text

pub record BlocklistEntry : Type 0 where
  pub blocklist_id : ℕ
  pub domain : Text

pub record ManualEntry : Type 0 where
  pub domain : Text
  pub entry_type : String
