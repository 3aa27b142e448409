-- ===== src/Blocking.antt =====
-- The switch for blocking: admin-ui/app/routers/blocking.py over the setting blocking_state of
-- admin-ui/app/models/settings.py. Times are microseconds. A state that is an ISO time stands here
-- as the instant that it names; one without a zone is taken as UTC.
pub mod Switched
mod Tests
use power_blockade.Base.{
  ℕ, ◌+◌, ◌-◌, ◌*◌, ◌/◌, String, Bool, true, false, not, ◌&&◌, ◌||◌, Option, none, some, List, [],
  ◌∷◌, ◌++◌, leb, ltb, if◌then◌else◌,
}
use power_blockade.Base.Texts.{Text, codes}
use power_blockade.Base.Int.{ℤ, pos, negsuc, leb_ℤ, ltb_ℤ, pos_part}
use power_blockade.Base.Decimal.{show}
use power_blockade.Filter.{Files}

-- The value of the setting. `other` is a text that is not empty and no time.
pub data BlockingState : Type 0 where
  enabled : BlockingState
  disabled : BlockingState
  paused_until : ℕ → BlockingState
  other : String → BlockingState

-- What record_change keeps of a switch: the user, the action, and the states before and after.
pub record Switch : Type 0 where
  pub actor_user_id : ℕ
  pub action : String
  pub before : BlockingState
  pub after : BlockingState

-- The row of the setting, if there is one, the zone files and the log.
pub record Blocking : Type 0 where
  pub row : Option BlockingState
  pub files : Files
  pub log : List Switch

abbrev pub get_blocking_state : Blocking → BlockingState
get_blocking_state b = elim b.row [ none ↦ enabled | some state ↦ state ]

abbrev pub emergency_zone : ℕ → Text
emergency_zone seconds =
    codes "$TTL 300\n@ IN SOA localhost. hostmaster.localhost. "
    ++ (show seconds
        ++ codes " 3600 600 604800 300\n@ IN NS localhost.\n; BLOCKING DISABLED - emergency mode\n")

-- _write_emergency_rpz
unfoldable pub write_emergency_rpz : ℕ → Files → Files
unfolding show
write_emergency_rpz seconds files = record files { combined = some (emergency_zone seconds) }

abbrev pub active_in : ℕ → BlockingState → Bool
active_in now enabled = true
active_in now disabled = false
active_in now (paused_until t) = leb t now
active_in now (other s) = true

-- _is_blocking_active
unfoldable pub is_blocking_active : ℕ → Blocking → Bool
is_blocking_active now b = active_in now (get_blocking_state b)

-- `int(remaining.total_seconds())` if anything is left of a pause.
abbrev pub remaining : ℕ → BlockingState → Option ℕ
remaining now enabled = none
remaining now disabled = none
remaining now (paused_until t) = if ltb now t then some ((t - now) / 1_000_000) else none
remaining now (other s) = none

pub record Status : Type 0 where
  pub state : BlockingState
  pub active : Bool
  pub pause_remaining_seconds : Option ℕ

unfoldable pub blocking_status : ℕ → Blocking → Status
unfolding is_blocking_active
blocking_status now b = record {
  state = get_blocking_state b;
  active = is_blocking_active now b;
  pause_remaining_seconds = remaining now (get_blocking_state b);
}

abbrev pub switch_to : ℕ → String → BlockingState → Blocking → Blocking
switch_to actor action state b = record b {
  row = some state;
  log =
      b.log
      ++ (record {
        actor_user_id = actor;
        action = action;
        before = get_blocking_state b;
        after = state;
      }
          ∷ []);
}

-- The second of the clock is that of the zone's serial number.
abbrev pub second : ℕ → ℕ
second now = now / 1_000_000

unfoldable pub blocking_disable : ℕ → ℕ → Blocking → Blocking
unfolding write_emergency_rpz
blocking_disable actor now b =
    switch_to actor "blocking_disable" disabled
      (record b { files = write_emergency_rpz (second now) b.files })

unfoldable pub blocking_enable : ℕ → Blocking → Blocking
blocking_enable actor b = switch_to actor "blocking_enable" enabled b

abbrev pub minute : ℕ
minute = 60_000_000

-- `none` is the answer 400.
unfoldable pub blocking_pause : ℕ → ℕ → ℤ → Blocking → Option Blocking
unfolding write_emergency_rpz
blocking_pause actor now minutes b =
    let pause_until = now + pos_part minutes * minute in
    let after =
      switch_to actor "blocking_pause" (paused_until pause_until)
        (record b { files = write_emergency_rpz (second now) b.files }) in
    if ltb_ℤ minutes (pos 1) || ltb_ℤ (pos 1440) minutes then none else some after

-- The requests, each with its time.
pub data Request : Type 0 where
  disable : ℕ → ℕ → Request
  enable : ℕ → ℕ → Request
  pause : ℕ → ℕ → ℤ → Request

abbrev pub or_kept : Option Blocking → Blocking → Blocking
or_kept none b = b
or_kept (some after) b = after

unfoldable pub handle : Request → Blocking → Blocking
unfolding blocking_disable blocking_enable blocking_pause
handle (disable actor now) b = blocking_disable actor now b
handle (enable actor now) b = blocking_enable actor b
handle (pause actor now minutes) b = or_kept (blocking_pause actor now minutes b) b

unfoldable pub run : List Request → Blocking → Blocking
unfolding handle
run [] b = b
run (r ∷ rs) b = run rs (handle r b)
