-- ===== src/Schedule/Check.antt =====
-- The loop of `run_schedule_check`.
use power_blockade.Base.{◌≡◌, refl, Bool, true, false, List, [], ◌∷◌, arith, All}
use power_blockade.Blocklists.{Blocklist}
use power_blockade.Schedule.{Now, check_schedules, changed, is_blocklist_active}

-- A list with a schedule is enabled exactly when its schedule says so.
pub record IsSettled (now : Now) (bl : Blocklist) : Type 0 where
  pub follows : bl.schedule_enabled ≡ true → bl.enabled ≡ is_blocklist_active bl now

active-enabled :
    (bl : Blocklist) (now : Now) (b : Bool)
    → is_blocklist_active (record bl { enabled = b }) now ≡ is_blocklist_active bl now
unfolding is_blocklist_active
active-enabled bl now b = refl

-- After the check every list with a schedule is enabled exactly when its schedule says so.
pub check-IsSettled :
    (now : Now) (bls : List Blocklist) → All (IsSettled now) (check_schedules now bls).blocklists
unfolding check_schedules
check-IsSettled now [] = tt
check-IsSettled now (bl ∷ bls) =
    ground (arith, active-enabled bl now true, active-enabled bl now false, check-IsSettled now bls)

-- The counts say how many lists the check has switched: none exactly when it left all as they were.
pub check-unchanged :
    (now : Now) (bls : List Blocklist)
    → changed (check_schedules now bls) ≡ false
    → (check_schedules now bls).blocklists ≡ bls
unfolding check_schedules changed
check-unchanged now [] h = refl
check-unchanged now (bl ∷ bls) h = ground (arith, check-unchanged now bls)

settled-unchanged :
    (now : Now) (bls : List Blocklist)
    → All (IsSettled now) bls
    → check_schedules now bls ≡ record { blocklists = bls; enabled_count = 0; disabled_count = 0 }
unfolding check_schedules
settled-unchanged now [] h = refl
settled-unchanged now (bl ∷ bls) h = ground (arith, settled-unchanged now bls h.1, h.0.follows)

-- A second check at the same time switches nothing and counts nothing.
pub check-check :
    (now : Now) (bls : List Blocklist)
    → check_schedules now (check_schedules now bls).blocklists ≡ record {
      blocklists = (check_schedules now bls).blocklists;
      enabled_count = 0;
      disabled_count = 0;
    }
check-check now bls =
    settled-unchanged now (check_schedules now bls).blocklists (check-IsSettled now bls)
