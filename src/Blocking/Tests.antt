-- ===== src/Blocking/Tests.antt =====
-- A pause, its end, and the job that runs in it.
use power_blockade.Base.{◌*◌, ◌≡◌, refl, none, some, List, [], ◌∷◌}
use power_blockade.Base.Texts.{codes}
use power_blockade.Base.Int.{pos}
use power_blockade.Blocking.{
  Blocking, is_blocking_active, blocking_status, minute, Request, disable, enable, pause, run,
}
use power_blockade.Blocking.Switched.{on_at, last_zone, run-last}

abbrev fresh : Blocking
fresh = record {
  row = none;
  files = record { combined = some (codes "zone"); whitelist = some (codes "allowed") };
  log = [];
}

abbrev requests : List Request
requests =
    disable 1 0
    ∷ enable 1 minute
    ∷ pause 1 (2 * minute) (pos 15)
    ∷ pause 1 (3 * minute) (pos 1441)
    ∷ []

seconds_left :
    (blocking_status (7 * minute) (run requests fresh)).pause_remaining_seconds ≡ some 600
unfolding blocking_status run
seconds_left = refl

run-last_example :
    (is_blocking_active (17 * minute) (run requests fresh)
      ≡ on_at (17 * minute) requests (is_blocking_active (17 * minute) fresh))
    × (((run requests fresh).files.combined ≡ last_zone requests fresh.files.combined)
        × ((run requests fresh).files.whitelist ≡ fresh.files.whitelist))
run-last_example = run-last requests fresh (17 * minute)
