-- ===== src/Agent/Rounds.antt =====
-- When the loop of `main` syncs.
use power_blockade.Base.{
  ℕ, ◌+◌, ◌≤◌, ◌<◌, ◌≡◌, refl, Bool, true, false, not, ◌&&◌, Option, none, some, [], arith, ◌==◌,
  nat_eq, list_eq, option_eq, pair_eq,
}
use power_blockade.Base.Texts.{Text}
use power_blockade.Agent.{
  Agent, Fetch, fails, sync_config, should_sync, sync_round, version_changed,
}

and_false : (b : Bool) → (b && false) ≡ false
and_false b = ground arith

version_seen : (v : Text) → version_changed (some v) (some v) ≡ false
version_seen v = rw ((list_eq.beq_iff v v).1 refl) (and_false (not (v == [])))

same_version : (version : Option Text) → version_changed version version ≡ false
same_version none = refl
same_version (some v) = version_seen v

module _ (checksum : Text → Text) (interval : ℕ) where
  -- A round that comes at least an interval after the last sync takes over what it fetches, whatever
  -- the primary's version: the files are never older than that.
  pub round-due :
      (now : ℕ) (version : Option Text) (fetch : Fetch) (a : Agent)
      → a.last_config_sync + interval ≤ now
      → ((sync_round checksum interval now version fetch a).files
          ≡ (sync_config checksum fetch a.files).files)
        × ((sync_round checksum interval now version fetch a).last_config_sync ≡ now)
  unfolding sync_round should_sync
  round-due now version fetch a h = ground arith

  round-no :
      (now : ℕ) (version : Option Text) (fetch : Fetch) (a : Agent)
      → should_sync interval now version a ≡ false
      → sync_round checksum interval now version fetch a ≡ a
  unfolding sync_round
  round-no now version fetch a h = rw h refl

  round-fails :
      (now : ℕ) (version : Option Text) (a : Agent)
      → should_sync interval now version a ≡ true
      → sync_round checksum interval now version fails a
        ≡ record a { last_config_sync = now; last_config_version = version }
  unfolding sync_round sync_config
  round-fails now version a h = rw h refl

  should_sync-after :
      (now later : ℕ) (version : Option Text) (a : Agent)
      → later < now + interval
      → should_sync interval later version
          (record a { last_config_sync = now; last_config_version = version })
        ≡ false
  unfolding should_sync
  should_sync-after now later version a h = rw (same_version version) (ground arith)

  -- A round whose request for the configuration fails leaves the files as they were, and then so
  -- does every round that reports the same version before the interval has passed, whatever it
  -- could fetch: the failed version counts as taken over.
  pub round-forgets_failure :
      (now later : ℕ) (version : Option Text) (fetch : Fetch) (a : Agent)
      → should_sync interval now version a ≡ true
      → later < now + interval
      → ((sync_round checksum interval now version fails a).files ≡ a.files)
        × (sync_round checksum interval later version fetch
              (sync_round checksum interval now version fails a)
            ≡ sync_round checksum interval now version fails a)
  round-forgets_failure now later version fetch a h k =
      rw (round-fails now version a h)
        (refl, round-no later version fetch _ (should_sync-after now later version a k))
