-- ===== src/Agent/Tests.antt =====
-- A configuration with one file and one zone, and the theorems applied to it.
use power_blockade.Base.{
  ◌≡◌, refl, true, none, some, [], ◌∷◌, lookup, nat_eq, list_eq, pair_eq, if◌then◌else◌, ◌==◌,
}
use power_blockade.Base.Texts.{Text, codes}
use power_blockade.Agent.{
  Files, Config, Agent, fetched, named, forward_zones_text, sync_config, should_sync,
}
use power_blockade.Agent.Warming.{run_precache_warming, answered, passed, warm_from}
use power_blockade.Agent.Sync.{wanted, sum, sync-sums}

-- For these files the text itself serves as its checksum.
abbrev checksum : Text → Text
checksum t = t

abbrev config : Config
config = record {
  rpz_files =
      record { filename = some (codes "whitelist.rpz"); content = some (codes "new") }
      ∷ record { filename = some (codes "empty.rpz"); content = some [] }
      ∷ [];
  forward_zones = (codes "corp", codes "10.0.0.1") ∷ [];
  settings = [];
}

abbrev files : Files
files = record {
  rpz = (codes "whitelist.rpz", codes "old") ∷ (codes "own.rpz", codes "kept") ∷ [];
  forward_zones = none;
  reloads = 0;
}

abbrev synced : Files
synced = record {
  rpz = (codes "whitelist.rpz", codes "new") ∷ (codes "own.rpz", codes "kept") ∷ [];
  forward_zones = some (codes "# Forward zones synced from primary\n\ncorp=10.0.0.1\n");
  reloads = 1;
}

syncs : (sync_config checksum (fetched config) files).files ≡ synced
unfolding sync_config
syncs = refl

sync-sums_example :
    ((name : Text)
      → sum checksum (lookup name (sync_config checksum (fetched config) files).files.rpz)
        ≡ sum checksum (wanted checksum name (named config.rpz_files) (lookup name files.rpz)))
    × (sum checksum (sync_config checksum (fetched config) files).files.forward_zones
        ≡ sum checksum (
            if config.forward_zones == []
            then files.forward_zones
            else some (forward_zones_text config.forward_zones)))
sync-sums_example = sync-sums checksum config files

abbrev agent : Agent
agent = record {
  last_config_sync = 0;
  last_config_version = none;
  current_settings = [];
  files = files;
}

due : should_sync 300 1000 (some (codes "v2")) agent ≡ true
unfolding should_sync
due = refl

warmed_two :
    run_precache_warming
      (λ name. if name == codes "a" then some 60 else none)
      (λ limit. answered 200 (some (codes "a" ∷ codes "b" ∷ [])))
      []
    ≡ passed (record { success = 1; failed = 1; pauses = 0 })
unfolding run_precache_warming warm_from lookup
warmed_two = refl
