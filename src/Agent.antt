-- ===== src/Agent.antt =====
-- How a secondary takes over the primary's configuration: write_if_changed, sync_config and the
-- part of the loop of `main` that decides on a sync, in sync-agent/agent.py. `checksum`, the first 16
-- digits of SHA-256, is a parameter, and so is what the primary answers. Times are in seconds.
pub mod Sync
pub mod Rounds
pub mod Warming
mod Tests
use power_blockade.Base.{
  ℕ, zero, suc, ◌+◌, Bool, true, false, not, ◌&&◌, ◌||◌, Option, none, some, List, [], ◌∷◌, ◌++◌,
  ◌==◌, nat_eq, list_eq, option_eq, pair_eq, leb, if◌then◌else◌, map, lookup, insert,
}
use power_blockade.Base.Texts.{Text, codes, join}

-- The directory of RPZ files by name, the file of forward zones, and how often the reload trigger
-- was touched.
pub record Files : Type 0 where
  pub rpz : List (Text × Text)
  pub forward_zones : Option Text
  pub reloads : ℕ

pub record RpzFile : Type 0 where
  pub filename : Option Text
  pub content : Option Text

pub record Config : Type 0 where
  pub rpz_files : List RpzFile
  pub forward_zones : List (Text × Text)
  pub settings : List (Text × Text)

-- The answer to the request for the configuration: with another status, or an exception, `fails`.
pub data Fetch : Type 0 where
  fails : Fetch
  fetched : Config → Fetch

-- The file's content after the call, and what the call returns.
unfoldable pub write_if_changed : (Text → Text) → Option Text → Text → Text × Bool
write_if_changed checksum none content = (content, true)
write_if_changed checksum (some existing) content =
    if checksum existing == checksum content then (existing, false) else (content, true)

-- `filename and content`
abbrev pub usable : Option Text → Option Text → Option (Text × Text)
usable (some filename) (some content) =
    if filename == [] || content == [] then none else some (filename, content)
usable _ _ = none

abbrev pub named : List RpzFile → List (Text × Text)
named [] = []
named (f ∷ fs) = elim (usable f.filename f.content) [ none ↦ named fs | some nc ↦ nc ∷ named fs ]

abbrev pub put_file :
    (Text → Text) → Text × Text → List (Text × Text) × Bool → List (Text × Text) × Bool
put_file checksum (name, content) (dir, changed) =
    let (written, wrote) = write_if_changed checksum (lookup name dir) content in
    (if wrote then insert name written dir else dir, changed || wrote)

unfoldable pub write_rpz :
    (Text → Text) → List (Text × Text) → List (Text × Text) × Bool → List (Text × Text) × Bool
unfolding write_if_changed lookup insert
write_rpz checksum [] s = s
write_rpz checksum (f ∷ fs) s = write_rpz checksum fs (put_file checksum f s)

unfoldable pub forward_zones_text : List (Text × Text) → Text
unfolding join
forward_zones_text zones =
    join (10 ∷ []) (
      codes "# Forward zones synced from primary"
      ∷ []
      ∷ map (λ (domain, servers). domain ++ (codes "=" ++ servers)) zones)
    ++ (10 ∷ [])

unfoldable pub write_forward_zones :
    (Text → Text) → List (Text × Text) → Option Text → Option Text × Bool
unfolding write_if_changed forward_zones_text
write_forward_zones checksum [] old = (old, false)
write_forward_zones checksum (z ∷ zones) old =
    let (written, wrote) = write_if_changed checksum old (forward_zones_text (z ∷ zones)) in
    (some written, wrote)

pub record Synced : Type 0 where
  pub changed : Bool
  pub settings : List (Text × Text)
  pub files : Files

unfoldable pub sync_config : (Text → Text) → Fetch → Files → Synced
unfolding write_rpz write_forward_zones
sync_config checksum fails files = record { changed = false; settings = []; files = files }
sync_config checksum (fetched config) files =
    let (dir, rpz_changed) = write_rpz checksum (named config.rpz_files) (files.rpz, false) in
    let (zones, zones_changed) =
      write_forward_zones checksum config.forward_zones files.forward_zones in
    let changed = rpz_changed || zones_changed in
    record {
      changed = changed;
      settings = config.settings;
      files = record {
        rpz = dir;
        forward_zones = zones;
        reloads = if changed then files.reloads + 1 else files.reloads;
      };
    }

-- The variables of `main` that the sync goes by, and the files.
pub record Agent : Type 0 where
  pub last_config_sync : ℕ
  pub last_config_version : Option Text
  pub current_settings : List (Text × Text)
  pub files : Files

-- `config_version_from_primary and config_version_from_primary != last_config_version`
abbrev pub version_changed : Option Text → Option Text → Bool
version_changed none last = false
version_changed (some v) last = not (v == []) && not (some v == last)

unfoldable pub should_sync : ℕ → ℕ → Option Text → Agent → Bool
should_sync interval now version a =
    version_changed version a.last_config_version || leb (a.last_config_sync + interval) now

-- One round of the loop, as far as the sync goes: `version` is that of the heartbeat's answer.
unfoldable pub sync_round : (Text → Text) → ℕ → ℕ → Option Text → Fetch → Agent → Agent
unfolding should_sync sync_config
sync_round checksum interval now version fetch a =
    let s = sync_config checksum fetch a.files in
    if should_sync interval now version a
    then record {
      last_config_sync = now;
      last_config_version = version;
      current_settings = if s.settings == [] then a.current_settings else s.settings;
      files = s.files;
    }
    else a
