-- ===== src/Bundle.antt =====
-- The configuration that the primary serves to a secondary: `config` of
-- admin-ui/app/routers/node_sync.py. SHA-256, in its cut to 16 digits of a file and to 12 digits of
-- the JSON text of the version, is a parameter.
pub mod Served
mod Tests
use power_blockade.Base.{
  ℕ, String, Bool, true, false, not, ◌&&◌, Option, none, some, List, [], ◌∷◌, ◌++◌, ◌==◌, nat_eq,
  list_eq, option_eq, if◌then◌else◌, map, select, insert,
}
use power_blockade.Base.Texts.{Text, codes}
use power_blockade.Base.Decimal.{sorted}
use power_blockade.Blocklists.{Blocklist}
use power_blockade.Versions.{Status, allow, warn, block, Message, check_version_compatibility}
use power_blockade.Settings.{Rows, get_setting}
use power_blockade.Filter.{Files}
use power_blockade.Admin.{ForwardZone}
use power_blockade.Admin.Zones.{is_global, zone_line}

pub record RpzFile : Type 0 where
  pub filename : Text
  pub content : Text
  pub checksum : Text

pub record ZoneInfo : Type 0 where
  pub domain : Text
  pub servers : Text
  pub description : Option Text
  pub is_override : Bool

pub record ListInfo : Type 0 where
  pub name : String
  pub list_type : String
  pub entry_count : ℕ
  pub last_updated : Option ℕ

pub record Bundle : Type 0 where
  pub config_version : Text
  pub rpz_files : List RpzFile
  pub forward_zones : List ZoneInfo
  pub settings : List (Text × Text)
  pub blocklists : List ListInfo

-- What the endpoint answers: 409 with the message, or the bundle.
pub data Answer : Type 0 where
  refused : Message → Answer
  served : Bundle → Answer

-- A file that was never written is passed over.
abbrev pub read_file : (Text → Text) → Text → Option Text → List RpzFile
read_file checksum name none = []
read_file checksum name (some content) =
    record { filename = name; content = content; checksum = checksum content } ∷ []

abbrev pub rpz_files_of : (Text → Text) → Files → List RpzFile
rpz_files_of checksum files =
    read_file checksum (codes "blocklist-combined.rpz") files.combined
    ++ read_file checksum (codes "whitelist.rpz") files.whitelist

abbrev pub is_of_node : ℕ → ForwardZone → Bool
is_of_node node z = z.enabled && z.node_id == some node

-- `for z in zones: zone_map[z.domain] = z`
unfoldable pub put_zones : List ForwardZone → List (Text × ForwardZone) → List (Text × ForwardZone)
unfolding insert
put_zones [] d = d
put_zones (z ∷ zones) d = put_zones zones (insert z.domain z d)

unfoldable pub zone_map : ℕ → List ForwardZone → List (Text × ForwardZone)
unfolding put_zones
zone_map node zones =
    put_zones (select (is_of_node node) zones) (put_zones (select is_global zones) [])

abbrev pub zone_info : ForwardZone → ZoneInfo
zone_info z = record {
  domain = z.domain;
  servers = z.servers;
  description = z.description;
  is_override = not (z.node_id == none);
}

abbrev pub list_info : Blocklist → ListInfo
list_info b = record {
  name = b.name;
  list_type = b.list_type;
  entry_count = b.entry_count;
  last_updated = b.last_updated;
}

abbrev pub sent_settings : List String
sent_settings =
    "retention_events_days" ∷ "ptr_resolution_enabled" ∷ "precache_enabled"
    ∷ "precache_domain_count" ∷ "precache_refresh_minutes" ∷ "precache_ignore_ttl"
    ∷ "precache_custom_refresh_minutes" ∷ []

-- What the version is a digest of: the checksums, and the sorted lines of the zones.
abbrev pub Digest : Type 0
Digest = List Text → List Text → Text

unfoldable pub bundle :
    (Text → Text) → Digest → ℕ → Files → List ForwardZone → Rows → List Blocklist → Bundle
unfolding zone_map get_setting sorted
bundle checksum digest node files zones settings blocklists =
    let rpz_files = rpz_files_of checksum files in
    let chosen = map (λ (domain, z). z) (zone_map node zones) in
    record {
      config_version = digest (map (λ f. f.checksum) rpz_files) (sorted (map zone_line chosen));
      rpz_files = rpz_files;
      forward_zones = map zone_info chosen;
      settings = map (λ key. (codes key, get_setting key settings)) sent_settings;
      blocklists = map list_info (select (λ b. b.enabled) blocklists);
    }

abbrev pub answer_by : Status × Message → Bundle → Answer
answer_by (allow, message) b = served b
answer_by (warn, message) b = served b
answer_by (block, message) b = refused message

unfoldable pub config :
    (Text → Text)
    → Digest
    → Option Text
    → ℕ
    → Option Text
    → Files
    → List ForwardZone
    → Rows
    → List Blocklist
    → Answer
unfolding check_version_compatibility bundle
config checksum digest primary node secondary files zones settings blocklists =
    answer_by (check_version_compatibility primary secondary)
      (bundle checksum digest node files zones settings blocklists)
