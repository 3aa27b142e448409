-- ===== src/Bundle/Tests.antt =====
-- A primary with two zones and one file, and the theorems applied to it.
use power_blockade.Base.{
  ℕ, ◌≡◌, refl, true, Option, none, some, List, [], ◌∷◌, ◌++◌, map, select, lookup, nat_eq, list_eq,
}
use power_blockade.Base.Texts.{Text, codes}
use power_blockade.Versions.{major_mismatch}
use power_blockade.Filter.{Files}
use power_blockade.Admin.{ForwardZone}
use power_blockade.Admin.Zones.{is_global}
use power_blockade.Agent
use power_blockade.Agent.{fetched, sync_config}
use power_blockade.Agent.Sync.{sum}
use power_blockade.Bundle.{Digest, refused, is_of_node, zone_map, bundle, config}
use power_blockade.Bundle.Served.{received, filled, zones-exact, sync-served}

-- For these files the text itself serves as its checksum.
abbrev checksum : Text → Text
checksum t = t

abbrev digest : Digest
digest sums lines = codes "v1"

abbrev zone : ℕ → Text → Option ℕ → ForwardZone
zone i d n = record {
  id = i;
  domain = d;
  servers = codes "10.0.0.1";
  description = none;
  enabled = true;
  node_id = n;
}

abbrev zones : List ForwardZone
zones = zone 1 (codes "lan") (some 2) ∷ zone 2 (codes "corp") none ∷ []

abbrev files : Files
files = record { combined = some (codes "zone"); whitelist = none }

abbrev old : Agent.Files
old = record {
  rpz = (codes "whitelist.rpz", codes "allowed") ∷ [];
  forward_zones = none;
  reloads = 0;
}

other_major :
    config checksum digest (some (codes "2.0.0")) 2 (some (codes "1.4.0")) files zones [] []
    ≡ refused (major_mismatch (codes "2.0.0") (codes "1.4.0"))
unfolding config
other_major = refl

zones-exact_example :
    map (λ (domain, z). z) (zone_map 2 zones)
    ≡ select is_global zones ++ select (is_of_node 2) zones
zones-exact_example = zones-exact 2 zones (refl, (refl, tt))

sync-served_example :
    let taken =
      sync_config checksum (fetched (received (bundle checksum digest 2 files zones [] []))) old in
    (sum checksum (lookup (codes "blocklist-combined.rpz") taken.files.rpz)
      ≡ sum checksum (filled files.combined (lookup (codes "blocklist-combined.rpz") old.rpz)))
    × (sum checksum (lookup (codes "whitelist.rpz") taken.files.rpz)
        ≡ sum checksum (filled files.whitelist (lookup (codes "whitelist.rpz") old.rpz)))
sync-served_example = sync-served checksum digest 2 files zones [] [] old
