-- ===== src/Admin/Tests.antt =====
-- One list, a request on it and its rollback, and the theorems applied to them.
use power_blockade.Base.{◌≡◌, refl, arith, true, false, none, some, [], ◌∷◌, ◌++◌}
use power_blockade.Base.Texts.{codes}
use power_blockade.Blocklists.{Blocklist}
use power_blockade.Admin.{Store, get_row, drop_row, list_id, record_change}
use power_blockade.Admin.Lists.{
  list_change, set_schedule, new_blocklist, without_list, blocklists_toggle,
  blocklists_update_frequency, blocklists_delete,
}
use power_blockade.Admin.Zones.{generate_forward_zones_config}
use power_blockade.Admin.Rollback.{rollback_change, restored}
use power_blockade.Admin.Rollback.Restored.{IsUndone}
use power_blockade.Admin.Rollback.Remade.{remade, delete-remade}
use power_blockade.Admin.Invariant.{IsWellFormed}
use power_blockade.Admin.Requests.{toggle_list, serve, rollback, delete_list}
use power_blockade.Admin.Kept.{serve-IsWellFormed, served-IsUndone}

abbrev ads : Blocklist
ads = new_blocklist 1 "Ads" "https://a.example/hosts" (codes "hosts") "block" true 24

abbrev empty : Store
empty = record {
  blocklists = [];
  stored = [];
  entries = [];
  zones = [];
  changes = [];
  nodes = 1 ∷ [];
  next_blocklist = 1;
  next_entry = 1;
  next_zone = 1;
  next_change = 1;
}

abbrev store : Store
store = record empty { blocklists = ads ∷ []; next_blocklist = 2 }

well_formed : IsWellFormed store
well_formed = (
  (((refl, tt)), λ id c. ground arith),
  ((refl, tt), ((tt, λ id c. ground arith), (tt, (tt, λ id c. ground arith)))),
)

one_zone :
    generate_forward_zones_config (
      record {
        id = 1;
        domain = codes "lan";
        servers = codes "10.0.0.1";
        description = none;
        enabled = true;
        node_id = none;
      }
      ∷ [])
    ≡ codes
        "# Forward zones for PowerDNS Recursor\n# Generated automatically - do not edit manually\n\nlan=10.0.0.1"
unfolding generate_forward_zones_config
one_zone = refl

serve-IsWellFormed_example :
    IsWellFormed (serve ((7, delete_list 1) ∷ (7, rollback 1) ∷ (7, toggle_list 2) ∷ []) store)
serve-IsWellFormed_example =
    serve-IsWellFormed ((7, delete_list 1) ∷ (7, rollback 1) ∷ (7, toggle_list 2) ∷ []) store
      well_formed

abbrev off : Blocklist
off = record ads { enabled = false }

served-IsUndone_example :
    IsUndone 7
      (serve ((7, toggle_list 1) ∷ []) store)
      (blocklists_toggle 7 1 (serve ((7, toggle_list 1) ∷ []) store))
    × IsUndone 7
        (serve ((7, toggle_list 1) ∷ []) store)
        (blocklists_update_frequency 7 1 48 (serve ((7, toggle_list 1) ∷ []) store))
unfolding serve get_row
served-IsUndone_example =
    served-IsUndone ((7, toggle_list 1) ∷ []) store well_formed 7 1 48 off (ground arith) refl

abbrev nightly : Blocklist
nightly = set_schedule true (codes "22:00") (codes "06:30") [] ads

abbrev scheduled : Store
scheduled =
    record_change 7 (list_change "update_schedule" ads (some ads) (some nightly))
      (record store { blocklists = nightly ∷ [] })

delete-remade_example :
    (final : Store) × ((rollback_change 7 1 (blocklists_delete 7 1 store) ≡ some (final, restored))
      × ((final.blocklists ≡ drop_row list_id 1 store.blocklists ++ (remade 2 ads ∷ []))
          × (final.stored ≡ without_list 1 store.stored)))
unfolding get_row
delete-remade_example = delete-remade 7 1 store ads refl refl refl

abbrev added : Store
added = record_change 7 (list_change "create" ads none (some ads)) store
