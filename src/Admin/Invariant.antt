-- ===== src/Admin/Invariant.antt =====
-- What holds of the tables whatever the administrator requests, in whatever order.
use power_blockade.Base.{
  ℕ, ◌+◌, ◌<◌, ◌≡◌, ◌≢◌, refl, ◌∙◌, sym, ap, String, Bool, true, false, not, ◌&&◌, ◌||◌, Option,
  none, some, List, [], ◌∷◌, ◌++◌, arith, leb, ◌==◌, nat_eq, string_eq, list_eq, if◌then◌else◌, map,
  contains, IsDistinct, Option-cases, Bool-cases, inl, inr, guarded, map-guarded,
}
use power_blockade.Base
use power_blockade.Base.Texts.{Text}
use power_blockade.Blocklists.{Blocklist}
use power_blockade.Admin.{
  Store, ForwardZone, Change, record_change, get_row, save_row, drop_row, list_id, zone_id,
  change_id,
}
use power_blockade.Admin.Tables.{
  IsTable, IsTable-snoc, IsTable-save, IsTable-select, IsDistinct-map-select, IsDistinct-map-snoc,
  map_column-save,
}
use power_blockade.Admin.Lists.{insertable, insert_blocklist, without_list}
use power_blockade.Admin.Strings.{length}
use power_blockade.Admin.Zones.{known_node, zone_fits, insert_zone}
use power_blockade.Admin.Rollback.Restored.{recorded}

abbrev pub url : Blocklist → String
url b = b.url

abbrev pub domain : ForwardZone → Text
domain z = z.domain

-- Lists, zones and changes have their own ids, all of them behind the sequence of their table; no
-- two lists share an url, and no two zones a domain.
abbrev pub IsWellFormed : Store → Type 0
IsWellFormed s =
    IsTable list_id s.next_blocklist s.blocklists
    × (IsDistinct (map url s.blocklists)
        × (IsTable zone_id s.next_zone s.zones
            × (IsDistinct (map domain s.zones) × IsTable change_id s.next_change s.changes)))

pub record-IsWellFormed :
    (actor : ℕ) (c : Change) (s : Store) → IsWellFormed s → IsWellFormed (record_change actor c s)
unfolding record_change
record-IsWellFormed actor c s w = (
  w.0,
  (
    w.1.0,
    (
      w.1.1.0,
      (
        w.1.1.1.0,
        IsTable-snoc change_id s.next_change s.changes (recorded s.next_change actor c) refl
            w.1.1.1.1,
      ),
    ),
  ),
)

last_false : (a b c d : Bool) → (a && (b && (c && not d))) ≡ true → d ≡ false
last_false a b c d h = ground arith

first_false : (d e : Bool) → (not d && e) ≡ true → d ≡ false
first_false d e h = ground arith

pub insert_list-IsWellFormed :
    (b : Blocklist) (s after : Store)
    → b.id ≡ s.next_blocklist
    → IsWellFormed s
    → insert_blocklist b s ≡ some after
    → IsWellFormed after
unfolding insert_blocklist
insert_list-IsWellFormed b s after own w h =
    let inserted : Store = record s {
      blocklists = s.blocklists ++ (b ∷ []);
      next_blocklist = s.next_blocklist + 1;
    } in
    let g = guarded (insertable b s.blocklists) inserted after h in
    let new_url : contains (map url s.blocklists) b.url ≡ false =
      last_false (leb (length b.name) 255) (leb (Base.length b.format) 50)
        (leb (length b.list_type) 10) (contains (map url s.blocklists) b.url) g.0 in
    rw (sym g.1) (
      IsTable-snoc list_id s.next_blocklist s.blocklists b own w.0,
      (IsDistinct-map-snoc url s.blocklists b w.1.0 new_url, w.1.1),
    )

pub insert_zone-IsWellFormed :
    (z : ForwardZone) (s after : Store)
    → z.id ≡ s.next_zone
    → IsWellFormed s
    → insert_zone z s ≡ some after
    → IsWellFormed after
unfolding insert_zone
insert_zone-IsWellFormed z s after own w h =
    let inserted : Store = record s { zones = s.zones ++ (z ∷ []); next_zone = s.next_zone + 1 } in
    let g = guarded (zone_fits s.nodes z s.zones) inserted after h in
    let new_domain : contains (map domain s.zones) z.domain ≡ false =
      first_false (contains (map domain s.zones) z.domain)
        (leb (Base.length z.domain) 255 && known_node s.nodes z.node_id) g.0 in
    rw (sym g.1) (
      w.0,
      (
        w.1.0,
        (
          IsTable-snoc zone_id s.next_zone s.zones z own w.1.1.0,
          (IsDistinct-map-snoc domain s.zones z w.1.1.1.0 new_domain, w.1.1.1.1),
        ),
      ),
    )

-- An edit of a list that leaves its id and its url.
pub save_list-IsWellFormed :
    (id : ℕ) (a b : Blocklist) (s : Store)
    → get_row list_id id s.blocklists ≡ some a
    → b.id ≡ a.id
    → b.url ≡ a.url
    → IsWellFormed s
    → IsWellFormed (record s { blocklists = save_row list_id b s.blocklists })
save_list-IsWellFormed id a b s found k u w = (
  IsTable-save list_id s.next_blocklist s.blocklists b w.0,
  (rw (map_column-save list_id url id s.blocklists a b found w.0.0 k u) w.1.0, w.1.1),
)

pub drop_list-IsWellFormed :
    (id : ℕ) (s : Store)
    → IsWellFormed s
    → IsWellFormed (record s {
      blocklists = drop_row list_id id s.blocklists;
      stored = without_list id s.stored;
    })
drop_list-IsWellFormed id s w = (
  IsTable-select list_id s.next_blocklist s.blocklists (λ b. not (list_id b == id)) w.0,
  (IsDistinct-map-select url (λ b. not (list_id b == id)) s.blocklists w.1.0, w.1.1),
)

pub drop_zone-IsWellFormed :
    (id : ℕ) (s : Store)
    → IsWellFormed s
    → IsWellFormed (record s { zones = drop_row zone_id id s.zones })
drop_zone-IsWellFormed id s w = (
  w.0,
  (
    w.1.0,
    (
      IsTable-select zone_id s.next_zone s.zones (λ z. not (zone_id z == id)) w.1.1.0,
      (IsDistinct-map-select domain (λ z. not (zone_id z == id)) s.zones w.1.1.1.0, w.1.1.1.1),
    ),
  ),
)

-- An edit of a zone that leaves its id and its domain.
pub save_zone-IsWellFormed :
    (id : ℕ) (a b : ForwardZone) (s : Store)
    → get_row zone_id id s.zones ≡ some a
    → b.id ≡ a.id
    → b.domain ≡ a.domain
    → IsWellFormed s
    → IsWellFormed (record s { zones = save_row zone_id b s.zones })
save_zone-IsWellFormed id a b s found k u w = (
  w.0,
  (
    w.1.0,
    (
      IsTable-save zone_id s.next_zone s.zones b w.1.1.0,
      (rw (map_column-save zone_id domain id s.zones a b found w.1.1.0.0 k u) w.1.1.1.0, w.1.1.1.1),
    ),
  ),
)
