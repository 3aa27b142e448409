-- ===== src/Admin/Inserts.antt =====
-- The requests that add a row keep the tables well-formed.
use mathlib.Core.Option
use power_blockade.Base.{
  ℕ, ◌+◌, ◌≡◌, refl, sym, Bool, true, false, Option, none, some, [], ◌∷◌, ◌++◌, arith, nat_eq,
  string_eq, list_eq, if◌then◌else◌, guarded,
}
use power_blockade.Blocklists.{Blocklist}
use power_blockade.Admin.{Store, ForwardZone, Change, record_change, EntryRow, or_store}
use power_blockade.Admin.Lists.{insert_blocklist, list_change}
use power_blockade.Admin.Entries
use power_blockade.Admin.Entries.{
  entry_fits, insert_entry, new_entry, entries_add, entries_delete, cleaned,
}
use power_blockade.Admin.Zones.{insert_zone, zone_change}
use power_blockade.Admin.Invariant.{
  IsWellFormed, record-IsWellFormed, insert_list-IsWellFormed, insert_zone-IsWellFormed,
}
use power_blockade.Admin.Edits.{some-same}

-- An insert that is recorded when it succeeds.
pub recorded-IsWellFormed :
    (actor : ℕ) (c : Change) (o : Option Store) (after : Store)
    → ((inserted : Store) → o ≡ some inserted → IsWellFormed inserted)
    → Option.map (record_change actor c) o ≡ some after
    → IsWellFormed after
recorded-IsWellFormed actor c none after keeps h = absurd (ground arith)
recorded-IsWellFormed actor c (some inserted) after keeps h =
    rw (sym (some-same (record_change actor c inserted) after h))
      (record-IsWellFormed actor c inserted (keeps inserted refl))

pub preset-IsWellFormed :
    (b : Blocklist) (s : Store) (o : Option Store)
    → insert_blocklist b s ≡ o
    → b.id ≡ s.next_blocklist
    → IsWellFormed s
    → IsWellFormed (or_store o s)
preset-IsWellFormed b s none h own w = w
preset-IsWellFormed b s (some after) h own w = insert_list-IsWellFormed b s after own w h

pub or_store-IsWellFormed :
    (o : Option Store) (s : Store)
    → IsWellFormed s
    → ((after : Store) → o ≡ some after → IsWellFormed after)
    → IsWellFormed (or_store o s)
or_store-IsWellFormed none s w keeps = w
or_store-IsWellFormed (some after) s w keeps = keeps after refl

pub add_list-IsWellFormed :
    (actor : ℕ) (b : Blocklist) (s : Store)
    → b.id ≡ s.next_blocklist
    → IsWellFormed s
    → IsWellFormed (
        or_store
          (Option.map
            (record_change actor (list_change "create" b none (some b)))
            (insert_blocklist b s))
          s)
add_list-IsWellFormed actor b s own w =
    let done = list_change "create" b none (some b) in
    or_store-IsWellFormed (Option.map (record_change actor done) (insert_blocklist b s)) s w
      (λ after.
        recorded-IsWellFormed actor done (insert_blocklist b s) after
          (λ inserted. insert_list-IsWellFormed b s inserted own w))

pub add_zone-IsWellFormed :
    (actor : ℕ) (z : ForwardZone) (s : Store)
    → z.id ≡ s.next_zone
    → IsWellFormed s
    → IsWellFormed (
        or_store
          (Option.map
            (record_change actor (zone_change "create" z none (some z)))
            (insert_zone z s))
          s)
add_zone-IsWellFormed actor z s own w =
    let done = zone_change "create" z none (some z) in
    or_store-IsWellFormed (Option.map (record_change actor done) (insert_zone z s)) s w (λ after.
      recorded-IsWellFormed actor done (insert_zone z s) after
        (λ inserted. insert_zone-IsWellFormed z s inserted own w))

pub insert_entry-IsWellFormed :
    (e : EntryRow) (s inserted : Store)
    → IsWellFormed s
    → insert_entry e s ≡ some inserted
    → IsWellFormed inserted
unfolding insert_entry
insert_entry-IsWellFormed e s inserted w h =
    let after : Store = record s {
      entries = s.entries ++ (e ∷ []);
      next_entry = s.next_entry + 1;
    } in
    rw (sym (guarded (entry_fits e s.entries) after inserted h).1) w

pub add_entry-IsWellFormed :
    (actor : ℕ) (e : EntryRow) (s : Store)
    → IsWellFormed s
    → IsWellFormed (
        or_store
          (Option.map
            (record_change actor (Entries.entry_change "create" e false))
            (insert_entry e s))
          s)
add_entry-IsWellFormed actor e s w =
    let done = Entries.entry_change "create" e false in
    or_store-IsWellFormed (Option.map (record_change actor done) (insert_entry e s)) s w (λ after.
      recorded-IsWellFormed actor done (insert_entry e s) after
        (λ inserted. insert_entry-IsWellFormed e s inserted w))

pub guarded-IsWellFormed :
    (c : Bool) (x s : Store)
    → IsWellFormed x
    → IsWellFormed s
    → IsWellFormed (or_store (if c then some x else none) s)
guarded-IsWellFormed true x s v w = v
guarded-IsWellFormed false x s v w = w
