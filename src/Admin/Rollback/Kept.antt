-- ===== src/Admin/Rollback/Kept.antt =====
-- Taking back a recorded change keeps the tables well-formed.
use mathlib.Core.Option
use power_blockade.Base.{
  ℕ, ◌≡◌, refl, Bool, true, false, Option, none, some, ◌==◌, nat_eq, string_eq, list_eq,
  if◌then◌else◌, ◌++◌, Bool-cases, inl, inr,
}
use power_blockade.Base.Texts.{Text, codes}
use power_blockade.Base.Decimal.{show}
use power_blockade.Blocklists.{Blocklist}
use power_blockade.Admin.{
  Store, ForwardZone, Snapshot, of_blocklist, of_zone, of_entry, ConfigChange, Change,
  record_change, get_row, save_row, drop_row, list_id, zone_id, change_id, or_store,
}
use power_blockade.Admin.Tables.{IsTable-save, IsDistinct-map-save}
use power_blockade.Admin.Lists.{new_blocklist, insert_blocklist}
use power_blockade.Admin.Zones.{insert_zone}
use power_blockade.Admin.Invariant.{
  domain, IsWellFormed, record-IsWellFormed, insert_list-IsWellFormed, insert_zone-IsWellFormed,
  save_list-IsWellFormed, drop_list-IsWellFormed, drop_zone-IsWellFormed,
}
use power_blockade.Admin.Rollback.{
  Answer, restored, has_url, has_domain, rollback_delete, real_id, revert_list, revert_zone,
  rollback_list_update, rollback_zone_update, update_known, rollback_update, drop_list, drop_zone,
  rollback_create, supported, updates, without_before, dispatch, rollback_found, rollback_change,
}

-- The tables of an answer, if there is one.
abbrev IsKept : Option Answer → Type 0
IsKept none = Unit
IsKept (some a) = IsWellFormed a.0

unless-IsKept :
    (c : Bool) (x y : Option Answer)
    → IsKept x
    → (c ≡ false → IsKept y)
    → IsKept (if c then x else y)
unless-IsKept true x y h k = h
unless-IsKept false x y h k = k refl

insert-IsKept :
    (actor : ℕ) (c : Change) (o : Option Store)
    → ((inserted : Store) → o ≡ some inserted → IsWellFormed inserted)
    → IsKept (Option.map (λ after. (record_change actor c after, restored)) o)
insert-IsKept actor c none keeps = tt
insert-IsKept actor c (some inserted) keeps =
    record-IsWellFormed actor c inserted (keeps inserted refl)

-- A zone may get another domain, but none that another zone has.
rename_zone-IsWellFormed :
    (z : ForwardZone) (s : Store)
    → has_domain z.domain (drop_row zone_id z.id s.zones) ≡ false
    → IsWellFormed s
    → IsWellFormed (record s { zones = save_row zone_id z s.zones })
rename_zone-IsWellFormed z s free w = (
  w.0,
  (
    w.1.0,
    (
      IsTable-save zone_id s.next_zone s.zones z w.1.1.0,
      (IsDistinct-map-save zone_id domain z s.zones w.1.1.0.0 w.1.1.1.0 free, w.1.1.1.1),
    ),
  ),
)

module _ (actor : ℕ) (s : Store) (w : IsWellFormed s) where
  delete-IsKept :
      (change : ConfigChange) (old : Snapshot) → IsKept (rollback_delete actor change old s)
  unfolding rollback_delete
  delete-IsKept change (of_blocklist old) =
      let b =
        new_blocklist s.next_blocklist old.name old.url old.format old.list_type old.enabled
          old.update_frequency_hours in
      unless-IsKept (has_url old.url s.blocklists) _ _ w (λ fresh.
        insert-IsKept actor _ (insert_blocklist b s)
          (λ after. insert_list-IsWellFormed b s after refl w))
  delete-IsKept change (of_zone old) =
      let z : ForwardZone = record old { id = s.next_zone } in
      unless-IsKept (has_domain old.domain s.zones) _ _ w (λ fresh.
        insert-IsKept actor _ (insert_zone z s)
          (λ after. insert_zone-IsWellFormed z s after refl w))
  delete-IsKept change (of_entry old) = w

  list_update-IsKept :
      (comment : Text) (old : Blocklist) (id : ℕ) (o : Option Blocklist)
      → get_row list_id id s.blocklists ≡ o
      → IsKept (rollback_list_update actor comment old o s)
  unfolding rollback_list_update
  list_update-IsKept comment old id none found = w
  list_update-IsKept comment old id (some b) found =
      record-IsWellFormed actor _
        (record s { blocklists = save_row list_id (revert_list old b) s.blocklists })
        (save_list-IsWellFormed id b (revert_list old b) s found refl refl w)

  zone_update-IsKept :
      (comment : Text) (old : ForwardZone) (o : Option ForwardZone)
      → IsKept (rollback_zone_update actor comment old o s)
  unfolding rollback_zone_update
  zone_update-IsKept comment old none = w
  zone_update-IsKept comment old (some z) =
      unless-IsKept (has_domain old.domain (drop_row zone_id z.id s.zones)) _ _ tt (λ free.
        record-IsWellFormed actor _
          (record s { zones = save_row zone_id (revert_zone old z) s.zones })
          (rename_zone-IsWellFormed (revert_zone old z) s free w))

  update-IsKept :
      (comment : Text) (old : Snapshot) (o : Option ℕ) → IsKept (update_known actor comment old o s)
  update-IsKept comment old none = w
  update-IsKept comment (of_blocklist b) (some id) =
      list_update-IsKept comment b id (get_row list_id id s.blocklists) refl
  update-IsKept comment (of_zone z) (some id) =
      zone_update-IsKept comment z (get_row zone_id id s.zones)
  update-IsKept comment (of_entry e) (some id) = w

  drop_list-IsKept :
      (comment : Text) (o : Option Blocklist) → IsKept (some (drop_list actor comment s o))
  drop_list-IsKept comment none = w
  drop_list-IsKept comment (some b) =
      record-IsWellFormed actor _ _ (drop_list-IsWellFormed b.id s w)

  drop_zone-IsKept :
      (comment : Text) (o : Option ForwardZone) → IsKept (some (drop_zone actor comment s o))
  drop_zone-IsKept comment none = w
  drop_zone-IsKept comment (some z) =
      record-IsWellFormed actor _ _ (drop_zone-IsWellFormed z.id s w)

  create-IsKept :
      (change : ConfigChange) (id : ℕ) → IsKept (some (rollback_create actor change id s))
  unfolding rollback_create
  create-IsKept change id =
      let comment = codes "Rolled back create from change #" ++ show change.id in
      elim (Bool-cases (change.entity_type == "blocklist")) [
        | inl e ↦ rw e (drop_list-IsKept comment (get_row list_id id s.blocklists))
        | inr n ↦ rw n (drop_zone-IsKept comment (get_row zone_id id s.zones))
      ]

  without_before-IsKept :
      (change : ConfigChange) (o : Option ℕ) → IsKept (without_before actor change s o)
  without_before-IsKept change none = w
  without_before-IsKept change (some id) =
      unless-IsKept (change.action == "create") _ _ (create-IsKept change id) (λ n. w)

  dispatch-IsKept :
      (change : ConfigChange) (o : Option Snapshot) → IsKept (dispatch actor change o s)
  unfolding rollback_update
  dispatch-IsKept change none = without_before-IsKept change (real_id change.entity_id)
  dispatch-IsKept change (some old) =
      unless-IsKept (change.action == "delete") _ _ (delete-IsKept change old) (λ n.
        unless-IsKept (updates change.action) _ _ (update-IsKept _ old (real_id change.entity_id))
          (λ m. w))

  found-IsKept : (o : Option ConfigChange) → IsKept (rollback_found actor o s)
  found-IsKept none = w
  found-IsKept (some change) =
      unless-IsKept (supported change.entity_type) _ _ (dispatch-IsKept change change.before_data)
        (λ n. w)

  answered-IsWellFormed :
      (o : Option Answer) → IsKept o → IsWellFormed (or_store (Option.map (λ a. a.0) o) s)
  answered-IsWellFormed none kept = w
  answered-IsWellFormed (some a) kept = kept

  pub rollback-IsWellFormed :
      (id : ℕ) → IsWellFormed (or_store (Option.map (λ a. a.0) (rollback_change actor id s)) s)
  unfolding rollback_change
  rollback-IsWellFormed id =
      answered-IsWellFormed (rollback_change actor id s)
        (found-IsKept (get_row change_id id s.changes))
