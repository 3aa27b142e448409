-- ===== src/Admin/Rollback/Remade.antt =====
-- Deletes and creations of lists that are taken back.
use mathlib.Core.Option
use power_blockade.Base.{
  ℕ, ◌+◌, ◌≢◌, ◌≡◌, refl, ◌∙◌, sym, ap, String, true, false, none, some, [], ◌∷◌, ◌++◌, arith, ◌==◌,
  nat_eq, string_eq, list_eq, if◌then◌else◌, map, contains, map-guarded,
}
use power_blockade.Base.Texts.{Text, codes}
use power_blockade.Base.Texts
use power_blockade.Admin.Strings
use power_blockade.Base.Decimal.{show}
use power_blockade.Blocklists.{Blocklist}
use power_blockade.Admin.{Store, record_change, get_row, drop_row, list_id}
use power_blockade.Admin.Rows.{get_row-snoc, get_row-absent, drop-snoc}
use power_blockade.Admin.Lists.{
  new_blocklist, insertable, without_list, delete_found, blocklists_delete, blocklists_add,
  insert_blocklist, list_change,
}
use power_blockade.Admin.Rollback.Restored.{HasFreshLog, recorded, rollback-recorded}
use power_blockade.Admin.Rollback.{
  Answer, rollback_change, real_id, restored, already_exists, deleted, drop_list, without_before,
  has_url, rollback_create, rollback_delete, commented,
}

-- The row that the rollback of a delete makes: six columns of the old one, the rest anew.
abbrev pub remade : ℕ → Blocklist → Blocklist
remade id b = new_blocklist id b.name b.url b.format b.list_type b.enabled b.update_frequency_hours

-- If the sequence of the log is ahead and a new row with the six columns of the old one can stand
-- beside the other lists, then taking back the delete of a list that is there succeeds: behind the
-- other lists, which are as they were, stands a list with a new id and these six columns, without
-- schedule, and the stored domains of the old one are gone.
pub delete-remade :
    (actor id : ℕ) (s : Store) (b : Blocklist)
    → HasFreshLog s
    → get_row list_id id s.blocklists ≡ some b
    → insertable (remade s.next_blocklist b) (drop_row list_id b.id s.blocklists) ≡ true
    → (final : Store) × ((rollback_change actor s.next_change (blocklists_delete actor id s)
          ≡ some (final, restored))
        × ((final.blocklists
              ≡ drop_row list_id b.id s.blocklists ++ (remade s.next_blocklist b ∷ []))
            × (final.stored ≡ without_list b.id s.stored)))
unfolding blocklists_delete record_change rollback_delete insert_blocklist
delete-remade actor id s b fresh found ok =
    let done = list_change "delete" b (some b) none in
    let after = delete_found actor s (some b) in
    let url : has_url b.url after.blocklists ≡ false = ground arith in
    let new = remade s.next_blocklist b in
    let inserted : Store = record after {
      blocklists = after.blocklists ++ (new ∷ []);
      next_blocklist = s.next_blocklist + 1;
    } in
    let comment = codes "Rolled back delete from change #" ++ show s.next_change in
    let again = commented comment (list_change "rollback_restore" new none (some new)) in
    let answer : Store → Answer = λ x. (record_change actor again x, restored) in
    (
      record_change actor again inserted,
      (
        ap (λ o. rollback_change actor s.next_change (delete_found actor s o)) found
            ∙ rollback-recorded actor done s after fresh refl
            ∙ ap
                (λ c.
                  if c
                  then some (after, already_exists)
                  else Option.map answer (insert_blocklist new after))
                url
            ∙ ap (λ c. Option.map answer (if c then some inserted else none)) ok,
        (refl, refl),
      ),
    )

here : (id : ℕ) (b : Blocklist) → (if id == id then some b else none) ≡ some b
here id b = ground arith

-- Taking back the creation of a list that was added succeeds and leaves the lists and the stored
-- domains as they were, if the sequences are ahead of the ids of the log, of the lists and of the
-- lists that stored domains belong to.
pub create-undone :
    (actor : ℕ) (name url : String) (format : Text) (list_type : String) (hours : ℕ)
    (s after : Store)
    → HasFreshLog s
    → s.next_blocklist ≢ 0
    → contains (map list_id s.blocklists) s.next_blocklist ≡ false
    → without_list s.next_blocklist s.stored ≡ s.stored
    → blocklists_add actor name url format list_type hours s ≡ some after
    → (final : Store) × ((rollback_change actor s.next_change after ≡ some (final, deleted))
        × ((final.blocklists ≡ s.blocklists) × (final.stored ≡ s.stored)))
unfolding blocklists_add insert_blocklist record_change rollback_create
create-undone actor name url format list_type hours s after fresh nz new_id no_stored h =
    let b =
      new_blocklist s.next_blocklist (Strings.strip name) (Strings.strip url) (Texts.strip format)
        (Strings.strip list_type) true hours in
    let change = list_change "create" b none (some b) in
    let inserted : Store = record s {
      blocklists = s.blocklists ++ (b ∷ []);
      next_blocklist = s.next_blocklist + 1;
    } in
    let created = record_change actor change inserted in
    let same : created ≡ after =
      (map-guarded (record_change actor change) (insertable b s.blocklists) inserted after h).1 in
    let comment = codes "Rolled back create from change #" ++ show s.next_change in
    let real : real_id (some s.next_blocklist) ≡ some s.next_blocklist = ground arith in
    let there : get_row list_id s.next_blocklist created.blocklists ≡ some b =
      get_row-snoc list_id s.next_blocklist s.blocklists b
        (get_row-absent list_id s.next_blocklist s.blocklists new_id)
      ∙ here (s.next_blocklist) b in
    rw (sym same) (
      (drop_list actor comment created (some b)).0,
      (
        rollback-recorded actor change s created fresh refl
            ∙ ap (without_before actor (recorded s.next_change actor change) created) real
            ∙ ap (λ o. some (drop_list actor comment created o)) there,
        (drop-snoc list_id s.blocklists b new_id, no_stored),
      ),
    )
