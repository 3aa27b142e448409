-- ===== src/Admin/Rollback/Restored.antt =====
-- What a rollback brings back, request by request.
use power_blockade.Base.{
  ℕ, ◌≢◌, ◌≡◌, refl, ◌∙◌, sym, ap, String, Bool, true, false, not, none, some, List, [], ◌∷◌, ◌++◌,
  arith, ◌==◌, nat_eq, string_eq, list_eq, if◌then◌else◌, map, IsDistinct, guarded,
}
use power_blockade.Base.Texts.{Text, codes}
use power_blockade.Base.Decimal.{show}
use power_blockade.Blocklists.{Blocklist}
use power_blockade.Admin.{
  Store, of_blocklist, ConfigChange, Change, record_change, get_row, save_row, list_id, change_id,
}
use power_blockade.Admin.Rows.{get_row-snoc, get_row-key, get_row-save, save-save, save_same}
use power_blockade.Admin.Lists.{
  list_change, set_schedule, schedule_fits, edit_found, edit_blocklist, blocklists_toggle,
  blocklists_update_frequency, blocklists_update_schedule,
}
use power_blockade.Admin.Rollback.{
  rolled_back, revert_list, rollback_list_update, rollback_update, rollback_found, rollback_change,
  updates, real_id, update_known, rollback_delete, cannot_rollback, commented,
}

-- The sequence of the log is ahead of its rows.
abbrev pub HasFreshLog : Store → Type 0
HasFreshLog s = get_row change_id s.next_change s.changes ≡ none

-- The row of the log that a request has just made.
abbrev pub recorded : ℕ → ℕ → Change → ConfigChange
recorded id actor c = record {
  id = id;
  entity_type = c.entity_type;
  entity_id = c.entity_id;
  action = c.action;
  actor_user_id = some actor;
  before_data = c.before_data;
  after_data = c.after_data;
  comment = c.comment;
}

pub rollback-recorded :
    (actor : ℕ) (c : Change) (s after : Store)
    → HasFreshLog s
    → after.changes ≡ s.changes ++ (recorded s.next_change actor c ∷ [])
    → rollback_change actor s.next_change after
      ≡ rollback_found actor (some (recorded s.next_change actor c)) after
unfolding rollback_change
rollback-recorded actor c s after fresh e =
    let found_itself : (if s.next_change == s.next_change
          then some (recorded s.next_change actor c)
          else none)
        ≡ some (recorded s.next_change actor c) =
      ground arith in
    ap (λ o. rollback_found actor o after)
      (ap (get_row change_id s.next_change) e
        ∙ get_row-snoc change_id s.next_change s.changes (recorded s.next_change actor c) fresh
        ∙ found_itself)

-- The answer to the rollback of the change just made, and the lists that it leaves.
abbrev pub IsUndone : ℕ → Store → Store → Type 0
IsUndone actor s after =
    (final : Store) × ((rollback_change actor s.next_change after ≡ some (final, rolled_back))
      × (final.blocklists ≡ s.blocklists))

edit-found :
    (actor : ℕ) (action : String) (f : Blocklist → Blocklist) (id : ℕ) (s : Store) (b : Blocklist)
    → get_row list_id id s.blocklists ≡ some b
    → edit_blocklist actor action f id s
      ≡ record_change actor
          (list_change action b (some b) (some (f b)))
          (record s { blocklists = save_row list_id (f b) s.blocklists })
unfolding edit_blocklist
edit-found actor action f id s b h = ap (edit_found actor action f s) h

-- The rollback of an update of a list that is there.
update-reverts :
    (actor id : ℕ) (action : String) (old new b : Blocklist) (s : Store)
    → old.id ≢ 0
    → get_row list_id old.id s.blocklists ≡ some b
    → (action == "delete") ≡ false
    → updates action ≡ true
    → rollback_found actor
        (some (recorded id actor (list_change action old (some old) (some new))))
        s
      ≡ rollback_list_update actor (codes "Rolled back change #" ++ show id) old (some b) s
unfolding rollback_change rollback_update
update-reverts actor id action old new b s nz found nd up =
    let comment = codes "Rolled back change #" ++ show id in
    let real : real_id (some old.id) ≡ some old.id = ground arith in
    let row : ConfigChange = recorded id actor (list_change action old (some old) (some new)) in
    ap
      (λ b.
        if b
        then rollback_delete actor row (of_blocklist old) s
        else if updates action
        then rollback_update actor row (of_blocklist old) s
        else some (s, cannot_rollback))
      nd
    ∙ ap
        (λ b.
          if b then rollback_update actor row (of_blocklist old) s else some (s, cannot_rollback))
        up
    ∙ ap (λ o. update_known actor comment (of_blocklist old) o s) real
    ∙ ap (λ o. rollback_list_update actor comment old o s) found

edit-IsUndone :
    (actor : ℕ) (action : String) (f : Blocklist → Blocklist) (id : ℕ) (s : Store) (b : Blocklist)
    → HasFreshLog s
    → IsDistinct (map list_id s.blocklists)
    → id ≢ 0
    → get_row list_id id s.blocklists ≡ some b
    → (action == "delete") ≡ false
    → updates action ≡ true
    → list_id (f b) ≡ list_id b
    → revert_list b (f b) ≡ b
    → IsUndone actor s (edit_blocklist actor action f id s)
unfolding record_change rollback_list_update
edit-IsUndone actor action f id s b fresh d nz found nd up key back =
    let own : list_id b ≡ id = get_row-key list_id id s.blocklists b found in
    let change = list_change action b (some b) (some (f b)) in
    let saved : Store = record s { blocklists = save_row list_id (f b) s.blocklists } in
    let after = record_change actor change saved in
    let comment = codes "Rolled back change #" ++ show s.next_change in
    rw (edit-found actor action f id s b found) (
      record_change actor
          (commented comment
            (list_change "rollback_update" (f b) (some (f b)) (some (revert_list b (f b)))))
          (record after { blocklists = save_row list_id (revert_list b (f b)) after.blocklists }),
      (
        rollback-recorded actor change s after fresh refl
            ∙ update-reverts actor s.next_change action b (f b) (f b) after (λ z. nz (sym own ∙ z))
                (get_row-save list_id (list_id b) s.blocklists b (f b)
                  (ap (λ i. get_row list_id i s.blocklists) own ∙ found) key)
                nd up
            ∙ refl,
        ap (λ x. save_row list_id x (save_row list_id (f b) s.blocklists)) back
            ∙ save-save list_id (f b) b s.blocklists key
            ∙ save_same list_id id s.blocklists b found d,
      ),
    )

-- If no two lists share an id and the sequence of the log is ahead, then taking back a toggle or a
-- change of the frequency of a list that is there succeeds, and leaves the lists as they were.
pub edits-IsUndone :
    (actor id hours : ℕ) (s : Store) (b : Blocklist)
    → HasFreshLog s
    → IsDistinct (map list_id s.blocklists)
    → id ≢ 0
    → get_row list_id id s.blocklists ≡ some b
    → IsUndone actor s (blocklists_toggle actor id s)
      × IsUndone actor s (blocklists_update_frequency actor id hours s)
unfolding blocklists_toggle blocklists_update_frequency
edits-IsUndone actor id hours s b fresh d nz found = (
  edit-IsUndone actor "toggle" (λ b. record b { enabled = not b.enabled }) id s b fresh d nz found
      refl refl refl refl,
  edit-IsUndone actor "update_frequency" (λ b. record b { update_frequency_hours = hours }) id s b
      fresh d nz found refl refl refl refl,
)

-- A change of the schedule of a list that is there cannot be taken back: the rollback of the change
-- that it records answers so and changes nothing.
pub schedule-stays :
    (actor id : ℕ) (on : Bool) (start end : Text) (days : List Text) (s after : Store)
    (b : Blocklist)
    → HasFreshLog s
    → get_row list_id id s.blocklists ≡ some b
    → blocklists_update_schedule actor id on start end days s ≡ some after
    → rollback_change actor s.next_change after ≡ some (after, cannot_rollback)
unfolding blocklists_update_schedule edit_blocklist record_change
schedule-stays actor id on start end days s after b fresh found h =
    let f = set_schedule on start end days in
    let done = list_change "update_schedule" b (some b) (some (f b)) in
    let edited = edit_blocklist actor "update_schedule" f id s in
    let same : edited ≡ after =
      (guarded (schedule_fits start end days (get_row list_id id s.blocklists)) edited after h).1 in
    rollback-recorded actor done s after fresh
      (ap (λ x. x.changes) (sym same ∙ edit-found actor "update_schedule" f id s b found))
    ∙ refl
