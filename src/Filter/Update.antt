-- ===== src/Filter/Update.antt =====
-- What the loop of `update_blocklists_job` leaves in the tables.
use mathlib.Core.Path.{ap₂}
use power_blockade.Base.{
  ℕ, ◌≡◌, refl, ◌≢◌, String, Bool, true, false, ◌&&◌, List, [], ◌∷◌, nat_eq, list_eq, arith,
  if◌then◌else◌, All, sym, ◌∙◌, ap, Bool-cases, inl, inr, ltb, All-append,
}
use power_blockade.Base.Texts.{Text}
use power_blockade.Blocklists.{Blocklist, BlocklistEntry}
use power_blockade.Filter.Stored.{kept, update_one_self, update_one-ne}
use power_blockade.Filter.{
  Db, Files, entries_of, Download, Fetched, domains, failed, fetch_and_parse_blocklist, is_due,
  update_one, visit, update_rows, Progress, all_fit, finish, regenerate_rpz, update_blocklists_job,
}

-- No list of the table has this id.
abbrev pub IdAbsent : ℕ → List Blocklist → Type 0
IdAbsent id = All (λ bl. id ≢ bl.id)

abbrev pub IdsDistinct : List Blocklist → Type 0
IdsDistinct [] = Unit
IdsDistinct (bl ∷ bls) = All (λ b. b.id ≢ bl.id) bls × IdsDistinct bls

finish_idle :
    (seconds : ℕ) (db : Db) (files : Files)
    → finish seconds db files
        (record { rows = db.blocklists; entries = db.entries; updated_count = 0; sound = true })
      ≡ (db, files)
unfolding finish
finish_idle seconds db files = refl

finish-sound :
    (seconds : ℕ) (db : Db) (files : Files) (p : Progress)
    → p.sound ≡ true
    → finish seconds db files p ≡ (
      record db { blocklists = p.rows; entries = p.entries },
      if ltb 0 p.updated_count
          then regenerate_rpz seconds (record db { blocklists = p.rows; entries = p.entries })
          else files,
    )
unfolding finish
finish-sound seconds db files p h = rw h refl

finish-unsound :
    (seconds : ℕ) (db : Db) (files : Files) (p : Progress)
    → p.sound ≡ false
    → finish seconds db files p ≡ (db, files)
unfolding finish
finish-unsound seconds db files p h = rw h refl

module _ (download : String → Download) (now : ℕ) where
  -- What should be stored for a list after the job, by what was stored before.
  abbrev pub expected : Blocklist → List Text → List Text
  expected bl old =
      if is_due now bl then kept (fetch_and_parse_blocklist download bl.url bl.format) old else old

  visit_self :
      (bl : Blocklist) (entries : List BlocklistEntry)
      → entries_of bl.id (visit download now bl entries).entries
        ≡ expected bl (entries_of bl.id entries)
  visit_self bl entries = elim (Bool-cases (is_due now bl)) [
    | inl e ↦ rw e (update_one_self now _ bl entries)
    | inr e ↦ rw e refl
  ]

  visit-ne :
      (id : ℕ) (bl : Blocklist) (entries : List BlocklistEntry)
      → id ≢ bl.id
      → entries_of id (visit download now bl entries).entries ≡ entries_of id entries
  visit-ne id bl entries h = elim (Bool-cases (is_due now bl)) [
    | inl e ↦ rw e (update_one-ne now id _ bl entries h)
    | inr e ↦ rw e refl
  ]

  rows-ne :
      (id : ℕ) (bls : List Blocklist) (entries : List BlocklistEntry)
      → All (λ b. b.id ≢ id) bls
      → entries_of id (update_rows download now bls entries).entries ≡ entries_of id entries
  unfolding update_rows
  rows-ne id [] entries h = refl
  rows-ne id (bl ∷ bls) entries h =
      rows-ne id bls (visit download now bl entries).entries h.1
      ∙ visit-ne id bl entries (λ e. h.0 (sym e))

  -- Each list's stored domains are the expected ones, from entries that agree with the old ones.
  abbrev Agrees : List BlocklistEntry → List BlocklistEntry → Blocklist → Type 0
  Agrees old entries bl = entries_of bl.id entries ≡ entries_of bl.id old

  Agrees-visit :
      (old entries : List BlocklistEntry) (bl : Blocklist) (bls : List Blocklist)
      → All (λ b. b.id ≢ bl.id) bls
      → All (Agrees old entries) bls
      → All (Agrees old (visit download now bl entries).entries) bls
  Agrees-visit old entries bl [] h k = tt
  Agrees-visit old entries bl (b ∷ bls) h k =
      (visit-ne b.id bl entries h.0 ∙ k.0, Agrees-visit old entries bl bls h.1 k.1)

  rows-expected :
      (old : List BlocklistEntry) (bls : List Blocklist) (entries : List BlocklistEntry)
      → IdsDistinct bls
      → All (Agrees old entries) bls
      → All
          (λ bl.
            entries_of bl.id (update_rows download now bls entries).entries
            ≡ expected bl (entries_of bl.id old))
          bls
  unfolding update_rows
  rows-expected old [] entries d h = tt
  rows-expected old (bl ∷ bls) entries d h =
      let after = (visit download now bl entries).entries in
      (
        rows-ne bl.id bls after d.0 ∙ visit_self bl entries ∙ ap (expected bl) h.0,
        rows-expected old bls after d.1 (Agrees-visit old entries bl bls d.0 h.1),
      )

  Agrees-refl :
      (entries : List BlocklistEntry) (bls : List Blocklist) → All (Agrees entries entries) bls
  Agrees-refl entries [] = tt
  Agrees-refl entries (bl ∷ bls) = (refl, Agrees-refl entries bls)

  abbrev fitting : Fetched → Bool
  fitting (domains ds) = all_fit ds
  fitting (failed message) = true

  -- What every due list brings fits into its column.
  abbrev pub all_due_fit : List Blocklist → Bool
  all_due_fit [] = true
  all_due_fit (bl ∷ bls) =
      (if is_due now bl
        then fitting (fetch_and_parse_blocklist download bl.url bl.format)
        else true)
      && all_due_fit bls

  update_one-sound :
      (f : Fetched) (bl : Blocklist) (entries : List BlocklistEntry)
      → (update_one now f bl entries).sound ≡ fitting f
  unfolding update_one
  update_one-sound (domains ds) bl entries = refl
  update_one-sound (failed message) bl entries = refl

  visit-sound :
      (bl : Blocklist) (entries : List BlocklistEntry)
      → (visit download now bl entries).sound ≡ (
          if is_due now bl
          then fitting (fetch_and_parse_blocklist download bl.url bl.format)
          else true)
  visit-sound bl entries = elim (Bool-cases (is_due now bl)) [
    | inl e ↦ rw e (update_one-sound _ bl entries)
    | inr e ↦ rw e refl
  ]

  rows-sound :
      (bls : List Blocklist) (entries : List BlocklistEntry)
      → (update_rows download now bls entries).sound ≡ all_due_fit bls
  unfolding update_rows
  rows-sound [] entries = refl
  rows-sound (bl ∷ bls) entries =
      ap₂ (λ a b. a && b) (visit-sound bl entries)
        (rows-sound bls (visit download now bl entries).entries)

  -- If no two lists share an id and all that is downloaded fits into its column, then after the job
  -- each due list whose download succeeds stores exactly the domains of its file, and every other
  -- list, also one whose download fails, stores what it stored before.
  pub update-stores :
      (seconds : ℕ) (db : Db) (files : Files)
      → IdsDistinct db.blocklists
      → all_due_fit db.blocklists ≡ true
      → All
          (λ bl.
            entries_of bl.id (update_blocklists_job download now seconds db files).0.entries
            ≡ expected bl (entries_of bl.id db.entries))
          db.blocklists
  unfolding update_blocklists_job
  update-stores seconds db files d fit =
      let p = update_rows download now db.blocklists db.entries in
      rw (finish-sound seconds db files p (rows-sound db.blocklists db.entries ∙ fit))
        (rows-expected db.entries db.blocklists db.entries d (Agrees-refl db.entries db.blocklists))

  -- If some due list brings a domain that does not fit, the whole job changes neither the tables nor
  -- the files: the lists whose downloads were good are not updated either.
  pub update-rolls_back :
      (seconds : ℕ) (db : Db) (files : Files)
      → all_due_fit db.blocklists ≡ false
      → update_blocklists_job download now seconds db files ≡ (db, files)
  unfolding update_blocklists_job
  update-rolls_back seconds db files unfit =
      finish-unsound seconds db files (update_rows download now db.blocklists db.entries)
        (rows-sound db.blocklists db.entries ∙ unfit)

  not_due_after :
      (f : Fetched) (bl : Blocklist) (entries : List BlocklistEntry)
      → All (λ b. is_due now b ≡ false) (update_one now f bl entries).rows
  unfolding update_one is_due
  not_due_after (domains ds) bl entries = ground arith
  not_due_after (failed message) bl entries = ground arith

  visit-not_due :
      (bl : Blocklist) (entries : List BlocklistEntry)
      → All (λ b. is_due now b ≡ false) (visit download now bl entries).rows
  visit-not_due bl entries = elim (Bool-cases (is_due now bl)) [
    | inl e ↦ rw e (not_due_after _ bl entries)
    | inr e ↦ rw e (e, tt)
  ]

  rows-not_due :
      (bls : List Blocklist) (entries : List BlocklistEntry)
      → All (λ b. is_due now b ≡ false) (update_rows download now bls entries).rows
  unfolding update_rows
  rows-not_due [] entries = tt
  rows-not_due (bl ∷ bls) entries =
      All-append (λ b. is_due now b ≡ false) (visit download now bl entries).rows _
        (visit-not_due bl entries) (rows-not_due bls (visit download now bl entries).entries)

  rows-idle :
      (bls : List Blocklist) (entries : List BlocklistEntry)
      → All (λ b. is_due now b ≡ false) bls
      → update_rows download now bls entries
        ≡ record { rows = bls; entries = entries; updated_count = 0; sound = true }
  unfolding update_rows
  rows-idle [] entries h = refl
  rows-idle (bl ∷ bls) entries h = rw (h.0, rows-idle bls entries h.1) refl

  -- If all that is downloaded fits into its column, a second run at the same time finds no list due,
  -- and changes neither the tables nor the files.
  pub update-update :
      (seconds seconds' : ℕ) (db : Db) (files : Files)
      → all_due_fit db.blocklists ≡ true
      → update_blocklists_job download now seconds'
          (update_blocklists_job download now seconds db files).0
          (update_blocklists_job download now seconds db files).1
        ≡ update_blocklists_job download now seconds db files
  unfolding update_blocklists_job
  update-update seconds seconds' db files fit =
      let p = update_rows download now db.blocklists db.entries in
      rw (finish-sound seconds db files p (rows-sound db.blocklists db.entries ∙ fit)) (
        rw (rows-idle p.rows p.entries (rows-not_due db.blocklists db.entries))
          (finish_idle seconds' _ _))
