-- ===== src/Agent/Sync.antt =====
-- What `sync_config` installs.
use mathlib.Core.Option
use power_blockade.Base.{
  ◌≡◌, refl, Bool, true, false, Option, none, some, List, [], ◌∷◌, ◌⊎◌, map, contains, IsDistinct,
  ◌==◌, nat_eq, list_eq, pair_eq, if◌then◌else◌, lookup, lookup-insert, All, ap, sym, ◌∙◌,
  Bool-cases, inl, inr, ◌↔◌,
}
use power_blockade.Base.Texts.{Text}
use power_blockade.Agent.{
  Files, Config, fetched, write_if_changed, named, put_file, write_rpz, write_forward_zones,
  forward_zones_text, sync_config,
}

eq_iff : (a b : Text) → ((a == b) ≡ true) ↔ (a ≡ b)
eq_iff = list_eq.beq_iff

module _ (checksum : Text → Text) where
  -- What a file should hold: the content that comes last under its name, else what it held.
  abbrev pub wanted : Text → List (Text × Text) → Option Text → Option Text
  wanted name [] old = old
  wanted name ((n, content) ∷ fs) old = wanted name fs (if n == name then some content else old)

  abbrev pub sum : Option Text → Option Text
  sum none = none
  sum (some t) = some (checksum t)

  wanted-sum :
      (name : Text) (fs : List (Text × Text)) (a b : Option Text)
      → sum a ≡ sum b
      → sum (wanted name fs a) ≡ sum (wanted name fs b)
  wanted-sum name [] a b h = h
  wanted-sum name ((n, content) ∷ fs) a b h = elim (Bool-cases (n == name)) [
    | inl e ↦ rw e (wanted-sum name fs (some content) (some content) refl)
    | inr e ↦ rw e (wanted-sum name fs a b h)
  ]

  -- The file is written with the content, or was there with its checksum.
  write_if_changed_cases :
      (old : Option Text) (content : Text)
      → ((write_if_changed checksum old content).1 ≡ true)
          × ((write_if_changed checksum old content).0 ≡ content)
        ⊎ ((write_if_changed checksum old content).1 ≡ false) × (sum old ≡ some (checksum content))
  unfolding write_if_changed
  write_if_changed_cases none content = inl (refl, refl)
  write_if_changed_cases (some t) content = elim (Bool-cases (checksum t == checksum content)) [
    | inl e ↦ inr (rw e refl, ap some ((eq_iff (checksum t) (checksum content)).0 e))
    | inr e ↦ inl (rw e refl, rw e refl)
  ]

  write_if_changed-sum :
      (old : Option Text) (content : Text)
      → checksum (write_if_changed checksum old content).0 ≡ checksum content
  unfolding write_if_changed
  write_if_changed-sum none content = refl
  write_if_changed-sum (some t) content = elim (Bool-cases (checksum t == checksum content)) [
    | inl e ↦ rw e ((eq_iff (checksum t) (checksum content)).0 e)
    | inr e ↦ rw e refl
  ]

  put_file-sum :
      (name n content : Text) (dir : List (Text × Text)) (changed : Bool)
      → sum (lookup name (put_file checksum (n, content) (dir, changed)).0)
        ≡ sum (if n == name then some content else lookup name dir)
  put_file-sum name n content dir changed = elim (write_if_changed_cases (lookup n dir) content) [
    | inl (wrote, written) ↦ rw (wrote, written) (ap sum (lookup-insert n name content dir))
    | inr (kept, same) ↦ rw kept (elim (Bool-cases (n == name)) [
      | inl e ↦ rw e (ap (λ k. sum (lookup k dir)) (sym ((eq_iff n name).0 e)) ∙ same)
      | inr e ↦ rw e refl
    ])
  ]

  write_rpz-sum :
      (name : Text) (fs : List (Text × Text)) (s : List (Text × Text) × Bool)
      → sum (lookup name (write_rpz checksum fs s).0) ≡ sum (wanted name fs (lookup name s.0))
  unfolding write_rpz
  write_rpz-sum name [] s = refl
  write_rpz-sum name ((n, content) ∷ fs) s =
      write_rpz-sum name fs (put_file checksum (n, content) s)
      ∙ wanted-sum name fs _ _ (put_file-sum name n content s.0 s.1)

  zones-sum :
      (zones : List (Text × Text)) (old : Option Text)
      → sum (write_forward_zones checksum zones old).0
        ≡ sum (if zones == [] then old else some (forward_zones_text zones))
  unfolding write_forward_zones
  zones-sum [] old = refl
  zones-sum (z ∷ zones) old = ap some (write_if_changed-sum old (forward_zones_text (z ∷ zones)))

  -- After a sync that fetched the configuration, every RPZ file has the checksum of the last content
  -- that the answer gives under its name, or, if it gives none, of what the file held before; the
  -- file of forward zones has the checksum of the zones' text, but if the answer has no zone, it is
  -- left as it was.
  pub sync-sums :
      (config : Config) (files : Files)
      → ((name : Text)
          → sum (lookup name (sync_config checksum (fetched config) files).files.rpz)
            ≡ sum (wanted name (named config.rpz_files) (lookup name files.rpz)))
        × (sum (sync_config checksum (fetched config) files).files.forward_zones
            ≡ sum (
                if config.forward_zones == []
                then files.forward_zones
                else some (forward_zones_text config.forward_zones)))
  unfolding sync_config
  sync-sums config files = (
    λ name. write_rpz-sum name (named config.rpz_files) (files.rpz, false),
    zones-sum config.forward_zones files.forward_zones,
  )

  -- Every one of these files is there with its checksum.
  abbrev Settled : List (Text × Text) → List (Text × Text) → Type 0
  Settled dir = All (λ (n, content). sum (lookup n dir) ≡ some (checksum content))

  wanted-absent :
      (name : Text) (fs : List (Text × Text)) (old : Option Text)
      → contains (map (λ f. f.0) fs) name ≡ false
      → wanted name fs old ≡ old
  wanted-absent name [] old h = refl
  wanted-absent name (f ∷ fs) old h = elim (Bool-cases (f.0 == name)) [
    | inl e ↦ cc (rw e at h)
    | inr e ↦ rw e (wanted-absent name fs old (rw e at h))
  ]

  wanted-Settled :
      (fs : List (Text × Text)) (dir : List (Text × Text)) (old : Text → Option Text)
      → IsDistinct (map (λ f. f.0) fs)
      → ((name : Text) → sum (lookup name dir) ≡ sum (wanted name fs (old name)))
      → Settled dir fs
  wanted-Settled [] dir old d h = tt
  wanted-Settled (f ∷ fs) dir old d h = (
    h f.0 ∙ rw ((eq_iff f.0 f.0).1 refl) (ap sum (wanted-absent f.0 fs (some f.1) d.0)),
    wanted-Settled fs dir (λ name. if f.0 == name then some f.1 else old name) d.1 h,
  )

  unwritten :
      (old : Option Text) (content : Text)
      → sum old ≡ some (checksum content)
      → (write_if_changed checksum old content).1 ≡ false
  unfolding write_if_changed
  unwritten none content h = cc
  unwritten (some t) content h =
      rw ((eq_iff (checksum t) (checksum content)).1 (Option.some_inj.0 h)) refl

  write_rpz-Settled :
      (fs dir : List (Text × Text))
      → Settled dir fs
      → write_rpz checksum fs (dir, false) ≡ (dir, false)
  unfolding write_rpz
  write_rpz-Settled [] dir h = refl
  write_rpz-Settled (f ∷ fs) dir h =
      rw (unwritten (lookup f.0 dir) f.1 h.0) (write_rpz-Settled fs dir h.1)

  rewritten :
      (old content : Text)
      → checksum old ≡ checksum content
      → write_if_changed checksum (some old) content ≡ (old, false)
  unfolding write_if_changed
  rewritten old content h = rw ((eq_iff (checksum old) (checksum content)).1 h) refl

  zones-again :
      (zones : List (Text × Text)) (old : Option Text)
      → write_forward_zones checksum zones (write_forward_zones checksum zones old).0
        ≡ ((write_forward_zones checksum zones old).0, false)
  unfolding write_forward_zones
  zones-again [] old = refl
  zones-again (z ∷ zones) old =
      let text = forward_zones_text (z ∷ zones) in
      ap (λ (t, wrote). (some t, wrote))
        (rewritten (write_if_changed checksum old text).0 text (write_if_changed-sum old text))

  -- If no two RPZ files of the answer share a name, a second sync with the same answer changes
  -- nothing and triggers no reload.
  pub sync-sync :
      (config : Config) (files : Files)
      → IsDistinct (map (λ f. f.0) (named config.rpz_files))
      → sync_config checksum (fetched config) (sync_config checksum (fetched config) files).files
        ≡ record {
          changed = false;
          settings = config.settings;
          files = (sync_config checksum (fetched config) files).files;
        }
  unfolding sync_config
  sync-sync config files d =
      let fs = named config.rpz_files in
      let dir = (write_rpz checksum fs (files.rpz, false)).0 in
      let settled : Settled dir fs =
        wanted-Settled fs dir (λ name. lookup name files.rpz) d
          (λ name. write_rpz-sum name fs (files.rpz, false)) in
      rw (write_rpz-Settled fs dir settled, zones-again config.forward_zones files.forward_zones)
        refl
