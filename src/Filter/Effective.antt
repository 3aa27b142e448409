-- ===== src/Filter/Effective.antt =====
-- Which domains `regenerate_rpz` blocks and allows.
use power_blockade.Base.{
  ℕ, ◌≡◌, refl, String, Bool, true, false, not, ◌&&◌, ◌||◌, some, List, [], ◌∷◌, ◌==◌, nat_eq,
  list_eq, string_eq, arith, if◌then◌else◌, contains, minus, contains-union, contains-minus,
  IsDistinct, IsDistinct-union, IsDistinct-select, ◌∙◌, Bool-cases, inl, inr,
}
use power_blockade.Base.Texts.{Text, codes}
use power_blockade.Blocklists.{Blocklist, BlocklistEntry}
use power_blockade.Rpz.Zone.{render_rpz_zone, render_rpz_whitelist}
use power_blockade.Filter.{
  Db, Domains, manual_domains, entries_of, contribute, manual_sets, gather, collect, write_zones,
  regenerate_rpz,
}

-- Some enabled list with the given answer to `list_type == "allow"` holds the domain.
abbrev pub some_list : Bool → List BlocklistEntry → List Blocklist → Text → Bool
some_list allow entries [] d = false
some_list allow entries (bl ∷ bls) d =
    (bl.enabled
      && ((if bl.list_type == "allow" then allow else not allow)
          && contains (entries_of bl.id entries) d))
    || some_list allow entries bls d

-- What an operator expects: named by hand, or by an enabled list of that kind.
abbrev pub wants_blocked : Db → Text → Bool
wants_blocked db d =
    contains (manual_domains "block" db.manual) d || some_list false db.entries db.blocklists d

abbrev pub wants_allowed : Db → Text → Bool
wants_allowed db d =
    contains (manual_domains "allow" db.manual) d || some_list true db.entries db.blocklists d

contribute-contains :
    (list_type : String) (ds : List Text) (s : Domains) (d : Text)
    → (contains (contribute list_type ds s).blocked d ≡ (
        contains s.blocked d || ((if list_type == "allow" then false else true) && contains ds d)))
      × (contains (contribute list_type ds s).allow d ≡ (
          contains s.allow d || ((if list_type == "allow" then true else false) && contains ds d)))
unfolding contribute
contribute-contains list_type ds s d =
    ground (arith, contains-union s.blocked ds d, contains-union s.allow ds d)

gather-contains :
    (entries : List BlocklistEntry) (s : Domains) (bls : List Blocklist) (d : Text)
    → (contains (gather entries s bls).blocked d
        ≡ (contains s.blocked d || some_list false entries bls d))
      × (contains (gather entries s bls).allow d
          ≡ (contains s.allow d || some_list true entries bls d))
unfolding gather
gather-contains entries s [] d = ground arith
gather-contains entries s (bl ∷ bls) d = elim (Bool-cases bl.enabled) [
  | inl e ↦ rw e (
      ground (
        arith,
        gather-contains entries (contribute bl.list_type (entries_of bl.id entries) s) bls d,
        contribute-contains bl.list_type (entries_of bl.id entries) s d,
      ))
  | inr e ↦ rw e (gather-contains entries s bls d)
]

-- The collected sets are exactly the wanted ones.
pub collect-contains :
    (db : Db) (d : Text)
    → (contains (collect db).blocked d ≡ wants_blocked db d)
      × (contains (collect db).allow d ≡ wants_allowed db d)
unfolding collect
collect-contains db d = ground (
  arith,
  gather-contains db.entries (manual_sets db.manual) db.blocklists d,
  contains-union [] (manual_domains "block" db.manual) d,
  contains-union [] (manual_domains "allow" db.manual) d,
)

abbrev pub effective_blocked : Db → List Text
effective_blocked db = minus (collect db).blocked (collect db).allow

-- The regenerated files are the zones of the blocked domains without the allowed ones, and of the
-- allowed ones. A domain stands in the first exactly when a manual entry or an enabled list blocks
-- it and no manual entry and no enabled list allows it; in the second exactly when one allows it.
pub regenerate-exact :
    (seconds : ℕ) (db : Db)
    → ((regenerate_rpz seconds db).combined
        ≡ some (render_rpz_zone seconds (effective_blocked db) (codes "blocklist-combined")))
      × ((regenerate_rpz seconds db).whitelist
          ≡ some (render_rpz_whitelist seconds (collect db).allow))
      × ((d : Text)
          → contains (effective_blocked db) d ≡ (wants_blocked db d && not (wants_allowed db d)))
      × ((d : Text) → contains (collect db).allow d ≡ wants_allowed db d)
unfolding regenerate_rpz write_zones
regenerate-exact seconds db = (
  refl,
  refl,
  λ d.
      contains-minus (collect db).blocked (collect db).allow d
      ∙ ground (arith, collect-contains db d),
  λ d. (collect-contains db d).1,
)

record AreDistinct (s : Domains) : Type 0 where
  blocked : IsDistinct s.blocked
  allow : IsDistinct s.allow

contribute-AreDistinct :
    (list_type : String) (ds : List Text) (s : Domains)
    → AreDistinct s
    → AreDistinct (contribute list_type ds s)
unfolding contribute
contribute-AreDistinct list_type ds s h = elim (Bool-cases (list_type == "allow")) [
  | inl e ↦ rw e (record { blocked = h.blocked; allow = IsDistinct-union s.allow ds h.allow })
  | inr e ↦ rw e (record { blocked = IsDistinct-union s.blocked ds h.blocked; allow = h.allow })
]

gather-AreDistinct :
    (entries : List BlocklistEntry) (s : Domains) (bls : List Blocklist)
    → AreDistinct s
    → AreDistinct (gather entries s bls)
unfolding gather
gather-AreDistinct entries s [] h = h
gather-AreDistinct entries s (bl ∷ bls) h = elim (Bool-cases bl.enabled) [
  | inl e ↦ rw e (
      gather-AreDistinct entries (contribute bl.list_type (entries_of bl.id entries) s) bls
        (contribute-AreDistinct bl.list_type (entries_of bl.id entries) s h))
  | inr e ↦ rw e (gather-AreDistinct entries s bls h)
]

-- No domain is written twice, however many lists hold it.
pub effective-IsDistinct :
    (db : Db) → IsDistinct (effective_blocked db) × IsDistinct (collect db).allow
unfolding collect minus
effective-IsDistinct db =
    let sets = gather-AreDistinct db.entries (manual_sets db.manual) db.blocklists (record {
      blocked = IsDistinct-union [] (manual_domains "block" db.manual) tt;
      allow = IsDistinct-union [] (manual_domains "allow" db.manual) tt;
    }) in
    (IsDistinct-select _ _ sets.blocked, sets.allow)
