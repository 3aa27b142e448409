-- ===== src/Filter/Stored.antt =====
-- The stored entries of one list, and what the outcome of another list does to them.
use mathlib.Core.List.{append-nil}
use power_blockade.Base.{ℕ, ◌≡◌, refl, ◌≢◌, List, [], ◌∷◌, ◌++◌, nat_eq, list_eq, arith, ◌∙◌}
use power_blockade.Base.Texts.{Text}
use power_blockade.Blocklists.{Blocklist, BlocklistEntry}
use power_blockade.Filter.{
  entries_of, Fetched, domains, failed, without_list, new_entries, update_one,
}

pub entries_of-append :
    (id : ℕ) (xs ys : List BlocklistEntry)
    → entries_of id (xs ++ ys) ≡ entries_of id xs ++ entries_of id ys
entries_of-append id [] ys = refl
entries_of-append id (x ∷ xs) ys = ground (arith, entries_of-append id xs ys)

pub entries_of-without_self :
    (id : ℕ) (es : List BlocklistEntry) → entries_of id (without_list id es) ≡ []
entries_of-without_self id [] = refl
entries_of-without_self id (e ∷ es) = ground (arith, entries_of-without_self id es)

pub entries_of-without_ne :
    (id other : ℕ) (es : List BlocklistEntry)
    → id ≢ other
    → entries_of id (without_list other es) ≡ entries_of id es
entries_of-without_ne id other [] h = refl
entries_of-without_ne id other (e ∷ es) h = ground (arith, entries_of-without_ne id other es h)

pub entries_of-new_self : (id : ℕ) (ds : List Text) → entries_of id (new_entries id ds) ≡ ds
entries_of-new_self id [] = refl
entries_of-new_self id (d ∷ ds) = ground (arith, entries_of-new_self id ds)

pub entries_of-new_ne :
    (id other : ℕ) (ds : List Text) → id ≢ other → entries_of id (new_entries other ds) ≡ []
entries_of-new_ne id other [] h = refl
entries_of-new_ne id other (d ∷ ds) h = ground (arith, entries_of-new_ne id other ds h)

pub replaced_self :
    (id : ℕ) (es : List BlocklistEntry) (ds : List Text)
    → entries_of id (without_list id es ++ new_entries id ds) ≡ ds
replaced_self id es ds =
    rw
      (entries_of-append id (without_list id es) (new_entries id ds), entries_of-without_self id es)
      (entries_of-new_self id ds)

pub replaced-ne :
    (id other : ℕ) (es : List BlocklistEntry) (ds : List Text)
    → id ≢ other
    → entries_of id (without_list other es ++ new_entries other ds) ≡ entries_of id es
replaced-ne id other es ds h =
    rw
      (
        entries_of-append id (without_list other es) (new_entries other ds),
        entries_of-new_ne id other ds h,
      )
      (append-nil _ ∙ entries_of-without_ne id other es h)

-- A download that raises keeps what was stored.
abbrev pub kept : Fetched → List Text → List Text
kept (domains ds) old = ds
kept (failed message) old = old

pub update_one_self :
    (now : ℕ) (f : Fetched) (bl : Blocklist) (entries : List BlocklistEntry)
    → entries_of bl.id (update_one now f bl entries).entries ≡ kept f (entries_of bl.id entries)
unfolding update_one
update_one_self now (domains ds) bl entries = replaced_self bl.id entries ds
update_one_self now (failed message) bl entries = refl

pub update_one-ne :
    (now id : ℕ) (f : Fetched) (bl : Blocklist) (entries : List BlocklistEntry)
    → id ≢ bl.id
    → entries_of id (update_one now f bl entries).entries ≡ entries_of id entries
unfolding update_one
update_one-ne now id (domains ds) bl entries h = replaced-ne id bl.id entries ds h
update_one-ne now id (failed message) bl entries h = refl
