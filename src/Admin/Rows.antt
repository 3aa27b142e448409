-- ===== src/Admin/Rows.antt =====
-- Rows of a table by their ids: what is found after an insert, an edit and a delete.
use power_blockade.Base.{
  ℕ, ◌≡◌, refl, true, false, none, some, List, [], ◌∷◌, ◌++◌, arith, ◌==◌, nat_eq, if◌then◌else◌,
  map, contains, IsDistinct,
}
use power_blockade.Admin.{get_row, save_row, drop_row}

module _ {ℓ} {A : Type ℓ} (key : A → ℕ) where
  pub get_row-snoc :
      (id : ℕ) (rows : List A) (a : A)
      → get_row key id rows ≡ none
      → get_row key id (rows ++ (a ∷ [])) ≡ (if key a == id then some a else none)
  unfolding get_row
  get_row-snoc id [] a h = refl
  get_row-snoc id (r ∷ rows) a h = ground (arith, get_row-snoc id rows a)

  pub get_row-key : (id : ℕ) (rows : List A) (a : A) → get_row key id rows ≡ some a → key a ≡ id
  unfolding get_row
  get_row-key id [] a h = ground arith
  get_row-key id (r ∷ rows) a h = ground (arith, get_row-key id rows a)

  pub contains-get_row :
      (id : ℕ) (rows : List A) (a : A)
      → get_row key id rows ≡ some a
      → contains (map key rows) id ≡ true
  unfolding get_row
  contains-get_row id [] a h = ground arith
  contains-get_row id (r ∷ rows) a h = ground (arith, contains-get_row id rows a)

  pub get_row-absent :
      (id : ℕ) (rows : List A) → contains (map key rows) id ≡ false → get_row key id rows ≡ none
  unfolding get_row
  get_row-absent id [] h = refl
  get_row-absent id (r ∷ rows) h = ground (arith, get_row-absent id rows)

  -- The row that is saved is the one that is found.
  pub get_row-save :
      (id : ℕ) (rows : List A) (a b : A)
      → get_row key id rows ≡ some a
      → key b ≡ id
      → get_row key id (save_row key b rows) ≡ some b
  unfolding get_row
  get_row-save id [] a b h k = ground arith
  get_row-save id (r ∷ rows) a b h k = ground (arith, get_row-save id rows a b)

  pub save-save :
      (a b : A) (rows : List A)
      → key a ≡ key b
      → save_row key b (save_row key a rows) ≡ save_row key b rows
  save-save a b [] h = refl
  save-save a b (r ∷ rows) h = ground (arith, save-save a b rows h)

  pub save_absent :
      (a : A) (rows : List A) → contains (map key rows) (key a) ≡ false → save_row key a rows ≡ rows
  save_absent a [] h = refl
  save_absent a (r ∷ rows) h = ground (arith, save_absent a rows)

  -- A row saved as it is changes nothing.
  pub save_same :
      (id : ℕ) (rows : List A) (a : A)
      → get_row key id rows ≡ some a
      → IsDistinct (map key rows)
      → save_row key a rows ≡ rows
  unfolding get_row
  save_same id [] a h d = refl
  save_same id (r ∷ rows) a h d =
      ground (arith, save_same id rows a, save_absent a rows, get_row-key id rows a, d.0)

  pub map-save : (a : A) (rows : List A) → map key (save_row key a rows) ≡ map key rows
  map-save a [] = refl
  map-save a (r ∷ rows) = ground (arith, map-save a rows)

  pub drop_absent :
      (id : ℕ) (rows : List A) → contains (map key rows) id ≡ false → drop_row key id rows ≡ rows
  drop_absent id [] h = refl
  drop_absent id (r ∷ rows) h = ground (arith, drop_absent id rows)

  -- A row that was added and deleted.
  pub drop-snoc :
      (rows : List A) (a : A)
      → contains (map key rows) (key a) ≡ false
      → drop_row key (key a) (rows ++ (a ∷ [])) ≡ rows
  drop-snoc [] a h = ground arith
  drop-snoc (r ∷ rows) a h = ground (arith, drop-snoc rows a)
