-- ===== src/Admin/Tables.antt =====
-- Tables with ids from a sequence and with a unique column: what inserts, edits and deletes keep.
use power_blockade.Base.{
  ℕ, ◌+◌, ◌<◌, ◌≡◌, refl, ap, Bool, true, false, some, List, [], ◌∷◌, ◌++◌, arith, Eq, ◌==◌, nat_eq,
  map, select, contains, contains-append, IsDistinct, IsDistinct-snoc, Bool-cases, inl, inr,
}
use power_blockade.Admin.{get_row, save_row, drop_row}
use power_blockade.Admin.Rows.{map-save, get_row-key, save_absent, drop_absent}

module _ {ℓ} {A : Type ℓ} where
  pub map-snoc {κ} :
      {B : Type κ} (f : A → B) (rows : List A) (a : A)
      → map f (rows ++ (a ∷ [])) ≡ map f rows ++ (f a ∷ [])
  map-snoc f [] a = refl
  map-snoc f (r ∷ rows) a = ap (λ l. f r ∷ l) (map-snoc f rows a)

  pub contains-map-select {κ} :
      {B : Type κ} ⦃e : Eq B⦄ (f : A → B) (p : A → Bool) (rows : List A) (b : B)
      → contains (map f rows) b ≡ false
      → contains (map f (select p rows)) b ≡ false
  contains-map-select f p [] b h = refl
  contains-map-select f p (r ∷ rows) b h = ground (arith, contains-map-select f p rows b)

  -- A unique column stays unique when rows go.
  pub IsDistinct-map-select {κ} :
      {B : Type κ} ⦃e : Eq B⦄ (f : A → B) (p : A → Bool) (rows : List A)
      → IsDistinct (map f rows)
      → IsDistinct (map f (select p rows))
  IsDistinct-map-select f p [] d = tt
  IsDistinct-map-select f p (r ∷ rows) d =
      ground (arith, IsDistinct-map-select f p rows d.1, contains-map-select f p rows (f r) d.0)

  pub IsDistinct-map-snoc {κ} :
      {B : Type κ} ⦃e : Eq B⦄ (f : A → B) (rows : List A) (a : A)
      → IsDistinct (map f rows)
      → contains (map f rows) (f a) ≡ false
      → IsDistinct (map f (rows ++ (a ∷ [])))
  IsDistinct-map-snoc f rows a d n = rw (map-snoc f rows a) (IsDistinct-snoc (map f rows) (f a) d n)

  module _ (key : A → ℕ) where
    -- Ids are unique and behind the sequence.
    abbrev pub IsTable : ℕ → List A → Type 0
    IsTable next rows =
        IsDistinct (map key rows) × ((id : ℕ) → contains (map key rows) id ≡ true → id < next)

    pub next-new :
        (next : ℕ) (rows : List A) → IsTable next rows → contains (map key rows) next ≡ false
    next-new next rows t = elim (Bool-cases (contains (map key rows) next)) [
      | inl e ↦ absurd (omega (arith, t.1 next e))
      | inr e ↦ e
    ]

    pub IsTable-snoc :
        (next : ℕ) (rows : List A) (a : A)
        → key a ≡ next
        → IsTable next rows
        → IsTable (next + 1) (rows ++ (a ∷ []))
    IsTable-snoc next rows a k t = (
      IsDistinct-map-snoc key rows a t.0 (rw k (next-new next rows t)),
      λ id c.
          ground
            (arith, t.1 id, map-snoc key rows a, contains-append (map key rows) (key a ∷ []) id),
    )

    pub IsTable-save :
        (next : ℕ) (rows : List A) (a : A) → IsTable next rows → IsTable next (save_row key a rows)
    IsTable-save next rows a t = rw (map-save key a rows) t

    pub IsTable-select :
        (next : ℕ) (rows : List A) (p : A → Bool) → IsTable next rows → IsTable next (select p rows)
    IsTable-select next rows p t = (
      IsDistinct-map-select key p rows t.0,
      λ id c. elim (Bool-cases (contains (map key rows) id)) [
        | inl e ↦ t.1 id e
        | inr e ↦ absurd (ground (arith, contains-map-select key p rows id e))
      ],
    )

    -- A column that an edit leaves.
    pub map_column-save {κ} :
        {B : Type κ} (f : A → B) (id : ℕ) (rows : List A) (a b : A)
        → get_row key id rows ≡ some a
        → IsDistinct (map key rows)
        → key b ≡ key a
        → f b ≡ f a
        → map f (save_row key b rows) ≡ map f rows
    unfolding get_row
    map_column-save f id [] a b h d k e = refl
    map_column-save f id (r ∷ rows) a b h d k e = elim (Bool-cases (key r == id)) [
      | inl same ↦
          let absent : contains (map key rows) (key b) ≡ false =
            ground (arith, get_row-key key id (r ∷ rows) a h, d.0) in
          ground (arith, save_absent key b rows absent, get_row-key key id (r ∷ rows) a h)
      | inr other ↦
          ground (arith, map_column-save f id rows a b, get_row-key key id (r ∷ rows) a h, d.1)
    ]

-- A unique column after a row is saved with a value that no other row has.
module _ {ℓ κ} {A : Type ℓ} {B : Type κ} ⦃e : Eq B⦄ (key : A → ℕ) (f : A → B) where
  contains-map-save :
      (a : A) (rows : List A) (b : B)
      → contains (map f rows) b ≡ false
      → (f a == b) ≡ false
      → contains (map f (save_row key a rows)) b ≡ false
  contains-map-save a [] b h n = h
  contains-map-save a (r ∷ rows) b h n = ground (arith, contains-map-save a rows b)

  pub IsDistinct-map-save :
      (a : A) (rows : List A)
      → IsDistinct (map key rows)
      → IsDistinct (map f rows)
      → contains (map f (drop_row key (key a) rows)) (f a) ≡ false
      → IsDistinct (map f (save_row key a rows))
  IsDistinct-map-save a [] ids values free = tt
  IsDistinct-map-save a (r ∷ rows) ids values free = elim (Bool-cases (key r == key a)) [
    | inl same ↦
        let absent : contains (map key rows) (key a) ≡ false = ground (arith, ids.0) in
        rw (same, save_absent key a rows absent)
          (ground (arith, drop_absent key (key a) rows absent), values.1)
    | inr other ↦ rw other (
      contains-map-save a rows (f r) values.0
          (ground (arith, e.beq_iff (f a) (f r), e.beq_iff (f r) (f a))),
      IsDistinct-map-save a rows ids.1 values.1 (ground arith),
    )
  ]
