-- ===== src/Rollups/Upsert.antt =====
-- How rows get into the table of rollups: `put` and `put_all` by the rows that they are found by.
use mathlib.Core.List.{append-nil, append_assoc}
use power_blockade.Base.{
  ℕ, ◌≤◌, ◌≡◌, refl, ◌∙◌, sym, ap, String, false, Option, none, some, List, [], ◌∷◌, ◌++◌, arith,
  Eq, ◌==◌, nat_eq, string_eq, option_eq, pair_eq, if◌then◌else◌, map, select, contains, IsDistinct,
  length, All, ◌>>=◌, bind-agree,
}
use power_blockade.Rollups.{QueryRollup, Group, put_found, put, put_all, rollup_group}

module _ {ℓ κ} {A : Type ℓ} {K : Type κ} ⦃e : Eq K⦄ (key : A → K) where
  abbrev having : K → List A → List A
  having k = select (λ a. key a == k)

  having-overwrite :
      (r : A) (k : K) (rows : List A)
      → having k (map (λ old. if key old == key r then r else old) rows)
        ≡ (if key r == k then map (λ old. r) (having k rows) else having k rows)
  having-overwrite r k [] = ground arith
  having-overwrite r k (o ∷ rows) = ground (
    arith,
    having-overwrite r k rows,
    e.beq_iff (key r) k,
    e.beq_iff (key o) k,
    e.beq_iff (key o) (key r),
  )

  having-snoc :
      (r : A) (k : K) (rows : List A)
      → having k (rows ++ (r ∷ []))
        ≡ (if key r == k then having k rows ++ (r ∷ []) else having k rows)
  having-snoc r k [] = refl
  having-snoc r k (o ∷ rows) = ground (arith, having-snoc r k rows)

  -- One row of a key at most: the row replaces it, or comes behind the others.
  abbrev upsert : A → List A → List A → Option (List A)
  upsert r rows [] = some (rows ++ (r ∷ []))
  upsert r rows (s ∷ []) = some (map (λ old. if key old == key r then r else old) rows)
  upsert r rows (s ∷ t ∷ more) = none

  upsert-having :
      (r : A) (rows hits : List A)
      → having (key r) rows ≡ hits
      → length hits ≤ 1
      → (after : List A) × ((upsert r rows hits ≡ some after)
          × ((k : K) → having k after ≡ (if key r == k then r ∷ [] else having k rows)))
  upsert-having r rows [] h u =
      (rows ++ (r ∷ []), (refl, λ k. ground (arith, having-snoc r k rows, e.beq_iff (key r) k)))
  upsert-having r rows (s ∷ []) h u = (
    map (λ old. if key old == key r then r else old) rows,
    (refl, λ k. ground (arith, having-overwrite r k rows, e.beq_iff (key r) k)),
  )
  upsert-having r rows (s ∷ t ∷ more) h u = absurd (omega arith)

  abbrev upsert_all : List A → List A → Option (List A)
  upsert_all [] rows = some rows
  upsert_all (r ∷ rs) rows = upsert r rows (having (key r) rows) >>= upsert_all rs

  one_each :
      (r : A) (k : K) (rows after : List A)
      → having k after ≡ (if key r == k then r ∷ [] else having k rows)
      → length (having k rows) ≤ 1
      → length (having k after) ≤ 1
  one_each r k rows after h u = ground arith

  having-absent : (rs : List A) (k : K) → contains (map key rs) k ≡ false → having k rs ≡ []
  having-absent [] k h = refl
  having-absent (r ∷ rs) k h = ground (arith, having-absent rs k)

  upsert_all-having :
      (rs rows : List A)
      → IsDistinct (map key rs)
      → ((k : K) → length (having k rows) ≤ 1)
      → (after : List A) × ((upsert_all rs rows ≡ some after)
          × ((k : K)
              → having k after ≡ (if contains (map key rs) k then having k rs else having k rows)))
  upsert_all-having [] rows d u = (rows, (refl, λ k. refl))
  upsert_all-having (r ∷ rs) rows d u =
      let one = upsert-having r rows (having (key r) rows) refl (u (key r)) in
      let rest = upsert_all-having rs one.0 d.1 (λ k. one_each r k rows one.0 (one.1.1 k) (u k)) in
      (
        rest.0,
        (
          ap (λ o. o >>= upsert_all rs) one.1.0 ∙ rest.1.0,
          λ k. ground (
            arith,
            rest.1.1 k,
            one.1.1 k,
            d.0,
            having-absent rs k,
            e.beq_iff (key r) k,
            e.beq_iff (key r) k,
          ),
        ),
      )

  still_new :
      (r : A) (rs rows : List A)
      → contains (map key rs) (key r) ≡ false
      → All (λ s. having (key s) rows ≡ []) rs
      → All (λ s. having (key s) (rows ++ (r ∷ [])) ≡ []) rs
  still_new r [] rows c n = tt
  still_new r (s ∷ rs) rows c n = (
    ground (
      arith,
      having-snoc r (key s) rows,
      n.0,
      e.beq_iff (key s) (key r),
      e.beq_iff (key r) (key s),
    ),
    ground (arith, still_new r rs rows),
  )

  -- Rows whose keys are new come behind the others.
  upsert_all-new :
      (rs rows : List A)
      → IsDistinct (map key rs)
      → All (λ r. having (key r) rows ≡ []) rs
      → upsert_all rs rows ≡ some (rows ++ rs)
  upsert_all-new [] rows d n = ap some (sym (append-nil rows))
  upsert_all-new (r ∷ rs) rows d n = rw (n.0) (
      upsert_all-new rs (rows ++ (r ∷ [])) d.1 (still_new r rs rows d.0 n.1)
      ∙ ap some (append_assoc rows (r ∷ []) rs))

-- What a row is looked for by.
abbrev pub Key : Type 0
Key = ℕ × (String × Group)

abbrev pub key_of : QueryRollup → Key
key_of r = (r.bucket_start, (r.granularity, rollup_group r))

-- The rows that the query for a key finds.
abbrev pub found : Key → List QueryRollup → List QueryRollup
found k = select (λ r. key_of r == k)

-- At most one row for a key, so that one_or_none() does not raise.
abbrev pub IsUnique : List QueryRollup → Type 0
IsUnique rows = (k : Key) → length (found k rows) ≤ 1

abbrev key_eq : Eq Key
key_eq = pair_eq

put_found-upsert :
    (r : QueryRollup) (rows hits : List QueryRollup)
    → put_found r rows hits ≡ upsert key_of r rows hits
put_found-upsert r rows [] = refl
put_found-upsert r rows (s ∷ []) = refl
put_found-upsert r rows (s ∷ t ∷ more) = refl

put_all-upsert_all : (rs rows : List QueryRollup) → put_all rs rows ≡ upsert_all key_of rs rows
unfolding put put_all
put_all-upsert_all [] rows = refl
put_all-upsert_all (r ∷ rs) rows =
    bind-agree (put r rows) (upsert key_of r rows (found (key_of r) rows)) (put_all rs)
      (upsert_all key_of rs) (put_found-upsert r rows (found (key_of r) rows))
      (put_all-upsert_all rs)

-- Rows with different keys all find their place: each is then the one row of its key, and the rows
-- of the other keys are as they were.
pub put_all-found :
    (rs rows : List QueryRollup)
    → IsDistinct (map key_of rs)
    → IsUnique rows
    → (after : List QueryRollup) × ((put_all rs rows ≡ some after)
        × ((k : Key)
            → found k after ≡ (if contains (map key_of rs) k then found k rs else found k rows)))
put_all-found rs rows d u =
    let result = upsert_all-having key_of rs rows d u in
    (result.0, (put_all-upsert_all rs rows ∙ result.1.0, result.1.1))

pub put_all-new :
    (rs rows : List QueryRollup)
    → IsDistinct (map key_of rs)
    → All (λ r. found (key_of r) rows ≡ []) rs
    → put_all rs rows ≡ some (rows ++ rs)
put_all-new rs rows d n = put_all-upsert_all rs rows ∙ upsert_all-new key_of rs rows d n
