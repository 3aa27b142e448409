-- ===== src/Buffer/Queue.antt =====
-- The queue keeps its rows in the order in which they were put.
use power_blockade.Base.{
  ℕ, ◌+◌, ◌<◌, ◌≤◌, ◌≡◌, refl, Bool, List, [], ◌∷◌, ◌++◌, arith, All, ◌==◌, nat_eq, list_eq, take,
  select, ap, Bool-cases, inl, inr,
}
use power_blockade.Base.Texts.{Text}
use power_blockade.Buffer.{Item, MetricsBuffer, put, insert_by_id, by_id, peek, delete, prune}

-- Every id is above a bound and the ids rise.
abbrev pub Ascending : ℕ → List Item → Type 0
Ascending low [] = Unit
Ascending low (x ∷ xs) = (low ≤ x.id) × Ascending (x.id + 1) xs

-- Every id is below the counter, and the ids rise.
pub record IsQueue (b : MetricsBuffer) : Type 0 where
  pub ascending : Ascending 0 b.rows
  pub below : All (λ x. x.id < b.next_id) b.rows

Ascending-lower :
    (low high : ℕ) (xs : List Item) → low ≤ high → Ascending high xs → Ascending low xs
Ascending-lower low high [] h k = tt
Ascending-lower low high (x ∷ xs) h k = (omega (arith, h, k.0), k.1)

Ascending-select :
    (p : Item → Bool) (low : ℕ) (xs : List Item) → Ascending low xs → Ascending low (select p xs)
Ascending-select p low [] h = tt
Ascending-select p low (x ∷ xs) h =
    ground
      (arith, Ascending-select p (x.id + 1) xs h.1, Ascending-lower low (x.id + 1) (select p xs))

below-select :
    (p : Item → Bool) (n : ℕ) (xs : List Item)
    → All (λ x. x.id < n) xs
    → All (λ x. x.id < n) (select p xs)
below-select p n [] h = tt
below-select p n (x ∷ xs) h = ground (arith, below-select p n xs h.1)

Ascending-snoc :
    (low n : ℕ) (x : Item) (xs : List Item)
    → Ascending low xs
    → All (λ y. y.id < n) xs
    → n ≤ x.id
    → low ≤ x.id
    → Ascending low (xs ++ (x ∷ []))
Ascending-snoc low n x [] h k e l = (l, tt)
Ascending-snoc low n x (y ∷ ys) h k e l =
    (h.0, Ascending-snoc (y.id + 1) n x ys h.1 k.1 e (omega (arith, k.0, e)))

below-snoc :
    (n : ℕ) (x : Item) (xs : List Item)
    → All (λ y. y.id < n) xs
    → x.id ≤ n
    → All (λ y. y.id < n + 1) (xs ++ (x ∷ []))
below-snoc n x [] h e = (omega (arith, e), tt)
below-snoc n x (y ∷ ys) h e = (omega (arith, h.0), below-snoc n x ys h.1 e)

-- The operations that change the queue keep its ids rising and below the counter.
pub buffer-IsQueue :
    (b : MetricsBuffer)
    → IsQueue b
    → ((metrics : Text) (timestamp : ℕ) → IsQueue (put metrics timestamp b))
      × ((ids : List ℕ) → IsQueue (delete ids b))
      × ((now max_age : ℕ) → IsQueue (prune now max_age b).0)
unfolding put delete prune
buffer-IsQueue b h = (
  λ metrics timestamp. record {
    ascending = Ascending-snoc 0 b.next_id _ b.rows h.ascending h.below (omega arith) (omega arith);
    below = below-snoc b.next_id _ b.rows h.below (omega arith);
  },
  λ ids. elim (Bool-cases (ids == [])) [
    | inl e ↦ rw e h
    | inr e ↦ rw e (record {
      ascending = Ascending-select _ 0 b.rows h.ascending;
      below = below-select _ b.next_id b.rows h.below;
    })
  ],
  λ now max_age. elim (Bool-cases (max_age == 0)) [
    | inl e ↦ rw e h
    | inr e ↦ rw e (record {
      ascending = Ascending-select _ 0 b.rows h.ascending;
      below = below-select _ b.next_id b.rows h.below;
    })
  ],
)

insert_first :
    (low : ℕ) (x : Item) (xs : List Item) → Ascending (x.id + 1) xs → insert_by_id x xs ≡ x ∷ xs
unfolding insert_by_id
insert_first low x [] h = refl
insert_first low x (y ∷ ys) h = ground arith

by_id-Ascending : (low : ℕ) (xs : List Item) → Ascending low xs → by_id xs ≡ xs
unfolding by_id
by_id-Ascending low [] h = refl
by_id-Ascending low (x ∷ xs) h = rw (by_id-Ascending (x.id + 1) xs h.1) (insert_first low x xs h.1)

-- A queue's `peek` gives its oldest rows, in the order in which they were put.
pub peek-oldest : (limit : ℕ) (b : MetricsBuffer) → IsQueue b → peek limit b ≡ take limit b.rows
unfolding peek
peek-oldest limit b h = ap (take limit) (by_id-Ascending 0 b.rows h.ascending)
