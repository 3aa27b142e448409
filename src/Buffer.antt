-- ===== src/Buffer.antt =====
-- The queue of metrics on a secondary, sync-agent/buffer.py, and how the loop of `main` in
-- sync-agent/agent.py pushes from it. A table of SQLite holds its rows in the order of their ids;
-- `metrics` is what json.loads gives back of a row, which always parses, since `put` wrote it.
pub mod Queue
pub mod Push
mod Tests
use power_blockade.Base.{
  ℕ, zero, suc, ◌+◌, ◌-◌, Bool, true, false, not, ◌&&◌, ◌||◌, Option, none, some, List, [], ◌∷◌,
  ◌++◌, ◌==◌, nat_eq, list_eq, ltb, leb, if◌then◌else◌, length, take, select, contains, map,
}
use power_blockade.Base.Texts.{Text}

pub record Item : Type 0 where
  pub id : ℕ
  pub timestamp : ℕ
  pub metrics : Text

-- `next_id` is the counter of AUTOINCREMENT, which never gives an id again.
pub record MetricsBuffer : Type 0 where
  pub next_id : ℕ
  pub rows : List Item

unfoldable pub put : Text → ℕ → MetricsBuffer → MetricsBuffer
put metrics timestamp b = record {
  next_id = b.next_id + 1;
  rows = b.rows ++ (record { id = b.next_id; timestamp = timestamp; metrics = metrics } ∷ []);
}

-- ORDER BY id ASC
unfoldable pub insert_by_id : Item → List Item → List Item
insert_by_id x [] = x ∷ []
insert_by_id x (y ∷ ys) =
    let rest = insert_by_id x ys in if leb x.id y.id then x ∷ y ∷ ys else y ∷ rest

unfoldable pub by_id : List Item → List Item
unfolding insert_by_id
by_id [] = []
by_id (x ∷ xs) = insert_by_id x (by_id xs)

unfoldable pub peek : ℕ → MetricsBuffer → List Item
unfolding by_id
peek limit b = take limit (by_id b.rows)

unfoldable pub delete : List ℕ → MetricsBuffer → MetricsBuffer
delete item_ids b =
    if item_ids == []
    then b
    else record b { rows = select (λ x. not (contains item_ids x.id)) b.rows }

-- `now` and the age in one unit. The second part is the number of rows that went.
unfoldable pub prune : ℕ → ℕ → MetricsBuffer → MetricsBuffer × ℕ
prune now max_age b =
    let kept = select (λ x. not (ltb (x.timestamp + max_age) now)) b.rows in
    if max_age == 0 then (b, 0) else (record b { rows = kept }, length b.rows - length kept)

unfoldable pub count : MetricsBuffer → ℕ
count b = length b.rows

-- How the post of a row ends: the primary takes it and answers with a status below 300; it takes it,
-- but no such answer arrives, as at a timeout; or it does not take it.
pub data Answer : Type 0 where
  accepted : Answer
  lost : Answer
  refused : Answer

-- What one answer makes of what follows: the first that is not below 300 ends the loop.
abbrev pub ids_from : Answer → ℕ → List ℕ → List ℕ
ids_from accepted id rest = id ∷ rest
ids_from lost id rest = []
ids_from refused id rest = []

abbrev pub taken_from : Answer → Item → List Item → List Item
taken_from accepted x rest = x ∷ rest
taken_from lost x rest = x ∷ []
taken_from refused x rest = []

-- The loop over the pending rows: the ids to delete.
unfoldable pub push_ids : (Item → Answer) → List Item → List ℕ
push_ids answers [] = []
push_ids answers (x ∷ xs) = ids_from (answers x) x.id (push_ids answers xs)

-- What the primary takes in a round, in its order.
unfoldable pub pushed : (Item → Answer) → List Item → List Item
pushed answers [] = []
pushed answers (x ∷ xs) = taken_from (answers x) x (pushed answers xs)

unfoldable pub push : (Item → Answer) → MetricsBuffer → MetricsBuffer
unfolding push_ids peek delete
push answers b = delete (push_ids answers (peek 50 b)) b
