-- ===== src/Buffer/Push.antt =====
-- What the loop of `main` delivers from the queue, over many rounds.
use mathlib.Core.List.{append-nil, append_assoc}
use power_blockade.Base.{
  ℕ, zero, suc, ◌+◌, ◌<◌, ◌≡◌, refl, Bool, not, List, [], ◌∷◌, ◌++◌, arith, nat_eq, list_eq, take,
  select, contains, ap, map, ◌∙◌, sym,
}
use power_blockade.Base.Texts.{Text}
use power_blockade.Buffer.{
  Item, MetricsBuffer, put, peek, delete, push_ids, pushed, push, Answer, accepted, lost, refused,
  ids_from, taken_from,
}
use power_blockade.Buffer.Queue.{Ascending, IsQueue, buffer-IsQueue, peek-oldest}

abbrev unlisted : List ℕ → Item → Bool
unlisted ids x = not (contains ids x.id)

select-unlisted_nil : (xs : List Item) → select (unlisted []) xs ≡ xs
select-unlisted_nil [] = refl
select-unlisted_nil (x ∷ xs) = ap (λ l. x ∷ l) (select-unlisted_nil xs)

select-unlisted_lower :
    (i low : ℕ) (ids : List ℕ) (xs : List Item)
    → i < low
    → Ascending low xs
    → select (unlisted (i ∷ ids)) xs ≡ select (unlisted ids) xs
select-unlisted_lower i low ids [] h k = refl
select-unlisted_lower i low ids (x ∷ xs) h k =
    ground (arith, select-unlisted_lower i (x.id + 1) ids xs)

texts : List Item → List Text
texts = map (λ (x : Item). x.metrics)

-- What the primary receives of a sequence of metrics, if the last of them are left in the end and
-- some are repeated: all of the others in their order, each once but for the repeated ones, which
-- come once more before that; of those that are left only the first can have been received, by
-- repetitions.
pub data Delivery (left : List Text) : List Text → List Text → List Text → Type 0 where
  idle : Delivery left [] [] left
  once :
      {x : Text} {repeated received all : List Text}
      → Delivery left repeated received all
      → Delivery left repeated (x ∷ received) (x ∷ all)
  again :
      {x : Text} {repeated received all : List Text}
      → Delivery left repeated received (x ∷ all)
      → Delivery left (x ∷ repeated) (x ∷ received) (x ∷ all)

same_left :
    {left rest repeated received all : List Text}
    → left ≡ rest
    → Delivery rest repeated received all
    → Delivery left repeated received all
same_left h d = rw h d

same_all :
    {left repeated received all whole : List Text}
    → whole ≡ all
    → Delivery left repeated received all
    → Delivery left repeated received whole
same_all h d = rw h d

-- More at the end stays at the end.
Delivery-append :
    {left repeated received all : List Text} (more : List Text)
    → Delivery left repeated received all
    → Delivery (left ++ more) repeated received (all ++ more)
Delivery-append more idle = idle
Delivery-append more (once d) = once (Delivery-append more d)
Delivery-append more (again d) = again (Delivery-append more d)

Delivery-trans :
    {left middle twice repeated received later all : List Text}
    → Delivery middle repeated received all
    → Delivery left twice later middle
    → Delivery left (repeated ++ twice) (received ++ later) all
Delivery-trans idle e = e
Delivery-trans (once d) e = once (Delivery-trans d e)
Delivery-trans (again d) e = again (Delivery-trans d e)

-- The row of a round whose answer is lost, if there is one: the round ends with it.
abbrev lost_from : Answer → Item → List Item → List Item
lost_from accepted x rest = rest
lost_from lost x rest = x ∷ []
lost_from refused x rest = []

abbrev pub lost_row : (Item → Answer) → List Item → List Item
lost_row answers [] = []
lost_row answers (x ∷ xs) = lost_from (answers x) x (lost_row answers xs)

-- One row at the front, by its answer.
first-delivered :
    (answer : Answer) (x : Item) (xs missed taken : List Item) (ids : List ℕ)
    → Ascending (x.id + 1) xs
    → Delivery (texts (select (unlisted ids) xs)) (texts missed) (texts taken) (texts xs)
    → Delivery
        (texts (select (unlisted (ids_from answer x.id ids)) (x ∷ xs)))
        (texts (lost_from answer x missed))
        (texts (taken_from answer x taken))
        (texts (x ∷ xs))
unfolding texts
first-delivered accepted x xs missed taken ids h d =
    once (same_left (ap texts (ground (arith, select-unlisted_lower x.id (x.id + 1) ids xs))) d)
first-delivered lost x xs missed taken ids h d =
    same_left (ap texts (select-unlisted_nil (x ∷ xs))) (again idle)
first-delivered refused x xs missed taken ids h d =
    same_left (ap texts (select-unlisted_nil (x ∷ xs))) idle

-- What is pushed from the first rows, and what is not deleted.
pushed-delivered :
    (answers : Item → Answer) (n low : ℕ) (xs : List Item)
    → Ascending low xs
    → Delivery
        (texts (select (unlisted (push_ids answers (take n xs))) xs))
        (texts (lost_row answers (take n xs)))
        (texts (pushed answers (take n xs)))
        (texts xs)
unfolding pushed push_ids texts
pushed-delivered answers zero low xs h = same_left (ap texts (select-unlisted_nil xs)) idle
pushed-delivered answers (suc n) low [] h = idle
pushed-delivered answers (suc n) low (x ∷ xs) h =
    first-delivered (answers x) x xs (lost_row answers (take n xs)) (pushed answers (take n xs))
      (push_ids answers (take n xs)) h.1 (pushed-delivered answers n (x.id + 1) xs h.1)

rows-delete :
    (ids : List ℕ) (b : MetricsBuffer) → (delete ids b).rows ≡ select (unlisted ids) b.rows
unfolding delete
rows-delete [] b = sym (select-unlisted_nil b.rows)
rows-delete (i ∷ ids) b = refl

-- One round.
push-delivered :
    (answers : Item → Answer) (b : MetricsBuffer)
    → IsQueue b
    → Delivery
        (texts (push answers b).rows)
        (texts (lost_row answers (peek 50 b)))
        (texts (pushed answers (peek 50 b)))
        (texts b.rows)
unfolding push
push-delivered answers b h =
    same_left (ap texts (rows-delete (push_ids answers (peek 50 b)) b))
      (rw (peek-oldest 50 b h) (pushed-delivered answers 50 0 b.rows h.ascending))

-- What a secondary does with its queue, prunes aside. A round is not cut off between its posts and
-- the delete behind them.
pub data Step : Type 0 where
  puts : (metrics : Text) (timestamp : ℕ) → Step
  pushes : (answers : Item → Answer) → Step

-- The metrics that the primary takes, oldest first, and the queue at the end.
unfoldable pub run : List Step → MetricsBuffer → List Text × MetricsBuffer
unfolding put push pushed
run [] b = ([], b)
run (puts metrics timestamp ∷ steps) b = run steps (put metrics timestamp b)
run (pushes answers ∷ steps) b =
    let (taken, end) = run steps (push answers b) in
    (map (λ x. x.metrics) (pushed answers (peek 50 b)) ++ taken, end)

abbrev pub all_put : List Step → List Text
all_put [] = []
all_put (puts metrics timestamp ∷ steps) = metrics ∷ all_put steps
all_put (pushes answers ∷ steps) = all_put steps

-- The metrics whose answers are lost, oldest first.
abbrev pub all_lost : List Step → MetricsBuffer → List Text
all_lost [] b = []
all_lost (puts metrics timestamp ∷ steps) b = all_lost steps (put metrics timestamp b)
all_lost (pushes answers ∷ steps) b =
    map (λ x. x.metrics) (lost_row answers (peek 50 b)) ++ all_lost steps (push answers b)

texts-append :
    (xs ys : List Item)
    → map (λ x. x.metrics) (xs ++ ys) ≡ map (λ x. x.metrics) xs ++ map (λ x. x.metrics) ys
texts-append [] ys = refl
texts-append (x ∷ xs) ys = ap (λ l. x.metrics ∷ l) (texts-append xs ys)

IsQueue-push : (answers : Item → Answer) (b : MetricsBuffer) → IsQueue b → IsQueue (push answers b)
unfolding push
IsQueue-push answers b h = (buffer-IsQueue b h).1 (push_ids answers (peek 50 b))

-- Over any sequence of puts and whole rounds of pushes on a well-formed queue, with any answers, what
-- the primary takes is, in that order, what was in the queue and then all that was put, but for what
-- is left in the queue: nothing is missing or out of order. Metrics are taken once more for each of
-- their answers that is lost, and not otherwise, before any others are; of what is left only the
-- first can have been taken, and only with lost answers.
pub run-fifo :
    (steps : List Step) (b : MetricsBuffer)
    → IsQueue b
    → Delivery
        (map (λ x. x.metrics) (run steps b).1.rows)
        (all_lost steps b)
        (run steps b).0
        (map (λ x. x.metrics) b.rows ++ all_put steps)
unfolding run put texts
run-fifo [] b h = same_all (append-nil _) idle
run-fifo (puts metrics timestamp ∷ steps) b h =
    same_all
      (sym (
        ap (λ l. l ++ all_put steps) (texts-append b.rows _)
        ∙ append_assoc (map (λ x. x.metrics) b.rows) (metrics ∷ []) (all_put steps)))
      (run-fifo steps (put metrics timestamp b) ((buffer-IsQueue b h).0 metrics timestamp))
run-fifo (pushes answers ∷ steps) b h =
    Delivery-trans (Delivery-append (all_put steps) (push-delivered answers b h))
      (run-fifo steps (push answers b) (IsQueue-push answers b h))
