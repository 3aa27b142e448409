-- ===== src/Buffer/Tests.antt =====
-- A queue of two rows, and the theorem applied to it.
use power_blockade.Base.{◌≡◌, refl, if◌then◌else◌, List, [], ◌∷◌, ◌++◌, map, arith, ltb}
use power_blockade.Base.Texts.{codes}
use power_blockade.Buffer.{
  Item, Answer, accepted, lost, MetricsBuffer, put, peek, push, prune, delete,
}
use power_blockade.Buffer.Queue.{IsQueue}
use power_blockade.Buffer.Push.{Step, puts, pushes, run, all_put, all_lost, Delivery, run-fifo}

abbrev queue : MetricsBuffer
queue = record {
  next_id = 3;
  rows =
      record { id = 1; timestamp = 10; metrics = codes "m1" }
      ∷ record { id = 2; timestamp = 70; metrics = codes "m2" }
      ∷ [];
}

queue-IsQueue : IsQueue queue
queue-IsQueue = record {
  ascending = (omega arith, (omega arith, tt));
  below = (omega arith, (omega arith, tt));
}

-- Two of the queue: the answer to the second row is lost in the first round.
abbrev first_answers : Item → Answer
first_answers x = if ltb x.id 2 then accepted else lost

abbrev steps : List Step
steps =
    pushes first_answers
    ∷ puts (codes "m3") 130
    ∷ pushes (λ x. accepted)
    ∷ puts (codes "m4") 190
    ∷ []

delivers : (run steps queue).0 ≡ codes "m1" ∷ codes "m2" ∷ codes "m2" ∷ codes "m3" ∷ []
unfolding run peek push delete
delivers = refl

prunes : (prune 100 60 queue).1 ≡ 1
unfolding prune
prunes = refl

run-fifo_example :
    Delivery
      (map (λ x. x.metrics) (run steps queue).1.rows)
      (all_lost steps queue)
      (run steps queue).0
      (map (λ x. x.metrics) queue.rows ++ all_put steps)
run-fifo_example = run-fifo steps queue queue-IsQueue

loses : all_lost steps queue ≡ codes "m2" ∷ []
unfolding peek push delete put
loses = refl
