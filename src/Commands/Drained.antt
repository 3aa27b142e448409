-- ===== src/Commands/Drained.antt =====
-- A node that executes and reports what it was given has nothing left to do.
use mathlib.Core.Path.{subst}
use power_blockade.Base.{
  ℕ, ◌≡◌, refl, Bool, true, false, not, ◌&&◌, ◌||◌, some, List, [], ◌∷◌, arith, ◌==◌, nat_eq,
  if◌then◌else◌, map, contains, IsDistinct, All, Bool-cases, inl, inr, ap, sym, ◌∙◌, select,
}
use power_blockade.Nodes.{Node}
use power_blockade.Commands.{
  NodeCommand, addressed, is_pending, CommandResultRequest, insert_by_time, by_time, get_commands,
  report_all, Execution,
}
use power_blockade.Commands.Reports.{ids, marked, report-marked}

ids-marked :
    (now : ℕ) (node : Node) (payload : CommandResultRequest) (rows : List NodeCommand)
    → ids (map (marked now node payload) rows) ≡ ids rows
ids-marked now node payload [] = refl
ids-marked now node payload (c ∷ cs) = ground (arith, ids-marked now node payload cs)

-- The pending commands of a node but for those with these ids.
abbrev left_over : ℕ → List ℕ → NodeCommand → Bool
left_over node done c = is_pending node c && not (contains done c.id)

select-marked :
    (now : ℕ) (node : Node) (payload : CommandResultRequest) (done : List ℕ)
    (rows : List NodeCommand)
    → select (left_over node.id done) (map (marked now node payload) rows)
      ≡ select (left_over node.id (payload.command_id ∷ done)) rows
select-marked now node payload done [] = refl
select-marked now node payload done (c ∷ cs) =
    elim (Bool-cases (c.id == payload.command_id && addressed node.id c.node_id)) [
      | inl e ↦ rw e (ground (arith, select-marked now node payload done cs))
      | inr e ↦ rw e (ground (arith, select-marked now node payload done cs))
    ]

left_over-nil :
    (node : ℕ) (rows : List NodeCommand)
    → select (is_pending node) rows ≡ select (left_over node []) rows
left_over-nil node [] = refl
left_over-nil node (c ∷ cs) = ground (arith, left_over-nil node cs)

select-report_all :
    (execute : NodeCommand → Execution) (node : Node) (cs rows : List NodeCommand)
    → IsDistinct (ids rows)
    → select (is_pending node.id) (report_all execute node cs rows)
      ≡ select (left_over node.id (ids cs)) rows
unfolding report_all
select-report_all execute node [] rows d = left_over-nil node.id rows
select-report_all execute node (c ∷ cs) rows d =
    let e = execute c in
    let payload : CommandResultRequest = record {
      command_id = c.id;
      success = e.success;
      result = some e.result;
    } in
    rw (report-marked e.now node payload rows d) (
      select-report_all execute node cs (map (marked e.now node payload) rows)
        (subst IsDistinct (sym (ids-marked e.now node payload rows)) d)
      ∙ select-marked e.now node payload (ids cs) rows)

contains-insert :
    (i : ℕ) (c : NodeCommand) (cs : List NodeCommand)
    → contains (ids (insert_by_time c cs)) i ≡ ((c.id == i) || contains (ids cs) i)
unfolding insert_by_time
contains-insert i c [] = refl
contains-insert i c (d ∷ ds) = ground (arith, contains-insert i c ds)

contains-by_time :
    (i : ℕ) (cs : List NodeCommand) → contains (ids (by_time cs)) i ≡ contains (ids cs) i
unfolding by_time
contains-by_time i [] = refl
contains-by_time i (c ∷ cs) =
    contains-insert i c (by_time cs) ∙ ap (λ b. (c.id == i) || b) (contains-by_time i cs)

select-none :
    (p : NodeCommand → Bool) (rows : List NodeCommand)
    → All (λ c. p c ≡ false) rows
    → select p rows ≡ []
select-none p [] h = refl
select-none p (c ∷ cs) h = rw h.0 (select-none p cs h.1)

All-weaken :
    (p : NodeCommand → Bool) (q : NodeCommand → Bool) (rows : List NodeCommand)
    → ((c : NodeCommand) → p c ≡ false → q c ≡ false)
    → All (λ c. p c ≡ false) rows
    → All (λ c. q c ≡ false) rows
All-weaken p q [] f h = tt
All-weaken p q (c ∷ cs) f h = (f c h.0, All-weaken p q cs f h.1)

and_false : (b : Bool) → (b && false) ≡ false
and_false b = ground arith

shrinks : (a b : Bool) (i j : ℕ) → (a && not b) ≡ false → (a && not ((i == j) || b)) ≡ false
shrinks a b i j h = ground arith

first_left :
    (pending : Bool) (node : ℕ) (c : NodeCommand) (cs found : List NodeCommand)
    → is_pending node c ≡ pending
    → All (λ d. left_over node (ids found) d ≡ false) cs
    → All (λ d. left_over node (ids (if pending then c ∷ found else found)) d ≡ false) (c ∷ cs)
first_left true node c cs found e h = (
  rw ((nat_eq.beq_iff c.id c.id).1 refl) (and_false (is_pending node c)),
  All-weaken (left_over node (ids found)) (left_over node (ids (c ∷ found))) cs
      (λ d. shrinks (is_pending node d) (contains (ids found) d.id) c.id d.id) h,
)
first_left false node c cs found e h = (rw e refl, h)

none_left :
    (node : ℕ) (rows : List NodeCommand)
    → All (λ c. left_over node (ids (select (is_pending node) rows)) c ≡ false) rows
none_left node [] = tt
none_left node (c ∷ cs) =
    first_left (is_pending node c) node c cs (select (is_pending node) cs) refl (none_left node cs)

left_over-by_time :
    (node : ℕ) (done rows : List NodeCommand)
    → All (λ c. left_over node (ids done) c ≡ false) rows
    → All (λ c. left_over node (ids (by_time done)) c ≡ false) rows
left_over-by_time node done rows h =
    All-weaken (left_over node (ids done)) (left_over node (ids (by_time done))) rows
      (λ c k. ap (λ b. is_pending node c && not b) (contains-by_time c.id done) ∙ k) h

-- If no two commands share an id, then once a node has executed every command that it was given, and
-- reported each, successful or not, the primary has none left for it.
pub report_all-drains :
    (execute : NodeCommand → Execution) (node : Node) (rows : List NodeCommand)
    → IsDistinct (ids rows)
    → get_commands node.id (report_all execute node (get_commands node.id rows) rows) ≡ []
unfolding get_commands by_time
report_all-drains execute node rows d = ap by_time (
    select-report_all execute node (by_time (select (is_pending node.id) rows)) rows d
    ∙ select-none _ rows (
        left_over-by_time node.id (select (is_pending node.id) rows) rows (none_left node.id rows)))
