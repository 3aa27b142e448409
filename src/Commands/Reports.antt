-- ===== src/Commands/Reports.antt =====
-- `report_command_result` on every branch.
use power_blockade.Base.{
  ℕ, ◌≡◌, refl, ◌↔◌, Bool, true, false, ◌&&◌, List, [], ◌∷◌, arith, ◌==◌, nat_eq, if◌then◌else◌,
  map, contains, IsDistinct, Bool-cases, inl, inr, ap, sym, ◌∙◌,
}
use power_blockade.Nodes.{Node}
use power_blockade.Commands.{
  NodeCommand, addressed, CommandResultRequest, Reported, ok, not_found, forbidden, executed,
  behind, report_command_result, rows_after,
}

abbrev pub ids : List NodeCommand → List ℕ
ids = map (λ c. c.id)

-- What a report does to a row.
abbrev pub marked : ℕ → Node → CommandResultRequest → NodeCommand → NodeCommand
marked now node payload c =
    if c.id == payload.command_id && addressed node.id c.node_id
    then executed now node.name payload c
    else c

rows-behind :
    (c : NodeCommand) (rows : List NodeCommand) (r : Reported)
    → rows_after (c ∷ rows) (behind c r) ≡ c ∷ rows_after rows r
rows-behind c rows (ok cs) = refl
rows-behind c rows not_found = refl
rows-behind c rows forbidden = refl

marked-absent :
    (now : ℕ) (node : Node) (payload : CommandResultRequest) (rows : List NodeCommand)
    → contains (ids rows) payload.command_id ≡ false
    → map (marked now node payload) rows ≡ rows
marked-absent now node payload [] h = refl
marked-absent now node payload (c ∷ cs) h = ground (arith, marked-absent now node payload cs)

matched-marked :
    (now : ℕ) (node : Node) (payload : CommandResultRequest) (c : NodeCommand)
    (cs : List NodeCommand) (own : Bool)
    → rows_after (c ∷ cs) (if own then ok (executed now node.name payload c ∷ cs) else forbidden)
      ≡ (if own then executed now node.name payload c else c) ∷ cs
matched-marked now node payload c cs true = refl
matched-marked now node payload c cs false = refl

-- If no two commands share an id, a report changes the reported command, if it is for the node or
-- for every node, and no other row; an error changes none.
pub report-marked :
    (now : ℕ) (node : Node) (payload : CommandResultRequest) (rows : List NodeCommand)
    → IsDistinct (ids rows)
    → rows_after rows (report_command_result now node payload rows)
      ≡ map (marked now node payload) rows
unfolding report_command_result
report-marked now node payload [] d = refl
report-marked now node payload (c ∷ cs) d = elim (Bool-cases (c.id == payload.command_id)) [
  | inl e ↦ rw e (
      matched-marked now node payload c cs (addressed node.id c.node_id)
      ∙ ap (λ l. (if addressed node.id c.node_id then executed now node.name payload c else c) ∷ l)
          (sym (
            marked-absent now node payload cs
              (ap (contains (ids cs)) (sym ((nat_eq.beq_iff c.id payload.command_id).0 e)) ∙ d.0))))
  | inr e ↦ rw e (
      rows-behind c cs (report_command_result now node payload cs)
      ∙ ap (λ l. c ∷ l) (report-marked now node payload cs d.1))
]

-- The command is not found exactly when no row has its id.
pub report-not_found_iff :
    (now : ℕ) (node : Node) (payload : CommandResultRequest) (rows : List NodeCommand)
    → (report_command_result now node payload rows ≡ not_found)
      ↔ (contains (ids rows) payload.command_id ≡ false)
unfolding report_command_result
report-not_found_iff now node payload [] = ground arith
report-not_found_iff now node payload (c ∷ cs) =
    ground (arith, report-not_found_iff now node payload cs)
