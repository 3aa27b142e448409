-- ===== src/Commands.antt =====
-- The commands that the primary leaves for its secondaries: get_commands and report_command_result
-- of admin-ui/app/routers/node_sync.py, the queueing of blocking_clear_cache in
-- admin-ui/app/routers/blocking.py, and the reports of poll_and_execute_commands in
-- sync-agent/agent.py.
pub mod Reports
pub mod Drained
mod Tests
use power_blockade.Base.{
  ℕ, zero, suc, ◌+◌, String, Bool, true, false, not, ◌&&◌, ◌||◌, Option, none, some, List, [], ◌∷◌,
  ◌++◌, ◌==◌, nat_eq, string_eq, leb, if◌then◌else◌, select, contains, map,
}
use power_blockade.Base.Texts.{Text}
use power_blockade.Nodes.{Node, NodeStatus, active, status_eq}

-- The text f"node={node.name} success={...} result={...}" by its three parts.
pub record Report : Type 0 where
  pub node : String
  pub success : Bool
  pub result : Option Text

pub record NodeCommand : Type 0 where
  pub id : ℕ
  pub node_id : Option ℕ
  pub command : String
  pub params : Option Text
  pub created_at : ℕ
  pub executed_at : Option ℕ
  pub result : Option Report

-- `node_id == node.id`, or no node at all: a command for every node.
abbrev pub addressed : ℕ → Option ℕ → Bool
addressed node none = true
addressed node (some id) = id == node

abbrev pub is_none {ℓ} : {A : Type ℓ} → Option A → Bool
is_none none = true
is_none (some a) = false

abbrev pub is_pending : ℕ → NodeCommand → Bool
is_pending node c = is_none c.executed_at && addressed node c.node_id

-- ORDER BY created_at
unfoldable pub insert_by_time : NodeCommand → List NodeCommand → List NodeCommand
insert_by_time c [] = c ∷ []
insert_by_time c (d ∷ ds) =
    let rest = insert_by_time c ds in if leb c.created_at d.created_at then c ∷ d ∷ ds else d ∷ rest

unfoldable pub by_time : List NodeCommand → List NodeCommand
unfolding insert_by_time
by_time [] = []
by_time (c ∷ cs) = insert_by_time c (by_time cs)

unfoldable pub get_commands : ℕ → List NodeCommand → List NodeCommand
unfolding by_time
get_commands node rows = by_time (select (is_pending node) rows)

pub record CommandResultRequest : Type 0 where
  pub command_id : ℕ
  pub success : Bool
  pub result : Option Text

-- The rows after the request, or the error that it answers.
pub data Reported : Type 0 where
  ok : List NodeCommand → Reported
  not_found : Reported
  forbidden : Reported

abbrev pub executed : ℕ → String → CommandResultRequest → NodeCommand → NodeCommand
executed now name payload c = record c {
  executed_at = some now;
  result = some (record { node = name; success = payload.success; result = payload.result });
}

abbrev pub behind : NodeCommand → Reported → Reported
behind c (ok cs) = ok (c ∷ cs)
behind c not_found = not_found
behind c forbidden = forbidden

unfoldable pub report_command_result : ℕ → Node → CommandResultRequest → List NodeCommand → Reported
report_command_result now node payload [] = not_found
report_command_result now node payload (c ∷ cs) =
    let rest = report_command_result now node payload cs in
    if c.id == payload.command_id
    then if addressed node.id c.node_id
      then ok (executed now node.name payload c ∷ cs)
      else forbidden
    else behind c rest

-- An error leaves the table.
abbrev pub rows_after : List NodeCommand → Reported → List NodeCommand
rows_after rows (ok cs) = cs
rows_after rows not_found = rows
rows_after rows forbidden = rows

-- What clear_recursor_cache gives for a command, and the time at which its report arrives.
pub record Execution : Type 0 where
  pub now : ℕ
  pub success : Bool
  pub result : Text

-- The loop over the commands: each is executed and reported in turn. `execute` gives the outcome.
unfoldable pub report_all :
    (NodeCommand → Execution) → Node → List NodeCommand → List NodeCommand → List NodeCommand
unfolding report_command_result
report_all execute node [] rows = rows
report_all execute node (c ∷ cs) rows =
    let e = execute c in
    let payload : CommandResultRequest = record {
      command_id = c.id;
      success = e.success;
      result = some e.result;
    } in
    report_all execute node cs (rows_after rows (report_command_result e.now node payload rows))

-- One clear_cache for every active node but the primary, with the ids from `next` on.
unfoldable pub queue_clear_cache : ℕ → ℕ → List Node → List NodeCommand
queue_clear_cache now next [] = []
queue_clear_cache now next (n ∷ ns) =
    let rest = queue_clear_cache now (next + 1) ns in
    let skipped = queue_clear_cache now next ns in
    if n.status == active && not (n.name == "primary")
    then record {
      id = next;
      node_id = some n.id;
      command = "clear_cache";
      params = none;
      created_at = now;
      executed_at = none;
      result = none;
    }
      ∷ rest
    else skipped
