-- ===== src/Commands/Tests.antt =====
-- A table of three commands, and the theorems applied to it.
use power_blockade.Base.{ℕ, ◌≡◌, refl, String, true, Option, none, some, List, [], ◌∷◌, nat_eq}
use power_blockade.Base.Texts.{codes}
use power_blockade.Nodes.{Node, NodeStatus, active, offline}
use power_blockade.Commands.{
  NodeCommand, get_commands, CommandResultRequest, forbidden, report_command_result, report_all,
  Execution, queue_clear_cache,
}
use power_blockade.Commands.Drained.{report_all-drains}

abbrev node : ℕ → String → NodeStatus → Node
node i n s = record {
  id = i;
  name = n;
  api_key = "k";
  ip_address = none;
  version = none;
  status = s;
  last_seen = none;
  last_heartbeat = none;
  last_error = none;
  quarantine_entry_time = none;
  quarantine_reason = none;
  config_version = 0;
  queries_total = 0;
  queries_blocked = 0;
}

abbrev command : ℕ → Option ℕ → ℕ → NodeCommand
command i to t = record {
  id = i;
  node_id = to;
  command = "clear_cache";
  params = none;
  created_at = t;
  executed_at = none;
  result = none;
}

abbrev table : List NodeCommand
table = command 1 (some 2) 30 ∷ command 2 (some 3) 10 ∷ command 3 none 20 ∷ []

oldest_first : get_commands 2 table ≡ command 3 none 20 ∷ command 1 (some 2) 30 ∷ []
unfolding get_commands
oldest_first = refl

abbrev request : CommandResultRequest
request = record { command_id = 2; success = true; result = none }

for_another_node : report_command_result 50 (node 2 "branch" active) request table ≡ forbidden
unfolding report_command_result
for_another_node = refl

queues :
    queue_clear_cache 10 7
      (node 1 "primary" active ∷ node 2 "branch" active ∷ node 3 "away" offline ∷ [])
    ≡ command 7 (some 2) 10 ∷ []
unfolding queue_clear_cache
queues = refl

abbrev execute : NodeCommand → Execution
execute c = record { now = 60; success = true; result = codes "flushed 3 entries" }

report_all-drains_example :
    get_commands 2 (report_all execute (node 2 "branch" active) (get_commands 2 table) table) ≡ []
report_all-drains_example =
    report_all-drains execute (node 2 "branch" active) table (refl, (refl, (refl, tt)))
