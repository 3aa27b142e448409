-- ===== src/Nodes/Tests.antt =====
-- Concrete nodes, what the handlers do to them, and the theorems applied to them.
use power_blockade.Base.{
  ℕ, ◌+◌, ◌<◌, ◌≡◌, refl, ◌≢◌, ◌⊎◌, ◌↔◌, Option, none, some, List, [], ◌∷◌, inr,
}
use power_blockade.Nodes.{
  Node, NodeStatus, active, stale, offline, quarantine, DateTime, naive, aware, saved, type_error,
  HeartbeatRequest, heartbeat, node_state_transitions_job, minutes, hours,
  returned_after_hours_offline, active_to_stale, stale_to_offline,
}
use power_blockade.Nodes.Heartbeat.{heartbeat-quarantine_iff}
use power_blockade.Nodes.Lifecycle.{beats, job_runs, run, run-ne-quarantine, Event}

abbrev node : NodeStatus → Option DateTime → Node
node s seen = record {
  id = 2;
  name = "branch";
  api_key = "k";
  ip_address = none;
  version = some "1.0.0";
  status = s;
  last_seen = seen;
  last_heartbeat = none;
  last_error = none;
  quarantine_entry_time = none;
  quarantine_reason = none;
  config_version = 0;
  queries_total = 0;
  queries_blocked = 0;
}

abbrev beat : HeartbeatRequest
beat = record { queries_total = some 7; queries_blocked = none; version = some "" }

-- Two days in microseconds.
abbrev two_days : ℕ
two_days = hours 48

abbrev back : Node
back = record (node quarantine (some (naive two_days))) {
  last_heartbeat = some (naive two_days);
  quarantine_entry_time = some (naive two_days);
  quarantine_reason = some (returned_after_hours_offline 47);
  queries_total = 7;
}

heartbeat-quarantines :
    heartbeat 1440 two_days beat (node offline (some (aware (hours 1)))) ≡ saved back
unfolding heartbeat
heartbeat-quarantines = refl

heartbeat-raises : heartbeat 1440 two_days beat (node offline (some (naive (hours 1)))) ≡ type_error
unfolding heartbeat
heartbeat-raises = refl

job_in_one_run :
    node_state_transitions_job 5 30 (hours 1) (node active (some (naive 0)) ∷ [])
    ≡ node offline (some (naive 0)) ∷ []
unfolding node_state_transitions_job active_to_stale stale_to_offline
job_in_one_run = refl

heartbeat-quarantine_iff_example : (back.status ≡ quarantine) ↔ (
    (◌≡◌ {A = NodeStatus} offline quarantine)
    ⊎ (((◌≡◌ {A = NodeStatus} offline stale) ⊎ (◌≡◌ {A = NodeStatus} offline offline))
        × ((seen : ℕ) × (◌≡◌ {A = Option DateTime} (some (aware (hours 1))) (some (aware seen)))
            × (seen + minutes 1440 < two_days))))
heartbeat-quarantine_iff_example =
    heartbeat-quarantine_iff 1440 two_days beat (node offline (some (aware (hours 1))))
      heartbeat-quarantines

abbrev rows : List Node
rows = node active (some (naive 0)) ∷ node stale none ∷ []

abbrev events : List (ℕ × Event)
events = (hours 1, job_runs 5 30) ∷ (two_days, beats 1440 beat) ∷ []

run-ne-quarantine_example : (run events (node active (some (naive 0)))).status ≢ quarantine
run-ne-quarantine_example =
    run-ne-quarantine events (node active (some (naive 0))) (inr (0, refl)) (λ e. cc)
