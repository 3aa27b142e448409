-- ===== src/Nodes/Heartbeat.antt =====
-- The handler `heartbeat` of admin-ui/app/routers/node_sync.py, branch by branch.
use power_blockade.Base.{ℕ, ◌+◌, ◌<◌, ◌≡◌, ◌⊎◌, ◌↔◌, some, arith}
use power_blockade.Nodes.{
  Node, active, stale, offline, quarantine, error, naive, aware, saved, type_error,
  HeartbeatRequest, minutes, heartbeat,
}

-- The handler raises exactly when the node was stale or offline and its row holds a last_seen
-- without a time zone.
pub heartbeat-type_error_iff :
    (threshold now : ℕ) (payload : HeartbeatRequest) (node : Node)
    → (heartbeat threshold now payload node ≡ type_error) ↔ (
        ((node.status ≡ stale) ⊎ (node.status ≡ offline))
        × ((t : ℕ) × (node.last_seen ≡ some (naive t))))
unfolding heartbeat
heartbeat-type_error_iff threshold now payload node = ground arith

-- A heartbeat that is saved stamps both times with the present.
pub heartbeat-stamps :
    (threshold now : ℕ) (payload : HeartbeatRequest) (node : Node) {n : Node}
    → heartbeat threshold now payload node ≡ saved n
    → (n.last_seen ≡ some (naive now)) × (n.last_heartbeat ≡ some (naive now))
unfolding heartbeat
heartbeat-stamps threshold now payload node h = ground arith

-- After a heartbeat that is saved, the node is in quarantine exactly when it was before, or was
-- stale or offline and last seen, by a time with a zone, more than the threshold ago.
pub heartbeat-quarantine_iff :
    (threshold now : ℕ) (payload : HeartbeatRequest) (node : Node) {n : Node}
    → heartbeat threshold now payload node ≡ saved n
    → (n.status ≡ quarantine) ↔ (
        (node.status ≡ quarantine)
        ⊎ (((node.status ≡ stale) ⊎ (node.status ≡ offline))
            × ((seen : ℕ) × (node.last_seen ≡ some (aware seen))
                × (seen + minutes threshold < now))))
unfolding heartbeat
heartbeat-quarantine_iff threshold now payload node h = ground arith

-- After a heartbeat that is saved, the node is in error exactly when it was before, and it is
-- never pending, stale or offline.
pub heartbeat-live :
    (threshold now : ℕ) (payload : HeartbeatRequest) (node : Node) {n : Node}
    → heartbeat threshold now payload node ≡ saved n
    → ((n.status ≡ error) ↔ (node.status ≡ error))
      × ((n.status ≡ active) ⊎ (n.status ≡ error) ⊎ (n.status ≡ quarantine))
unfolding heartbeat
heartbeat-live threshold now payload node h = ground arith
