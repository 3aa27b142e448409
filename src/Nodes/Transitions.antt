-- ===== src/Nodes/Transitions.antt =====
-- The job node_state_transitions_job of admin-ui/app/services/scheduler.py.
use power_blockade.Base.{ℕ, ◌≤◌, ◌≡◌, refl, List, [], ◌∷◌, map, arith, All, false}
use power_blockade.Nodes.{Node, active, stale, seen_before, transition, node_state_transitions_job}

-- The two updates of the job are one function of each row.
pub job-map :
    (stale_minutes offline_minutes now : ℕ) (nodes : List Node)
    → node_state_transitions_job stale_minutes offline_minutes now nodes
      ≡ map (transition stale_minutes offline_minutes now) nodes
unfolding node_state_transitions_job transition
job-map stale_minutes offline_minutes now [] = refl
job-map stale_minutes offline_minutes now (n ∷ ns) =
    ground (arith, job-map stale_minutes offline_minutes now ns)

-- What the job promises of a row that it has visited.
pub record IsTimely (stale_minutes offline_minutes now : ℕ) (n : Node) : Type 0 where
  pub active_recent : n.status ≡ active → seen_before stale_minutes now n.last_seen ≡ false
  pub stale_recent : n.status ≡ stale → seen_before offline_minutes now n.last_seen ≡ false

transition-IsTimely :
    (stale_minutes offline_minutes now : ℕ) (n : Node)
    → IsTimely stale_minutes offline_minutes now (transition stale_minutes offline_minutes now n)
unfolding transition
transition-IsTimely stale_minutes offline_minutes now n = ground arith

map-IsTimely :
    (stale_minutes offline_minutes now : ℕ) (nodes : List Node)
    → All
        (IsTimely stale_minutes offline_minutes now)
        (map (transition stale_minutes offline_minutes now) nodes)
map-IsTimely stale_minutes offline_minutes now [] = tt
map-IsTimely stale_minutes offline_minutes now (n ∷ ns) = (
  transition-IsTimely stale_minutes offline_minutes now n,
  map-IsTimely stale_minutes offline_minutes now ns,
)

-- After the job no active node was last seen more than the stale minutes ago, and no stale node
-- more than the offline minutes ago.
pub job-IsTimely :
    (stale_minutes offline_minutes now : ℕ) (nodes : List Node)
    → All
        (IsTimely stale_minutes offline_minutes now)
        (node_state_transitions_job stale_minutes offline_minutes now nodes)
job-IsTimely stale_minutes offline_minutes now nodes =
    rw job-map (map-IsTimely stale_minutes offline_minutes now nodes)

transition-transition :
    (stale_minutes offline_minutes now later : ℕ) (n : Node)
    → now ≤ later
    → transition stale_minutes offline_minutes later
        (transition stale_minutes offline_minutes now n)
      ≡ transition stale_minutes offline_minutes later n
unfolding transition
transition-transition stale_minutes offline_minutes now later n h = ground arith

map-transition :
    (stale_minutes offline_minutes now later : ℕ) (nodes : List Node)
    → now ≤ later
    → map
        (transition stale_minutes offline_minutes later)
        (map (transition stale_minutes offline_minutes now) nodes)
      ≡ map (transition stale_minutes offline_minutes later) nodes
map-transition stale_minutes offline_minutes now later [] h = refl
map-transition stale_minutes offline_minutes now later (n ∷ ns) h = cc (
  transition-transition stale_minutes offline_minutes now later n h,
  map-transition stale_minutes offline_minutes now later ns h,
)

-- If the second of two runs of the job is not earlier, the two leave the rows as the second alone
-- does.
pub job-job :
    (stale_minutes offline_minutes now later : ℕ) (nodes : List Node)
    → now ≤ later
    → node_state_transitions_job stale_minutes offline_minutes later
        (node_state_transitions_job stale_minutes offline_minutes now nodes)
      ≡ node_state_transitions_job stale_minutes offline_minutes later nodes
job-job stale_minutes offline_minutes now later nodes h =
    simp job-map (map-transition stale_minutes offline_minutes now later nodes h)
