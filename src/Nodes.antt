-- ===== src/Nodes.antt =====
-- The life of a node on the primary: the row of admin-ui/app/models/node.py, the handlers of
-- admin-ui/app/routers/node_sync.py and nodes.py that write it, and the job
-- node_state_transitions_job of admin-ui/app/services/scheduler.py. Times are microseconds.
pub mod Heartbeat
pub mod Transitions
pub mod Lifecycle
pub mod Table
mod Tests
use power_blockade.Base.{
  ℕ, ◌+◌, ◌*◌, ◌-◌, ◌/◌, String, Bool, true, false, ◌&&◌, ◌||◌, Option, none, some, List, ltb, ◌==◌,
  string_eq, map, if◌then◌else◌, Eq, arith, ◌≡◌, ◌↔◌,
}

pub data NodeStatus : Type 0 where
  pending active stale offline quarantine error : NodeStatus

abbrev pub status_beq : NodeStatus → NodeStatus → Bool
status_beq pending pending = true
status_beq active active = true
status_beq stale stale = true
status_beq offline offline = true
status_beq quarantine quarantine = true
status_beq error error = true
status_beq _ _ = false

pub status_beq_iff : (s t : NodeStatus) → (status_beq s t ≡ true) ↔ (s ≡ t)
status_beq_iff s t = ground arith

instance abbrev pub status_eq : Eq NodeStatus
status_eq = record { beq = status_beq; beq_iff = status_beq_iff }

-- f"Returned after {hours} hours offline", by its number.
pub data QuarantineReason : Type 0 where
  returned_after_hours_offline : ℕ → QuarantineReason

-- A `datetime` without or with a time zone (UTC), by its microseconds.
pub data DateTime : Type 0 where
  naive aware : ℕ → DateTime

abbrev pub instant : DateTime → ℕ
instant (naive t) = t
instant (aware t) = t

-- The columns are TIMESTAMP WITHOUT TIME ZONE: what is read back from them is naive.
abbrev pub column : DateTime → DateTime
column t = naive (instant t)

pub record Node : Type 0 where
  pub id : ℕ
  pub name : String
  pub api_key : String
  pub ip_address : Option String
  pub version : Option String
  pub status : NodeStatus
  pub last_seen : Option DateTime
  pub last_heartbeat : Option DateTime
  pub last_error : Option String
  pub quarantine_entry_time : Option DateTime
  pub quarantine_reason : Option QuarantineReason
  pub config_version : ℕ
  pub queries_total : ℕ
  pub queries_blocked : ℕ

-- timedelta(minutes=m) and timedelta(hours=h)
abbrev pub minutes : ℕ → ℕ
minutes m = m * 60_000_000

abbrev pub hours : ℕ → ℕ
hours h = h * 3_600_000_000

pub record RegisterRequest : Type 0 where
  pub name : String
  pub version : Option String
  pub ip_address : Option String

pub record HeartbeatRequest : Type 0 where
  pub queries_total : Option ℕ
  pub queries_blocked : Option ℕ
  pub version : Option String

-- Python's truth value of a text that may be missing.
abbrev pub present : Option String → Bool
present none = false
present (some s) = if s == "" then false else true

unfoldable pub register : ℕ → RegisterRequest → Node → Node
register now payload node = record node {
  name = payload.name;
  ip_address = payload.ip_address;
  version = payload.version;
  status = active;
  last_seen = some (column (aware now));
  last_error = none;
}

-- A handler that raises `TypeError` commits nothing.
pub data Handled : Type 0 where
  saved : Node → Handled
  type_error : Handled

-- The branch on a node that was stale or offline. `now` has a time zone, and its difference to a
-- naive datetime raises. The duration is divided only where it is positive.
unfoldable pub returning : ℕ → ℕ → Option DateTime → Node → Handled
returning threshold now none node = saved (record node { status = active })
returning threshold now (some (naive seen)) node = type_error
returning threshold now (some (aware seen)) node =
    if ltb (seen + minutes threshold) now
    then saved (record node {
      status = quarantine;
      quarantine_entry_time = some (column (aware now));
      quarantine_reason = some (returned_after_hours_offline ((now - seen) / hours 1));
    })
    else saved (record node { status = active })

-- The branches of `heartbeat` on the status that the node had.
unfoldable pub heartbeat_status : ℕ → ℕ → NodeStatus → Option DateTime → Node → Handled
unfolding returning
heartbeat_status threshold now error seen node = saved node
heartbeat_status threshold now quarantine seen node = saved node
heartbeat_status threshold now offline seen node = returning threshold now seen node
heartbeat_status threshold now stale seen node = returning threshold now seen node
heartbeat_status threshold now _ seen node = saved (record node { status = active })

-- The counters and the version that a heartbeat reports.
unfoldable pub report : HeartbeatRequest → Handled → Handled
report payload type_error = type_error
report payload (saved node) = saved (record node {
  version = if present payload.version then payload.version else node.version;
  queries_total = elim payload.queries_total [ none ↦ node.queries_total | some n ↦ n ];
  queries_blocked = elim payload.queries_blocked [ none ↦ node.queries_blocked | some n ↦ n ];
})

-- `threshold` is get_health_quarantine_threshold_minutes(db).
unfoldable pub heartbeat : ℕ → ℕ → HeartbeatRequest → Node → Handled
unfolding heartbeat_status report
heartbeat threshold now payload node =
    let stamp = column (aware now) in
    let touched : Node = record node { last_seen = some stamp; last_heartbeat = some stamp } in
    report payload (heartbeat_status threshold now node.status node.last_seen touched)

-- What `ingest` and `metrics` of node_sync.py write to the row of the node.
unfoldable pub mark_active : ℕ → Node → Node
mark_active now node = record node { last_seen = some (column (aware now)); status = active }

-- nodes_clear_error and nodes_force_sync of nodes.py, once the row is found.
unfoldable pub clear_error : Node → Node
clear_error node = record node {
  last_error = none;
  status = if node.status == error then active else node.status;
}

unfoldable pub force_sync : Node → Node
force_sync node = record node { config_version = node.config_version + 1; last_error = none }

-- The SQL test `last_seen < now - timedelta(minutes=age)`, which is not true of NULL.
abbrev pub seen_before : ℕ → ℕ → Option DateTime → Bool
seen_before age now none = false
seen_before age now (some seen) = ltb (instant seen + minutes age) now

-- The two bulk updates of the job: the second sees what the first has written.
unfoldable pub active_to_stale : ℕ → ℕ → Node → Node
active_to_stale stale_minutes now node =
    if node.status == active && seen_before stale_minutes now node.last_seen
    then record node { status = stale }
    else node

unfoldable pub stale_to_offline : ℕ → ℕ → Node → Node
stale_to_offline offline_minutes now node =
    if node.status == stale && seen_before offline_minutes now node.last_seen
    then record node { status = offline }
    else node

unfoldable pub transition : ℕ → ℕ → ℕ → Node → Node
unfolding active_to_stale stale_to_offline
transition stale_minutes offline_minutes now node =
    stale_to_offline offline_minutes now (active_to_stale stale_minutes now node)

unfoldable pub node_state_transitions_job : ℕ → ℕ → ℕ → List Node → List Node
node_state_transitions_job stale_minutes offline_minutes now nodes =
    map (stale_to_offline offline_minutes now) (map (active_to_stale stale_minutes now) nodes)
