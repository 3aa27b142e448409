-- ===== src/Nodes/Lifecycle.antt =====
-- Whatever the requests and jobs do to one row of the table: an event is one handler or job run on
-- it, at a time of its own. A handler that raises leaves the row as it was.
use power_blockade.Base.{ℕ, ◌≡◌, refl, ◌≢◌, none, some, List, [], ◌∷◌, ◌⊎◌, inr, arith, ◌∙◌}
use power_blockade.Nodes.{
  Node, quarantine, error, naive, Handled, saved, type_error, RegisterRequest, HeartbeatRequest,
  register, heartbeat, mark_active, clear_error, force_sync, transition,
}

pub data Event : Type 0 where
  registers : RegisterRequest → Event
  beats : (threshold : ℕ) → HeartbeatRequest → Event
  ingests pushes_metrics clears_error forces_sync : Event
  job_runs : (stale_minutes offline_minutes : ℕ) → Event

abbrev commit : Node → Handled → Node
commit node (saved n) = n
commit node type_error = node

unfoldable pub apply : ℕ → Event → Node → Node
apply now (registers payload) node = register now payload node
apply now (beats threshold payload) node = commit node (heartbeat threshold now payload node)
apply now ingests node = mark_active now node
apply now pushes_metrics node = mark_active now node
apply now clears_error node = clear_error node
apply now forces_sync node = force_sync node
apply now (job_runs stale_minutes offline_minutes) node =
    transition stale_minutes offline_minutes now node

unfoldable pub run : List (ℕ × Event) → Node → Node
unfolding apply
run [] node = node
run ((now, event) ∷ events) node = run events (apply now event node)

-- A row as it is read from the table: its last_seen has no time zone.
abbrev pub IsRow : Node → Type 0
IsRow node = (node.last_seen ≡ none) ⊎ ((t : ℕ) × (node.last_seen ≡ some (naive t)))

record IsFree (node : Node) : Type 0 where
  row : IsRow node
  free : node.status ≢ quarantine

apply-IsFree : (now : ℕ) (event : Event) (node : Node) → IsFree node → IsFree (apply now event node)
unfolding apply register heartbeat mark_active clear_error force_sync transition
apply-IsFree now (registers payload) node h = record { row = inr (now, refl); free = λ e. cc }
apply-IsFree now (beats threshold payload) node h = ground arith
apply-IsFree now ingests node h = record { row = inr (now, refl); free = λ e. cc }
apply-IsFree now pushes_metrics node h = record { row = inr (now, refl); free = λ e. cc }
apply-IsFree now clears_error node h = record { row = h.row; free = ground (arith, h.free) }
apply-IsFree now forces_sync node h = record { row = h.row; free = h.free }
apply-IsFree now (job_runs stale_minutes offline_minutes) node h = ground arith

run-IsFree : (events : List (ℕ × Event)) (node : Node) → IsFree node → IsFree (run events node)
unfolding run
run-IsFree [] node h = h
run-IsFree ((now, event) ∷ events) node h =
    run-IsFree events (apply now event node) (apply-IsFree now event node h)

-- From a row of the table that is not in quarantine, no sequence of requests and jobs leads into
-- quarantine.
pub run-ne-quarantine :
    (events : List (ℕ × Event)) (node : Node)
    → IsRow node
    → node.status ≢ quarantine
    → (run events node).status ≢ quarantine
run-ne-quarantine events node row free =
    (run-IsFree events node (record { row = row; free = free })).free

-- The events that the sync-agent of a node in quarantine or in error may cause, and the job: a
-- heartbeat, a forced sync and the transitions, but no registration, no ingest and no metrics.
abbrev pub IsPassive : Event → Type 0
IsPassive (beats _ _) = Unit
IsPassive forces_sync = Unit
IsPassive (job_runs _ _) = Unit
IsPassive _ = ⊥

abbrev pub AllPassive : List (ℕ × Event) → Type 0
AllPassive [] = Unit
AllPassive ((now, event) ∷ events) = IsPassive event × AllPassive events

abbrev pub IsHeld : Node → Type 0
IsHeld node = (node.status ≡ error) ⊎ (node.status ≡ quarantine)

apply-held :
    (now : ℕ) (event : Event) (node : Node)
    → IsPassive event
    → IsHeld node
    → (apply now event node).status ≡ node.status
unfolding apply heartbeat force_sync transition
apply-held now (beats threshold payload) node p h = ground arith
apply-held now forces_sync node p h = refl
apply-held now (job_runs stale_minutes offline_minutes) node p h = ground arith
apply-held now _ node p h = absurd p

-- Heartbeats, forced syncs and the transition job never take a node out of error or quarantine.
pub run-held :
    (events : List (ℕ × Event)) (node : Node)
    → AllPassive events
    → IsHeld node
    → (run events node).status ≡ node.status
unfolding run
run-held [] node p h = refl
run-held ((now, event) ∷ events) node p h =
    let step = apply-held now event node p.0 h in
    run-held events (apply now event node) p.1 (rw step h) ∙ step
