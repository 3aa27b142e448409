-- ===== src/Retention/Tests.antt =====
-- Two events and the settings of the form.
use power_blockade.Base.{ℕ, ◌*◌, ◌≡◌, refl, false, none, [], ◌∷◌}
use power_blockade.Base.Texts.{codes}
use power_blockade.Base.Int.{pos}
use power_blockade.Settings.{get_int, settings_update_retention}
use power_blockade.Rollups.{DnsQueryEvent}
use power_blockade.Retention.{Tables, day, run_retention_job}
use power_blockade.Retention.Kept.{left, form-job}

abbrev event : ℕ → DnsQueryEvent
event t = record {
  event_id = none;
  event_seq = none;
  client_ip = codes "10.0.0.7";
  qtype = 1;
  block_reason = none;
  blocklist_name = none;
  ts = t;
  node_id = none;
  client_id = none;
  is_internal = false;
  qname = codes "a.example";
  rcode = 0;
  blocked = false;
  latency_ms = none;
}

abbrev tables : Tables
tables = record { events = event (3 * day) ∷ event (18 * day) ∷ []; rollups = []; metrics = [] }

unreadable :
    run_retention_job (20 * day) (("retention_rollups_days", codes "1 year") ∷ []) tables
    ≡ (record tables { events = event (18 * day) ∷ [] }, false)
unfolding run_retention_job get_int
unreadable = refl

form-job_example :
    run_retention_job
      (20 * day)
      (settings_update_retention (pos 2) (pos 1_000_000) (pos 1) [])
      tables
    ≡ left (20 * day) (pos 2) (pos 1_000_000) (pos 1) tables
form-job_example = form-job (20 * day) [] tables (pos 2) (pos 1_000_000) (pos 1) refl refl refl

overflows :
    left (20 * day) (pos 2) (pos 1_000_000) (pos 1) tables
    ≡ (record tables { events = event (18 * day) ∷ [] }, false)
overflows = refl
