-- ===== src/Ingest/Tests.antt =====
-- A batch of three events from two clients, two of them with one id.
use power_blockade.Base.{
  arith, add, String, if◌then◌else◌, ℕ, leb, ◌≡◌, refl, false, Bool, Option, none, some, List, [],
  ◌∷◌, All, length,
}
use power_blockade.Base.Texts.{Text, codes}
use power_blockade.Nodes.{Node, active}
use power_blockade.Clients.{new_client}
use power_blockade.Ingest.{
  IngestEvent, Tables, ingest, parse_events, unique_ips, rows_data, insert_events, event_time,
  ensure_clients, unresolved,
}
use power_blockade.Ingest.Stored.{IsNamed}
use power_blockade.Ingest.Kept.{tables_after, count_received, IsStored}
use power_blockade.Ingest.Batches.{IsAdding, ingest-IsAdding, ingest-IsStored}
use power_blockade.Ingest.Replay.{IsIdle, is_failed, ingest_twice}

abbrev event : String → String → IngestEvent
event ip id = record {
  ts = some (codes "Z");
  client_ip = codes ip;
  qname = codes " Ads.Example. ";
  qtype = 1;
  rcode = 0;
  blocked = false;
  block_reason = none;
  blocklist_name = none;
  latency_ms = some 3;
  event_id = some (codes id);
  event_seq = none;
  is_internal = false;
}

abbrev valid : IngestEvent → Option IngestEvent
valid ev = if leb ev.qtype 65535 then some ev else none

abbrev unreadable : Text → Option ℕ
unreadable s = none

abbrev fits : IngestEvent → Bool
fits ev = leb (length ev.client_ip) 64

abbrev batch : List IngestEvent
batch = event "::1" "a" ∷ event "::2" "b" ∷ event "::1" "a" ∷ []

abbrev one_client : Tables
one_client = record { clients = new_client 4 (codes "::2") ∷ []; next_client = 5; events = [] }

abbrev sender : Node
sender = record {
  id = 2;
  name = "pi";
  api_key = "k";
  ip_address = none;
  version = none;
  status = active;
  last_seen = none;
  last_heartbeat = none;
  last_error = none;
  quarantine_entry_time = none;
  quarantine_reason = none;
  config_version = 0;
  queries_total = 0;
  queries_blocked = 0;
}

received_two : count_received (ingest valid unreadable fits 7 sender batch one_client) ≡ 2
unfolding ingest parse_events unique_ips rows_data insert_events event_time ensure_clients
    unresolved add
received_two = refl

ingest-IsAdding_example :
    IsAdding 2 3 one_client (ingest valid unreadable fits 7 sender batch one_client)
unfolding parse_events
ingest-IsAdding_example = ingest-IsAdding valid unreadable fits 7 sender batch one_client

one_client-IsStored : IsStored one_client
one_client-IsStored = (((((refl, tt), λ id h. ground arith), (refl, tt))), (tt, tt))

ingest-IsStored_example :
    IsStored (tables_after (ingest valid unreadable fits 7 sender batch one_client) one_client)
ingest-IsStored_example =
    ingest-IsStored valid unreadable fits 7 sender batch one_client one_client-IsStored

batch-IsNamed : All (λ ev. IsNamed ev.event_id) (parse_events valid batch)
unfolding parse_events
batch-IsNamed = ((codes "a", refl), ((codes "b", refl), ((codes "a", refl), tt)))

ingest_twice_example :
    let first = ingest valid unreadable fits 7 sender batch one_client in
    let once = tables_after first one_client in
    let again = ingest valid unreadable fits 9 sender batch once in
    IsIdle once again × (is_failed again ≡ is_failed first)
ingest_twice_example =
    ingest_twice valid unreadable fits 7 9 sender sender batch one_client batch-IsNamed
