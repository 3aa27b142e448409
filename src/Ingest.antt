-- ===== src/Ingest.antt =====
-- What a secondary sends of its queries and of its counters: the handlers ingest and metrics of
-- admin-ui/app/routers/node_sync.py, over the tables of admin-ui/app/models/client.py,
-- dns_query_event.py and node_metrics.py. A set is the list of its members in the order in which
-- they were first met.
pub mod Devices
pub mod Stored
pub mod Rows
pub mod Kept
pub mod Batches
pub mod Replay
mod Tests
use power_blockade.Base.{
  ℕ, ◌+◌, Bool, true, false, not, ◌&&◌, Option, none, some, List, [], ◌∷◌, ◌++◌, ◌==◌, nat_eq,
  list_eq, option_eq, if◌then◌else◌, map, select, contains, union,
}
use power_blockade.Base.Int.{ℤ}
use power_blockade.Base.Texts.{Text, codes, strip, lower, rstrip}
use power_blockade.Nodes.{Node, mark_active}
use power_blockade.Clients.{Client, by_ip, new_client, client_ip_of, client_id_of}
use power_blockade.Rollups.{DnsQueryEvent}
use power_blockade.Retention.{NodeMetrics}

pub record IngestEvent : Type 0 where
  pub ts : Option Text
  pub client_ip : Text
  pub qname : Text
  pub qtype : ℕ
  pub rcode : ℕ
  pub blocked : Bool
  pub block_reason : Option Text
  pub blocklist_name : Option Text
  pub latency_ms : Option ℕ
  pub event_id : Option Text
  pub event_seq : Option ℕ
  pub is_internal : Bool

-- The tables that a batch of events writes, and the sequence of the ids of clients.
pub record Tables : Type 0 where
  pub clients : List Client
  pub next_client : ℕ
  pub events : List DnsQueryEvent

-- The events that are valid. An item that is not is passed over.
unfoldable pub parse_events {ℓ} :
    {A : Type ℓ} → (A → Option IngestEvent) → List A → List IngestEvent
parse_events model_validate [] = []
parse_events model_validate (e ∷ events) =
    parsed (model_validate e) (parse_events model_validate events)
  where
    parsed : Option IngestEvent → List IngestEvent → List IngestEvent
    parsed none rest = rest
    parsed (some ev) rest = ev ∷ rest

abbrev pub event_ip : IngestEvent → Text
event_ip ev = ev.client_ip

-- `{ev.client_ip for ev in parsed}`
unfoldable pub unique_ips : List IngestEvent → List Text
unfolding union
unique_ips parsed = union [] (map event_ip parsed)

-- The row of an address, made if there is none.
unfoldable pub ensure_client : Text → Tables → Tables
ensure_client ip t = if contains (map client_ip_of t.clients) ip then t else record t {
  clients = t.clients ++ (new_client t.next_client ip ∷ []);
  next_client = t.next_client + 1;
}

unfoldable pub ensure_clients : List Text → Tables → Tables
unfolding ensure_client
ensure_clients [] t = t
ensure_clients (ip ∷ ips) t = ensure_clients ips (ensure_client ip t)

-- `ts.replace("Z", "+00:00")`
unfoldable pub replace_z : Text → Text
replace_z [] = []
replace_z (c ∷ s) = (if c == b'Z' then codes "+00:00" else c ∷ []) ++ replace_z s

-- A missing, an empty or an unreadable time is that of the request.
unfoldable pub event_time : (Text → Option ℕ) → ℕ → Option Text → ℕ
unfolding replace_z
event_time fromisoformat now none = now
event_time fromisoformat now (some []) = now
event_time fromisoformat now (some (c ∷ s)) = or_now (fromisoformat (replace_z (c ∷ s)))
  where
    or_now : Option ℕ → ℕ
    or_now none = now
    or_now (some t) = t

-- `client.last_seen = ts`
abbrev pub seen_at : Text → ℕ → List Client → List Client
seen_at ip ts = map (λ c. if c.ip == ip then record c { last_seen = some ts } else c)

abbrev pub client_key : Option Client → Option ℕ
client_key none = none
client_key (some c) = some c.id

-- The row that is stored of an event.
unfoldable pub event_row : ℕ → ℕ → List Client → IngestEvent → DnsQueryEvent
unfolding by_ip
event_row node ts clients ev = record {
  event_id = ev.event_id;
  event_seq = ev.event_seq;
  ts = ts;
  node_id = some node;
  client_ip = ev.client_ip;
  client_id = client_key (by_ip ev.client_ip clients);
  is_internal = ev.is_internal;
  qname = rstrip (λ c. c == b'.') (lower (strip ev.qname));
  qtype = ev.qtype;
  rcode = ev.rcode;
  blocked = ev.blocked;
  block_reason = ev.block_reason;
  blocklist_name = ev.blocklist_name;
  latency_ms = ev.latency_ms;
}

abbrev pub event_key : DnsQueryEvent → Option Text
event_key e = e.event_id

-- Whether a row's key is taken: a NULL conflicts with nothing.
abbrev pub conflicts : List DnsQueryEvent → Option Text → Bool
conflicts rows none = false
conflicts rows (some id) = contains (map event_key rows) (some id)

-- One row of INSERT ... ON CONFLICT (event_id) DO NOTHING, and how many rows that made.
unfoldable pub insert_event : DnsQueryEvent → List DnsQueryEvent → List DnsQueryEvent × ℕ
insert_event e rows = if conflicts rows e.event_id then (rows, 0) else (rows ++ (e ∷ []), 1)

unfoldable pub insert_events : List DnsQueryEvent → List DnsQueryEvent → List DnsQueryEvent × ℕ
unfolding insert_event
insert_events [] rows = (rows, 0)
insert_events (e ∷ new) rows =
    let one = insert_event e rows in let rest = insert_events new one.0 in (rest.0, one.1 + rest.1)

-- The clients after the events, in order, and the rows of the events.
unfoldable pub rows_data :
    (Text → Option ℕ) → ℕ → ℕ → List Client → List IngestEvent → List Client × List DnsQueryEvent
unfolding event_time event_row
rows_data fromisoformat now node clients [] = (clients, [])
rows_data fromisoformat now node clients (ev ∷ parsed) =
    let ts = event_time fromisoformat now ev.ts in
    let rest : List Client × List DnsQueryEvent =
      rows_data fromisoformat now node (seen_at ev.client_ip ts clients) parsed in
    (rest.0, event_row node ts clients ev ∷ rest.1)

-- The addresses of the batch whose names were never asked for.
unfoldable pub unresolved : List Client → List Text → List Text
unfolding by_ip
unresolved clients = select (λ ip. never_resolved (by_ip ip clients))
  where
    never_resolved : Option Client → Bool
    never_resolved none = true
    never_resolved (some c) = is_none c.rdns_last_resolved_at
      where
        is_none : Option ℕ → Bool
        is_none none = true
        is_none (some t) = false

-- The answer to a batch: an exception, which stores nothing, or the tables, the node, the number
-- that is received and the addresses to resolve in the background.
pub data Ingested : Type 0 where
  failed : Ingested
  received : Tables → Node → ℕ → List Text → Ingested

-- After the clients are made: the rows are stored and the node is marked.
unfoldable pub store_events : (Text → Option ℕ) → ℕ → Node → List IngestEvent → Tables → Ingested
unfolding rows_data insert_events unresolved unique_ips
store_events fromisoformat now node parsed t =
    let data_rows : List Client × List DnsQueryEvent =
      rows_data fromisoformat now node.id t.clients parsed in
    let stored = insert_events data_rows.1 t.events in
    received (record t { clients = data_rows.0; events = stored.0 }) (mark_active now node) stored.1
      (unresolved data_rows.0 (unique_ips parsed))

-- Whether every row fits its columns.
unfoldable pub all_storable : (IngestEvent → Bool) → List IngestEvent → Bool
all_storable storable [] = true
all_storable storable (ev ∷ parsed) = storable ev && all_storable storable parsed

unfoldable pub ingest_parsed :
    (Text → Option ℕ) → (IngestEvent → Bool) → ℕ → Node → List IngestEvent → Tables → Ingested
unfolding store_events all_storable unique_ips ensure_clients
ingest_parsed fromisoformat storable now node [] t = received t node 0 []
ingest_parsed fromisoformat storable now node (ev ∷ parsed) t =
    if all_storable storable (ev ∷ parsed)
    then store_events fromisoformat now node (ev ∷ parsed)
        (ensure_clients (unique_ips (ev ∷ parsed)) t)
    else failed

unfoldable pub ingest {ℓ} :
    {A : Type ℓ}
    → (A → Option IngestEvent)
    → (Text → Option ℕ)
    → (IngestEvent → Bool)
    → ℕ
    → Node
    → List A
    → Tables
    → Ingested
unfolding ingest_parsed parse_events
ingest model_validate fromisoformat storable now node events t =
    ingest_parsed fromisoformat storable now node (parse_events model_validate events) t

pub record MetricsRequest : Type 0 where
  pub cache_hits : ℤ
  pub cache_misses : ℤ
  pub cache_entries : ℤ
  pub packetcache_hits : ℤ
  pub packetcache_misses : ℤ
  pub answers_0_1 : ℤ
  pub answers_1_10 : ℤ
  pub answers_10_100 : ℤ
  pub answers_100_1000 : ℤ
  pub answers_slow : ℤ
  pub concurrent_queries : ℤ
  pub outgoing_timeouts : ℤ
  pub servfail_answers : ℤ
  pub nxdomain_answers : ℤ
  pub questions : ℤ
  pub all_outqueries : ℤ
  pub uptime_seconds : ℤ

-- The row that is added; the node is marked as for a batch of events.
unfoldable pub metrics : ℕ → Node → MetricsRequest → List NodeMetrics → List NodeMetrics × Node
metrics now node payload rows = (
  rows
      ++ (record {
        node_id = node.id;
        ts = now;
        cache_hits = payload.cache_hits;
        cache_misses = payload.cache_misses;
        cache_entries = payload.cache_entries;
        packetcache_hits = payload.packetcache_hits;
        packetcache_misses = payload.packetcache_misses;
        answers_0_1 = payload.answers_0_1;
        answers_1_10 = payload.answers_1_10;
        answers_10_100 = payload.answers_10_100;
        answers_100_1000 = payload.answers_100_1000;
        answers_slow = payload.answers_slow;
        concurrent_queries = payload.concurrent_queries;
        outgoing_timeouts = payload.outgoing_timeouts;
        servfail_answers = payload.servfail_answers;
        nxdomain_answers = payload.nxdomain_answers;
        questions = payload.questions;
        all_outqueries = payload.all_outqueries;
        uptime_seconds = payload.uptime_seconds;
      }
          ∷ []),
  mark_active now node,
)
