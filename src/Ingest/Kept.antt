-- ===== src/Ingest/Kept.antt =====
-- What the tables keep over a batch: clients of addresses, and events of clients.
use power_blockade.Base.{
  ℕ, ◌≡◌, ◌⊎◌, ◌∙◌, true, Option, none, some, List, [], ◌∷◌, arith, nat_eq, list_eq, option_eq, map,
  contains, contains-head, contains-union, IsDistinct, Bool-cases, inl, inr, All,
}
use power_blockade.Base.Texts.{Text}
use power_blockade.Clients.{client_ip_of, Client, by_ip}
use power_blockade.Rollups.{DnsQueryEvent}
use power_blockade.Ingest.{
  IngestEvent, Tables, Ingested, failed, received, client_key, event_ip, unique_ips, ensure_clients,
  rows_data,
}
use power_blockade.Ingest.Devices.{
  IsDevices, by_ip-absent, contains-ensure_clients, client_key-ensure_clients,
}
use power_blockade.Ingest.Stored.{ids}
use power_blockade.Ingest.Rows.{IsOwned, IsCovered, client_key-rows_data, rows_data-IsOwned}

abbrev pub tables_after : Ingested → Tables → Tables
tables_after failed t = t
tables_after (received t' node n ips) t = t'

abbrev pub count_received : Ingested → ℕ
count_received failed = 0
count_received (received t node n ips) = n

-- A row that names no client, or the client of its address.
abbrev pub IsAttributed : List Client → DnsQueryEvent → Type 0
IsAttributed clients e =
    (e.client_id ≡ none)
    ⊎ ((id : ℕ) × ((e.client_id ≡ some id) × (client_key (by_ip e.client_ip clients) ≡ some id)))

-- Clients have unique ids and addresses, events have unique ids, and each event's client is that
-- of its address.
abbrev pub IsStored : Tables → Type 0
IsStored t = IsDevices t × (IsDistinct (ids t.events) × All (IsAttributed t.clients) t.events)

key-contains :
    (ip : Text) (clients : List Client) (id : ℕ)
    → client_key (by_ip ip clients) ≡ some id
    → contains (map client_ip_of clients) ip ≡ true
key-contains ip clients id h = elim (Bool-cases (contains (map client_ip_of clients) ip)) [
  | inl e ↦ e
  | inr n ↦ absurd (ground (arith, by_ip-absent ip clients n))
]

-- The clients after a batch.
abbrev pub batch_clients : (Text → Option ℕ) → ℕ → ℕ → List IngestEvent → Tables → List Client
batch_clients f now node parsed t =
    (rows_data f now node (ensure_clients (unique_ips parsed) t).clients parsed).0

abbrev pub batch_rows : (Text → Option ℕ) → ℕ → ℕ → List IngestEvent → Tables → List DnsQueryEvent
batch_rows f now node parsed t =
    (rows_data f now node (ensure_clients (unique_ips parsed) t).clients parsed).1

key-batch :
    (f : Text → Option ℕ) (now node : ℕ) (parsed : List IngestEvent) (t : Tables) (ip : Text)
    (id : ℕ)
    → client_key (by_ip ip t.clients) ≡ some id
    → client_key (by_ip ip (batch_clients f now node parsed t)) ≡ some id
key-batch f now node parsed t ip id h =
    client_key-rows_data f now node (ensure_clients (unique_ips parsed) t).clients parsed ip
    ∙ client_key-ensure_clients (unique_ips parsed) ip t (key-contains ip t.clients id h)
    ∙ h

pub IsAttributed-batch :
    (f : Text → Option ℕ) (now node : ℕ) (parsed : List IngestEvent) (t : Tables)
    (rows : List DnsQueryEvent)
    → All (IsAttributed t.clients) rows
    → All (IsAttributed (batch_clients f now node parsed t)) rows
IsAttributed-batch f now node parsed t [] all = tt
IsAttributed-batch f now node parsed t (e ∷ rows) all = (
  elim all.0 [
    | inl unnamed ↦ inl unnamed
    | inr (id, (own, key)) ↦ inr (id, (own, key-batch f now node parsed t e.client_ip id key))
  ],
  IsAttributed-batch f now node parsed t rows all.1,
)

IsCovered-event_ip :
    (parsed : List IngestEvent) (clients : List Client)
    → ((a : Text)
        → contains (map event_ip parsed) a ≡ true
        → contains (map client_ip_of clients) a ≡ true)
    → IsCovered clients parsed
IsCovered-event_ip [] clients h = tt
IsCovered-event_ip (ev ∷ parsed) clients h = (
  h ev.client_ip (contains-head ev.client_ip (map event_ip parsed)),
  IsCovered-event_ip parsed clients (λ a c. h a (ground arith)),
)

pub batch-IsCovered :
    (parsed : List IngestEvent) (t : Tables)
    → IsCovered (ensure_clients (unique_ips parsed) t).clients parsed
unfolding unique_ips
batch-IsCovered parsed t = IsCovered-event_ip parsed _ (λ a c. ground (
  arith,
  contains-ensure_clients (unique_ips parsed) a t,
  contains-union [] (map event_ip parsed) a,
))

pub batch-IsOwned :
    (f : Text → Option ℕ) (now node : ℕ) (parsed : List IngestEvent) (t : Tables)
    → All (IsOwned node (batch_clients f now node parsed t)) (batch_rows f now node parsed t)
batch-IsOwned f now node parsed t =
    let made = (ensure_clients (unique_ips parsed) t).clients in
    owned_later _ (rows_data-IsOwned f now node made parsed (batch-IsCovered parsed t))
  where
    owned_later :
        (rows : List DnsQueryEvent)
        → All (IsOwned node (ensure_clients (unique_ips parsed) t).clients) rows
        → All (IsOwned node (batch_clients f now node parsed t)) rows
    owned_later [] all = tt
    owned_later (e ∷ rows) all =
        let (of_node, (id, (own, key))) = all.0 in
        (
          (
            of_node,
            (
              id,
              (
                own,
                client_key-rows_data f now node (ensure_clients (unique_ips parsed) t).clients
                      parsed e.client_ip
                    ∙ key,
              ),
            ),
          ),
          owned_later rows all.1,
        )

pub IsAttributed-owned :
    (node : ℕ) (clients : List Client) (rows : List DnsQueryEvent)
    → All (IsOwned node clients) rows
    → All (IsAttributed clients) rows
IsAttributed-owned node clients [] all = tt
IsAttributed-owned node clients (e ∷ rows) all =
    (inr all.0.1, IsAttributed-owned node clients rows all.1)
