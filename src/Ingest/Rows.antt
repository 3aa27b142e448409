-- ===== src/Ingest/Rows.antt =====
-- The rows that are made of a batch.
use power_blockade.Base.{
  ℕ, ◌≡◌, refl, ◌∙◌, ap, sym, suc, true, Option, some, List, [], ◌∷◌, nat_eq, list_eq, option_eq,
  map, contains, length, All,
}
use power_blockade.Base.Texts.{Text}
use power_blockade.Clients.{client_id_of, client_ip_of, Client, by_ip}
use power_blockade.Rollups.{DnsQueryEvent}
use power_blockade.Ingest.{IngestEvent, event_row, rows_data, event_time, seen_at, client_key}
use power_blockade.Ingest.Devices.{by_ip-present, seen_at-ips, seen_at-ids, client_key-seen_at}

-- The keys of the rows are those of the events.
module _ {ℓ} (P : Option Text → Type ℓ) (f : Text → Option ℕ) (now node : ℕ) where
  pub All-rows_data :
      (clients : List Client) (parsed : List IngestEvent)
      → All (λ ev. P ev.event_id) parsed
      → All (λ e. P e.event_id) (rows_data f now node clients parsed).1
  unfolding rows_data event_row
  All-rows_data clients [] all = tt
  All-rows_data clients (ev ∷ parsed) all =
      (all.0, All-rows_data (seen_at ev.client_ip (event_time f now ev.ts) clients) parsed all.1)

  pub All-parsed :
      (clients : List Client) (parsed : List IngestEvent)
      → All (λ e. P e.event_id) (rows_data f now node clients parsed).1
      → All (λ ev. P ev.event_id) parsed
  unfolding rows_data event_row
  All-parsed clients [] all = tt
  All-parsed clients (ev ∷ parsed) all =
      (all.0, All-parsed (seen_at ev.client_ip (event_time f now ev.ts) clients) parsed all.1)

pub length-rows_data :
    (f : Text → Option ℕ) (now node : ℕ) (clients : List Client) (parsed : List IngestEvent)
    → length (rows_data f now node clients parsed).1 ≡ length parsed
unfolding rows_data
length-rows_data f now node clients [] = refl
length-rows_data f now node clients (ev ∷ parsed) =
    ap suc
      (length-rows_data f now node (seen_at ev.client_ip (event_time f now ev.ts) clients) parsed)

pub rows_data-ips :
    (f : Text → Option ℕ) (now node : ℕ) (clients : List Client) (parsed : List IngestEvent)
    → map client_ip_of (rows_data f now node clients parsed).0 ≡ map client_ip_of clients
unfolding rows_data
rows_data-ips f now node clients [] = refl
rows_data-ips f now node clients (ev ∷ parsed) =
    let ts = event_time f now ev.ts in
    rows_data-ips f now node (seen_at ev.client_ip ts clients) parsed
    ∙ seen_at-ips ev.client_ip ts clients

pub rows_data-ids :
    (f : Text → Option ℕ) (now node : ℕ) (clients : List Client) (parsed : List IngestEvent)
    → map client_id_of (rows_data f now node clients parsed).0 ≡ map client_id_of clients
unfolding rows_data
rows_data-ids f now node clients [] = refl
rows_data-ids f now node clients (ev ∷ parsed) =
    let ts = event_time f now ev.ts in
    rows_data-ids f now node (seen_at ev.client_ip ts clients) parsed
    ∙ seen_at-ids ev.client_ip ts clients

pub client_key-rows_data :
    (f : Text → Option ℕ) (now node : ℕ) (clients : List Client) (parsed : List IngestEvent)
    (ip : Text)
    → client_key (by_ip ip (rows_data f now node clients parsed).0) ≡ client_key (by_ip ip clients)
unfolding rows_data
client_key-rows_data f now node clients [] ip = refl
client_key-rows_data f now node clients (ev ∷ parsed) ip =
    let ts = event_time f now ev.ts in
    client_key-rows_data f now node (seen_at ev.client_ip ts clients) parsed ip
    ∙ client_key-seen_at ev.client_ip ip ts clients

-- A row of the node, with the client of its address.
abbrev pub IsOwned : ℕ → List Client → DnsQueryEvent → Type 0
IsOwned node clients e =
    (e.node_id ≡ some node)
    × ((id : ℕ) × ((e.client_id ≡ some id) × (client_key (by_ip e.client_ip clients) ≡ some id)))

-- Every address of the batch has a row.
abbrev pub IsCovered : List Client → List IngestEvent → Type 0
IsCovered clients parsed =
    All (λ ev. contains (map client_ip_of clients) ev.client_ip ≡ true) parsed

pub present-client_key :
    (ip : Text) (clients : List Client)
    → contains (map client_ip_of clients) ip ≡ true
    → (id : ℕ) × (client_key (by_ip ip clients) ≡ some id)
present-client_key ip clients h =
    let (c, found) = by_ip-present ip clients h in (c.id, ap client_key found)

pub IsCovered-seen_at :
    (ip : Text) (ts : ℕ) (clients : List Client) (parsed : List IngestEvent)
    → IsCovered clients parsed
    → IsCovered (seen_at ip ts clients) parsed
IsCovered-seen_at ip ts clients [] all = tt
IsCovered-seen_at ip ts clients (ev ∷ parsed) all =
    (rw (seen_at-ips ip ts clients) all.0, IsCovered-seen_at ip ts clients parsed all.1)

pub IsOwned-seen_at :
    (ip : Text) (ts node : ℕ) (clients : List Client) (rows : List DnsQueryEvent)
    → All (IsOwned node (seen_at ip ts clients)) rows
    → All (IsOwned node clients) rows
IsOwned-seen_at ip ts node clients [] all = tt
IsOwned-seen_at ip ts node clients (e ∷ rows) all =
    let (of_node, (id, (own, key))) = all.0 in
    (
      (of_node, (id, (own, sym (client_key-seen_at ip e.client_ip ts clients) ∙ key))),
      IsOwned-seen_at ip ts node clients rows all.1,
    )

pub rows_data-IsOwned :
    (f : Text → Option ℕ) (now node : ℕ) (clients : List Client) (parsed : List IngestEvent)
    → IsCovered clients parsed
    → All (IsOwned node clients) (rows_data f now node clients parsed).1
unfolding rows_data event_row
rows_data-IsOwned f now node clients [] all = tt
rows_data-IsOwned f now node clients (ev ∷ parsed) all =
    let ts = event_time f now ev.ts in
    let (id, key) = present-client_key ev.client_ip clients all.0 in
    (
      (refl, (id, (key, key))),
      IsOwned-seen_at ev.client_ip ts node clients _ (
          rows_data-IsOwned f now node (seen_at ev.client_ip ts clients) parsed
            (IsCovered-seen_at ev.client_ip ts clients parsed all.1)),
    )
