-- ===== src/Ingest/Batches.antt =====
-- A batch as a whole: what it adds, and that the tables stay in order.
use power_blockade.Base.{
  ℕ, ◌≤◌, ◌≡◌, refl, ◌∙◌, ap, sym, Bool, Option, List, [], ◌∷◌, ◌++◌, arith, nat_eq, list_eq,
  length, Bool-cases, inl, inr, All, All-append,
}
use power_blockade.Base.Texts.{Text}
use mathlib.Core.List.{append-nil}
use power_blockade.Nodes.{Node}
use power_blockade.Rollups.{DnsQueryEvent}
use power_blockade.Ingest.{
  IngestEvent, Tables, Ingested, unique_ips, ensure_clients, insert_events, all_storable,
  store_events, ingest_parsed, ingest, parse_events,
}
use power_blockade.Ingest.Devices.{IsDevices, ensure_clients-IsDevices, ensure_clients-events}
use power_blockade.Ingest.Stored.{
  added, insert_events-added, insert_events-IsDistinct, length-added_le, All-added,
}
use power_blockade.Ingest.Rows.{IsOwned, length-rows_data, rows_data-ips, rows_data-ids}
use power_blockade.Ingest.Kept.{
  tables_after, count_received, IsAttributed, IsStored, batch_clients, batch_rows,
  IsAttributed-batch, batch-IsOwned, IsAttributed-owned,
}

-- What an answer adds to the events: as many rows as it counts, at most `most`, all of the node and
-- each with the client of its address.
abbrev pub IsAdding : ℕ → ℕ → Tables → Ingested → Type 0
IsAdding node most t answer =
    (new : List DnsQueryEvent) × (((tables_after answer t).events ≡ t.events ++ new)
      × ((count_received answer ≡ length new)
          × ((length new ≤ most) × All (IsOwned node (tables_after answer t).clients) new)))

module _ (f : Text → Option ℕ) (now : ℕ) (node : Node) (t : Tables) where
  -- The rows of a batch, inserted.
  insert_batch :
      (parsed : List IngestEvent)
      → insert_events
          (batch_rows f now node.id parsed t)
          (ensure_clients (unique_ips parsed) t).events
        ≡ (
          t.events ++ added (batch_rows f now node.id parsed t) t.events,
          length (added (batch_rows f now node.id parsed t) t.events),
        )
  insert_batch parsed =
      ap (insert_events (batch_rows f now node.id parsed t))
        (ensure_clients-events (unique_ips parsed) t)
      ∙ insert_events-added (batch_rows f now node.id parsed t) t.events

  store_events-IsAdding :
      (parsed : List IngestEvent)
      → IsAdding node.id
          (length parsed)
          t
          (store_events f now node parsed (ensure_clients (unique_ips parsed) t))
  unfolding store_events
  store_events-IsAdding parsed =
      let rows = batch_rows f now node.id parsed t in
      (
        added rows t.events,
        (
          ap (λ (p : List DnsQueryEvent × ℕ). p.0) (insert_batch parsed),
          (
            ap (λ (p : List DnsQueryEvent × ℕ). p.1) (insert_batch parsed),
            (
              omega (
                arith,
                length-added_le rows t.events,
                length-rows_data f now node.id (ensure_clients (unique_ips parsed) t).clients
                    parsed,
              ),
              All-added _ rows t.events (batch-IsOwned f now node.id parsed t),
            ),
          ),
        ),
      )

  store_events-IsStored :
      (parsed : List IngestEvent)
      → IsStored t
      → IsStored
          (tables_after (store_events f now node parsed (ensure_clients (unique_ips parsed) t)) t)
  unfolding store_events
  store_events-IsStored parsed h =
      let made : Tables = ensure_clients (unique_ips parsed) t in
      let devices : IsDevices made = ensure_clients-IsDevices (unique_ips parsed) t h.0 in
      let rows = batch_rows f now node.id parsed t in
      let after = batch_clients f now node.id parsed t in
      (
        rw
            (
              rows_data-ips f now node.id made.clients parsed,
              rows_data-ids f now node.id made.clients parsed,
            )
            devices,
        (
          insert_events-IsDistinct rows made.events
              (rw (ensure_clients-events (unique_ips parsed) t) h.1.0),
          rw (insert_batch parsed) (
              All-append (IsAttributed after) t.events (added rows t.events)
                (IsAttributed-batch f now node.id parsed t t.events h.1.1)
                (IsAttributed-owned node.id after (added rows t.events)
                  (All-added _ rows t.events (batch-IsOwned f now node.id parsed t)))),
        ),
      )

  ingest_parsed-IsAdding :
      (storable : IngestEvent → Bool) (parsed : List IngestEvent)
      → IsAdding node.id (length parsed) t (ingest_parsed f storable now node parsed t)
  unfolding ingest_parsed
  ingest_parsed-IsAdding storable [] = ([], (sym (append-nil t.events), (refl, (omega arith, tt))))
  ingest_parsed-IsAdding storable (ev ∷ parsed) =
      elim (Bool-cases (all_storable storable (ev ∷ parsed))) [
        | inl e ↦ rw e (store_events-IsAdding (ev ∷ parsed))
        | inr n ↦ rw n ([], (sym (append-nil t.events), (refl, (omega arith, tt))))
      ]

  ingest_parsed-IsStored :
      (storable : IngestEvent → Bool) (parsed : List IngestEvent)
      → IsStored t
      → IsStored (tables_after (ingest_parsed f storable now node parsed t) t)
  unfolding ingest_parsed
  ingest_parsed-IsStored storable [] h = h
  ingest_parsed-IsStored storable (ev ∷ parsed) h =
      elim (Bool-cases (all_storable storable (ev ∷ parsed))) [
        | inl e ↦ rw e (store_events-IsStored (ev ∷ parsed) h)
        | inr n ↦ rw n h
      ]

module _ {ℓ} {A : Type ℓ} (model_validate : A → Option IngestEvent) (f : Text → Option ℕ)
    (storable : IngestEvent → Bool) (now : ℕ) (node : Node) (events : List A) (t : Tables) where
  -- A batch, refused or not, adds rows behind those that are there: as many as it answers, at most
  -- one for each valid event, each of the node and with the id of the client that the table has for
  -- its address.
  pub ingest-IsAdding :
      IsAdding node.id
        (length (parse_events model_validate events))
        t
        (ingest model_validate f storable now node events t)
  unfolding ingest
  ingest-IsAdding =
      ingest_parsed-IsAdding f now node t storable (parse_events model_validate events)

  -- If no client's id or address, and no event's id, is in its table twice, ids of clients are
  -- behind the sequence, and each event names no client or the client of its address, then all of
  -- that holds after any batch.
  pub ingest-IsStored :
      IsStored t → IsStored (tables_after (ingest model_validate f storable now node events t) t)
  unfolding ingest
  ingest-IsStored =
      ingest_parsed-IsStored f now node t storable (parse_events model_validate events)
