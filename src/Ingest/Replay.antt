-- ===== src/Ingest/Replay.antt =====
-- A batch that is sent twice, as after an answer that was lost.
use power_blockade.Base.{
  ℕ, ◌≡◌, refl, ◌∙◌, ap, sym, Bool, true, false, Option, List, [], ◌∷◌, nat_eq, list_eq, map,
  contains, contains-union, Bool-cases, inl, inr, All, arith,
}
use power_blockade.Base.Texts.{Text, text_eq}
use power_blockade.Nodes.{Node}
use power_blockade.Clients.{client_id_of, client_ip_of, Client}
use power_blockade.Rollups.{DnsQueryEvent}
use power_blockade.Ingest.{
  IngestEvent, Tables, Ingested, failed, received, event_ip, unique_ips, conflicts, ensure_clients,
  insert_events, rows_data, all_storable, store_events, ingest_parsed, ingest, parse_events,
}
use power_blockade.Ingest.Devices.{ensure_clients_present}
use power_blockade.Ingest.Stored.{IsNamed, insert_events_known, insert_events-conflicts}
use power_blockade.Ingest.Rows.{IsCovered, All-rows_data, All-parsed, rows_data-ips, rows_data-ids}
use power_blockade.Ingest.Kept.{tables_after, count_received, batch_rows, batch-IsCovered}

abbrev pub is_failed : Ingested → Bool
is_failed failed = true
is_failed (received t node n ips) = false

-- Nothing is received, and neither events nor the ids and addresses of clients change.
abbrev pub IsIdle : Tables → Ingested → Type 0
IsIdle t answer =
    (count_received answer ≡ 0)
    × (((tables_after answer t).events ≡ t.events)
        × ((map client_ip_of (tables_after answer t).clients ≡ map client_ip_of t.clients)
            × (map client_id_of (tables_after answer t).clients ≡ map client_id_of t.clients)))

-- Every event of the batch is stored, and its client too.
abbrev IsKnown : Tables → List IngestEvent → Type 0
IsKnown t parsed =
    IsCovered t.clients parsed × All (λ ev. conflicts t.events ev.event_id ≡ true) parsed

covered-contains :
    (clients : List Client) (parsed : List IngestEvent) (a : Text)
    → IsCovered clients parsed
    → contains (map event_ip parsed) a ≡ true
    → contains (map client_ip_of clients) a ≡ true
covered-contains clients [] a all h = absurd (ground arith)
covered-contains clients (ev ∷ parsed) a all h =
    ground (arith, covered-contains clients parsed a all.1, all.0, text_eq.beq_iff ev.client_ip a)

unique_ips_present :
    (parsed : List IngestEvent) (t : Tables)
    → IsCovered t.clients parsed
    → ensure_clients (unique_ips parsed) t ≡ t
unfolding unique_ips
unique_ips_present parsed t all = ensure_clients_present (unique_ips parsed) t (λ a c.
    covered-contains t.clients parsed a all (sym (contains-union [] (map event_ip parsed) a) ∙ c))

module _ (f : Text → Option ℕ) (storable : IngestEvent → Bool) (now : ℕ) (node : Node) where
  known-IsIdle :
      (parsed : List IngestEvent) (t : Tables)
      → IsKnown t parsed
      → IsIdle t (store_events f now node parsed t)
  unfolding store_events
  known-IsIdle parsed t (covered, stored) =
      let rows = (rows_data f now node.id t.clients parsed).1 in
      let none_new : insert_events rows t.events ≡ (t.events, 0) =
        insert_events_known rows t.events (
          All-rows_data (λ k. conflicts t.events k ≡ true) f now node.id t.clients parsed stored) in
      (
        ap (λ (p : List DnsQueryEvent × ℕ). p.1) none_new,
        (
          ap (λ (p : List DnsQueryEvent × ℕ). p.0) none_new,
          (
            rows_data-ips f now node.id t.clients parsed,
            rows_data-ids f now node.id t.clients parsed,
          ),
        ),
      )

  -- After a batch of events with ids, they are known.
  stored-IsKnown :
      (parsed : List IngestEvent) (t : Tables)
      → All (λ ev. IsNamed ev.event_id) parsed
      → IsKnown
          (tables_after (store_events f now node parsed (ensure_clients (unique_ips parsed) t)) t)
          parsed
  unfolding store_events
  stored-IsKnown parsed t named =
      let made : Tables = ensure_clients (unique_ips parsed) t in
      (
        rw (rows_data-ips f now node.id made.clients parsed) (batch-IsCovered parsed t),
        All-parsed
            (λ k.
              conflicts (insert_events (batch_rows f now node.id parsed t) made.events).0 k ≡ true)
            f now node.id made.clients parsed
            (insert_events-conflicts (batch_rows f now node.id parsed t) made.events
              (All-rows_data IsNamed f now node.id made.clients parsed named)),
      )

module _ (f : Text → Option ℕ) (storable : IngestEvent → Bool) (now later : ℕ) (node sender : Node)
    (t : Tables) where
  -- The tables after the first of two answers.
  abbrev after_first : List IngestEvent → Tables
  after_first parsed = tables_after (ingest_parsed f storable now node parsed t) t

  parsed_twice :
      (parsed : List IngestEvent)
      → All (λ ev. IsNamed ev.event_id) parsed
      → IsIdle
          (after_first parsed)
          (ingest_parsed f storable later sender parsed (after_first parsed))
        × (is_failed (ingest_parsed f storable later sender parsed (after_first parsed))
            ≡ is_failed (ingest_parsed f storable now node parsed t))
  unfolding ingest_parsed
  parsed_twice [] named = ((refl, (refl, (refl, refl))), refl)
  parsed_twice (ev ∷ parsed) named = elim (Bool-cases (all_storable storable (ev ∷ parsed))) [
    | inl e ↦
        let once : Tables =
          tables_after
            (store_events f now node (ev ∷ parsed) (ensure_clients (unique_ips (ev ∷ parsed)) t))
            t in
        let known : IsKnown once (ev ∷ parsed) =
          stored-IsKnown f storable now node (ev ∷ parsed) t named in
        rw (e, unique_ips_present (ev ∷ parsed) once known.0)
          (known-IsIdle f storable later sender (ev ∷ parsed) once known, refl)
    | inr n ↦ rw n ((refl, (refl, (refl, refl))), refl)
  ]

module _ {ℓ} {A : Type ℓ} (model_validate : A → Option IngestEvent) (f : Text → Option ℕ)
    (storable : IngestEvent → Bool) (now later : ℕ) (node sender : Node) (events : List A)
    (t : Tables) where
  -- If every valid event of a batch has an id, then the same batch sent again, at any time and by
  -- any node, is received with 0 events, adds no event and no client, and is refused only if it
  -- was refused the first time.
  pub ingest_twice :
      All (λ ev. IsNamed ev.event_id) (parse_events model_validate events)
      → let first = ingest model_validate f storable now node events t in
        let once = tables_after first t in
        let again = ingest model_validate f storable later sender events once in
        IsIdle once again × (is_failed again ≡ is_failed first)
  unfolding ingest
  ingest_twice =
      parsed_twice f storable now later node sender t (parse_events model_validate events)
