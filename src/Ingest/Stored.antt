-- ===== src/Ingest/Stored.antt =====
-- The rows of events under a batch.
use power_blockade.Base.{
  ℕ, ◌+◌, ◌≤◌, ◌≡◌, refl, ◌∙◌, ap, sym, true, false, Option, none, some, List, [], ◌∷◌, ◌++◌, arith,
  Eq, nat_eq, list_eq, option_eq, if◌then◌else◌, map, contains, contains-append, length, IsDistinct,
  IsDistinct-snoc, Bool-cases, inl, inr, All, All-append, length-append,
}
use power_blockade.Base.Texts.{Text}
use mathlib.Core.List.{append_assoc, append-nil, map-append}
use power_blockade.Admin.Tables.{map-snoc}
use power_blockade.Rollups.{DnsQueryEvent}
use power_blockade.Ingest.{event_key, conflicts, insert_event, insert_events}

abbrev key_eq : Eq (Option Text)
key_eq = option_eq

-- The ids that are not NULL.
abbrev pub present : List (Option Text) → List Text
present [] = []
present (none ∷ keys) = present keys
present (some id ∷ keys) = id ∷ present keys

abbrev pub ids : List DnsQueryEvent → List Text
ids rows = present (map event_key rows)

contains-present :
    (keys : List (Option Text)) (id : Text) → contains (present keys) id ≡ contains keys (some id)
contains-present [] id = refl
contains-present (none ∷ keys) id = ground (arith, contains-present keys id)
contains-present (some k ∷ keys) id = ground (arith, contains-present keys id)

present-snoc_none : (keys : List (Option Text)) → present (keys ++ (none ∷ [])) ≡ present keys
present-snoc_none [] = refl
present-snoc_none (none ∷ keys) = present-snoc_none keys
present-snoc_none (some k ∷ keys) = ap (λ l. k ∷ l) (present-snoc_none keys)

present-snoc_some :
    (keys : List (Option Text)) (id : Text)
    → present (keys ++ (some id ∷ [])) ≡ present keys ++ (id ∷ [])
present-snoc_some [] id = refl
present-snoc_some (none ∷ keys) id = present-snoc_some keys id
present-snoc_some (some k ∷ keys) id = ap (λ l. k ∷ l) (present-snoc_some keys id)

IsDistinct-present-snoc :
    (rows : List DnsQueryEvent) (key : Option Text)
    → conflicts rows key ≡ false
    → IsDistinct (ids rows)
    → IsDistinct (present (map event_key rows ++ (key ∷ [])))
IsDistinct-present-snoc rows none h d = rw (present-snoc_none (map event_key rows)) d
IsDistinct-present-snoc rows (some id) h d =
    rw (present-snoc_some (map event_key rows) id)
      (IsDistinct-snoc (ids rows) id d (contains-present (map event_key rows) id ∙ h))

insert_event-IsDistinct :
    (e : DnsQueryEvent) (rows : List DnsQueryEvent)
    → IsDistinct (ids rows)
    → IsDistinct (ids (insert_event e rows).0)
unfolding insert_event
insert_event-IsDistinct e rows d = elim (Bool-cases (conflicts rows e.event_id)) [
  | inl c ↦ rw c d
  | inr n ↦ rw n (rw (map-snoc event_key rows e) (IsDistinct-present-snoc rows e.event_id n d))
]

-- No id is stored twice.
pub insert_events-IsDistinct :
    (new rows : List DnsQueryEvent)
    → IsDistinct (ids rows)
    → IsDistinct (ids (insert_events new rows).0)
unfolding insert_events
insert_events-IsDistinct [] rows d = d
insert_events-IsDistinct (e ∷ new) rows d =
    insert_events-IsDistinct new (insert_event e rows).0 (insert_event-IsDistinct e rows d)

-- What one row adds: itself, unless its id is taken.
abbrev fresh : DnsQueryEvent → List DnsQueryEvent → List DnsQueryEvent
fresh e rows = if conflicts rows e.event_id then [] else e ∷ []

-- The rows of a batch that are added: those that the insert takes, in order.
unfoldable pub added : List DnsQueryEvent → List DnsQueryEvent → List DnsQueryEvent
added [] rows = []
added (e ∷ new) rows = fresh e rows ++ added new (insert_event e rows).0

insert_event-fresh :
    (e : DnsQueryEvent) (rows : List DnsQueryEvent)
    → insert_event e rows ≡ (rows ++ fresh e rows, length (fresh e rows))
unfolding insert_event
insert_event-fresh e rows = elim (Bool-cases (conflicts rows e.event_id)) [
  | inl c ↦ rw c (ap (λ r. (r, 0)) (sym (append-nil rows)))
  | inr n ↦ rw n refl
]

pub insert_events-added :
    (new rows : List DnsQueryEvent)
    → insert_events new rows ≡ (rows ++ added new rows, length (added new rows))
unfolding insert_events added
insert_events-added [] rows = ap (λ r. (r, 0)) (sym (append-nil rows))
insert_events-added (e ∷ new) rows =
    let rest = added new (insert_event e rows).0 in
    let one : List DnsQueryEvent × ℕ = insert_event e rows in
    let step : (one.0 ++ rest, one.1 + length rest)
        ≡ ((rows ++ fresh e rows) ++ rest, length (fresh e rows) + length rest) =
      ap (λ (p : List DnsQueryEvent × ℕ). (p.0 ++ rest, p.1 + length rest))
        (insert_event-fresh e rows) in
    let whole : ((rows ++ fresh e rows) ++ rest, length (fresh e rows) + length rest)
        ≡ (rows ++ (fresh e rows ++ rest), length (fresh e rows ++ rest)) =
      rw (append_assoc rows (fresh e rows) rest, length-append (fresh e rows) rest) refl in
    rw (insert_events-added new (insert_event e rows).0) (step ∙ whole)

pub length-added_le : (new rows : List DnsQueryEvent) → length (added new rows) ≤ length new
unfolding added
length-added_le [] rows = omega arith
length-added_le (e ∷ new) rows = ground (
  arith,
  length-added_le new (insert_event e rows).0,
  length-append (fresh e rows) (added new (insert_event e rows).0),
)

pub All-added {ℓ} :
    (P : DnsQueryEvent → Type ℓ) (new rows : List DnsQueryEvent)
    → All P new
    → All P (added new rows)
unfolding added
All-added P [] rows all = all
All-added P (e ∷ new) rows all =
    let rest : All P (added new (insert_event e rows).0) =
      All-added P new (insert_event e rows).0 all.1 in
    elim (Bool-cases (conflicts rows e.event_id)) [
      | inl c ↦ All-append P (fresh e rows) _ (rw c tt) rest
      | inr n ↦ All-append P (fresh e rows) _ (rw n (all.0, tt)) rest
    ]

-- A row whose id is stored stays out.
pub insert_events_known :
    (new rows : List DnsQueryEvent)
    → All (λ e. conflicts rows e.event_id ≡ true) new
    → insert_events new rows ≡ (rows, 0)
unfolding insert_events insert_event
insert_events_known [] rows all = refl
insert_events_known (e ∷ new) rows all = rw all.0 (rw (insert_events_known new rows all.1) refl)

-- What is stored of a batch has a place in the table afterwards.
pub conflicts-insert_event :
    (e : DnsQueryEvent) (rows : List DnsQueryEvent) (key : Option Text)
    → conflicts rows key ≡ true
    → conflicts (insert_event e rows).0 key ≡ true
conflicts-insert_event e rows none h = absurd (ground arith)
conflicts-insert_event e rows (some id) h = rw (insert_event-fresh e rows) (
    rw (map-append event_key rows (fresh e rows)) (
      rw (contains-append (map event_key rows) (map event_key (fresh e rows)) (some id))
        (rw h refl)))

pub conflicts-insert_events :
    (new rows : List DnsQueryEvent) (key : Option Text)
    → conflicts rows key ≡ true
    → conflicts (insert_events new rows).0 key ≡ true
unfolding insert_events
conflicts-insert_events [] rows key h = h
conflicts-insert_events (e ∷ new) rows key h =
    conflicts-insert_events new (insert_event e rows).0 key (conflicts-insert_event e rows key h)

conflicts_own :
    (e : DnsQueryEvent) (rows : List DnsQueryEvent) (id : Text)
    → e.event_id ≡ some id
    → conflicts (insert_event e rows).0 (some id) ≡ true
unfolding insert_event
conflicts_own e rows id h = elim (Bool-cases (conflicts rows e.event_id)) [
  | inl c ↦ rw c (ap (conflicts rows) (sym h) ∙ c)
  | inr n ↦ rw n (
      ground (
        arith,
        map-snoc event_key rows e,
        contains-append (map event_key rows) (e.event_id ∷ []) (some id),
        key_eq.beq_iff e.event_id (some id),
      ))
]

-- A batch of rows with ids has every id in the table once it is stored.
abbrev pub IsNamed : Option Text → Type 0
IsNamed key = (id : Text) × (key ≡ some id)

pub insert_events-conflicts :
    (new rows : List DnsQueryEvent)
    → All (λ e. IsNamed e.event_id) new
    → All (λ e. conflicts (insert_events new rows).0 e.event_id ≡ true) new
unfolding insert_events
insert_events-conflicts [] rows all = tt
insert_events-conflicts (e ∷ new) rows all =
    let (id, named) = all.0 in
    (
      conflicts-insert_events new (insert_event e rows).0 e.event_id
          (ap (conflicts (insert_event e rows).0) named ∙ conflicts_own e rows id named),
      insert_events-conflicts new (insert_event e rows).0 all.1,
    )
