-- ===== src/Rollups/Backfill.antt =====
-- What a backfill leaves in the table: the rollups of the last hours, balanced.
use power_blockade.Base.{
  ℕ, zero, suc, ◌+◌, ◌-◌, ◌*◌, ◌≤◌, ◌≡◌, refl, ◌∙◌, ap, some, List, [], ◌++◌, arith, nat_eq,
  string_eq, pair_eq, leb, select, select-append, length, Bool-cases, inl, inr,
}
use power_blockade.Rollups.{DnsQueryEvent, QueryRollup, hour, hourly_between, backfill_from}
use power_blockade.Rollups.Hourly.{hour_rows}
use power_blockade.Rollups.Conserved.{
  IsBalanced, IsBalanced-join, still-IsBalanced, hour-IsBalanced, hourly-appends, select-narrower,
  hour_rows-outside,
}

-- The rollups of the last `j` hours before the current one are balanced, however many of them are
-- taken together.
abbrev pub IsBackTo : ℕ → ℕ → List DnsQueryEvent → List QueryRollup → Type 0
IsBackTo current j events rows =
    (m : ℕ) → m ≤ j → IsBalanced events rows (current - m * hour) current

hour_joined :
    (h current : ℕ) (events : List DnsQueryEvent) (rows : List QueryRollup)
    → h + hour ≤ current
    → select (hourly_between h (h + hour)) rows ≡ []
    → IsBalanced events rows (h + hour) current
    → IsBalanced events (rows ++ hour_rows h events) h current
hour_joined h current events rows le fresh b =
    IsBalanced-join h (h + hour) current events (rows ++ hour_rows h events) (omega arith) le
      (hour-IsBalanced h events rows fresh)
      (still-IsBalanced h (h + hour) current events rows (omega arith) b)

-- The bucket before those that were rolled up has no row yet.
bucket_fresh :
    (current j : ℕ) (rows : List QueryRollup)
    → (j + 1) * hour ≤ current
    → select (hourly_between 0 (current - j * hour)) rows ≡ []
    → select (hourly_between (current - (j + 1) * hour) (current - (j + 1) * hour + hour)) rows ≡ []
bucket_fresh current j rows room fresh =
    select-narrower (hourly_between 0 (current - j * hour))
      (hourly_between (current - (j + 1) * hour) (current - (j + 1) * hour + hour)) rows
      (λ r g. ground arith) fresh

IsBackTo-step :
    (current j : ℕ) (events : List DnsQueryEvent) (rows : List QueryRollup)
    → (j + 1) * hour ≤ current
    → select (hourly_between 0 (current - j * hour)) rows ≡ []
    → IsBackTo current j events rows
    → IsBackTo current (j + 1) events (rows ++ hour_rows (current - (j + 1) * hour) events)
IsBackTo-step current j events rows room fresh back m h =
    let bucket = current - (j + 1) * hour in
    let adjacent : bucket + hour ≡ current - j * hour = omega arith in
    elim (Bool-cases (leb m j)) [
      | inl e ↦
          still-IsBalanced bucket (current - m * hour) current events rows (ground arith)
            (back m (ground arith))
      | inr e ↦
          let last : m ≡ j + 1 = ground arith in
          rw last (
            hour_joined bucket current events rows (omega arith)
              (bucket_fresh current j rows room fresh) (rw adjacent (back j (omega arith))))
    ]

fresh-step :
    (current j : ℕ) (events : List DnsQueryEvent) (rows : List QueryRollup)
    → (j + 1) * hour ≤ current
    → select (hourly_between 0 (current - j * hour)) rows ≡ []
    → select
        (hourly_between 0 (current - (j + 1) * hour))
        (rows ++ hour_rows (current - (j + 1) * hour) events)
      ≡ []
fresh-step current j events rows room fresh =
    let bucket = current - (j + 1) * hour in
    select-append (hourly_between 0 bucket) rows (hour_rows bucket events)
    ∙ ap (λ l. l ++ select (hourly_between 0 bucket) (hour_rows bucket events))
        (select-narrower (hourly_between 0 (current - j * hour)) (hourly_between 0 bucket) rows
          (λ r e. ground arith) fresh)
    ∙ hour_rows-outside bucket 0 bucket events (ground arith)

chained :
    (current j left : ℕ) (events : List DnsQueryEvent) (rows after : List QueryRollup) (n : ℕ)
    → select (hourly_between (current - (j + 1) * hour) (current - (j + 1) * hour + hour)) rows ≡ []
    → backfill_from current
        (j + 1 + 1)
        left
        events
        (rows ++ hour_rows (current - (j + 1) * hour) events)
      ≡ some (after, n)
    → backfill_from current (j + 1) (suc left) events rows
      ≡ some (after, length (hour_rows (current - (j + 1) * hour) events) + n)
unfolding backfill_from
chained current j left events rows after n fresh rest =
    rw (hourly-appends (current - (j + 1) * hour) events rows fresh) (rw rest refl)

pub backfill_from-IsBackTo :
    (current j left : ℕ) (events : List DnsQueryEvent) (rows : List QueryRollup)
    → (j + left) * hour ≤ current
    → select (hourly_between 0 (current - j * hour)) rows ≡ []
    → IsBackTo current j events rows
    → (after : List QueryRollup) × ((n : ℕ) × ((backfill_from current (j + 1) left events rows
            ≡ some (after, n))
          × IsBackTo current (j + left) events after))
unfolding backfill_from
backfill_from-IsBackTo current j zero events rows room fresh back =
    (rows, (0, (refl, λ m h. back m (omega arith))))
backfill_from-IsBackTo current j (suc left) events rows room fresh back =
    let bucket = current - (j + 1) * hour in
    let one = rows ++ hour_rows bucket events in
    let rest =
      backfill_from-IsBackTo current (j + 1) left events one (omega arith)
        (fresh-step current j events rows (omega arith) fresh)
        (IsBackTo-step current j events rows (omega arith) fresh back) in
    (
      rest.0,
      (
        length (hour_rows bucket events) + rest.1.0,
        (
          chained current j left events rows rest.0 rest.1.0
              (bucket_fresh current j rows (omega arith) fresh) rest.1.1.0,
          λ m h. rest.1.1.1 m (omega arith),
        ),
      ),
    )
