-- ===== src/Rollups/Hourly.antt =====
-- What compute_hourly_rollup leaves in the table, group by group and in its sums.
use power_blockade.Base.{
  ℕ, ◌+◌, ◌≡◌, refl, ◌∙◌, ap, Bool, true, false, ◌&&◌, some, List, [], ◌∷◌, arith, Eq, ◌==◌, nat_eq,
  string_eq, option_eq, pair_eq, if◌then◌else◌, map, select, contains, contains-union, IsDistinct,
  IsDistinct-union, length, ◌>>=◌, length-map,
}
use power_blockade.Rollups.{
  DnsQueryEvent, QueryRollup, hour, Group, group_of, groups, hourly_row, in_window,
  compute_hourly_rollup,
}
use power_blockade.Rollups.Upsert.{Key, key_of, found, IsUnique, put_all-found}

abbrev pub of_hour : ℕ → List DnsQueryEvent → List DnsQueryEvent
of_hour h = select (in_window h (h + hour))

abbrev pub hour_groups : ℕ → List DnsQueryEvent → List Group
hour_groups h events = groups (map group_of (of_hour h events))

abbrev pub hour_rows : ℕ → List DnsQueryEvent → List QueryRollup
hour_rows h events = map (hourly_row h (of_hour h events)) (hour_groups h events)

abbrev pub hourly_key : ℕ → Group → Key
hourly_key h g = (h, ("hourly", g))

-- One row for each group, under the key of the group.
module _ {ℓ κ λ₀} {G : Type ℓ} {R : Type κ} {K : Type λ₀} ⦃eg : Eq G⦄ ⦃ek : Eq K⦄ (row : G → R)
    (key : R → K) (group : K → G) (back : (g : G) → group (key (row g)) ≡ g) where
  contains-rows :
      (gs : List G) (k : K)
      → contains (map key (map row gs)) k ≡ (contains gs (group k) && key (row (group k)) == k)
  contains-rows [] k = refl
  contains-rows (g ∷ gs) k = ground (
    arith,
    contains-rows gs k,
    back g,
    eg.beq_iff g (group k),
    ek.beq_iff (key (row g)) k,
    ek.beq_iff (key (row (group k))) k,
  )

  rows-IsDistinct : (gs : List G) → IsDistinct gs → IsDistinct (map key (map row gs))
  rows-IsDistinct [] d = tt
  rows-IsDistinct (g ∷ gs) d =
      (ground (arith, contains-rows gs (key (row g)), back g, d.0), rows-IsDistinct gs d.1)

  row_of_group :
      (gs : List G) (k : K)
      → IsDistinct gs
      → select (λ r. key r == k) (map row gs)
        ≡ (if contains gs (group k) && key (row (group k)) == k then row (group k) ∷ [] else [])
  row_of_group [] k d = refl
  row_of_group (g ∷ gs) k d = ground (
    arith,
    row_of_group gs k d.1,
    d.0,
    back g,
    eg.beq_iff g (group k),
    ek.beq_iff (key (row g)) k,
    ek.beq_iff (key (row (group k))) k,
  )

key_of-hourly_row :
    (h : ℕ) (events : List DnsQueryEvent) (g : Group)
    → key_of (hourly_row h events g) ≡ hourly_key h g
unfolding hourly_row
key_of-hourly_row h events g = refl

pub groups-IsDistinct : (gs : List Group) → IsDistinct (groups gs)
unfolding groups
groups-IsDistinct gs = IsDistinct-union [] gs tt

pub contains-groups : (gs : List Group) (g : Group) → contains (groups gs) g ≡ contains gs g
unfolding groups
contains-groups gs g = contains-union [] gs g

abbrev pub group_key : Key → Group
group_key k = k.1.1

pub hour_rows-IsDistinct :
    (h : ℕ) (events : List DnsQueryEvent) → IsDistinct (map key_of (hour_rows h events))
unfolding hourly_row
hour_rows-IsDistinct h events =
    rows-IsDistinct (hourly_row h (of_hour h events)) key_of group_key (λ g. refl)
      (hour_groups h events) (groups-IsDistinct (map group_of (of_hour h events)))

-- The group has events in the hour, and the key is that of its row.
abbrev pub rolled_up : ℕ → List DnsQueryEvent → Key → Bool
rolled_up h events k =
    contains (map group_of (of_hour h events)) (group_key k) && hourly_key h (group_key k) == k

found-rows :
    (h : ℕ) (events : List DnsQueryEvent) (k : Key)
    → found k (hour_rows h events) ≡ (
        if contains (hour_groups h events) (group_key k) && hourly_key h (group_key k) == k
        then hourly_row h (of_hour h events) (group_key k) ∷ []
        else [])
unfolding hourly_row
found-rows h events k =
    row_of_group (hourly_row h (of_hour h events)) key_of group_key (λ g. refl)
      (hour_groups h events) k (groups-IsDistinct (map group_of (of_hour h events)))

contains-hour_rows :
    (h : ℕ) (events : List DnsQueryEvent) (k : Key)
    → contains (map key_of (hour_rows h events)) k ≡ rolled_up h events k
unfolding hourly_row
contains-hour_rows h events k =
    contains-rows (hourly_row h (of_hour h events)) key_of group_key (λ g. refl)
      (hour_groups h events) k
    ∙ ap (λ b. b && hourly_key h (group_key k) == k)
        (contains-groups (map group_of (of_hour h events)) (group_key k))

if-under {ℓ} :
    {A : Type ℓ} (b : Bool) (x y z : A)
    → (if b then (if b then x else y) else z) ≡ (if b then x else z)
if-under true x y z = refl
if-under false x y z = refl

found_or_kept :
    (h : ℕ) (events : List DnsQueryEvent) (rows : List QueryRollup) (k : Key)
    → (if contains (map key_of (hour_rows h events)) k
        then found k (hour_rows h events)
        else found k rows)
      ≡ (if rolled_up h events k
          then hourly_row h (of_hour h events) (group_key k) ∷ []
          else found k rows)
found_or_kept h events rows k = rw (contains-hour_rows h events k) (
    rw (found-rows h events k) (
      rw (contains-groups (map group_of (of_hour h events)) (group_key k)) (
        if-under (rolled_up h events k) (hourly_row h (of_hour h events) (group_key k) ∷ []) []
          (found k rows))))

-- On a table with at most one row for a bucket, granularity, client and node, the rollup of an hour
-- does not raise, and counts the groups of the hour. For each group that has events in the hour the
-- table then holds one row of the hour, with the sums of these events alone; what is found under
-- any other key is what was found before.
pub hourly-found :
    (h : ℕ) (events : List DnsQueryEvent) (rows : List QueryRollup)
    → IsUnique rows
    → (after : List QueryRollup) × ((compute_hourly_rollup h events rows
          ≡ some (after, length (hour_groups h events)))
        × ((k : Key)
            → found k after ≡ (
                if rolled_up h events k
                then hourly_row h (of_hour h events) (group_key k) ∷ []
                else found k rows)))
unfolding compute_hourly_rollup
hourly-found h events rows u =
    let result = put_all-found (hour_rows h events) rows (hour_rows-IsDistinct h events) u in
    (
      result.0,
      (
        ap (λ o. o >>= λ after. some (after, length (hour_rows h events))) result.1.0
            ∙ ap (λ n. some (result.0, n))
                (length-map (hourly_row h (of_hour h events)) (hour_groups h events)),
        λ k. result.1.1 k ∙ found_or_kept h events rows k,
      ),
    )
