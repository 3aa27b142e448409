-- ===== src/Rollups/Conserved.antt =====
-- The sums of the rollups and of the raw events, over an hour, over a backfill and in the window of
-- the dashboard.
use mathlib.Core.List.{append-nil}
use power_blockade.Base.{
  ℕ, ◌+◌, ◌<◌, ◌≤◌, ◌≡◌, refl, ◌∙◌, ap, Bool, true, false, ◌&&◌, some, List, [], ◌∷◌, ◌++◌, arith,
  ◌==◌, nat_eq, string_eq, option_eq, pair_eq, ltb, leb, map, select, select-append, length, All,
  ◌>>=◌,
}
use power_blockade.Rollups.{
  DnsQueryEvent, QueryRollup, hour, Group, group_of, hourly_row, in_window, hourly_between,
  compute_hourly_rollup, sum_by, count_one, blocked_one, nxdomain_one, servfail_one, hit_one,
}
use power_blockade.Rollups.Sums.{
  sum_by-map, sum_by-groups, sum_by-agree, sum_by-split, select-covered,
}
use power_blockade.Rollups.Upsert.{key_of, found, put_all-new}
use power_blockade.Rollups.Hourly.{
  of_hour, hour_groups, hour_rows, hourly_key, groups-IsDistinct, contains-groups,
  hour_rows-IsDistinct,
}

pub select-narrower {ℓ} :
    {A : Type ℓ} (p q : A → Bool) (xs : List A)
    → ((x : A) → q x ≡ true → p x ≡ true)
    → select p xs ≡ []
    → select q xs ≡ []
select-narrower p q [] h e = refl
select-narrower p q (x ∷ xs) h e = ground (arith, h x, select-narrower p q xs h)

select-all {ℓ κ} :
    {A : Type ℓ} {B : Type κ} (p : B → Bool) (f : A → B) (xs : List A)
    → ((x : A) → p (f x) ≡ true)
    → select p (map f xs) ≡ map f xs
select-all p f [] h = refl
select-all p f (x ∷ xs) h = ground (arith, h x, select-all p f xs h)

-- The sums of the rows of the groups are the sums of the events.
sums-rows :
    (w : DnsQueryEvent → ℕ) (f : QueryRollup → ℕ) (h : ℕ) (events : List DnsQueryEvent)
    → ((g : Group)
        → f (hourly_row h (of_hour h events) g)
          ≡ sum_by w (select (λ e. group_of e == g) (of_hour h events)))
    → sum_by f (hour_rows h events) ≡ sum_by w (of_hour h events)
sums-rows w f h events same =
    sum_by-map f (hourly_row h (of_hour h events)) (hour_groups h events)
    ∙ sum_by-agree (λ g. f (hourly_row h (of_hour h events) g))
        (λ g. sum_by w (select (λ e. group_of e == g) (of_hour h events))) (hour_groups h events)
        same
    ∙ sum_by-groups group_of w (of_hour h events) (hour_groups h events)
        (groups-IsDistinct (map group_of (of_hour h events)))
    ∙ ap (sum_by w) (
        select-covered group_of w (of_hour h events) (hour_groups h events)
          (λ g m. contains-groups (map group_of (of_hour h events)) g ∙ m))

in_bucket :
    (h : ℕ) (g : Group) (r : QueryRollup)
    → (key_of r == hourly_key h g) ≡ true
    → hourly_between h (h + hour) r ≡ true
in_bucket h g r m = ground (arith, string_eq.beq_iff r.granularity "hourly")

new_in_table :
    (h : ℕ) (events : List DnsQueryEvent) (rows : List QueryRollup) (gs : List Group)
    → select (hourly_between h (h + hour)) rows ≡ []
    → All (λ r. found (key_of r) rows ≡ []) (map (hourly_row h (of_hour h events)) gs)
unfolding hourly_row
new_in_table h events rows [] e = tt
new_in_table h events rows (g ∷ gs) e = (
  select-narrower (hourly_between h (h + hour)) (λ r. key_of r == hourly_key h g) rows
      (in_bucket h g) e,
  new_in_table h events rows gs e,
)

-- A counter of the raw events, with the column of the rollups for it.
pub data Counter : Type 0 where
  total : Counter
  blocked : Counter
  nxdomain : Counter
  servfail : Counter
  hits : Counter

abbrev pub raw : Counter → DnsQueryEvent → ℕ
raw total = count_one
raw blocked = blocked_one
raw nxdomain = nxdomain_one
raw servfail = servfail_one
raw hits = hit_one

abbrev pub column : Counter → QueryRollup → ℕ
column total r = r.total_queries
column blocked r = r.blocked_queries
column nxdomain r = r.nxdomain_count
column servfail r = r.servfail_count
column hits r = r.cache_hits

column-row :
    (c : Counter) (h : ℕ) (events : List DnsQueryEvent) (g : Group)
    → column c (hourly_row h events g) ≡ sum_by (raw c) (select (λ e. group_of e == g) events)
unfolding hourly_row
column-row total h events g = refl
column-row blocked h events g = refl
column-row nxdomain h events g = refl
column-row servfail h events g = refl
column-row hits h events g = refl

-- The hourly rollups of a range have the counters of its events.
abbrev pub IsBalanced : List DnsQueryEvent → List QueryRollup → ℕ → ℕ → Type 0
IsBalanced events rows start end =
    (c : Counter)
    → sum_by (column c) (select (hourly_between start end) rows)
      ≡ sum_by (raw c) (select (in_window start end) events)

hour_row-between :
    (h start end : ℕ) (events : List DnsQueryEvent) (g : Group)
    → hourly_between start end (hourly_row h events g) ≡ (leb start h && ltb h end)
unfolding hourly_row
hour_row-between h start end events g = ground arith

select-none {ℓ κ} :
    {A : Type ℓ} {B : Type κ} (p : B → Bool) (f : A → B) (xs : List A)
    → ((x : A) → p (f x) ≡ false)
    → select p (map f xs) ≡ []
select-none p f [] h = refl
select-none p f (x ∷ xs) h = ground (arith, h x, select-none p f xs h)

hour_rows-within :
    (h start end : ℕ) (events : List DnsQueryEvent)
    → start ≤ h
    → h < end
    → select (hourly_between start end) (hour_rows h events) ≡ hour_rows h events
hour_rows-within h start end events s e =
    select-all (hourly_between start end) (hourly_row h (of_hour h events)) (hour_groups h events)
      (λ g. hour_row-between h start end (of_hour h events) g ∙ ground arith)

pub hour_rows-outside :
    (h start end : ℕ) (events : List DnsQueryEvent)
    → (leb start h && ltb h end) ≡ false
    → select (hourly_between start end) (hour_rows h events) ≡ []
hour_rows-outside h start end events s =
    select-none (hourly_between start end) (hourly_row h (of_hour h events)) (hour_groups h events)
      (λ g. hour_row-between h start end (of_hour h events) g ∙ s)

-- On a table without rows of the hour, the rollup appends the rows of its groups.
pub hourly-appends :
    (h : ℕ) (events : List DnsQueryEvent) (rows : List QueryRollup)
    → select (hourly_between h (h + hour)) rows ≡ []
    → compute_hourly_rollup h events rows
      ≡ some (rows ++ hour_rows h events, length (hour_rows h events))
unfolding compute_hourly_rollup
hourly-appends h events rows e =
    ap (λ o. o >>= λ after. some (after, length (hour_rows h events)))
      (put_all-new (hour_rows h events) rows (hour_rows-IsDistinct h events)
        (new_in_table h events rows (hour_groups h events) e))

pub hour-IsBalanced :
    (h : ℕ) (events : List DnsQueryEvent) (rows : List QueryRollup)
    → select (hourly_between h (h + hour)) rows ≡ []
    → IsBalanced events (rows ++ hour_rows h events) h (h + hour)
hour-IsBalanced h events rows e c =
    ap (sum_by (column c)) (
      select-append (hourly_between h (h + hour)) rows (hour_rows h events)
      ∙ ap (λ l. l ++ select (hourly_between h (h + hour)) (hour_rows h events)) e
      ∙ hour_rows-within h h (h + hour) events (omega arith) (omega arith))
    ∙ sums-rows (raw c) (column c) h events (column-row c h (of_hour h events))

-- Rows of an earlier hour do not count in a range.
pub still-IsBalanced :
    (h start end : ℕ) (events : List DnsQueryEvent) (rows : List QueryRollup)
    → h < start
    → IsBalanced events rows start end
    → IsBalanced events (rows ++ hour_rows h events) start end
still-IsBalanced h start end events rows s b c =
    ap (sum_by (column c)) (
      select-append (hourly_between start end) rows (hour_rows h events)
      ∙ ap (λ l. select (hourly_between start end) rows ++ l)
          (hour_rows-outside h start end events (ground arith))
      ∙ append-nil (select (hourly_between start end) rows))
    ∙ b c

pub events-split :
    (w : DnsQueryEvent → ℕ) (start middle end : ℕ) (events : List DnsQueryEvent)
    → start ≤ middle
    → middle ≤ end
    → sum_by w (select (in_window start end) events)
      ≡ sum_by w (select (in_window start middle) events)
        + sum_by w (select (in_window middle end) events)
events-split w start middle end events s m =
    sum_by-split w (in_window start middle) (in_window middle end) (in_window start end) events
      (λ e. ground arith)

pub rollups-split :
    (f : QueryRollup → ℕ) (start middle end : ℕ) (rows : List QueryRollup)
    → start ≤ middle
    → middle ≤ end
    → sum_by f (select (hourly_between start end) rows)
      ≡ sum_by f (select (hourly_between start middle) rows)
        + sum_by f (select (hourly_between middle end) rows)
rollups-split f start middle end rows s m =
    sum_by-split f (hourly_between start middle) (hourly_between middle end)
      (hourly_between start end) rows (λ r. ground arith)

-- Two ranges that meet.
pub IsBalanced-join :
    (start middle end : ℕ) (events : List DnsQueryEvent) (rows : List QueryRollup)
    → start ≤ middle
    → middle ≤ end
    → IsBalanced events rows start middle
    → IsBalanced events rows middle end
    → IsBalanced events rows start end
IsBalanced-join start middle end events rows s m b d c = omega (
  arith,
  b c,
  d c,
  events-split (raw c) start middle end events s m,
  rollups-split (column c) start middle end rows s m,
)
