-- ===== src/Rollups.antt =====
-- Query statistics: admin-ui/app/services/rollups.py over the tables of
-- admin-ui/app/models/dns_query_event.py and query_rollup.py. Times are microseconds.
pub mod Dashboard
pub mod Upsert
pub mod Hourly
pub mod Conserved
pub mod Backfill
pub mod Exact
pub mod Sums
mod Tests
use power_blockade.Base.{
  ℕ, zero, suc, ◌+◌, ◌-◌, ◌*◌, ◌/◌, ◌%◌, min, max, String, Bool, true, false, not, ◌&&◌, Option,
  none, some, List, [], ◌∷◌, ◌++◌, ◌==◌, nat_eq, string_eq, option_eq, pair_eq, ltb, leb,
  if◌then◌else◌, map, select, length, union, ◌>>=◌, list_eq,
}
use power_blockade.Base.Texts.{Text}

pub record DnsQueryEvent : Type 0 where
  pub event_id : Option Text
  pub event_seq : Option ℕ
  pub ts : ℕ
  pub node_id : Option ℕ
  pub client_ip : Text
  pub client_id : Option ℕ
  pub is_internal : Bool
  pub qname : Text
  pub qtype : ℕ
  pub rcode : ℕ
  pub blocked : Bool
  pub block_reason : Option Text
  pub blocklist_name : Option Text
  pub latency_ms : Option ℕ

pub record QueryRollup : Type 0 where
  pub bucket_start : ℕ
  pub granularity : String
  pub client_id : Option ℕ
  pub node_id : Option ℕ
  pub total_queries : ℕ
  pub blocked_queries : ℕ
  pub nxdomain_count : ℕ
  pub servfail_count : ℕ
  pub cache_hits : ℕ
  pub avg_latency_ms : Option ℕ
  pub unique_domains : ℕ

abbrev pub hour : ℕ
hour = 3_600_000_000

-- func.sum of a column or of a case, over the rows that are selected.
abbrev pub sum_by {ℓ} : {A : Type ℓ} → (A → ℕ) → List A → ℕ
sum_by w [] = 0
sum_by w (a ∷ xs) = w a + sum_by w xs

abbrev pub one_if : Bool → ℕ
one_if b = if b then 1 else 0

abbrev pub count_one : DnsQueryEvent → ℕ
count_one e = 1

abbrev pub blocked_one : DnsQueryEvent → ℕ
blocked_one e = one_if e.blocked

abbrev pub nxdomain_one : DnsQueryEvent → ℕ
nxdomain_one e = one_if (e.rcode == 3)

abbrev pub servfail_one : DnsQueryEvent → ℕ
servfail_one e = one_if (e.rcode == 2)

-- `latency_ms < CACHE_HIT_LATENCY_THRESHOLD_MS`, which a NULL is not.
abbrev pub quick : Option ℕ → Bool
quick none = false
quick (some ms) = ltb ms 5

abbrev pub hit_one : DnsQueryEvent → ℕ
hit_one e = one_if (quick e.latency_ms)

abbrev pub or_zero : Option ℕ → ℕ
or_zero none = 0
or_zero (some n) = n

abbrev pub latency_one : DnsQueryEvent → ℕ
latency_one e = or_zero e.latency_ms

abbrev pub known_one : Option ℕ → ℕ
known_one none = 0
known_one (some n) = 1

-- `int(avg) if avg else None` for the average of the values that are not NULL: an average of 0 is
-- stored as None too.
unfoldable pub average : ℕ → ℕ → Option ℕ
average total zero = none
average zero (suc n) = none
average (suc s) (suc n) = some (suc s / suc n)

abbrev pub names_of : List DnsQueryEvent → List Text
names_of = map (λ e. e.qname)

-- func.count(func.distinct(...))
unfoldable pub count_distinct : List Text → ℕ
unfolding union
count_distinct names = length (union [] names)

-- What both queries filter by: a time from `start` to before `end`, and not internal.
abbrev pub in_window : ℕ → ℕ → DnsQueryEvent → Bool
in_window start end e = leb start e.ts && (ltb e.ts end && not e.is_internal)

-- A group of GROUP BY client_id, node_id.
abbrev pub Group : Type 0
Group = Option ℕ × Option ℕ

abbrev pub group_of : DnsQueryEvent → Group
group_of e = (e.client_id, e.node_id)

-- The groups of the rows, in the order in which they are first met.
unfoldable pub groups : List Group → List Group
unfolding union
groups gs = union [] gs

-- The row of one group.
unfoldable pub hourly_row : ℕ → List DnsQueryEvent → Group → QueryRollup
unfolding average count_distinct
hourly_row hour_start events g =
    let own = select (λ e. group_of e == g) events in
    record {
      bucket_start = hour_start;
      granularity = "hourly";
      client_id = g.0;
      node_id = g.1;
      total_queries = sum_by count_one own;
      blocked_queries = sum_by blocked_one own;
      nxdomain_count = sum_by nxdomain_one own;
      servfail_count = sum_by servfail_one own;
      cache_hits = sum_by hit_one own;
      avg_latency_ms = average (sum_by latency_one own) (sum_by (λ e. known_one e.latency_ms) own);
      unique_domains = count_distinct (names_of own);
    }

-- The four columns by which an existing row is looked for.
abbrev pub same_bucket : QueryRollup → QueryRollup → Bool
same_bucket r s =
    s.bucket_start == r.bucket_start
    && (s.granularity == r.granularity && (s.client_id == r.client_id && s.node_id == r.node_id))

-- What one_or_none() makes of the rows that it finds: none, the one to overwrite, or an exception.
abbrev pub put_found : QueryRollup → List QueryRollup → List QueryRollup → Option (List QueryRollup)
put_found r rows [] = some (rows ++ (r ∷ []))
put_found r rows (s ∷ []) = some (map (λ old. if same_bucket r old then r else old) rows)
put_found r rows (s ∷ t ∷ more) = none

-- One group's row into the table.
unfoldable pub put : QueryRollup → List QueryRollup → Option (List QueryRollup)
put r rows = put_found r rows (select (same_bucket r) rows)

unfoldable pub put_all : List QueryRollup → List QueryRollup → Option (List QueryRollup)
unfolding put
put_all [] rows = some rows
put_all (r ∷ rs) rows = do next ← put r rows; put_all rs next

-- The new table, and how many rows were written. An exception commits nothing.
unfoldable pub compute_hourly_rollup :
    ℕ → List DnsQueryEvent → List QueryRollup → Option (List QueryRollup × ℕ)
unfolding groups hourly_row put_all
compute_hourly_rollup hour_start events rows =
    let selected = select (in_window hour_start (hour_start + hour)) events in
    let results = map (hourly_row hour_start selected) (groups (map group_of selected)) in
    do after ← put_all results rows; some (after, length results)

abbrev pub rollup_group : QueryRollup → Group
rollup_group r = (r.client_id, r.node_id)

-- A bucket of the granularity, from `start` to before `end`.
abbrev pub hourly_between : ℕ → ℕ → QueryRollup → Bool
hourly_between start end r =
    leb start r.bucket_start && (ltb r.bucket_start end && r.granularity == "hourly")

unfoldable pub daily_row : ℕ → List QueryRollup → Group → QueryRollup
unfolding average
daily_row day_start hourly g =
    let own = select (λ r. rollup_group r == g) hourly in
    record {
      bucket_start = day_start;
      granularity = "daily";
      client_id = g.0;
      node_id = g.1;
      total_queries = sum_by (λ r. r.total_queries) own;
      blocked_queries = sum_by (λ r. r.blocked_queries) own;
      nxdomain_count = sum_by (λ r. r.nxdomain_count) own;
      servfail_count = sum_by (λ r. r.servfail_count) own;
      cache_hits = sum_by (λ r. r.cache_hits) own;
      avg_latency_ms =
          average (sum_by (λ r. or_zero r.avg_latency_ms) own)
            (sum_by (λ r. known_one r.avg_latency_ms) own);
      unique_domains = sum_by (λ r. r.unique_domains) own;
    }

unfoldable pub compute_daily_rollup : ℕ → List QueryRollup → Option (List QueryRollup × ℕ)
unfolding groups daily_row put_all
compute_daily_rollup day_start rows =
    let hourly = select (hourly_between day_start (day_start + 24 * hour)) rows in
    let results = map (daily_row day_start hourly) (groups (map rollup_group hourly)) in
    do after ← put_all results rows; some (after, length results)

abbrev pub start_of_hour : ℕ → ℕ
start_of_hour now = now - now % hour

abbrev pub start_of_day : ℕ → ℕ
start_of_day now = now - now % (24 * hour)

-- The table, and the counts of hourly and of daily rows. Each computation commits for itself.
unfoldable pub run_rollup_job :
    ℕ → List DnsQueryEvent → List QueryRollup → Option (List QueryRollup × (ℕ × ℕ))
unfolding compute_hourly_rollup compute_daily_rollup
run_rollup_job now events rows = do
  hourly ← compute_hourly_rollup (start_of_hour now - hour) events rows
  daily ←
      (if ltb (now % (24 * hour) / hour) 2
        then compute_daily_rollup (start_of_day now - 24 * hour) hourly.0
        else some (hourly.0, 0))
  some (daily.0, (hourly.1, daily.1))

-- for i in range(1, hours + 1), with the i-th bucket before the current hour.
unfoldable pub backfill_from :
    ℕ → ℕ → ℕ → List DnsQueryEvent → List QueryRollup → Option (List QueryRollup × ℕ)
unfolding compute_hourly_rollup
backfill_from current_hour i zero events rows = some (rows, 0)
backfill_from current_hour i (suc left) events rows = do
  one ← compute_hourly_rollup (current_hour - i * hour) events rows
  rest ← backfill_from current_hour (i + 1) left events one.0
  some (rest.0, one.1 + rest.1)

unfoldable pub backfill_hourly_rollups :
    ℕ → ℕ → List DnsQueryEvent → List QueryRollup → Option (List QueryRollup × ℕ)
unfolding backfill_from
backfill_hourly_rollups now hours events rows =
    backfill_from (start_of_hour now) 1 (max 1 (min hours 720)) events rows
