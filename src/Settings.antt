-- ===== src/Settings.antt =====
-- The settings table and its typed getters: admin-ui/app/models/settings.py, and the forms of
-- admin-ui/app/routers/settings.py for the time zone and the retention. Of the
-- getters that read a float only that of the boot burst is here; the others are left aside, with the
-- form for the health thresholds.
pub mod Readback
pub mod Stored
pub mod Warming
pub mod Limits
pub mod Warmed
mod Tests
use power_blockade.Base.{
  ◌+◌, String, Bool, Option, none, some, List, [], ◌∷◌, ◌==◌, string_eq, list_eq, nat_eq, lookup,
  insert, if◌then◌else◌, contains, leb,
}
use power_blockade.Base.Texts.{Text, codes, lower}
use power_blockade.Base.Int.{ℤ, pos, negsuc, int, leb_ℤ}
use power_blockade.Base.Decimal.{show}

-- The rows of the table, `key` to `value`. The column `key` is unique.
abbrev pub Rows : Type 0
Rows = List (String × Text)

-- DEFAULTS
abbrev pub defaults : List (String × Text)
defaults =
    ("retention_events_days", codes "15")
    ∷ ("retention_rollups_days", codes "365")
    ∷ ("retention_node_metrics_days", codes "365")
    ∷ ("rollup_enabled", codes "true")
    ∷ ("ptr_resolution_enabled", codes "true")
    ∷ ("precache_enabled", codes "true")
    ∷ ("precache_domain_count", codes "5000")
    ∷ ("precache_refresh_minutes", codes "30")
    ∷ ("precache_ignore_ttl", codes "false")
    ∷ ("precache_custom_refresh_minutes", codes "60")
    ∷ ("precache_dns_server", codes "dnsdist")
    ∷ ("precache_dns_port", codes "53")
    ∷ ("precache_max_queries_per_pass", codes "2000")
    ∷ ("precache_boot_burst_enabled", codes "true")
    ∷ ("precache_boot_burst_concurrency", codes "8")
    ∷ ("precache_boot_burst_qps", codes "50")
    ∷ ("timezone", codes "UTC")
    ∷ ("health_cache_hit_warning", codes "50")
    ∷ ("health_cache_hit_critical", codes "20")
    ∷ ("health_servfail_warning", codes "5")
    ∷ ("health_timeout_warning", codes "2")
    ∷ ("health_slow_warning", codes "10")
    ∷ ("health_stale_minutes", codes "5")
    ∷ ("health_offline_minutes", codes "30")
    ∷ ("health_quarantine_threshold_minutes", codes "1440")
    ∷ ("blocking_state", codes "enabled")
    ∷ []

-- `o or fallback` on a value that may be missing.
abbrev pub or_else {ℓ} : {A : Type ℓ} → Option A → A → A
or_else none fallback = fallback
or_else (some a) fallback = a

unfoldable pub get_setting : String → Rows → Text
unfolding lookup
get_setting key rows = or_else (lookup key rows) (or_else (lookup key defaults) [])

unfoldable pub set_setting : String → Text → Rows → Rows
unfolding insert
set_setting key value rows = insert key value rows

-- `text or fallback`: the empty text is false.
abbrev pub or_text : Text → Text → Text
or_text [] fallback = fallback
or_text (c ∷ s) fallback = c ∷ s

-- `int(get_setting(db, key) or fallback)`; `none` is the ValueError.
unfoldable pub get_int : String → Text → Rows → Option ℤ
unfolding get_setting int
get_int key fallback rows = int (or_text (get_setting key rows) fallback)

-- `get_setting(db, key).lower() == "true"`
unfoldable pub get_flag : String → Rows → Bool
unfolding get_setting lower
get_flag key rows = lower (get_setting key rows) == codes "true"

abbrev pub get_retention_events_days : Rows → Option ℤ
get_retention_events_days = get_int "retention_events_days" (codes "15")

abbrev pub get_retention_rollups_days : Rows → Option ℤ
get_retention_rollups_days = get_int "retention_rollups_days" (codes "365")

abbrev pub get_retention_node_metrics_days : Rows → Option ℤ
get_retention_node_metrics_days = get_int "retention_node_metrics_days" (codes "365")

abbrev pub get_precache_enabled : Rows → Bool
get_precache_enabled = get_flag "precache_enabled"

abbrev pub get_precache_domain_count : Rows → Option ℤ
get_precache_domain_count = get_int "precache_domain_count" (codes "5000")

abbrev pub get_precache_refresh_minutes : Rows → Option ℤ
get_precache_refresh_minutes = get_int "precache_refresh_minutes" (codes "30")

abbrev pub get_precache_ignore_ttl : Rows → Bool
get_precache_ignore_ttl = get_flag "precache_ignore_ttl"

abbrev pub get_precache_custom_refresh_minutes : Rows → Option ℤ
get_precache_custom_refresh_minutes = get_int "precache_custom_refresh_minutes" (codes "60")

abbrev pub get_precache_dns_server : Rows → Text
get_precache_dns_server rows = or_text (get_setting "precache_dns_server" rows) (codes "dnsdist")

abbrev pub get_precache_dns_port : Rows → Option ℤ
get_precache_dns_port = get_int "precache_dns_port" (codes "53")

-- `max(low, n)` and `min(high, n)`
abbrev pub at_least : ℤ → ℤ → ℤ
at_least low n = if leb_ℤ n low then low else n

abbrev pub at_most : ℤ → ℤ → ℤ
at_most high n = if leb_ℤ high n then high else n

abbrev pub map_int : (ℤ → ℤ) → Option ℤ → Option ℤ
map_int f none = none
map_int f (some n) = some (f n)

unfoldable pub get_precache_max_queries_per_pass : Rows → Option ℤ
unfolding get_int
get_precache_max_queries_per_pass rows =
    map_int (at_least (pos 1)) (get_int "precache_max_queries_per_pass" (codes "2000") rows)

abbrev pub get_precache_boot_burst_enabled : Rows → Bool
get_precache_boot_burst_enabled = get_flag "precache_boot_burst_enabled"

unfoldable pub get_precache_boot_burst_concurrency : Rows → Option ℤ
unfolding get_int
get_precache_boot_burst_concurrency rows =
    map_int (λ raw. at_least (pos 1) (at_most (pos 64) raw))
      (get_int "precache_boot_burst_concurrency" (codes "8") rows)

abbrev pub get_timezone : Rows → Text
get_timezone rows = or_text (get_setting "timezone" rows) (codes "UTC")

abbrev pub get_health_stale_minutes : Rows → Option ℤ
get_health_stale_minutes = get_int "health_stale_minutes" (codes "5")

abbrev pub get_health_offline_minutes : Rows → Option ℤ
get_health_offline_minutes = get_int "health_offline_minutes" (codes "30")

abbrev pub get_health_quarantine_threshold_minutes : Rows → Option ℤ
get_health_quarantine_threshold_minutes =
    get_int "health_quarantine_threshold_minutes" (codes "1440")

-- `str(n)`
abbrev pub str : ℤ → Text
str (pos n) = show n
str (negsuc n) = b'-' ∷ show (n + 1)

-- The form for the time zone; `zones` are the names that zoneinfo knows.
unfoldable pub settings_update_timezone : List Text → Text → Rows → Rows
unfolding set_setting
settings_update_timezone zones timezone rows =
    if contains zones timezone then set_setting "timezone" timezone rows else rows

-- `if days >= 1: set_setting(db, key, str(days))`
unfoldable pub set_days : String → ℤ → Rows → Rows
unfolding set_setting
set_days key days rows = if leb_ℤ (pos 1) days then set_setting key (str days) rows else rows

unfoldable pub settings_update_retention : ℤ → ℤ → ℤ → Rows → Rows
unfolding set_days
settings_update_retention events rollups metrics rows =
    set_days "retention_node_metrics_days" metrics
      (set_days "retention_rollups_days" rollups (set_days "retention_events_days" events rows))
