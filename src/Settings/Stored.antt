-- ===== src/Settings/Stored.antt =====
-- What a getter reads after a form stored a value.
use power_blockade.Base.{
  ◌≡◌, refl, ◌∙◌, ap, ◌≢◌, String, true, Option, none, some, [], ◌∷◌, arith, ◌==◌, ◌&&◌, string_eq,
  if◌then◌else◌, lookup-insert,
}
use power_blockade.Base.Texts.{Text, codes}
use power_blockade.Base.Int.{ℤ, pos, negsuc, leb_ℤ}
use power_blockade.Base.Decimal.{show}
use power_blockade.Settings.{
  Rows, get_setting, set_setting, or_text, get_int, set_days, settings_update_retention,
  get_retention_events_days, get_retention_rollups_days, get_retention_node_metrics_days,
  get_precache_max_queries_per_pass, get_precache_boot_burst_concurrency, at_least, at_most,
  map_int,
}
use power_blockade.Settings.Readback.{int-show, show_not_empty}

-- A setting that is stored is the one that is read, whether or not its row was there, and every
-- other setting keeps its value.
pub get-set :
    (key other : String) (value : Text) (rows : Rows)
    → get_setting other (set_setting key value rows)
      ≡ (if key == other then value else get_setting other rows)
unfolding get_setting set_setting
get-set key other value rows = ground (arith, lookup-insert key other value rows)

pub or_text_full : (s fallback : Text) → s ≢ [] → or_text s fallback ≡ s
or_text_full [] fallback h = absurd (h refl)
or_text_full (c ∷ s) fallback h = refl

-- Storing a number of days is read back by a getter of the same key; another key keeps its value.
get-set_days :
    (key other : String) (days : ℤ) (fallback : Text) (rows : Rows)
    → get_int other fallback (set_days key days rows)
      ≡ (if key == other && leb_ℤ (pos 1) days then some days else get_int other fallback rows)
unfolding get_int set_days
get-set_days key other (negsuc d) fallback rows = ground arith
get-set_days key other (pos d) fallback rows = ground (
  arith,
  get-set key other (show d) rows,
  or_text_full (show d) fallback (show_not_empty d),
  int-show d,
)

-- After the form, each of the three getters reads the number that was entered if it is at least 1,
-- and what it read before if it is not.
pub retention-read_back :
    (events rollups metrics : ℤ) (rows : Rows)
    → let after = settings_update_retention events rollups metrics rows in
      (get_retention_events_days after
        ≡ (if leb_ℤ (pos 1) events then some events else get_retention_events_days rows))
      × ((get_retention_rollups_days after
            ≡ (if leb_ℤ (pos 1) rollups then some rollups else get_retention_rollups_days rows))
          × (get_retention_node_metrics_days after ≡ (
              if leb_ℤ (pos 1) metrics
              then some metrics
              else get_retention_node_metrics_days rows)))
unfolding settings_update_retention
retention-read_back events rollups metrics rows =
    let one = set_days "retention_events_days" events rows in
    let two = set_days "retention_rollups_days" rollups one in
    let on_one = λ (other : String) (fallback : Text).
      get-set_days "retention_events_days" other events fallback rows in
    let on_two = λ (other : String) (fallback : Text).
      get-set_days "retention_rollups_days" other rollups fallback one in
    let on_three = λ (other : String) (fallback : Text).
      get-set_days "retention_node_metrics_days" other metrics fallback two in
    (
      on_three "retention_events_days" (codes "15")
          ∙ on_two "retention_events_days" (codes "15")
          ∙ on_one "retention_events_days" (codes "15"),
      (
        on_three "retention_rollups_days" (codes "365")
            ∙ on_two "retention_rollups_days" (codes "365")
            ∙ ap (λ r. if leb_ℤ (pos 1) rollups then some rollups else r)
                (on_one "retention_rollups_days" (codes "365")),
        on_three "retention_node_metrics_days" (codes "365")
            ∙ ap (λ r. if leb_ℤ (pos 1) metrics then some metrics else r)
                (on_two "retention_node_metrics_days" (codes "365")
                  ∙ on_one "retention_node_metrics_days" (codes "365")),
      ),
    )

abbrev IsWithin : ℤ → ℤ → Option ℤ → Type 0
IsWithin low high none = Unit
IsWithin low high (some n) = (leb_ℤ low n ≡ true) × (leb_ℤ n high ≡ true)

abbrev IsAtLeast : ℤ → Option ℤ → Type 0
IsAtLeast low none = Unit
IsAtLeast low (some n) = leb_ℤ low n ≡ true

clamped-IsWithin :
    (o : Option ℤ)
    → IsWithin (pos 1) (pos 64) (map_int (λ n. at_least (pos 1) (at_most (pos 64) n)) o)
clamped-IsWithin none = tt
clamped-IsWithin (some n) = ground arith

raised-IsAtLeast : (o : Option ℤ) → IsAtLeast (pos 1) (map_int (at_least (pos 1)) o)
raised-IsAtLeast none = tt
raised-IsAtLeast (some n) = ground arith

-- Whatever text is stored, the number of queries of a pass is at least 1 and the number of workers
-- of the boot burst from 1 to 64, when they can be read at all.
pub limits-bounded :
    (rows : Rows)
    → IsAtLeast (pos 1) (get_precache_max_queries_per_pass rows)
      × IsWithin (pos 1) (pos 64) (get_precache_boot_burst_concurrency rows)
unfolding get_precache_max_queries_per_pass get_precache_boot_burst_concurrency
limits-bounded rows = (
  raised-IsAtLeast (get_int "precache_max_queries_per_pass" (codes "2000") rows),
  clamped-IsWithin (get_int "precache_boot_burst_concurrency" (codes "8") rows),
)
