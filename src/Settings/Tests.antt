-- ===== src/Settings/Tests.antt =====
-- A table with one stored row, and the theorems applied to it.
use mathlib.Core.Option
use power_blockade.Base.{ℕ, ltb, ap, ◌≡◌, refl, some, [], ◌∷◌, string_eq, ◌==◌, list_eq, nat_eq}
use power_blockade.Base.Texts.{codes, strip}
use power_blockade.Base.Int.{pos, negsuc, pos_part, int}
use power_blockade.Base.Decimal.{show}
use power_blockade.Settings.Readback.{int-show, show_not_empty}
use power_blockade.Settings.Warming.{
  Floats, WarmingForm, update_precache_settings, get_precache_boot_burst_qps,
}
use power_blockade.Settings.Warmed.{update-read_back}
use power_blockade.Settings.Limits.{limited, limited_qps}
use power_blockade.Settings.{
  or_text, get_precache_enabled, get_precache_ignore_ttl, get_precache_boot_burst_enabled,
  get_precache_domain_count, get_precache_refresh_minutes, get_precache_custom_refresh_minutes,
  get_precache_max_queries_per_pass, get_precache_dns_server, Rows, get_setting, get_int,
  settings_update_timezone, get_retention_events_days, get_precache_boot_burst_concurrency,
  get_timezone,
}

abbrev stored : Rows
stored =
    ("precache_boot_burst_concurrency", codes " 900 ") ∷ ("retention_events_days", codes "") ∷ []

too_many_workers : get_precache_boot_burst_concurrency stored ≡ some (pos 64)
unfolding get_precache_boot_burst_concurrency
too_many_workers = refl

empty_is_default : get_retention_events_days stored ≡ some (pos 15)
unfolding get_int
empty_is_default = refl

unknown_zone :
    get_timezone (settings_update_timezone (codes "UTC" ∷ []) (codes "Mars") stored) ≡ codes "UTC"
unfolding settings_update_timezone get_setting
unknown_zone = refl

-- Floats that are whole numbers.
abbrev whole : Floats
whole = record {
  Float = ℕ;
  one = 1;
  thousand = 1000;
  less = ltb;
  text = show;
  float = λ s. Option.map pos_part (int s);
}

abbrev form : WarmingForm whole
form = record {
  enabled = codes "true";
  domain_count = pos 7;
  refresh_minutes = negsuc 3;
  ignore_ttl = codes "True";
  custom_refresh = pos 90;
  dns_server = codes "  ";
  max_queries_per_pass = pos 2_000_000;
  boot_burst_enabled = codes "false";
  boot_burst_concurrency = pos 65;
  boot_burst_qps = 5000;
}

update-read_back_example :
    let after = update_precache_settings whole form stored in
    (get_precache_enabled after ≡ (codes "true" == codes "true"))
    × ((get_precache_ignore_ttl after ≡ (codes "True" == codes "true"))
        × ((get_precache_boot_burst_enabled after ≡ (codes "false" == codes "true"))
            × ((get_precache_domain_count after ≡ some (limited (pos 100) (pos 100_000) (pos 7)))
                × ((get_precache_refresh_minutes after
                      ≡ some (limited (pos 5) (pos 1440) (negsuc 3)))
                    × ((get_precache_custom_refresh_minutes after
                          ≡ some (limited (pos 5) (pos 1440) (pos 90)))
                        × ((get_precache_max_queries_per_pass after
                              ≡ some (limited (pos 100) (pos 100_000) (pos 2_000_000)))
                            × ((get_precache_boot_burst_concurrency after
                                  ≡ some (limited (pos 1) (pos 64) (pos 65)))
                                × ((get_precache_boot_burst_qps whole after
                                      ≡ some (limited_qps whole 5000))
                                    × (get_precache_dns_server after
                                        ≡ or_text (strip (codes "  ")) (codes "dnsdist"))))))))))
update-read_back_example =
    update-read_back whole refl show_not_empty (λ n. ap (Option.map pos_part) (int-show n)) form
      stored
