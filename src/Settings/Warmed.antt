-- ===== src/Settings/Warmed.antt =====
-- What the getters read after the form for cache warming.
use mathlib.Core.Option
use power_blockade.Base.{
  ◌≡◌, refl, ◌∙◌, ap, sym, String, true, false, none, some, List, [], ◌∷◌, arith, ◌==◌, string_eq,
  list_eq, nat_eq, lookup, map, contains, IsDistinct, Bool-cases, inl, inr, ◌≢◌,
}
use power_blockade.Base.Texts.{Text, codes, strip, lower}
use power_blockade.Base.Int.{ℤ, pos, negsuc, int, leb_ℤ}
use power_blockade.Base.Decimal.{show}
use power_blockade.Settings.{
  Rows, or_else, get_setting, set_setting, or_text, get_int, get_flag, str, at_least, at_most,
  map_int, get_precache_enabled, get_precache_domain_count, get_precache_refresh_minutes,
  get_precache_ignore_ttl, get_precache_custom_refresh_minutes, get_precache_dns_server,
  get_precache_max_queries_per_pass, get_precache_boot_burst_enabled,
  get_precache_boot_burst_concurrency,
}
use power_blockade.Settings.Readback.{int-show, show_not_empty}
use power_blockade.Settings.Stored.{get-set, or_text_full}
use power_blockade.Settings.Limits.{
  limited, limited_qps, clamped_positive, clamped_twice, clamped_again, or_text_twice, number_read,
}
use power_blockade.Settings.Warming.{
  Floats, WarmingForm, clamp, clamp_qps, get_precache_boot_burst_qps, flag_text, set_all,
  warming_values, update_precache_settings,
}

lookup-absent :
    (key : String) (values : List (String × Text))
    → contains (map (λ (v : String × Text). v.0) values) key ≡ false
    → lookup key values ≡ none
unfolding lookup
lookup-absent key [] h = refl
lookup-absent key ((k, v) ∷ values) h = ground (arith, lookup-absent key values)

get-set_all :
    (key : String) (values : List (String × Text)) (rows : Rows)
    → IsDistinct (map (λ (v : String × Text). v.0) values)
    → get_setting key (set_all values rows) ≡ or_else (lookup key values) (get_setting key rows)
unfolding set_all lookup
get-set_all key [] rows d = refl
get-set_all key ((k, v) ∷ values) rows d =
    get-set_all key values (set_setting k v rows) d.1
    ∙ ap (or_else (lookup key values)) (get-set k key v rows)
    ∙ elim (Bool-cases (k == key)) [
      | inl e ↦
          let same : k ≡ key = (string_eq.beq_iff k key).0 e in
          let absent : lookup key values ≡ none =
            lookup-absent key values
              (ap (contains (map (λ (v : String × Text). v.0) values)) (sym same) ∙ d.0) in
          rw (e, absent) refl
      | inr n ↦ rw n refl
    ]

-- A number that is not negative, stored and read.
int-str :
    (n : ℤ) (fallback : Text) → leb_ℤ (pos 0) n ≡ true → int (or_text (str n) fallback) ≡ some n
int-str (pos n) fallback h = ap int (or_text_full (show n) fallback (show_not_empty n)) ∙ int-show n
int-str (negsuc n) fallback h = absurd (ground arith)

flag-read : (text : Text) → (lower (flag_text text) == codes "true") ≡ (text == codes "true")
unfolding lower
flag-read text = elim (Bool-cases (text == codes "true")) [ inl e ↦ rw e refl | inr n ↦ rw n refl ]

module _ (fl : Floats) (f : WarmingForm fl) (rows : Rows) where
  -- Each key of the form reads what the form wrote.
  abbrev after : Rows
  after = set_all (warming_values fl f) rows

  warming-IsDistinct : IsDistinct (map (λ (v : String × Text). v.0) (warming_values fl f))
  warming-IsDistinct =
      (refl, (refl, (refl, (refl, (refl, (refl, (refl, (refl, (refl, (refl, tt))))))))))

  written :
      (key : String)
      → get_setting key after ≡ or_else (lookup key (warming_values fl f)) (get_setting key rows)
  written key = get-set_all key (warming_values fl f) rows warming-IsDistinct

  written_flag :
      (key : String) (text : Text)
      → get_setting key after ≡ flag_text text
      → get_flag key after ≡ (text == codes "true")
  unfolding get_flag
  written_flag key text w = ap (λ s. lower s == codes "true") w ∙ flag-read text

  written_int :
      (key : String) (fallback : Text) (n : ℤ)
      → leb_ℤ (pos 0) n ≡ true
      → get_setting key after ≡ str n
      → get_int key fallback after ≡ some n
  unfolding get_int
  written_int key fallback n h w = ap (λ s. int (or_text s fallback)) w ∙ int-str n fallback h

module _ (fl : Floats) (f : WarmingForm fl) (rows : Rows) where
  queries_read :
      get_setting "precache_max_queries_per_pass" (after fl f rows)
        ≡ str (clamp (pos 100) (pos 100_000) f.max_queries_per_pass)
      → get_precache_max_queries_per_pass (after fl f rows)
        ≡ some (limited (pos 100) (pos 100_000) f.max_queries_per_pass)
  unfolding get_precache_max_queries_per_pass
  queries_read w =
      let positive =
        clamped_positive 100 100_000 f.max_queries_per_pass (omega arith) (omega arith) in
      number_read 100 100_000 f.max_queries_per_pass _ (omega arith) (
        ap (map_int (at_least (pos 1)))
          (written_int fl f rows "precache_max_queries_per_pass" (codes "2000") _ positive.0 w)
        ∙ ap some positive.1)

  workers_read :
      get_setting "precache_boot_burst_concurrency" (after fl f rows)
        ≡ str (clamp (pos 1) (pos 64) f.boot_burst_concurrency)
      → get_precache_boot_burst_concurrency (after fl f rows)
        ≡ some (limited (pos 1) (pos 64) f.boot_burst_concurrency)
  unfolding get_precache_boot_burst_concurrency
  workers_read w = number_read 1 64 f.boot_burst_concurrency _ (omega arith) (
      ap (map_int (λ n. at_least (pos 1) (at_most (pos 64) n))) (
        written_int fl f rows "precache_boot_burst_concurrency" (codes "8") _
          (clamped_positive 1 64 f.boot_burst_concurrency (omega arith) (omega arith)).0 w)
      ∙ ap some (clamped_twice f.boot_burst_concurrency))

  qps_read :
      fl.less fl.one fl.thousand ≡ true
      → ((x : fl.Float) → fl.text x ≢ [])
      → ((x : fl.Float) → fl.float (fl.text x) ≡ some x)
      → get_setting "precache_boot_burst_qps" (after fl f rows)
        ≡ fl.text (clamp_qps fl f.boot_burst_qps)
      → get_precache_boot_burst_qps fl (after fl f rows) ≡ some (limited_qps fl f.boot_burst_qps)
  unfolding get_precache_boot_burst_qps
  qps_read order full parses w =
      let rate = clamp_qps fl f.boot_burst_qps in
      ap (λ s. Option.map (clamp_qps fl) (fl.float (or_text s (codes "50")))) w
      ∙ ap (λ s. Option.map (clamp_qps fl) (fl.float s))
          (or_text_full (fl.text rate) (codes "50") (full rate))
      ∙ ap (Option.map (clamp_qps fl)) (parses rate)
      ∙ ap some (clamped_again fl order f.boot_burst_qps)

-- If 1.0 is less than 1000.0, and the text of a float is not empty and is read as that float, then
-- after the form each getter reads what was entered: a flag is set exactly if its text is "true",
-- each number, the rate of the boot burst included, is brought into its limits and then read back as
-- that, and the server is the text without white space around it, or dnsdist if nothing is left.
pub update-read_back :
    (fl : Floats)
    → fl.less fl.one fl.thousand ≡ true
    → ((x : fl.Float) → fl.text x ≢ [])
    → ((x : fl.Float) → fl.float (fl.text x) ≡ some x)
    → (f : WarmingForm fl) (rows : Rows)
    → let after = update_precache_settings fl f rows in
      (get_precache_enabled after ≡ (f.enabled == codes "true"))
      × ((get_precache_ignore_ttl after ≡ (f.ignore_ttl == codes "true"))
          × ((get_precache_boot_burst_enabled after ≡ (f.boot_burst_enabled == codes "true"))
              × ((get_precache_domain_count after
                    ≡ some (limited (pos 100) (pos 100_000) f.domain_count))
                  × ((get_precache_refresh_minutes after
                        ≡ some (limited (pos 5) (pos 1440) f.refresh_minutes))
                      × ((get_precache_custom_refresh_minutes after
                            ≡ some (limited (pos 5) (pos 1440) f.custom_refresh))
                          × ((get_precache_max_queries_per_pass after
                                ≡ some (limited (pos 100) (pos 100_000) f.max_queries_per_pass))
                              × ((get_precache_boot_burst_concurrency after
                                    ≡ some (limited (pos 1) (pos 64) f.boot_burst_concurrency))
                                  × ((get_precache_boot_burst_qps fl after
                                        ≡ some (limited_qps fl f.boot_burst_qps))
                                      × (get_precache_dns_server after
                                          ≡ or_text (strip f.dns_server) (codes "dnsdist"))))))))))
unfolding update_precache_settings lookup
update-read_back fl order full parses f rows =
    let read = written fl f rows in
    let number = written_int fl f rows in
    (
      written_flag fl f rows "precache_enabled" f.enabled (read "precache_enabled"),
      (
        written_flag fl f rows "precache_ignore_ttl" f.ignore_ttl (read "precache_ignore_ttl"),
        (
          written_flag fl f rows "precache_boot_burst_enabled" f.boot_burst_enabled
              (read "precache_boot_burst_enabled"),
          (
            number_read 100 100_000 f.domain_count _ (omega arith) (
                number "precache_domain_count" (codes "5000") _
                  (clamped_positive 100 100_000 f.domain_count (omega arith) (omega arith)).0
                  (read "precache_domain_count")),
            (
              number_read 5 1440 f.refresh_minutes _ (omega arith) (
                  number "precache_refresh_minutes" (codes "30") _
                    (clamped_positive 5 1440 f.refresh_minutes (omega arith) (omega arith)).0
                    (read "precache_refresh_minutes")),
              (
                number_read 5 1440 f.custom_refresh _ (omega arith) (
                    number "precache_custom_refresh_minutes" (codes "60") _
                      (clamped_positive 5 1440 f.custom_refresh (omega arith) (omega arith)).0
                      (read "precache_custom_refresh_minutes")),
                (
                  queries_read fl f rows (read "precache_max_queries_per_pass"),
                  (
                    workers_read fl f rows (read "precache_boot_burst_concurrency"),
                    (
                      qps_read fl f rows order full parses (read "precache_boot_burst_qps"),
                      ap (λ s. or_text s (codes "dnsdist")) (read "precache_dns_server")
                          ∙ or_text_twice (strip f.dns_server) (codes "dnsdist"),
                    ),
                  ),
                ),
              ),
            ),
          ),
        ),
      ),
    )
