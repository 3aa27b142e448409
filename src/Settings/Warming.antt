-- ===== src/Settings/Warming.antt =====
-- The form for cache warming: update_precache_settings of admin-ui/app/routers/precache.py. The
-- rate of the boot burst is a float: what Python does with one is a parameter.
use mathlib.Core.Option
use power_blockade.Base.{
  String, List, [], ◌∷◌, ◌==◌, string_eq, list_eq, nat_eq, if◌then◌else◌, Bool, Option,
}
use power_blockade.Base.Texts.{Text, codes, strip}
use power_blockade.Base.Int.{ℤ, pos}
use power_blockade.Settings.{Rows, get_setting, set_setting, or_text, str, at_least, at_most}

-- 1.0, 1000.0 and `<` of floats, `str(x)`, and `float(text)`, where none is the ValueError.
pub record Floats : Type 1 where
  pub Float : Type 0
  pub one : Float
  pub thousand : Float
  pub less : Float → Float → Bool
  pub text : Float → Text
  pub float : Text → Option Float

-- `max(low, min(high, n))`
abbrev pub clamp : ℤ → ℤ → ℤ → ℤ
clamp low high n = at_least low (at_most high n)

-- `"true" if text == "true" else "false"`
abbrev pub flag_text : Text → Text
flag_text text = if text == codes "true" then codes "true" else codes "false"

-- set_setting for one key after the other.
unfoldable pub set_all : List (String × Text) → Rows → Rows
unfolding set_setting
set_all [] rows = rows
set_all ((key, value) ∷ values) rows = set_all values (set_setting key value rows)

module _ (fl : Floats) where
  pub record WarmingForm : Type 0 where
    pub enabled : Text
    pub domain_count : ℤ
    pub refresh_minutes : ℤ
    pub ignore_ttl : Text
    pub custom_refresh : ℤ
    pub dns_server : Text
    pub max_queries_per_pass : ℤ
    pub boot_burst_enabled : Text
    pub boot_burst_concurrency : ℤ
    pub boot_burst_qps : fl.Float

  -- `max(1.0, min(1000.0, x))`: the second is taken where it is smaller, or greater.
  abbrev pub clamp_qps : fl.Float → fl.Float
  clamp_qps x =
      let low = if fl.less x fl.thousand then x else fl.thousand in
      if fl.less fl.one low then low else fl.one

  abbrev pub warming_values : WarmingForm → List (String × Text)
  warming_values f =
      ("precache_enabled", flag_text f.enabled)
      ∷ ("precache_domain_count", str (clamp (pos 100) (pos 100_000) f.domain_count))
      ∷ ("precache_refresh_minutes", str (clamp (pos 5) (pos 1440) f.refresh_minutes))
      ∷ ("precache_ignore_ttl", flag_text f.ignore_ttl)
      ∷ ("precache_custom_refresh_minutes", str (clamp (pos 5) (pos 1440) f.custom_refresh))
      ∷ ("precache_dns_server", or_text (strip f.dns_server) (codes "dnsdist"))
      ∷ (
        "precache_max_queries_per_pass",
        str (clamp (pos 100) (pos 100_000) f.max_queries_per_pass),
      )
      ∷ ("precache_boot_burst_enabled", flag_text f.boot_burst_enabled)
      ∷ ("precache_boot_burst_concurrency", str (clamp (pos 1) (pos 64) f.boot_burst_concurrency))
      ∷ ("precache_boot_burst_qps", fl.text (clamp_qps f.boot_burst_qps))
      ∷ []

  unfoldable pub update_precache_settings : WarmingForm → Rows → Rows
  unfolding set_all
  update_precache_settings f rows = set_all (warming_values f) rows

  unfoldable pub get_precache_boot_burst_qps : Rows → Option fl.Float
  unfolding get_setting
  get_precache_boot_burst_qps rows =
      Option.map clamp_qps
        (fl.float (or_text (get_setting "precache_boot_burst_qps" rows) (codes "50")))
