-- ===== src/Rpz/Tests.antt =====
-- Lines of blocklists and zones of them, and the theorems applied to them.
use power_blockade.Base.{◌≡◌, refl, some, List, [], ◌∷◌, ◌++◌, map, nat_eq, list_eq}
use power_blockade.Base.Texts.{Text, codes, split_on}
use power_blockade.Base.Decimal.{sorted}
use power_blockade.Rpz.{normalize_domain, parse_blocklist_lines}
use power_blockade.Rpz.Domain.{IsDomain, normalize-IsDomain}
use power_blockade.Rpz.Zone.{render_rpz_zone, header_lines, split-render_zone}

normalize-rule :
    normalize_domain (codes " ||*.Ads.Example.COM.  # tracker") ≡ some (codes "ads.example.com")
unfolding normalize_domain
normalize-rule = refl

abbrev hosts_lines : List Text
hosts_lines =
    codes "# list"
    ∷ codes "0.0.0.0 b.example ; x"
    ∷ codes "! c"
    ∷ codes "127.0.0.1\tB.example"
    ∷ codes "lonely"
    ∷ []

parse-hosts : parse_blocklist_lines hosts_lines (codes " Hosts") ≡ codes "b.example" ∷ []
unfolding parse_blocklist_lines
parse-hosts = refl

normalize-IsDomain_example : IsDomain (codes "ads.example.com")
normalize-IsDomain_example =
    normalize-IsDomain (codes " ||*.Ads.Example.COM.  # tracker") (codes "ads.example.com")
      normalize-rule

abbrev two_domains : List Text
two_domains = codes "b.example" ∷ codes "a.example" ∷ []

split-render_zone_example :
    split_on 10 (render_rpz_zone 1700000000 two_domains (codes "p"))
    ≡ header_lines 1700000000 (codes "; policy: " ++ codes "p")
      ++ (map (λ d. d ++ codes ". CNAME .") (sorted two_domains) ++ ([] ∷ []))
split-render_zone_example =
    split-render_zone 1700000000 two_domains (codes "p") refl (refl, (refl, tt))
