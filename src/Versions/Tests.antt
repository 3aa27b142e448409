-- ===== src/Versions/Tests.antt =====
-- Pairs of versions, and the theorems applied to them.
use power_blockade.Base.{◌≡◌, refl, some}
use power_blockade.Base.Texts.{codes}
use power_blockade.Versions.{warn, minor_skew, unparseable, check_version_compatibility}

skewed :
    check_version_compatibility (some (codes "v1.2.3")) (some (codes "1.3"))
    ≡ (warn, minor_skew (codes "1.2.3") (codes "1.3"))
unfolding check_version_compatibility
skewed = refl

unreadable :
    check_version_compatibility (some (codes "1.2.3-rc1")) (some (codes "2.0"))
    ≡ (warn, unparseable (codes "1.2.3-rc1") (codes "2.0"))
unfolding check_version_compatibility
unreadable = refl
