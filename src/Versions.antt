-- ===== src/Versions.antt =====
-- Whether a secondary may sync with the primary: check_version_compatibility of
-- admin-ui/app/routers/node_sync.py. The messages are constructors that hold the texts they show.
pub mod Compatible
mod Tests
use power_blockade.Base.{
  ℕ, zero, suc, Bool, true, false, not, ◌&&◌, ◌||◌, Option, none, some, List, [], ◌∷◌, ◌++◌, ◌==◌,
  nat_eq, list_eq, if◌then◌else◌, take,
}
use power_blockade.Base.Texts.{Text, codes, lstrip, split_on}
use power_blockade.Base.Int.{ℤ, pos, int, ltb_ℤ, int_eq}

pub data Status : Type 0 where
  allow warn block : Status

pub data Message : Type 0 where
  both_unknown : Message
  primary_unknown : (secondary : Text) → Message
  secondary_unknown : (primary : Text) → Message
  unparseable major_mismatch minor_skew patch_behind compatible :
      (primary secondary : Text) → Message

-- `not v or v == "unknown"`: otherwise the version is a text.
abbrev pub known : Option Text → Option Text
known none = none
known (some v) = if v == [] || v == codes "unknown" then none else some v

-- list(map(int, parts)); `none` is its ValueError.
unfoldable pub ints : List Text → Option (List ℤ)
unfolding int
ints [] = some []
ints (part ∷ parts) = elim (int part) [
  | none ↦ none
  | some n ↦ elim (ints parts) [ none ↦ none | some ns ↦ some (n ∷ ns) ]
]

-- The parts of a version, with zeros up to three.
abbrev pub padded : List ℤ → ℤ × ℤ × ℤ
padded [] = (pos 0, pos 0, pos 0)
padded (a ∷ []) = (a, pos 0, pos 0)
padded (a ∷ b ∷ []) = (a, b, pos 0)
padded (a ∷ b ∷ c ∷ _) = (a, b, c)

abbrev pub padded_option : Option (List ℤ) → Option (ℤ × ℤ × ℤ)
padded_option none = none
padded_option (some ns) = some (padded ns)

unfoldable pub parse_version : Text → Option (ℤ × ℤ × ℤ)
unfolding ints split_on
parse_version v = padded_option (ints (take 3 (split_on b'.' v)))

abbrev pub without_v : Text → Text
without_v = lstrip (λ c. c == b'v')

unfoldable pub compare_parts : Text → Text → ℤ × ℤ × ℤ → ℤ × ℤ × ℤ → Status × Message
compare_parts primary secondary (p_major, p_minor, p_patch) (s_major, s_minor, s_patch) =
    if not (p_major == s_major)
    then (block, major_mismatch primary secondary)
    else if not (p_minor == s_minor)
    then (warn, minor_skew primary secondary)
    else if ltb_ℤ s_patch p_patch
    then (warn, patch_behind primary secondary)
    else (allow, compatible primary secondary)

abbrev pub compare_parsed : Text → Text → Option (ℤ × ℤ × ℤ) → Option (ℤ × ℤ × ℤ) → Status × Message
compare_parsed primary secondary (some p) (some s) = compare_parts primary secondary p s
compare_parsed primary secondary _ _ = (warn, unparseable primary secondary)

abbrev pub compare_known : Option Text → Option Text → Status × Message
compare_known none none = (allow, both_unknown)
compare_known none (some s) = (warn, primary_unknown s)
compare_known (some p) none = (warn, secondary_unknown p)
compare_known (some p) (some s) =
    compare_parsed (without_v p) (without_v s) (parse_version (without_v p))
      (parse_version (without_v s))

unfoldable pub check_version_compatibility : Option Text → Option Text → Status × Message
unfolding parse_version compare_parts lstrip
check_version_compatibility primary secondary = compare_known (known primary) (known secondary)
