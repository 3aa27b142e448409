-- ===== src/Admin/Strings.antt =====
-- `strip` and the length of a text that is kept as a String.
use Prim.Native.Char.{code}
use Prim.Native.Nat.{ℕ, suc}
use Prim.Native.String.{String}
use power_blockade.Base.{◌≡◌, refl, if◌then◌else◌}
use power_blockade.Base.Texts.{is_space}

unfoldable pub lstrip : String → String
unfolding is_space
lstrip String.[] = String.[]
lstrip (String.◌∷◌ c s) = let rest = lstrip s in if is_space (code c) then rest else String.◌∷◌ c s

-- One character before a text whose right end is stripped.
abbrev before_stripped : ℕ → String → String → String
before_stripped n s String.[] = if is_space n then String.[] else s
before_stripped n s (String.◌∷◌ d t) = s

unfoldable pub rstrip : String → String
unfolding is_space
rstrip String.[] = String.[]
rstrip (String.◌∷◌ c s) = let rest = rstrip s in before_stripped (code c) (String.◌∷◌ c rest) rest

-- `s.strip()`
unfoldable pub strip : String → String
unfolding lstrip rstrip
strip s = rstrip (lstrip s)

-- `len(s)`
abbrev pub length : String → ℕ
length String.[] = 0
length (String.◌∷◌ c s) = suc (length s)

strips : strip "  a list " ≡ "a list"
unfolding strip
strips = refl
