-- ===== src/Rpz.antt =====
-- Blocklists to response policy zones: admin-ui/app/services/rpz.py. A line holds no newline, as
-- file iteration and `splitlines` give it.
pub mod Cleaned
pub mod Domain
pub mod Parse
pub mod Zone
mod Tests
use power_blockade.Base.{
  ℕ, zero, suc, ◌+◌, ◌/◌, ◌%◌, ◌^◌, Bool, true, false, not, ◌&&◌, ◌||◌, Option, none, some, List,
  [], ◌∷◌, ◌++◌, ◌==◌, nat_eq, list_eq, ltb, if◌then◌else◌, contains, add, drop,
}
use power_blockade.Base.Texts.{
  Text, codes, is_space, lower, strip, lstrip, rstrip, starts_with, into_first,
}

abbrev pub is_comment : ℕ → Bool
is_comment c = c == b'#' || c == b';'

abbrev pub behind : ℕ → Option Text → Option Text
behind c none = none
behind c (some s) = some (c ∷ s)

-- The text before the first '#' or ';', if there is one.
unfoldable pub before_comment : Text → Option Text
before_comment [] = none
before_comment (c ∷ s) =
    let rest = before_comment s in if is_comment c then some [] else behind c rest

abbrev pub without_comment : Text → Option Text → Text
without_comment s none = s
without_comment s (some t) = rstrip is_space t

-- _comment_re.sub("", s)
unfoldable pub strip_comment : Text → Text
unfolding before_comment rstrip is_space
strip_comment s = without_comment s (before_comment s)

abbrev pub is_star_or_dot : ℕ → Bool
is_star_or_dot c = c == b'*' || c == b'.'

abbrev pub is_dot : ℕ → Bool
is_dot c = c == b'.'

-- The tests of _normalize_domain on what is left at its end.
unfoldable pub validate : Text → Option Text
unfolding starts_with
validate s =
    if s == []
    then none
    else if contains s 32 || contains s 9
    then none
    else if starts_with (codes "[") s
    then none
    else if contains s b'/'
    then none
    else some s

-- From the test on "||" on.
unfoldable pub trim_rule : Text → Option Text
unfolding starts_with lstrip rstrip validate
trim_rule s =
    let t = if starts_with (codes "||") s then drop 2 s else s in
    if starts_with (codes "http://") t || starts_with (codes "https://") t
    then none
    else validate (rstrip is_dot (lstrip is_star_or_dot t))

unfoldable pub normalize_domain : Text → Option Text
unfolding trim_rule strip_comment strip lower
normalize_domain s =
    let t = strip (strip_comment (lower (strip s))) in if t == [] then none else trim_rule t

-- `s.split()`
unfoldable pub words : Text → List Text
unfolding is_space
words [] = []
words (c ∷ []) = if is_space c then [] else (c ∷ []) ∷ []
words (c ∷ d ∷ s) =
    let rest = words (d ∷ s) in
    if is_space c then rest else if is_space d then (c ∷ []) ∷ rest else into_first c rest

abbrev pub second_part : List Text → Option Text
second_part (_ ∷ name ∷ _) = normalize_domain name
second_part _ = none

-- The body of the loop of parse_blocklist_lines: the domain that a line adds, if any.
unfoldable pub domain_of_line : Bool → Text → Option Text
unfolding strip normalize_domain words strip_comment starts_with
domain_of_line hosts raw =
    let line = strip raw in
    if line == [] || starts_with (codes "!") line
    then none
    else if hosts
    then second_part (words (strip_comment line))
    else normalize_domain line

abbrev pub add_found : Option Text → List Text → List Text
add_found none out = out
add_found (some d) out = add d out

unfoldable pub parse_lines : Bool → List Text → List Text → List Text
unfolding domain_of_line add
parse_lines hosts out [] = out
parse_lines hosts out (raw ∷ lines) =
    parse_lines hosts (add_found (domain_of_line hosts raw) out) lines

unfoldable pub parse_blocklist_lines : List Text → Text → List Text
unfolding parse_lines lower strip
parse_blocklist_lines lines fmt = parse_lines (lower (strip fmt) == codes "hosts") [] lines
