-- ===== src/Rpz/Parse.antt =====
-- The set that `parse_blocklist_lines` gathers.
use power_blockade.Base.{
  ◌≡◌, refl, Bool, false, ◌||◌, ◌==◌, Option, none, some, List, [], ◌∷◌, ◌++◌, arith, nat_eq,
  list_eq, contains, IsDistinct, add, contains-add, IsDistinct-add, All, Bool-cases, inl, inr, ◌∙◌,
  ap, ◌⊎◌,
}
use power_blockade.Base.Texts.{Text, codes, lower, strip}
use power_blockade.Rpz.{
  normalize_domain, words, strip_comment, second_part, domain_of_line, add_found, parse_lines,
  parse_blocklist_lines,
}
use power_blockade.Rpz.Domain.{IsDomain, normalize-IsDomain}

-- Some line adds this domain.
abbrev pub yields : Option Text → Text → Bool
yields none d = false
yields (some e) d = e == d

abbrev pub listed : Bool → List Text → Text → Bool
listed hosts [] d = false
listed hosts (raw ∷ lines) d = yields (domain_of_line hosts raw) d || listed hosts lines d

contains-add_found :
    (o : Option Text) (out : List Text) (d : Text)
    → contains (add_found o out) d ≡ (yields o d || contains out d)
contains-add_found none out d = refl
contains-add_found (some e) out d = contains-add e d out

or_swap : (a b c : Bool) → ((a || b) || c) ≡ (b || (a || c))
or_swap a b c = ground arith

contains-parse_lines :
    (hosts : Bool) (out lines : List Text) (d : Text)
    → contains (parse_lines hosts out lines) d ≡ (contains out d || listed hosts lines d)
unfolding parse_lines
contains-parse_lines hosts out [] d = ground arith
contains-parse_lines hosts out (raw ∷ lines) d =
    contains-parse_lines hosts (add_found (domain_of_line hosts raw) out) lines d
    ∙ ap (λ b. b || listed hosts lines d) (contains-add_found (domain_of_line hosts raw) out d)
    ∙ or_swap (yields (domain_of_line hosts raw) d) (contains out d) (listed hosts lines d)

-- The format is hosts exactly when it says so, up to case and white space around it.
abbrev pub is_hosts : Text → Bool
is_hosts fmt = lower (strip fmt) == codes "hosts"

-- A domain is in the parsed set exactly when some line yields it: no line hides another one.
pub contains-parse :
    (lines : List Text) (fmt d : Text)
    → contains (parse_blocklist_lines lines fmt) d ≡ listed (is_hosts fmt) lines d
unfolding parse_blocklist_lines
contains-parse lines fmt d = contains-parse_lines (is_hosts fmt) [] lines d

second_part-IsDomain : (parts : List Text) (d : Text) → second_part parts ≡ some d → IsDomain d
second_part-IsDomain [] d h = cc
second_part-IsDomain (a ∷ []) d h = cc
second_part-IsDomain (a ∷ name ∷ parts) d h = normalize-IsDomain name d h

line_cases :
    (hosts : Bool) (raw d : Text)
    → domain_of_line hosts raw ≡ some d
    → (second_part (words (strip_comment (strip raw))) ≡ some d)
      ⊎ (normalize_domain (strip raw) ≡ some d)
unfolding domain_of_line
line_cases hosts raw d h = ground arith

line-IsDomain : (hosts : Bool) (raw d : Text) → domain_of_line hosts raw ≡ some d → IsDomain d
line-IsDomain hosts raw d h = elim (line_cases hosts raw d h) [
  | inl e ↦ second_part-IsDomain _ d e
  | inr e ↦ normalize-IsDomain _ d e
]

All-snoc :
    (xs : List Text) (d : Text) → All IsDomain xs → IsDomain d → All IsDomain (xs ++ (d ∷ []))
All-snoc [] d h k = (k, tt)
All-snoc (x ∷ xs) d h k = (h.0, All-snoc xs d h.1 k)

All-add : (d : Text) (xs : List Text) → IsDomain d → All IsDomain xs → All IsDomain (add d xs)
unfolding add
All-add d xs k h = elim (Bool-cases (contains xs d)) [
  | inl e ↦ rw e h
  | inr e ↦ rw e (All-snoc xs d h k)
]

-- A set of domains: each has the form of one, and none stands twice.
pub record IsDomainSet (xs : List Text) : Type 0 where
  pub domains : All IsDomain xs
  pub distinct : IsDistinct xs

add_found-IsDomainSet :
    (o : Option Text) (out : List Text)
    → ((d : Text) → o ≡ some d → IsDomain d)
    → IsDomainSet out
    → IsDomainSet (add_found o out)
add_found-IsDomainSet none out k h = h
add_found-IsDomainSet (some d) out k h = record {
  domains = All-add d out (k d refl) h.domains;
  distinct = IsDistinct-add d out h.distinct;
}

parse_lines-IsDomainSet :
    (hosts : Bool) (out lines : List Text)
    → IsDomainSet out
    → IsDomainSet (parse_lines hosts out lines)
unfolding parse_lines
parse_lines-IsDomainSet hosts out [] h = h
parse_lines-IsDomainSet hosts out (raw ∷ lines) h =
    parse_lines-IsDomainSet hosts (add_found (domain_of_line hosts raw) out) lines
      (add_found-IsDomainSet (domain_of_line hosts raw) out (line-IsDomain hosts raw) h)

-- Whatever the lines and the format, the parsed set holds only well-formed domains, each once.
pub parse-IsDomainSet :
    (lines : List Text) (fmt : Text) → IsDomainSet (parse_blocklist_lines lines fmt)
unfolding parse_blocklist_lines
parse-IsDomainSet lines fmt =
    parse_lines-IsDomainSet (is_hosts fmt) [] lines (record { domains = tt; distinct = tt })
