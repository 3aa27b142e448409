-- ===== src/Rpz/Domain.antt =====
-- What `normalize_domain` lets through.
use mathlib.Core.Path.{subst}
use power_blockade.Base.{
  ◌≡◌, ◌≢◌, Bool, true, false, ◌||◌, none, some, [], ◌∷◌, ◌==◌, nat_eq, list_eq, arith, contains,
  drop, if◌then◌else◌, Bool-cases, inl, inr,
}
use power_blockade.Base.Texts.{Text, codes, lower, strip, lstrip, rstrip, starts_with}
use power_blockade.Rpz.Cleaned.{
  every, head_is, last_is, every-lstrip, every-rstrip, every-drop, head-lstrip, head-rstrip,
  last-rstrip, is_plain, plain-cleaned,
}
use power_blockade.Rpz.{
  strip_comment, is_star_or_dot, is_dot, validate, trim_rule, normalize_domain,
}

or_left : (a b : Bool) → (a || b) ≡ false → a ≡ false
or_left a b h = ground arith

or_right : (a b : Bool) → (a || b) ≡ false → b ≡ false
or_right a b h = ground arith

validate_facts :
    (s d : Text)
    → validate s ≡ some d
    → ((contains s 32 || contains s 9) ≡ false)
      × (starts_with (codes "[") s ≡ false)
      × (contains s b'/' ≡ false)
      × (s ≡ d)
unfolding validate
validate_facts s d h = ground arith

trimmed :
    (t d : Text)
    → (if starts_with (codes "http://") t || starts_with (codes "https://") t
        then none
        else validate (rstrip is_dot (lstrip is_star_or_dot t)))
      ≡ some d
    → validate (rstrip is_dot (lstrip is_star_or_dot t)) ≡ some d
trimmed t d h = ground arith

-- What a domain of a zone looks like: not empty, no blank, tab or slash, no capital and no comment
-- sign; no '*', '.' or '[' at its front, and no '.' at its end.
pub record IsDomain (d : Text) : Type 0 where
  pub nonempty : d ≢ []
  pub no_blank : contains d 32 ≡ false
  pub no_tab : contains d 9 ≡ false
  pub no_slash : contains d b'/' ≡ false
  pub plain : every is_plain d ≡ true
  pub front : head_is is_star_or_dot d ≡ false
  pub no_bracket : starts_with (codes "[") d ≡ false
  pub end : last_is is_dot d ≡ false

validate-IsDomain :
    (s d : Text)
    → validate s ≡ some d
    → every is_plain s ≡ true
    → head_is is_star_or_dot s ≡ false
    → last_is is_dot s ≡ false
    → IsDomain d
unfolding validate starts_with
validate-IsDomain [] d h plain front end = cc
validate-IsDomain (c ∷ s) d h plain front end =
    let facts : ((contains (c ∷ s) 32 || contains (c ∷ s) 9) ≡ false)
        × (starts_with (codes "[") (c ∷ s) ≡ false)
        × (contains (c ∷ s) b'/' ≡ false)
        × (c ∷ s ≡ d) =
      validate_facts (c ∷ s) d h in
    subst IsDomain facts.3 (record {
      nonempty = λ e. cc;
      no_blank = or_left _ _ facts.0;
      no_tab = or_right _ _ facts.0;
      no_slash = facts.2;
      plain = plain;
      front = front;
      no_bracket = facts.1;
      end = end;
    })

-- The text after the "||" of a rule is still plain, and is what is trimmed and validated.
trim_rule_cases :
    (s d : Text)
    → trim_rule s ≡ some d
    → every is_plain s ≡ true
    → (t : Text) × (validate (rstrip is_dot (lstrip is_star_or_dot t)) ≡ some d)
      × (every is_plain t ≡ true)
unfolding trim_rule
trim_rule_cases s d h plain = elim (Bool-cases (starts_with (codes "||") s)) [
  | inl e ↦ (drop 2 s, trimmed (drop 2 s) d (rw e at h), every-drop is_plain 2 s plain)
  | inr e ↦ (s, trimmed s d (rw e at h), plain)
]

trim_rule-IsDomain : (s d : Text) → trim_rule s ≡ some d → every is_plain s ≡ true → IsDomain d
trim_rule-IsDomain s d h plain =
    let (t, valid, clean) = trim_rule_cases s d h plain in
    let front = lstrip is_star_or_dot t in
    validate-IsDomain (rstrip is_dot front) d valid
      (every-rstrip is_plain is_dot front (every-lstrip is_plain is_star_or_dot t clean))
      (head-rstrip is_star_or_dot is_dot front (head-lstrip is_star_or_dot t))
      (last-rstrip is_dot front)

-- Whatever the line, what is accepted as its domain has the form of one.
pub normalize-IsDomain : (s d : Text) → normalize_domain s ≡ some d → IsDomain d
unfolding normalize_domain
normalize-IsDomain s d h =
    let t = strip (strip_comment (lower (strip s))) in
    elim (Bool-cases (t == [])) [
      | inl e ↦ cc (h, e)
      | inr e ↦ trim_rule-IsDomain t d (rw e at h) (plain-cleaned s)
    ]
