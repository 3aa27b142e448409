-- ===== src/Versions/Compatible.antt =====
-- What the verdict on two versions means.
use power_blockade.Base.{
  ◌≡◌, refl, ◌≢◌, ◌↔◌, ◌⊎◌, inl, inr, false, Option, none, some, arith, nat_eq, list_eq, sym,
}
use power_blockade.Base.Texts.{Text}
use power_blockade.Base.Int.{ℤ, int_eq, ltb_ℤ}
use power_blockade.Versions.{
  allow, block, known, parse_version, without_v, compare_parts, compare_parsed, compare_known,
  check_version_compatibility,
}

-- The parts of a version that is known and can be parsed.
abbrev pub parts : Option Text → Option (ℤ × ℤ × ℤ)
parts none = none
parts (some v) = parse_version (without_v v)

-- Both versions parse, and the primary's parts stand in a relation to the secondary's.
abbrev pub Both :
    (ℤ × ℤ × ℤ → ℤ × ℤ × ℤ → Type 0) → Option (ℤ × ℤ × ℤ) → Option (ℤ × ℤ × ℤ) → Type 0
Both R (some a) (some b) = R a b
Both R _ _ = ⊥

abbrev pub MajorsDiffer : ℤ × ℤ × ℤ → ℤ × ℤ × ℤ → Type 0
MajorsDiffer a b = a.0 ≢ b.0

-- The same major and minor, and the secondary's patch is not behind.
abbrev pub KeepsUp : ℤ × ℤ × ℤ → ℤ × ℤ × ℤ → Type 0
KeepsUp a b = (a.0 ≡ b.0) × (a.1 ≡ b.1) × (ltb_ℤ b.2 a.2 ≡ false)

blocked_parsed :
    (p s : Text) (a b : Option (ℤ × ℤ × ℤ))
    → ((compare_parsed p s a b).0 ≡ block) ↔ Both MajorsDiffer a b
unfolding compare_parts
blocked_parsed p s (some a) (some b) = ground (arith, int_eq.beq_iff a.0 b.0)
blocked_parsed p s none b = ground arith
blocked_parsed p s (some a) none = ground arith

allowed_parsed :
    (p s : Text) (a b : Option (ℤ × ℤ × ℤ))
    → ((compare_parsed p s a b).0 ≡ allow) ↔ Both KeepsUp a b
unfolding compare_parts
allowed_parsed p s (some a) (some b) =
    ground (arith, int_eq.beq_iff a.0 b.0, int_eq.beq_iff a.1 b.1)
allowed_parsed p s none b = ground arith
allowed_parsed p s (some a) none = ground arith

Both-none : (R : ℤ × ℤ × ℤ → ℤ × ℤ × ℤ → Type 0) (o : Option (ℤ × ℤ × ℤ)) → Both R o none → ⊥
Both-none R none h = h
Both-none R (some a) h = h

blocked_known :
    (p s : Option Text) → ((compare_known p s).0 ≡ block) ↔ Both MajorsDiffer (parts p) (parts s)
blocked_known (some p) (some s) =
    blocked_parsed (without_v p) (without_v s) (parse_version (without_v p))
      (parse_version (without_v s))
blocked_known none none = ground arith
blocked_known none (some s) = ground arith
blocked_known (some p) none = (λ e. cc, λ h. absurd (Both-none MajorsDiffer (parts (some p)) h))

-- Config sync is forbidden exactly when both versions are known and parse, and their majors differ:
-- an unknown or unreadable version never blocks.
pub check-block_iff :
    (primary secondary : Option Text)
    → ((check_version_compatibility primary secondary).0 ≡ block)
      ↔ Both MajorsDiffer (parts (known primary)) (parts (known secondary))
unfolding check_version_compatibility
check-block_iff primary secondary = blocked_known (known primary) (known secondary)

allowed_known :
    (p s : Option Text)
    → ((compare_known p s).0 ≡ allow)
      ↔ (((p ≡ none) × (s ≡ none)) ⊎ Both KeepsUp (parts p) (parts s))
allowed_known (some p) (some s) =
    let verdict =
      allowed_parsed (without_v p) (without_v s) (parse_version (without_v p))
        (parse_version (without_v s)) in
    (λ e. inr (verdict.0 e), λ h. elim h [ inl (e, _) ↦ cc | inr both ↦ verdict.1 both ])
allowed_known none none = (λ e. inl (refl, refl), λ h. refl)
allowed_known none (some s) = ground arith
allowed_known (some p) none = (
  λ e. cc,
  λ h. elim h [ inl (e, _) ↦ cc | inr both ↦ absurd (Both-none KeepsUp (parts (some p)) both) ],
)

-- The verdict is to allow exactly when neither version is known, or both parse with the same major
-- and minor and the secondary's patch is not behind the primary's.
pub check-allow_iff :
    (primary secondary : Option Text)
    → ((check_version_compatibility primary secondary).0 ≡ allow) ↔ (
        ((known primary ≡ none) × (known secondary ≡ none))
        ⊎ Both KeepsUp (parts (known primary)) (parts (known secondary)))
unfolding check_version_compatibility
check-allow_iff primary secondary = allowed_known (known primary) (known secondary)

Both-flip : (a b : Option (ℤ × ℤ × ℤ)) → Both MajorsDiffer a b → Both MajorsDiffer b a
Both-flip (some a) (some b) h = λ e. h (sym e)
Both-flip none b h = absurd h
Both-flip (some a) none h = absurd h

-- It does not matter which of two versions is the primary's for whether config sync is forbidden.
pub check-block_comm :
    (a b : Option Text)
    → (check_version_compatibility a b).0 ≡ block
    → (check_version_compatibility b a).0 ≡ block
check-block_comm a b h =
    (check-block_iff b a).1
      (Both-flip (parts (known a)) (parts (known b)) ((check-block_iff a b).0 h))
