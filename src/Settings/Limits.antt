-- ===== src/Settings/Limits.antt =====
-- Numbers and rates that are brought into their limits, once and again.
use power_blockade.Base.{
  ℕ, ◌≤◌, ◌≡◌, refl, ◌∙◌, ap, true, Option, some, [], ◌∷◌, arith, Bool-cases, inl, inr,
  if◌then◌else◌,
}
use power_blockade.Base.Texts.{Text}
use power_blockade.Base.Int.{ℤ, pos, negsuc, leb_ℤ, pos_part}
use power_blockade.Settings.{or_text, at_least, at_most}
use power_blockade.Settings.Warming.{Floats, clamp, clamp_qps}

-- A number that is brought into its limits.
abbrev pub limited : ℤ → ℤ → ℤ → ℤ
limited low high n = if leb_ℤ n low then low else if leb_ℤ high n then high else n

clamp-limited :
    (low high : ℕ) (n : ℤ)
    → low ≤ high
    → clamp (pos low) (pos high) n ≡ limited (pos low) (pos high) n
clamp-limited low high (pos n) k = ground arith
clamp-limited low high (negsuc n) k = ground arith

-- A rate that is brought into its limits; one that is no number, and so not less, is 1000.
abbrev pub limited_qps : (fl : Floats) → fl.Float → fl.Float
limited_qps fl x =
    if fl.less x fl.thousand then (if fl.less fl.one x then x else fl.one) else fl.thousand

module _ (fl : Floats) (order : fl.less fl.one fl.thousand ≡ true) where
  clamp_qps-limited : (x : fl.Float) → clamp_qps fl x ≡ limited_qps fl x
  clamp_qps-limited x = elim (Bool-cases (fl.less x fl.thousand)) [
    | inl e ↦ rw e refl
    | inr n ↦ rw (n, order) refl
  ]

  limited_one : limited_qps fl fl.one ≡ fl.one
  limited_one = ground (arith, order)

  limited_thousand : limited_qps fl fl.thousand ≡ fl.thousand
  limited_thousand = ground (arith, order)

  limited_again : (x : fl.Float) → limited_qps fl (limited_qps fl x) ≡ limited_qps fl x
  limited_again x = elim (Bool-cases (fl.less x fl.thousand)) [
    | inl e ↦ elim (Bool-cases (fl.less fl.one x)) [
      | inl i ↦ rw (e, i) (rw (e, i) refl)
      | inr j ↦ rw (e, j) limited_one
    ]
    | inr n ↦ rw n limited_thousand
  ]

  pub clamped_again : (x : fl.Float) → clamp_qps fl (clamp_qps fl x) ≡ limited_qps fl x
  clamped_again x =
      ap (clamp_qps fl) (clamp_qps-limited x)
      ∙ clamp_qps-limited (limited_qps fl x)
      ∙ limited_again x

-- A clamp between limits that are not negative.
clamp-pos :
    (low high : ℕ) (n : ℤ)
    → low ≤ high
    → clamp (pos low) (pos high) n ≡ pos (pos_part (clamp (pos low) (pos high) n))
clamp-pos low high (pos n) k = ground arith
clamp-pos low high (negsuc n) k = ground arith

clamp_ge : (low high : ℕ) (n : ℤ) → low ≤ high → low ≤ pos_part (clamp (pos low) (pos high) n)
clamp_ge low high (pos n) k = ground arith
clamp_ge low high (negsuc n) k = ground arith

clamp_le : (low high : ℕ) (n : ℤ) → low ≤ high → pos_part (clamp (pos low) (pos high) n) ≤ high
clamp_le low high (pos n) k = ground arith
clamp_le low high (negsuc n) k = ground arith

clamp-value :
    (low high : ℕ) (n : ℤ)
    → low ≤ high
    → (m : ℕ) × ((clamp (pos low) (pos high) n ≡ pos m) × ((low ≤ m) × (m ≤ high)))
clamp-value low high n k = (
  pos_part (clamp (pos low) (pos high) n),
  (clamp-pos low high n k, (clamp_ge low high n k, clamp_le low high n k)),
)

pub clamped_positive :
    (low high : ℕ) (n : ℤ)
    → 1 ≤ low
    → low ≤ high
    → (leb_ℤ (pos 0) (clamp (pos low) (pos high) n) ≡ true)
      × (at_least (pos 1) (clamp (pos low) (pos high) n) ≡ clamp (pos low) (pos high) n)
clamped_positive low high n h k =
    let (m, (value, (above, below))) = clamp-value low high n k in
    let goal : (leb_ℤ (pos 0) (pos m) ≡ true) × (at_least (pos 1) (pos m) ≡ pos m) =
      (ground arith, ground arith) in
    rw value goal

pub clamped_twice :
    (n : ℤ)
    → at_least (pos 1) (at_most (pos 64) (clamp (pos 1) (pos 64) n)) ≡ clamp (pos 1) (pos 64) n
clamped_twice n =
    let (m, (value, (above, below))) = clamp-value 1 64 n (omega arith) in
    let goal : at_least (pos 1) (at_most (pos 64) (pos m)) ≡ pos m = ground arith in rw value goal

pub or_text_twice : (s fallback : Text) → or_text (or_text s fallback) fallback ≡ or_text s fallback
or_text_twice [] [] = refl
or_text_twice [] (c ∷ s) = refl
or_text_twice (c ∷ s) fallback = refl

pub number_read :
    (low high : ℕ) (n : ℤ) (o : Option ℤ)
    → low ≤ high
    → o ≡ some (clamp (pos low) (pos high) n)
    → o ≡ some (limited (pos low) (pos high) n)
number_read low high n o k h = h ∙ ap some (clamp-limited low high n k)
