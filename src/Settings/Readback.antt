-- ===== src/Settings/Readback.antt =====
-- `int(str(n))`: a number that a form stores is the number that the getter reads.
use power_blockade.Base.{
  ℕ, zero, suc, ◌+◌, ◌-◌, ◌*◌, ◌/◌, ◌%◌, ◌≢◌, ◌≡◌, refl, ◌∙◌, ap, true, false, some, [], ◌∷◌, ◌++◌,
  arith, nat_eq, leb, All, All-append,
}
use power_blockade.Base.Texts.{Text, is_space, lstrip, rstrip, strip}
use power_blockade.Base.Int.{pos, int_digits, signed, int}
use power_blockade.Base.Decimal.{show, show_fuel, value_from, value-show}

abbrev IsDigit : ℕ → Type 0
IsDigit c = (leb b'0' c ≡ true) × (leb c b'9' ≡ true)

show_fuel-digits : (f n : ℕ) → All IsDigit (show_fuel f n)
unfolding show_fuel
show_fuel-digits zero n = tt
show_fuel-digits (suc f) n = ground (
  arith,
  show_fuel-digits f (n / 10),
  All-append IsDigit (show_fuel f (n / 10)) ((48 + n % 10) ∷ []) (show_fuel-digits f (n / 10)),
)

int_digits-digits :
    (n : ℕ) (s : Text) → All IsDigit s → int_digits false n s ≡ some (value_from n s)
unfolding int_digits
int_digits-digits n [] h = refl
int_digits-digits n (c ∷ s) h = ground (arith, int_digits-digits (n * 10 + (c - 48)) s h.1)

int_digits-first :
    (n c : ℕ) (s : Text)
    → All IsDigit (c ∷ s)
    → int_digits true n (c ∷ s) ≡ some (value_from n (c ∷ s))
unfolding int_digits
int_digits-first n c s h = ground (arith, int_digits-digits (n * 10 + (c - 48)) s h.1)

lstrip-digits : (s : Text) → All IsDigit s → lstrip is_space s ≡ s
unfolding lstrip is_space
lstrip-digits [] h = refl
lstrip-digits (c ∷ s) h = ground arith

rstrip-digits : (s : Text) → All IsDigit s → rstrip is_space s ≡ s
unfolding rstrip is_space
rstrip-digits [] h = refl
rstrip-digits (c ∷ []) h = ground arith
rstrip-digits (c ∷ d ∷ s) h = ground (arith, rstrip-digits (d ∷ s) h.1)

strip-digits : (s : Text) → All IsDigit s → strip s ≡ s
unfolding strip
strip-digits s h = ap (rstrip is_space) (lstrip-digits s h) ∙ rstrip-digits s h

signed-digits :
    (c : ℕ) (s : Text) → All IsDigit (c ∷ s) → signed (c ∷ s) ≡ some (pos (value_from 0 (c ∷ s)))
unfolding signed
signed-digits c s h = ground (arith, int_digits-first 0 c s h)

append_not_empty : (s : Text) (c : ℕ) → (s ++ (c ∷ [])) ≢ []
append_not_empty [] c = ground arith
append_not_empty (d ∷ s) c = ground arith

pub show_not_empty : (n : ℕ) → show n ≢ []
unfolding show show_fuel
show_not_empty n = ground (arith, append_not_empty (show_fuel n (n / 10)) (48 + n % 10))

int-digits : (s : Text) → All IsDigit s → s ≢ [] → int s ≡ some (pos (value_from 0 s))
unfolding int
int-digits [] h ne = absurd (ne refl)
int-digits (c ∷ s) h ne = rw (strip-digits (c ∷ s) h) (signed-digits c s h)

pub int-show : (n : ℕ) → int (show n) ≡ some (pos n)
unfolding show
int-show n =
    int-digits (show n) (show_fuel-digits (n + 1) n) (show_not_empty n)
    ∙ ap (λ v. some (pos v)) (value-show n)
