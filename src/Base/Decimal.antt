-- ===== src/Base/Decimal.antt =====
-- `str(n)` of a natural number, and the order of Python's `sorted` on texts.
use Prim.Native.Nat.{ℕ, zero, suc, ◌+◌, ◌-◌, ◌*◌, ◌/◌, ◌%◌, ◌<◌}
use mathlib.Core.Path.{◌≡◌, refl, ◌∙◌, ap}
use mathlib.Core.Bool.{Bool, true, false, ◌||◌}
use mathlib.Core.List.{List, [], ◌∷◌, ◌++◌}
use native.Mathlib.Omega.{arith}
use power_blockade.Base.Tests.{ltb, ◌==◌, nat_eq, list_eq, if◌then◌else◌}
use power_blockade.Base.Sets.{contains, contains-append}
use power_blockade.Base.Texts.{Text}

-- The first argument is fuel, one more than the number is enough.
unfoldable pub show_fuel : ℕ → ℕ → Text
show_fuel zero n = []
show_fuel (suc f) n =
    let front = show_fuel f (n / 10) in
    if ltb n 10 then (b'0' + n) ∷ [] else front ++ ((b'0' + n % 10) ∷ [])

unfoldable pub show : ℕ → Text
unfolding show_fuel
show n = show_fuel (n + 1) n

-- The number that a text of digits stands for.
abbrev pub value_from : ℕ → Text → ℕ
value_from acc [] = acc
value_from acc (c ∷ s) = value_from (acc * 10 + (c - b'0')) s

value-snoc :
    (acc : ℕ) (s : Text) (c : ℕ)
    → value_from acc (s ++ (c ∷ [])) ≡ value_from acc s * 10 + (c - b'0')
value-snoc acc [] c = refl
value-snoc acc (d ∷ s) c = value-snoc (acc * 10 + (d - b'0')) s c

value-show_fuel : (f n : ℕ) → n < f → value_from 0 (show_fuel f n) ≡ n
unfolding show_fuel
value-show_fuel zero n h = absurd (omega arith)
value-show_fuel (suc f) n h =
    ground (arith, value-snoc 0 (show_fuel f (n / 10)) (48 + n % 10), value-show_fuel f (n / 10))

-- The fuel is enough: the text shows the number.
pub value-show : (n : ℕ) → value_from 0 (show n) ≡ n
unfolding show
value-show n = value-show_fuel (n + 1) n (omega arith)

-- No line break among the digits.
show_fuel-no_newline : (f n : ℕ) → contains (show_fuel f n) 10 ≡ false
unfolding show_fuel
show_fuel-no_newline zero n = refl
show_fuel-no_newline (suc f) n = ground (
  arith,
  show_fuel-no_newline f (n / 10),
  contains-append (show_fuel f (n / 10)) ((48 + n % 10) ∷ []) 10,
)

pub show-no_newline : (n : ℕ) → contains (show n) 10 ≡ false
unfolding show
show-no_newline n = show_fuel-no_newline (n + 1) n

-- `a <= b` on texts, by code points.
unfoldable pub text_leb : Text → Text → Bool
text_leb [] b = true
text_leb (c ∷ a) [] = false
text_leb (c ∷ a) (d ∷ b) = if ltb c d then true else if c == d then text_leb a b else false

unfoldable pub insert : Text → List Text → List Text
insert x [] = x ∷ []
insert x (y ∷ ys) = let rest = insert x ys in if text_leb x y then x ∷ y ∷ ys else y ∷ rest

-- `sorted(texts)`
unfoldable pub sorted : List Text → List Text
unfolding insert text_leb
sorted [] = []
sorted (x ∷ xs) = insert x (sorted xs)

abbrev pub IsSorted : List Text → Type 0
IsSorted [] = Unit
IsSorted (x ∷ []) = Unit
IsSorted (x ∷ y ∷ ys) = (text_leb x y ≡ true) × IsSorted (y ∷ ys)

text_leb_total : (a b : Text) → text_leb a b ≡ false → text_leb b a ≡ true
unfolding text_leb
text_leb_total [] b h = cc
text_leb_total (c ∷ a) [] h = refl
text_leb_total (c ∷ a) (d ∷ b) h = ground (arith, text_leb_total a b)

insert-IsSorted : (x : Text) (ys : List Text) → IsSorted ys → IsSorted (insert x ys)
unfolding insert
insert-IsSorted x [] h = tt
insert-IsSorted x (y ∷ []) h = ground (arith, text_leb_total x y)
insert-IsSorted x (y ∷ z ∷ ys) h =
    ground (arith, text_leb_total x y, text_leb_total x z, insert-IsSorted x (z ∷ ys) h.1)

pub sorted-IsSorted : (xs : List Text) → IsSorted (sorted xs)
unfolding sorted
sorted-IsSorted [] = tt
sorted-IsSorted (x ∷ xs) = insert-IsSorted x (sorted xs) (sorted-IsSorted xs)

contains-insert :
    (x : Text) (ys : List Text) (a : Text) → contains (insert x ys) a ≡ ((x == a) || contains ys a)
unfolding insert
contains-insert x [] a = refl
contains-insert x (y ∷ ys) a = ground (arith, contains-insert x ys a)

pub contains-sorted : (xs : List Text) (a : Text) → contains (sorted xs) a ≡ contains xs a
unfolding sorted
contains-sorted [] a = refl
contains-sorted (x ∷ xs) a =
    contains-insert x (sorted xs) a ∙ ap (λ b. (x == a) || b) (contains-sorted xs a)
