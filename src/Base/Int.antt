-- ===== src/Base/Int.antt =====
-- Python's integers, over the native numbers: `negsuc n` is -(n + 1). Orders and sums go through
-- the two parts of an integer. `int(text)` is here too.
use Prim.Native.Nat.{ℕ, suc, ◌+◌, ◌-◌, ◌*◌}
use mathlib.Core.Path.{◌≡◌, refl}
use mathlib.Core.Bool.{Bool, true, false, ◌&&◌}
use mathlib.Core.Option
use mathlib.Core.Option.{Option, none, some}
use mathlib.Core.List.{[], ◌∷◌}
use native.Mathlib.Omega.{arith}
use mathlib.Core.Logic.{◌↔◌}
use power_blockade.Base.Tests.{Eq, nat_beq, leb, ltb, nat_eq, ◌==◌, if◌then◌else◌}
use power_blockade.Base.Texts.{Text, codes, strip}

pub data ℤ : Type 0 where
  pos : ℕ → ℤ
  negsuc : ℕ → ℤ

abbrev pub pos_part : ℤ → ℕ
pos_part (pos n) = n
pos_part (negsuc n) = 0

abbrev pub neg_part : ℤ → ℕ
neg_part (pos n) = 0
neg_part (negsuc n) = suc n

-- a - b, as an integer.
abbrev pub sub_ℕ : ℕ → ℕ → ℤ
sub_ℕ a b = if leb b a then pos (a - b) else negsuc (b - a - 1)

abbrev pub ltb_ℤ : ℤ → ℤ → Bool
ltb_ℤ a b = ltb (pos_part a + neg_part b) (pos_part b + neg_part a)

abbrev pub leb_ℤ : ℤ → ℤ → Bool
leb_ℤ a b = leb (pos_part a + neg_part b) (pos_part b + neg_part a)

abbrev pub int_beq : ℤ → ℤ → Bool
int_beq (pos a) (pos b) = nat_beq a b
int_beq (negsuc a) (negsuc b) = nat_beq a b
int_beq _ _ = false

pub int_beq_iff : (a b : ℤ) → (int_beq a b ≡ true) ↔ (a ≡ b)
int_beq_iff a b = ground arith

instance abbrev pub int_eq : Eq ℤ
int_eq = record { beq = int_beq; beq_iff = int_beq_iff }

-- The digits of `int(text)`, with single underscores between them. `fresh` says that a digit must
-- follow: at the start and behind an underscore.
unfoldable pub int_digits : Bool → ℕ → Text → Option ℕ
int_digits true n [] = none
int_digits false n [] = some n
int_digits fresh n (c ∷ s) =
    let next = int_digits false (n * 10 + (c - b'0')) s in
    let gap = int_digits true n s in
    if leb b'0' c && leb c b'9'
    then next
    else if c == b'_'
    then if fresh then none else gap
    else none

unfoldable pub signed : Text → Option ℤ
unfolding int_digits
signed [] = none
signed (c ∷ s) =
    if c == b'-'
    then Option.map (λ n. sub_ℕ 0 n) (int_digits true 0 s)
    else if c == b'+'
    then Option.map pos (int_digits true 0 s)
    else Option.map pos (int_digits true 0 (c ∷ s))

-- `int(text)`; `none` is its ValueError.
unfoldable pub int : Text → Option ℤ
unfolding signed strip
int s = signed (strip s)

int_reads : int (codes " +1_0 ") ≡ some (pos 10)
unfolding int
int_reads = refl

int_refuses : int (codes "1__0") ≡ none
unfolding int
int_refuses = refl
