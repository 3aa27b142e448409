-- ===== src/Base/Sets.antt =====
-- Python's sets as lists without repetition, and membership as a test.
use Prim.Native.Nat.{◌+◌, ◌≤◌}
use mathlib.Core.Path.{◌≡◌, refl}
use mathlib.Core.Bool.{Bool, true, false, not, ◌&&◌, ◌||◌}
use mathlib.Core.List.{List, [], ◌∷◌, ◌++◌}
use native.Mathlib.Omega.{arith}
use power_blockade.Base.Tests.{Eq, ◌==◌, if◌then◌else◌}
use power_blockade.Base.Lists.{select, length, length-append}

module _ {ℓ} {A : Type ℓ} ⦃e : Eq A⦄ where
  -- `a in xs`
  abbrev pub contains : List A → A → Bool
  contains [] a = false
  contains (x ∷ xs) a = (x == a) || contains xs a

  -- `out.add(a)`
  unfoldable pub add : A → List A → List A
  add a xs = if contains xs a then xs else xs ++ (a ∷ [])

  -- `xs |= ys`, and the set of a list when `xs` is empty.
  unfoldable pub union : List A → List A → List A
  union xs [] = xs
  union xs (y ∷ ys) = union (add y xs) ys

  -- `xs - ys`
  unfoldable pub minus : List A → List A → List A
  minus xs ys = select (λ x. not (contains ys x)) xs

  -- No element twice.
  abbrev pub IsDistinct : List A → Type 0
  IsDistinct [] = Unit
  IsDistinct (x ∷ xs) = (contains xs x ≡ false) × IsDistinct xs

  pub contains-head : (x : A) (xs : List A) → contains (x ∷ xs) x ≡ true
  contains-head x xs = ground (arith, e.beq_iff x x)

  pub contains-append :
      (xs ys : List A) (a : A) → contains (xs ++ ys) a ≡ (contains xs a || contains ys a)
  contains-append [] ys a = refl
  contains-append (x ∷ xs) ys a = ground (arith, contains-append xs ys a)

  pub contains-add : (a b : A) (xs : List A) → contains (add a xs) b ≡ ((a == b) || contains xs b)
  unfolding add
  contains-add a b xs = ground (arith, contains-append xs (a ∷ []) b, e.beq_iff a b)

  pub contains-union :
      (xs ys : List A) (a : A) → contains (union xs ys) a ≡ (contains xs a || contains ys a)
  unfolding union
  contains-union xs [] a = ground arith
  contains-union xs (y ∷ ys) a = ground (arith, contains-union (add y xs) ys a, contains-add y a xs)

  pub contains-select :
      (p : A → Bool) (xs : List A) (a : A) → contains (select p xs) a ≡ (contains xs a && p a)
  contains-select p [] a = refl
  contains-select p (x ∷ xs) a = ground (arith, contains-select p xs a, e.beq_iff x a)

  pub contains-minus :
      (xs ys : List A) (a : A) → contains (minus xs ys) a ≡ (contains xs a && not (contains ys a))
  unfolding minus
  contains-minus xs ys a = contains-select (λ x. not (contains ys x)) xs a

  pub IsDistinct-select : (p : A → Bool) (xs : List A) → IsDistinct xs → IsDistinct (select p xs)
  IsDistinct-select p [] h = tt
  IsDistinct-select p (x ∷ xs) h =
      ground (arith, IsDistinct-select p xs h.1, contains-select p xs x)

  pub IsDistinct-snoc :
      (xs : List A) (a : A) → IsDistinct xs → contains xs a ≡ false → IsDistinct (xs ++ (a ∷ []))
  IsDistinct-snoc [] a h n = (refl, tt)
  IsDistinct-snoc (x ∷ xs) a h n =
      ground (
        arith,
        IsDistinct-snoc xs a h.1,
        contains-append xs (a ∷ []) x,
        e.beq_iff x a,
        e.beq_iff a x,
      )

  pub IsDistinct-add : (a : A) (xs : List A) → IsDistinct xs → IsDistinct (add a xs)
  unfolding add
  IsDistinct-add a xs h = ground (arith, IsDistinct-snoc xs a h)

  pub IsDistinct-union : (xs ys : List A) → IsDistinct xs → IsDistinct (union xs ys)
  unfolding union
  IsDistinct-union xs [] h = h
  IsDistinct-union xs (y ∷ ys) h = IsDistinct-union (add y xs) ys (IsDistinct-add y xs h)

  length-add_le : (a : A) (xs : List A) → length (add a xs) ≤ length xs + 1
  unfolding add
  length-add_le a xs = ground (arith, length-append xs (a ∷ []))

  pub length-union_le : (xs ys : List A) → length (union xs ys) ≤ length xs + length ys
  unfolding union
  length-union_le xs [] = omega arith
  length-union_le xs (y ∷ ys) = omega (arith, length-union_le (add y xs) ys, length-add_le y xs)
