-- ===== src/Rollups/Sums.antt =====
-- Sums over the groups of a list, and over the windows of a time.
use power_blockade.Base.{
  ℕ, ◌+◌, ◌≡◌, refl, ◌∙◌, ap, Bool, true, List, [], ◌∷◌, ◌++◌, arith, Eq, ◌==◌, if◌then◌else◌, map,
  select, contains, IsDistinct,
}
use power_blockade.Rollups.{sum_by}

module _ {ℓ} {A : Type ℓ} where
  pub sum_by-append : (w : A → ℕ) (xs ys : List A) → sum_by w (xs ++ ys) ≡ sum_by w xs + sum_by w ys
  sum_by-append w [] ys = omega arith
  sum_by-append w (x ∷ xs) ys = omega (arith, sum_by-append w xs ys)

  pub sum_by-plus :
      (v w : A → ℕ) (xs : List A) → sum_by (λ x. v x + w x) xs ≡ sum_by v xs + sum_by w xs
  sum_by-plus v w [] = omega arith
  sum_by-plus v w (x ∷ xs) = omega (arith, sum_by-plus v w xs)

  pub sum_by-zero : (xs : List A) → sum_by (λ x. 0) xs ≡ 0
  sum_by-zero [] = refl
  sum_by-zero (x ∷ xs) = omega (arith, sum_by-zero xs)

  pub sum_by-agree : (v w : A → ℕ) (xs : List A) → ((x : A) → v x ≡ w x) → sum_by v xs ≡ sum_by w xs
  sum_by-agree v w [] h = refl
  sum_by-agree v w (x ∷ xs) h = omega (arith, h x, sum_by-agree v w xs h)

  -- A list is cut in two by a test.
  pub sum_by-split :
      (w : A → ℕ) (p q r : A → Bool) (xs : List A)
      → ((x : A) → (if r x then w x else 0) ≡ (if p x then w x else 0) + (if q x then w x else 0))
      → sum_by w (select r xs) ≡ sum_by w (select p xs) + sum_by w (select q xs)
  sum_by-split w p q r [] h = omega arith
  sum_by-split w p q r (x ∷ xs) h = ground (arith, h x, sum_by-split w p q r xs h)

pub sum_by-map {ℓ κ} :
    {A : Type ℓ} {B : Type κ} (w : B → ℕ) (f : A → B) (xs : List A)
    → sum_by w (map f xs) ≡ sum_by (λ x. w (f x)) xs
sum_by-map w f [] = refl
sum_by-map w f (x ∷ xs) = ap (λ n. w (f x) + n) (sum_by-map w f xs)

module _ {ℓ κ} {A : Type ℓ} {K : Type κ} ⦃e : Eq K⦄ (key : A → K) (w : A → ℕ) where
  -- One element counts in the group that is its own.
  sum_by-own :
      (a : A) (ks : List K)
      → IsDistinct ks
      → sum_by (λ k. if key a == k then w a else 0) ks ≡ (if contains ks (key a) then w a else 0)
  sum_by-own a [] d = refl
  sum_by-own a (k ∷ ks) d =
      ground (arith, sum_by-own a ks d.1, e.beq_iff (key a) k, e.beq_iff k (key a))

  sum_by-cons :
      (a : A) (xs : List A) (k : K)
      → sum_by w (select (λ x. key x == k) (a ∷ xs))
        ≡ (if key a == k then w a else 0) + sum_by w (select (λ x. key x == k) xs)
  sum_by-cons a xs k = ground arith

  -- The sums of the groups make up the sum of those whose group is listed.
  pub sum_by-groups :
      (xs : List A) (ks : List K)
      → IsDistinct ks
      → sum_by (λ k. sum_by w (select (λ x. key x == k) xs)) ks
        ≡ sum_by w (select (λ x. contains ks (key x)) xs)
  sum_by-groups [] ks d = sum_by-zero ks
  sum_by-groups (a ∷ xs) ks d =
      sum_by-agree (λ k. sum_by w (select (λ x. key x == k) (a ∷ xs)))
        (λ k. (if key a == k then w a else 0) + sum_by w (select (λ x. key x == k) xs)) ks
        (sum_by-cons a xs)
      ∙ sum_by-plus (λ k. if key a == k then w a else 0)
          (λ k. sum_by w (select (λ x. key x == k) xs)) ks
      ∙ ground (arith, sum_by-own a ks d, sum_by-groups xs ks d)

  -- Every element's group is listed.
  pub select-covered :
      (xs : List A) (ks : List K)
      → ((k : K) → contains (map key xs) k ≡ true → contains ks k ≡ true)
      → select (λ x. contains ks (key x)) xs ≡ xs
  select-covered [] ks h = refl
  select-covered (a ∷ xs) ks h = ground (
    arith,
    h (key a),
    e.beq_iff (key a) (key a),
    select-covered xs ks (λ k m. ground (arith, h k, m)),
  )
