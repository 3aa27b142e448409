-- ===== src/Clients/Members.antt =====
-- Membership, and what a filter does to a statement on all elements.
use power_blockade.Base.{
  ◌≡◌, ◌≢◌, ◌⊎◌, Bool, true, false, List, [], ◌∷◌, select, All, Bool-cases, inl, inr,
}

module _ {ℓ} {A : Type ℓ} where
  abbrev pub IsAmong : A → List A → Type ℓ
  IsAmong a [] = a ≢ a
  IsAmong a (b ∷ xs) = (a ≡ b) ⊎ IsAmong a xs

  module _ (p : A → Bool) where
    pub All-select : (xs : List A) → All (λ a. p a ≡ true) (select p xs)
    All-select [] = tt
    All-select (a ∷ xs) = elim (Bool-cases (p a)) [
      | inl e ↦ rw e (e, All-select xs)
      | inr n ↦ rw n (All-select xs)
    ]

    pub IsAmong-select : (a : A) (xs : List A) → IsAmong a (select p xs) → IsAmong a xs
    IsAmong-select a [] h = h
    IsAmong-select a (b ∷ xs) h = elim (Bool-cases (p b)) [
      | inl e ↦
          let there : (a ≡ b) ⊎ IsAmong a (select p xs) = rw e at h in
          elim there [ inl same ↦ inl same | inr later ↦ inr (IsAmong-select a xs later) ]
      | inr n ↦ inr (IsAmong-select a xs (rw n at h))
    ]

    pub All-select_given {κ} :
        (P : A → Type κ) (xs : List A) → All (λ a. p a ≡ true → P a) xs → All P (select p xs)
    All-select_given P [] all = tt
    All-select_given P (a ∷ xs) all = elim (Bool-cases (p a)) [
      | inl e ↦ rw e (all.0 e, All-select_given P xs all.1)
      | inr n ↦ rw n (All-select_given P xs all.1)
    ]

    pub All-unselect {κ} :
        (P : A → Type κ) (xs : List A)
        → ((a : A) → p a ≡ false → P a)
        → All P (select p xs)
        → All P xs
    All-unselect P [] off all = tt
    All-unselect P (a ∷ xs) off all = elim (Bool-cases (p a)) [
      | inl e ↦
          let there : P a × All P (select p xs) = rw e at all in
          (there.0, All-unselect P xs off there.1)
      | inr n ↦ (off a n, All-unselect P xs off (rw n at all))
    ]
