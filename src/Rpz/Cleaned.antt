-- ===== src/Rpz/Cleaned.antt =====
-- What stripping, lowering and the removal of a comment leave of a text.
use power_blockade.Base.{
  ℕ, ◌≡◌, refl, Bool, true, false, not, ◌&&◌, none, some, [], ◌∷◌, nat_eq, list_eq, arith, leb,
  drop, Bool-cases, ◌⊎◌, inl, inr, zero, suc,
}
use power_blockade.Base.Texts.{
  Text, is_space, lower, lower_char, strip, lstrip, rstrip, before_stripped,
}
use power_blockade.Rpz.{is_comment, before_comment, strip_comment}

abbrev pub every : (ℕ → Bool) → Text → Bool
every p [] = true
every p (c ∷ s) = p c && every p s

abbrev pub head_is : (ℕ → Bool) → Text → Bool
head_is p [] = false
head_is p (c ∷ s) = p c

abbrev pub last_is : (ℕ → Bool) → Text → Bool
last_is p [] = false
last_is p (c ∷ []) = p c
last_is p (c ∷ d ∷ s) = last_is p (d ∷ s)

module _ (p : ℕ → Bool) (q : ℕ → Bool) where
  pub every-lstrip : (s : Text) → every p s ≡ true → every p (lstrip q s) ≡ true
  unfolding lstrip
  every-lstrip [] h = h
  every-lstrip (c ∷ s) h = ground (arith, every-lstrip s)

  pub every-before_stripped :
      (c : ℕ) (s : Text) → p c ≡ true → every p s ≡ true → every p (before_stripped q c s) ≡ true
  every-before_stripped c [] h k = ground arith
  every-before_stripped c (d ∷ s) h k = ground arith

  pub every-rstrip : (s : Text) → every p s ≡ true → every p (rstrip q s) ≡ true
  unfolding rstrip
  every-rstrip [] h = h
  every-rstrip (c ∷ s) h = ground (arith, every-rstrip s, every-before_stripped c (rstrip q s))

pub every-drop : (p : ℕ → Bool) (n : ℕ) (s : Text) → every p s ≡ true → every p (drop n s) ≡ true
every-drop p zero s h = h
every-drop p (suc n) [] h = h
every-drop p (suc n) (c ∷ s) h = every-drop p n s (ground arith)

pub head-lstrip : (p : ℕ → Bool) (s : Text) → head_is p (lstrip p s) ≡ false
unfolding lstrip
head-lstrip p [] = refl
head-lstrip p (c ∷ s) = ground (arith, head-lstrip p s)

pub head-before_stripped :
    (p q : ℕ → Bool) (c : ℕ) (s : Text) → p c ≡ false → head_is p (before_stripped q c s) ≡ false
head-before_stripped p q c [] h = ground arith
head-before_stripped p q c (d ∷ s) h = h

pub head-rstrip : (p q : ℕ → Bool) (s : Text) → head_is p s ≡ false → head_is p (rstrip q s) ≡ false
unfolding rstrip
head-rstrip p q [] h = h
head-rstrip p q (c ∷ s) h = head-before_stripped p q c (rstrip q s) h

pub last-before_stripped :
    (p : ℕ → Bool) (c : ℕ) (s : Text)
    → last_is p s ≡ false
    → last_is p (before_stripped p c s) ≡ false
last-before_stripped p c [] h = ground arith
last-before_stripped p c (d ∷ s) h = h

pub last-rstrip : (p : ℕ → Bool) (s : Text) → last_is p (rstrip p s) ≡ false
unfolding rstrip
last-rstrip p [] = refl
last-rstrip p (c ∷ s) = last-before_stripped p c (rstrip p s) (last-rstrip p s)

abbrev pub not_comment : ℕ → Bool
not_comment c = not (is_comment c)

pub before_comment_cases :
    (s : Text)
    → ((before_comment s ≡ none) × (every not_comment s ≡ true))
      ⊎ ((t : Text) × (before_comment s ≡ some t) × (every not_comment t ≡ true))
unfolding before_comment
before_comment_cases [] = inl (refl, refl)
before_comment_cases (c ∷ s) = elim (Bool-cases (is_comment c)) [
  | inl e ↦ inr ([], rw e refl, refl)
  | inr e ↦ elim (before_comment_cases s) [
    | inl (n, h) ↦ inl (rw (e, n) refl, rw (e, h) refl)
    | inr (t, n, h) ↦ inr (c ∷ t, rw (e, n) refl, rw (e, h) refl)
  ]
]

pub every-before_comment :
    (p : ℕ → Bool) (s t : Text) → before_comment s ≡ some t → every p s ≡ true → every p t ≡ true
unfolding before_comment
every-before_comment p [] t e h = cc
every-before_comment p (c ∷ s) [] e h = refl
every-before_comment p (c ∷ s) (d ∷ t) e h = ground (arith, every-before_comment p s t)

pub every-strip_comment :
    (p : ℕ → Bool) (s : Text) → every p s ≡ true → every p (strip_comment s) ≡ true
unfolding strip_comment
every-strip_comment p s h = elim (before_comment_cases s) [
  | inl (n, _) ↦ rw n h
  | inr (t, n, _) ↦ rw n (every-rstrip p is_space t (every-before_comment p s t n h))
]

pub every-not_comment : (s : Text) → every not_comment (strip_comment s) ≡ true
unfolding strip_comment
every-not_comment s = elim (before_comment_cases s) [
  | inl (n, h) ↦ rw n h
  | inr (t, n, h) ↦ rw n (every-rstrip not_comment is_space t h)
]

pub every-strip : (p : ℕ → Bool) (s : Text) → every p s ≡ true → every p (strip s) ≡ true
unfolding strip
every-strip p s h = every-rstrip p is_space _ (every-lstrip p is_space s h)

-- A character that `lower` and the comment pattern leave: no capital letter, no '#' and no ';'.
abbrev pub is_plain : ℕ → Bool
is_plain c = not (leb b'A' c && leb c b'Z') && not (is_comment c)

abbrev pub not_capital : ℕ → Bool
not_capital c = not (leb b'A' c && leb c b'Z')

pub not_capital-lower : (c : ℕ) → not_capital (lower_char c) ≡ true
unfolding lower_char
not_capital-lower c = ground arith

pub every-lower : (s : Text) → every not_capital (lower s) ≡ true
unfolding lower
every-lower [] = refl
every-lower (c ∷ s) = rw (not_capital-lower c) (every-lower s)

pub every-and :
    (p q : ℕ → Bool) (s : Text)
    → every p s ≡ true
    → every q s ≡ true
    → every (λ c. p c && q c) s ≡ true
every-and p q [] h k = refl
every-and p q (c ∷ s) h k = ground (arith, every-and p q s)

pub plain-cleaned : (s : Text) → every is_plain (strip (strip_comment (lower (strip s)))) ≡ true
plain-cleaned s =
    let cleaned = lower (strip s) in
    every-and not_capital not_comment (strip (strip_comment cleaned))
      (every-strip not_capital _ (every-strip_comment not_capital cleaned (every-lower (strip s))))
      (every-strip not_comment _ (every-not_comment cleaned))
