-- ===== src/Sessions/Authentic.antt =====
-- Whoever is logged in has sent a password that verifies.
use power_blockade.Base.{
  ℕ, ◌≡◌, ◌⊎◌, refl, ap, sym, true, false, Option, none, some, List, [], ◌∷◌, arith, ◌==◌, list_eq,
  nat_eq, Bool-cases, inl, inr,
}
use power_blockade.Base.Texts.{Text}
use power_blockade.Admin.Rows.{get_row-key}
use power_blockade.Sessions.{
  User, Hashing, Session, Event, login, leave, user_id, verify_password, by_name, get_current_user,
  login_found, login_post, browse,
}

-- One of the events was a login with the name of the user of this id, and its password verifies.
abbrev pub IsProven : Hashing → List User → List Event → ℕ → Type 0
IsProven h users [] id = false ≡ true
IsProven h users (leave ∷ events) id = IsProven h users events id
IsProven h users (login username password ∷ events) id =
    ((u : User) × ((by_name username users ≡ some u)
        × ((u.id ≡ id) × (verify_password h password u.password_hash ≡ true))))
    ⊎ IsProven h users events id

abbrev IsHeld : Hashing → List User → List Event → Session → Type 0
IsHeld h users events none = Unit
IsHeld h users events (some id) = IsProven h users events id

module _ (h : Hashing) (users : List User) where
  -- A session after events, from one that was empty or is proven by what came before.
  found-proves :
      (username password : Text) (events : List Event) (s : Session) (o : Option User) (id : ℕ)
      → by_name username users ≡ o
      → (login_found h password s o).0 ≡ some id
      → IsProven h users (login username password ∷ events) id ⊎ (s ≡ some id)
  found-proves username password events s none id found after = inr after
  found-proves username password events s (some u) id found after =
      elim (Bool-cases (verify_password h password u.password_hash)) [
        | inl e ↦
            let same : some u.id ≡ some id = rw e at after in
            inl (inl (u, (found, (ground arith, e))))
        | inr n ↦ inr (rw n at after)
      ]

  browse-proves :
      (events : List Event) (s : Session) (id : ℕ)
      → browse h users events s ≡ some id
      → IsProven h users events id ⊎ (s ≡ some id)
  unfolding browse login_post
  browse-proves [] s id after = inr after
  browse-proves (leave ∷ events) s id after = elim (browse-proves events none id after) [
    | inl proven ↦ inl proven
    | inr e ↦ absurd (ground arith)
  ]
  browse-proves (login username password ∷ events) s id after =
      elim (browse-proves events (login_post h users username password s).0 id after) [
        | inl proven ↦ inl (inr proven)
        | inr e ↦ found-proves username password events s (by_name username users) id refl e
      ]

  current-id : (s : Session) (u : User) → get_current_user s users ≡ some u → s ≡ some u.id
  unfolding get_current_user
  current-id none u e = absurd (ground arith)
  current-id (some id) u e = elim (Bool-cases (id == 0)) [
    | inl zero_id ↦ absurd (ground arith)
    | inr n ↦ ap some (sym (get_row-key user_id id users u (rw n at e)))
  ]

  -- Whatever a browser with an empty session sends: if a user is logged in afterwards, then one of
  -- the events was a login under the name of a user with the same id, with a password that verifies
  -- against that user's hash.
  pub browse-IsProven :
      (events : List Event) (u : User)
      → get_current_user (browse h users events none) users ≡ some u
      → IsProven h users events u.id
  browse-IsProven events u e = elim (browse-proves events none u.id (current-id _ u e)) [
    | inl proven ↦ proven
    | inr n ↦ absurd (ground arith)
  ]
