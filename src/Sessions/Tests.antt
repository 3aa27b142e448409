-- ===== src/Sessions/Tests.antt =====
-- Two users, and a browser that fails once.
use power_blockade.Base.{ℕ, String, ◌≡◌, refl, none, some, List, [], ◌∷◌, ◌==◌, list_eq, nat_eq}
use power_blockade.Base.Texts.{codes}
use power_blockade.Admin.{get_row}
use power_blockade.Sessions.{
  User, Hashing, Event, login, leave, get_current_user, browse, login_post, by_name,
  verify_password, prehash_if_needed,
}
use power_blockade.Sessions.Authentic.{IsProven, browse-IsProven}

abbrev plain : Hashing
plain = record {
  encode = λ s. s;
  sha256_hex = λ s. [];
  checkpw = λ password stored. some (password == stored);
}

abbrev user : ℕ → String → User
user id name = record { id = id; username = codes name; password_hash = codes "pw" }

abbrev users : List User
users = user 1 "a" ∷ user 2 "b" ∷ []

abbrev events : List Event
events =
    login (codes "a") (codes "pw")
    ∷ leave
    ∷ login (codes "b") (codes "pw")
    ∷ login (codes "a") (codes "no")
    ∷ []

b_is_in : get_current_user (browse plain users events none) users ≡ some (user 2 "b")
unfolding get_current_user browse login_post by_name verify_password prehash_if_needed get_row
b_is_in = refl

browse-IsProven_example : IsProven plain users events 2
browse-IsProven_example = browse-IsProven plain users events (user 2 "b") b_is_in
