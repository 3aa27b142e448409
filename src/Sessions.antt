-- ===== src/Sessions.antt =====
-- Who is logged in: admin-ui/app/routers/auth.py and verify_password of admin-ui/app/security.py, over
-- the rows of admin-ui/app/models/user.py. The hash functions are parameters.
pub mod Authentic
mod Tests
use power_blockade.Base.{
  ℕ, Bool, true, false, not, ◌&&◌, Option, none, some, List, [], ◌∷◌, ◌++◌, ◌==◌, list_eq, nat_eq,
  ltb, if◌then◌else◌, length,
}
use power_blockade.Base.Texts.{Text}
use power_blockade.Admin.{get_row}

pub record User : Type 0 where
  pub id : ℕ
  pub username : Text
  pub password_hash : Text

abbrev pub user_id : User → ℕ
user_id u = u.id

-- `encode("utf-8")`, the hexadecimal SHA-256 in bytes, and bcrypt.checkpw, which is none where it
-- raises ValueError or TypeError.
pub record Hashing : Type 0 where
  pub encode : Text → Text
  pub sha256_hex : Text → Text
  pub checkpw : Text → Text → Option Bool

-- A password of more than 72 bytes is replaced by its digest.
unfoldable pub prehash_if_needed : Hashing → Text → Text
prehash_if_needed h password =
    let b = h.encode password in if ltb 72 (length b) then h.sha256_hex b else b

abbrev pub or_false : Option Bool → Bool
or_false none = false
or_false (some b) = b

unfoldable pub verify_password : Hashing → Text → Text → Bool
unfolding prehash_if_needed
verify_password h password password_hash =
    or_false (h.checkpw (prehash_if_needed h password) (h.encode password_hash))

-- The user of a name, which is unique.
unfoldable pub by_name : Text → List User → Option User
by_name name [] = none
by_name name (u ∷ users) =
    let rest = by_name name users in if u.username == name then some u else rest

-- The session's "user_id".
abbrev pub Session : Type 0
Session = Option ℕ

-- A missing id, and the id 0, are nobody's.
unfoldable pub get_current_user : Session → List User → Option User
unfolding get_row
get_current_user none users = none
get_current_user (some id) users = if id == 0 then none else get_row user_id id users

-- The session after the form, and whether it was accepted.
abbrev pub login_found : Hashing → Text → Session → Option User → Session × Bool
login_found h password s none = (s, false)
login_found h password s (some u) =
    if verify_password h password u.password_hash then (some u.id, true) else (s, false)

unfoldable pub login_post : Hashing → List User → Text → Text → Session → Session × Bool
unfolding by_name verify_password
login_post h users username password s = login_found h password s (by_name username users)

abbrev pub logout : Session → Session
logout s = none

-- What one browser sends.
pub data Event : Type 0 where
  login : Text → Text → Event
  leave : Event

unfoldable pub browse : Hashing → List User → List Event → Session → Session
unfolding login_post
browse h users [] s = s
browse h users (login username password ∷ events) s =
    browse h users events (login_post h users username password s).0
browse h users (leave ∷ events) s = browse h users events (logout s)
