-- ===== src/Csrf.antt =====
-- The check of forms against requests from other sites: the middleware of admin-ui/app/csrf.py, with
-- the paths that admin-ui/app/main.py exempts. Texts are lists of code points, a body is a list of
-- bytes. How a body is read as a form, and the token that is drawn, are parameters.
pub mod Guarded
pub mod Body
mod Tests
use power_blockade.Base.{
  ℕ, Bool, true, false, not, ◌&&◌, ◌||◌, Option, none, some, List, [], ◌∷◌, ◌++◌, ◌==◌, list_eq,
  nat_eq, ltb, if◌then◌else◌, contains,
}
use power_blockade.Base.Texts.{Text, codes, starts_with}

-- `scope["type"]`
pub data ScopeType : Type 0 where
  http websocket lifespan : ScopeType

-- A message of the body, and whether more follow.
abbrev pub Message : Type 0
Message = Text × Bool

pub record Request : Type 0 where
  pub scope_type : ScopeType
  pub method : Text
  pub path : Text
  pub cookie : Option Text
  pub header : Option Text
  pub content_type : Text
  pub messages : List Message

-- What becomes of a request: the application is called with the messages, the token that it is told
-- and the cookie that its answer sets; or 403 is answered; or an exception is raised.
pub data Outcome : Type 0 where
  passed : List Message → Option Text → Option Text → Outcome
  refused : Outcome
  raised : Outcome

abbrev pub safe_methods : List Text
safe_methods = codes "GET" ∷ codes "HEAD" ∷ codes "OPTIONS" ∷ codes "TRACE" ∷ []

abbrev pub exempt_paths : List Text
exempt_paths = codes "/api/" ∷ codes "/health" ∷ codes "/metrics" ∷ codes "/grafana/" ∷ []

unfoldable pub is_exempt : List Text → Text → Bool
unfolding starts_with
is_exempt [] path = false
is_exempt (exempt ∷ paths) path = starts_with exempt path || is_exempt paths path

-- The messages up to the first that no other follows.
unfoldable pub read_body : List Message → Text
read_body [] = []
read_body ((body, more) ∷ messages) =
    let rest = read_body messages in if more then body ++ rest else body

-- `token or ...`: a missing and an empty text are false.
abbrev pub given : Option Text → Bool
given none = false
given (some []) = false
given (some (c ∷ s)) = true

-- `part in text`
unfoldable pub has_part : Text → Text → Bool
unfolding starts_with
has_part part [] = starts_with part []
has_part part (c ∷ s) = starts_with part (c ∷ s) || has_part part s

unfoldable pub is_form : Text → Bool
unfolding has_part
is_form content_type = has_part (codes "application/x-www-form-urlencoded") content_type

abbrev pub first_value : Option (List Text) → Option Text
first_value none = none
first_value (some []) = none
first_value (some (token ∷ values)) = some token

-- The token of the header, or else of the form.
unfoldable pub submitted_token : (Text → Option (List Text)) → Request → Option Text
unfolding is_form read_body
submitted_token form_values r =
    if given r.header
    then r.header
    else if is_form r.content_type
    then first_value (form_values (read_body r.messages))
    else r.header

-- What the application receives: a body that was read is sent once more as one message.
unfoldable pub received_messages : Request → List Message
unfolding is_form read_body
received_messages r =
    if given r.header
    then r.messages
    else if is_form r.content_type
    then (read_body r.messages, false) ∷ []
    else r.messages

abbrev pub ascii : Text → Bool
ascii [] = true
ascii (c ∷ s) = ltb c 128 && ascii s

-- The cookie, or else a new token.
abbrev pub token_of : Text → Option Text → Text
token_of fresh none = fresh
token_of fresh (some []) = fresh
token_of fresh (some (c ∷ s)) = c ∷ s

-- The cookie is set if the request had none.
unfoldable pub call_with_cookie : Text → Request → List Message → Outcome
call_with_cookie token r messages =
    passed messages (some token) (if given r.cookie then none else some token)

-- secrets.compare_digest, which raises for a text that is not ASCII.
unfoldable pub compare : Text → Option Text → Request → Outcome
unfolding call_with_cookie received_messages
compare token none r = refused
compare token (some []) r = refused
compare token (some (c ∷ s)) r =
    if ascii token && ascii (c ∷ s)
    then if token == (c ∷ s) then call_with_cookie token r (received_messages r) else refused
    else raised

unfoldable pub csrf_http : List Text → (Text → Option (List Text)) → Text → Request → Outcome
unfolding is_exempt compare call_with_cookie submitted_token
csrf_http exempt form_values fresh r =
    let token = token_of fresh r.cookie in
    if is_exempt exempt r.path || contains safe_methods r.method
    then call_with_cookie token r r.messages
    else compare token (submitted_token form_values r) r

-- Only HTTP is checked.
abbrev pub by_type : Outcome → List Message → ScopeType → Outcome
by_type checked messages http = checked
by_type checked messages websocket = passed messages none none
by_type checked messages lifespan = passed messages none none

-- `__call__`
unfoldable pub csrf_call : List Text → (Text → Option (List Text)) → Text → Request → Outcome
unfolding csrf_http
csrf_call exempt form_values fresh r =
    by_type (csrf_http exempt form_values fresh r) r.messages r.scope_type
