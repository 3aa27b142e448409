-- ===== src/Csrf/Body.antt =====
-- What the application reads, and the cookie that it hands out.
use power_blockade.Base.{
  ◌≡◌, refl, ◌∙◌, ap, Bool, true, false, not, ◌&&◌, ◌||◌, Option, none, some, List, [], ◌∷◌, arith,
  ◌==◌, list_eq, nat_eq, if◌then◌else◌, Bool-cases, inl, inr,
}
use power_blockade.Base.Texts.{Text, text_eq}
use power_blockade.Csrf.{
  ScopeType, http, websocket, lifespan, Message, Request, Outcome, passed, refused, raised,
  read_body, given, is_form, submitted_token, received_messages, ascii, token_of, call_with_cookie,
  compare, csrf_http, csrf_call, by_type,
}
use power_blockade.Csrf.Guarded.{has_passed, matches, is_free, is_http, csrf_call-matches}

-- The body that the application reads, if it is called.
abbrev pub body_read : Outcome → Option Text
body_read (passed messages token cookie) = some (read_body messages)
body_read refused = none
body_read raised = none

abbrev pub IsFaithful : List Message → Outcome → Type 0
IsFaithful messages o = body_read o ≡ (if has_passed o then some (read_body messages) else none)

received-read : (r : Request) → read_body (received_messages r) ≡ read_body r.messages
unfolding received_messages read_body
received-read r = elim (Bool-cases (given r.header)) [
  | inl e ↦ rw e refl
  | inr n ↦ elim (Bool-cases (is_form r.content_type)) [
    | inl f ↦ rw (n, f) refl
    | inr k ↦ rw (n, k) refl
  ]
]

compare-IsFaithful :
    (token : Text) (o : Option Text) (r : Request) → IsFaithful r.messages (compare token o r)
unfolding compare call_with_cookie
compare-IsFaithful token none r = refl
compare-IsFaithful token (some []) r = refl
compare-IsFaithful token (some (c ∷ s)) r =
    faithful (ascii token && ascii (c ∷ s)) (token == (c ∷ s))
  where
    faithful :
        (a e : Bool)
        → IsFaithful r.messages (
            if a
            then if e then call_with_cookie token r (received_messages r) else refused
            else raised)
    faithful true true = ap some (received-read r)
    faithful true false = refl
    faithful false e = refl

typed-IsFaithful :
    (checked : Outcome) (messages : List Message) (t : ScopeType)
    → IsFaithful messages checked
    → IsFaithful messages (by_type checked messages t)
typed-IsFaithful checked messages http h = h
typed-IsFaithful checked messages websocket h = refl
typed-IsFaithful checked messages lifespan h = refl

module _ (exempt : List Text) (form_values : Text → Option (List Text)) (fresh : Text) where
  http-IsFaithful : (r : Request) → IsFaithful r.messages (csrf_http exempt form_values fresh r)
  unfolding csrf_http call_with_cookie
  http-IsFaithful r = elim (Bool-cases (is_free exempt r)) [
    | inl e ↦ rw e refl
    | inr n ↦ rw n (compare-IsFaithful (token_of fresh r.cookie) (submitted_token form_values r) r)
  ]

  -- The application reads the body that was sent whenever it is called, also where the check has
  -- read it before.
  pub csrf_call-IsFaithful :
      (r : Request) → IsFaithful r.messages (csrf_call exempt form_values fresh r)
  unfolding csrf_call
  csrf_call-IsFaithful r =
      typed-IsFaithful (csrf_http exempt form_values fresh r) r.messages r.scope_type
        (http-IsFaithful r)

-- The cookie that the answer sets, and the token that the application is told.
abbrev pub set_cookie : Outcome → Option Text
set_cookie (passed messages token cookie) = cookie
set_cookie _ = none

abbrev pub told : Outcome → Option Text
told (passed messages token cookie) = token
told _ = none

-- A page that needs no token hands out the one it drew.
page_passes :
    (exempt : List Text) (form_values : Text → Option (List Text)) (fresh : Text) (page : Request)
    → page.scope_type ≡ http
    → is_free exempt page ≡ true
    → page.cookie ≡ none
    → csrf_call exempt form_values fresh page ≡ passed page.messages (some fresh) (some fresh)
unfolding csrf_call csrf_http call_with_cookie
page_passes exempt form_values fresh page t free new =
    ap (by_type (csrf_http exempt form_values fresh page) page.messages) t
    ∙ ap
        (λ (b : Bool).
          if b
          then passed page.messages (some (token_of fresh page.cookie))
              (if given page.cookie then none else some (token_of fresh page.cookie))
          else compare (token_of fresh page.cookie) (submitted_token form_values page) page)
        free
    ∙ ap
        (λ (c : Option Text).
          passed page.messages (some (token_of fresh c))
            (if given c then none else some (token_of fresh c)))
        new

token_given : (fresh other : Text) → given (some other) ≡ true → token_of fresh (some other) ≡ other
token_given fresh [] h = absurd (ground arith)
token_given fresh (c ∷ s) h = refl

-- If a page that needs no token is asked for without a cookie, and the token that is drawn for it is
-- not empty and in ASCII, then a later request that has the cookie of its answer and submits the
-- token that the page was told reaches the application, whatever is drawn then.
pub form-passes :
    (exempt : List Text) (form_values : Text → Option (List Text)) (fresh later : Text)
    (page form : Request)
    → page.scope_type ≡ http
    → is_free exempt page ≡ true
    → page.cookie ≡ none
    → given (some fresh) ≡ true
    → ascii fresh ≡ true
    → form.cookie ≡ set_cookie (csrf_call exempt form_values fresh page)
    → submitted_token form_values form ≡ told (csrf_call exempt form_values fresh page)
    → has_passed (csrf_call exempt form_values later form) ≡ true
form-passes exempt form_values fresh later page form t free new some_token plain cookie token =
    let first = page_passes exempt form_values fresh page t free new in
    let sent : form.cookie ≡ some fresh = cookie ∙ ap set_cookie first in
    let submitted : submitted_token form_values form ≡ some fresh = token ∙ ap told first in
    let expected : token_of later form.cookie ≡ fresh =
      ap (token_of later) sent ∙ token_given later fresh some_token in
    let same : matches (token_of later form.cookie) (submitted_token form_values form) ≡ true =
      ap (λ (x : Text). matches x (submitted_token form_values form)) expected
      ∙ ap (matches fresh) submitted
      ∙ matches_self fresh some_token plain in
    csrf_call-matches exempt form_values later form
    ∙ last_true (not (is_http form.scope_type)) (is_free exempt form) _ same
  where
    matches_self : (x : Text) → given (some x) ≡ true → ascii x ≡ true → matches x (some x) ≡ true
    matches_self x h k = rw (h, k) ((text_eq.beq_iff x x).1 refl)

    last_true : (a b c : Bool) → c ≡ true → (a || (b || c)) ≡ true
    last_true a b c h = ground arith
