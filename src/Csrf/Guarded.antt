-- ===== src/Csrf/Guarded.antt =====
-- What passes the check, and that the application reads what was sent.
use power_blockade.Base.{
  ◌≡◌, refl, ap, Bool, true, false, not, ◌&&◌, ◌||◌, Option, none, some, List, [], ◌∷◌, ◌==◌,
  list_eq, nat_eq, if◌then◌else◌, contains, Bool-cases, inl, inr,
}
use power_blockade.Base.Texts.{Text, text_eq}
use power_blockade.Csrf.{
  ScopeType, http, websocket, lifespan, Message, Request, Outcome, passed, refused, raised,
  safe_methods, is_exempt, given, submitted_token, received_messages, ascii, token_of,
  call_with_cookie, compare, csrf_http, csrf_call, by_type,
}

abbrev pub has_passed : Outcome → Bool
has_passed (passed messages token cookie) = true
has_passed refused = false
has_passed raised = false

-- A token that is not empty, in ASCII, and the expected one.
abbrev pub matches : Text → Option Text → Bool
matches token none = false
matches token (some submitted) = given (some submitted) && (ascii submitted && token == submitted)

compared :
    (a b e : Bool) (o : Outcome)
    → has_passed o ≡ true
    → (e ≡ true → a ≡ b)
    → has_passed (if a && b then if e then o else refused else raised) ≡ (b && e)
compared true true true o h same = h
compared true true false o h same = refl
compared true false true o h same = refl
compared true false false o h same = refl
compared false true true o h same = same refl
compared false true false o h same = refl
compared false false e o h same = refl

compare-matches :
    (token : Text) (o : Option Text) (r : Request)
    → has_passed (compare token o r) ≡ matches token o
unfolding compare call_with_cookie
compare-matches token none r = refl
compare-matches token (some []) r = refl
compare-matches token (some (c ∷ s)) r =
    compared (ascii token) (ascii (c ∷ s)) (token == (c ∷ s))
      (call_with_cookie token r (received_messages r)) refl
      (λ e. ap ascii ((text_eq.beq_iff token (c ∷ s)).0 e))

abbrev pub is_http : ScopeType → Bool
is_http http = true
is_http websocket = false
is_http lifespan = false

-- Whether a request needs no token.
abbrev pub is_free : List Text → Request → Bool
is_free exempt r = is_exempt exempt r.path || contains safe_methods r.method

typed_passes :
    (checked : Outcome) (messages : List Message) (b : Bool) (t : ScopeType)
    → has_passed checked ≡ b
    → has_passed (by_type checked messages t) ≡ (not (is_http t) || b)
typed_passes checked messages b http h = h
typed_passes checked messages b websocket h = refl
typed_passes checked messages b lifespan h = refl

module _ (exempt : List Text) (form_values : Text → Option (List Text)) (fresh : Text) where
  csrf_http-matches :
      (r : Request)
      → has_passed (csrf_http exempt form_values fresh r)
        ≡ (is_free exempt r || matches (token_of fresh r.cookie) (submitted_token form_values r))
  unfolding csrf_http call_with_cookie
  csrf_http-matches r = elim (Bool-cases (is_free exempt r)) [
    | inl e ↦ rw e refl
    | inr n ↦ rw n (compare-matches (token_of fresh r.cookie) (submitted_token form_values r) r)
  ]

  -- A request reaches the application exactly if it is no HTTP request, or its path is exempt or its
  -- method safe, or it submits a token that is not empty, in ASCII, and equal to that of its cookie,
  -- or, if it has no cookie, to the token that was drawn for it just now.
  pub csrf_call-matches :
      (r : Request)
      → has_passed (csrf_call exempt form_values fresh r) ≡ (
          not (is_http r.scope_type)
          || (is_free exempt r
              || matches (token_of fresh r.cookie) (submitted_token form_values r)))
  unfolding csrf_call
  csrf_call-matches r =
      typed_passes (csrf_http exempt form_values fresh r) r.messages _ r.scope_type
        (csrf_http-matches r)
