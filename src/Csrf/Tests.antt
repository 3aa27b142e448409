-- ===== src/Csrf/Tests.antt =====
-- A page, and a form that is sent from it.
use power_blockade.Base.{◌≡◌, refl, true, false, not, ◌||◌, Option, none, some, List, [], ◌∷◌}
use power_blockade.Base.Texts.{Text, codes, starts_with}
use power_blockade.Csrf.{
  http, Request, exempt_paths, csrf_call, csrf_http, is_exempt, compare, call_with_cookie,
  submitted_token, is_form, has_part, read_body, token_of,
}
use power_blockade.Csrf.Guarded.{has_passed, matches, is_http, is_free, csrf_call-matches}
use power_blockade.Csrf.Body.{IsFaithful, csrf_call-IsFaithful, set_cookie, told, form-passes}

-- The values of a body that is one field.
abbrev one_field : Text → Option (List Text)
one_field body = some (body ∷ [])

abbrev page : Request
page = record {
  scope_type = http;
  method = codes "GET";
  path = codes "/login";
  cookie = none;
  header = none;
  content_type = [];
  messages = ([], false) ∷ [];
}

abbrev form : Request
form = record {
  scope_type = http;
  method = codes "POST";
  path = codes "/login";
  cookie = some (codes "ab12");
  header = none;
  content_type = codes "application/x-www-form-urlencoded";
  messages = (codes "ab", true) ∷ (codes "12", false) ∷ [];
}

form_refused :
    has_passed (csrf_call exempt_paths one_field (codes "x") (record form { cookie = none }))
    ≡ false
unfolding csrf_call csrf_http is_exempt compare submitted_token is_form has_part read_body
    starts_with
form_refused = refl

csrf_call-matches_example : has_passed (csrf_call exempt_paths one_field (codes "x") form) ≡ (
    not (is_http form.scope_type)
    || (is_free exempt_paths form
        || matches (token_of (codes "x") form.cookie) (submitted_token one_field form)))
csrf_call-matches_example = csrf_call-matches exempt_paths one_field (codes "x") form

csrf_call-IsFaithful_example :
    IsFaithful form.messages (csrf_call exempt_paths one_field (codes "x") form)
csrf_call-IsFaithful_example = csrf_call-IsFaithful exempt_paths one_field (codes "x") form

page_free : is_free exempt_paths page ≡ true
unfolding is_exempt starts_with
page_free = refl

cookie_kept : form.cookie ≡ set_cookie (csrf_call exempt_paths one_field (codes "ab12") page)
unfolding csrf_call csrf_http is_exempt call_with_cookie starts_with
cookie_kept = refl

token_sent :
    submitted_token one_field form ≡ told (csrf_call exempt_paths one_field (codes "ab12") page)
unfolding csrf_call csrf_http is_exempt call_with_cookie submitted_token is_form has_part read_body
    starts_with
token_sent = refl

form-passes_example : has_passed (csrf_call exempt_paths one_field (codes "x") form) ≡ true
form-passes_example =
    form-passes exempt_paths one_field (codes "ab12") (codes "x") page form refl page_free refl refl
      refl cookie_kept token_sent
