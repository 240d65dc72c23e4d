-- ===== src/Permissions/Tests.antt =====
-- Runs of the permissions, and an instance of each of their theorems.
use mathlib.Core.Bool.{true≢false}
use kaede.Prelude.{
  String, Bool, true, false, Option, none, some, List, [], ◌∷◌, ◌≡◌, ◌≢◌, ◌↔◌, refl, sym, ◌∙◌,
  str_eq, eq_iff, if◌then◌else◌,
}
use kaede.Prelude.Text.{split, ends_with}
use kaede.Prelude.Text.Splitting.{is_free}
use kaede.Prelude.Dictionary.{get, put}
use kaede.Outcome.{ok, throw, refused}
use kaede.Permissions.Handle.{http_get, performance, split_scopes, handle_permission}
use kaede.Permissions.Internet.{
  Url, omitted, type_text, text_body, Request, guard, lowered_eq, is_listed, validate_request_data,
  post_request,
}
use kaede.Permissions.Internet.Scope.{IsBelow, IsAllowed, guard_iff, post_request-IsAllowed}
use kaede.Permissions.Store.{
  answer_of, Permissions, granted, denied, request_permissions, grant_each,
  grant_static_permissions,
}
use kaede.Permissions.Store.Static.{AreGiven, grant_static_permissions-AreGiven}
use kaede.Permissions.Store.Answers.{AreAnswered, KeepsAnswers, request_permissions-AreAnswered}

code : Unit {0}
unfolding split ends_with is_free get put split_scopes handle_permission guard lowered_eq is_listed
    validate_request_data post_request request_permissions grant_each grant_static_permissions
code = tt

given : (s : String) → str_eq s "" ≡ false → s ≢ ""
given s h e = true≢false (sym ((eq_iff s "").1 e) ∙ h)

handle_permission_tests :
    (handle_permission "time::performance" ≡ ok performance)
    × (handle_permission "internet::http-get::https://l/a" ≡ ok (http_get "https://l/a"))
    -- the argument ends at a second pair of colons, as in the address of an IPv6 host
    × (handle_permission "internet::http-get::http://[::1]/" ≡ ok (http_get "http://["))
unfolding code
handle_permission_tests = (refl, refl, refl)

-- A table of parsed addresses in place of the platform's parser.
parse_url : String → Option Url
parse_url input =
    if str_eq input "https://l/a"
    then some (record { origin = "https://l"; pathname = "/a" })
    else if str_eq input "https://l/a/b"
    then some (record { origin = "https://l"; pathname = "/a/b" })
    else if str_eq input "https://l/ab"
    then some (record { origin = "https://l"; pathname = "/ab" })
    else none

guard_tests :
    (guard parse_url (some "https://l/a/b") "https://l/a" ≡ ok tt)
    × (guard parse_url (some "https://l/a") "https://l/a" ≡ ok tt)
    × (guard parse_url (some "https://l/a") "https://l/a/b" ≡ throw (refused "https://l/a"))
    × (guard parse_url (some "https://l/ab") "https://l/a" ≡ throw (refused "https://l/ab"))
unfolding code parse_url
guard_tests = (refl, refl, refl, refl)

guard_iff_example : (guard parse_url (some "https://l/a/b") "https://l/a" ≡ ok tt) ↔ (
    ◌≡◌ {A = String} "https://l" "https://l"
    × IsBelow
        (record { origin = "https://l"; pathname = "/a/b" })
        (record { origin = "https://l"; pathname = "/a" }))
unfolding parse_url
guard_iff_example =
    guard_iff parse_url "https://l/a/b" "https://l/a"
      (record { origin = "https://l"; pathname = "/a/b" })
      (record { origin = "https://l"; pathname = "/a" }) refl refl

abbrev sent : Request
sent = record {
  url = "https://l/a/b";
  method = "POST";
  body = text_body "x";
  content_type = some "Text/Plain";
}

post_request-IsAllowed_example :
    IsAllowed parse_url "https://l/a" "https://l/a/b" (text_body "x") (type_text "Text/Plain") sent
unfolding code parse_url
post_request-IsAllowed_example =
    post_request-IsAllowed parse_url "https://l/a" "https://l/a/b" (text_body "x")
      (type_text "Text/Plain") sent refl

-- Without a content type the body goes out as plain text.
post_request_by_default :
    post_request parse_url "https://l/a" (some "https://l/a/b") (text_body "x") omitted
    ≡ ok (record sent { content_type = some "text/plain" })
unfolding code parse_url
post_request_by_default = refl

-- A user who allows what is asked, and counts the questions by a list of the permissions.
abbrev ask : String → String → List String → Bool × List String
ask permission extension asked = (true, permission ∷ asked)

abbrev stored : Permissions
stored = ("e", ("time::date", false) ∷ []) ∷ []

abbrev after : Permissions
after = ("e", ("time::date", false) ∷ ("time::performance", true) ∷ []) ∷ []

request_permissions-AreAnswered_example :
    AreAnswered {U = List String} ask "e" after
      (some "time::date" ∷ some "time::performance" ∷ [])
      (denied ∷ granted performance ∷ [])
    × KeepsAnswers stored after
unfolding code
request_permissions-AreAnswered_example =
    request_permissions-AreAnswered ask "e" (some "time::date" ∷ some "time::performance" ∷ [])
      (denied ∷ granted performance ∷ []) (stored, []) (after, "time::performance" ∷ []) refl

abbrev granted_after : Permissions
granted_after = ("e", ("time::date", false) ∷ ("time::performance", true) ∷ []) ∷ []

grant_static_permissions-AreGiven_example :
    AreGiven "e" granted_after (("time::performance", performance) ∷ []) ("time::performance" ∷ [])
    × ((other permission : String)
        → other ≢ "e"
        → answer_of other permission granted_after ≡ answer_of other permission stored)
unfolding code
grant_static_permissions-AreGiven_example =
    grant_static_permissions-AreGiven {U = Unit {0}} "e" ("time::performance" ∷ [])
      (("time::performance", performance) ∷ []) (stored, tt) (granted_after, tt) refl
