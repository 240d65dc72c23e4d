-- ===== src/Permissions/Internet.antt =====
-- atomic/internet.ts: the requests that an extension may make. `parse_url` is the constructor `URL` of
-- the platform, which throws where it is `none`; a value that is no string is `none`.
pub mod Scope
use Prim.Native.String.{[] as nil, ◌∷◌ as cons}
use text.Mathlib.Text.{starts_with}
use kaede.Prelude.{
  ℕ, code, ◌+◌, String, Bool, true, false, ◌&&◌, ◌||◌, not, Option, none, some, List, [], ◌∷◌,
  str_eq, default, if◌then◌else◌, ◌==◌, ltb,
}
use kaede.Prelude.Text.{concat, ends_with}
use kaede.Outcome.{Outcome, ok, throw, type_error, refused, ◌>>=◌}

-- what is read of a `URL`
pub record Url : Type 0 where
  pub origin : String
  pub pathname : String

-- `scopePath`
abbrev pub scope_path : String → String
scope_path pathname = if ends_with pathname 47 then pathname else concat (pathname ∷ "/" ∷ [])

abbrev pub allowed_path : Url → Url → Bool
allowed_path request scope =
    str_eq request.pathname scope.pathname
    || starts_with request.pathname (scope_path scope.pathname)

abbrev pub check_scope : String → Url → Url → Outcome (Unit {0})
check_scope input request scope =
    if not (str_eq request.origin scope.origin) || not (allowed_path request scope)
    then throw (refused input)
    else ok tt

abbrev required : String → Option Url → Outcome Url
required input none = throw (type_error input)
required input (some url) = ok url

module _ (parse_url : String → Option Url) where
  unfoldable pub guard : Option String → String → Outcome (Unit {0})
  guard none allowed = throw (type_error "The input URL for the fetch should be a string")
  guard (some input) allowed = do
    request ← required input (parse_url input)
    scope ← required allowed (parse_url allowed)
    check_scope input request scope

-- The types of a body that are told apart.
pub data Body : Type 0 where
  absent other : Body
  text_body : String → Body
  bytes : List ℕ → Body

abbrev pub is_valid_body : Body → Bool
is_valid_body absent = true
is_valid_body other = false
is_valid_body (text_body s) = true
is_valid_body (bytes b) = true

-- Whether a text in lower case, here on ASCII letters, is another.
unfoldable pub lowered_eq : String → String → Bool
lowered_eq nil nil = true
lowered_eq nil (cons d t) = false
lowered_eq (cons c s) nil = false
lowered_eq (cons c s) (cons d t) =
    let rest = lowered_eq s t in
    (if ltb 64 (code c) && ltb (code c) 91 then code c + 32 == code d else code c == code d) && rest

abbrev pub content_types : List String
content_types =
    "text/plain" ∷ "image/gif" ∷ "image/jpeg" ∷ "image/png" ∷ "video/mpeg" ∷ "video/mp4"
    ∷ "video/webm" ∷ "application/json; charset=utf-8" ∷ "application/json;charset=utf-8"
    ∷ "application/json" ∷ "application/zip" ∷ "application/x-www-form-urlencoded"
    ∷ "application/ogg" ∷ "audio/mpeg" ∷ []

unfoldable pub is_listed : String → List String → Bool
is_listed content_type [] = false
is_listed content_type (allowed ∷ rest) =
    lowered_eq content_type allowed || is_listed content_type rest

unfoldable pub validate_request_data : Body → Option String → Outcome (Unit {0})
validate_request_data body none =
    if is_valid_body body
    then throw (type_error "The request 'Content-Type' header must be a string")
    else throw (type_error "The request body must be a string")
validate_request_data body (some content_type) =
    if not (is_valid_body body)
    then throw (type_error "The request body must be a string")
    else if is_listed content_type content_types
    then ok tt
    else throw (refused "The provided content type is not allowed")

-- The third argument of a request: `undefined`, a value that is no string, or a string.
pub data GivenType : Type 0 where
  omitted not_a_text : GivenType
  type_text : String → GivenType

-- `contentType = "text/plain"`; a value that is no string is `none`
abbrev pub or_plain : GivenType → Option String
or_plain omitted = some "text/plain"
or_plain not_a_text = none
or_plain (type_text content_type) = some content_type

-- What is handed to `fetch`; redirects are never followed.
pub record Request : Type 0 where
  pub url : String
  pub method : String
  pub body : Body
  pub content_type : Option String

abbrev url_of_input : Option String → String
url_of_input input = default "" input

module _ (parse_url : String → Option Url) (argument : String) where
  -- `webFetch` and `tauriFetch` of the scope "http-get", up to the call of `fetch`
  unfoldable pub get_request : Option String → Outcome Request
  get_request url = do
    passed ← guard parse_url url argument
    ok (record { url = url_of_input url; method = "GET"; body = absent; content_type = none })

  -- `webFetch` and `tauriFetch` of the scope "http-post", up to the call of `fetch`
  unfoldable pub post_request : Option String → Body → GivenType → Outcome Request
  post_request url body given = do
    valid ← validate_request_data body (or_plain given)
    passed ← guard parse_url url argument
    ok (record {
      url = url_of_input url;
      method = "POST";
      body = body;
      content_type = or_plain given;
    })
