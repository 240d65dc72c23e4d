-- ===== src/Auth/Requests/Microsoft.antt =====
-- request-microsoft-tokens.ts: tokens for an authorization code or a refresh token.
pub mod Filled
use Prim.Native.String.{[] as empty, ◌∷◌ as cons}
use kaede.Prelude.{
  String, ℕ, zero, suc, Option, none, some, List, [], ◌∷◌, ◌++◌, default, if◌then◌else◌,
}
use kaede.Prelude.Text.{concat}
use kaede.Prelude.Text.Decimal.{decimal}
use kaede.Outcome.{Outcome, ok, throw, error}
use kaede.Exec.{Exec, pure, lift, attempt, ◌>>=◌}
use kaede.Json.{Json, null, text, member, as_text, as_number}
use kaede.Network.Http.{Request, Response}
use kaede.Auth.Types.{Web, MicrosoftTokens}

pub data Grant : Type 0 where
  authorization_code : (code redirect_uri code_verifier : String) → Grant
  refresh_token : String → Grant

abbrev grant_fields : Grant → List (String × String)
grant_fields (authorization_code code redirect_uri code_verifier) =
    ("grant_type", "authorization_code")
    ∷ ("code", code)
    ∷ ("redirect_uri", redirect_uri)
    ∷ ("code_verifier", code_verifier)
    ∷ []
grant_fields (refresh_token token) = ("grant_type", "refresh_token") ∷ ("refresh_token", token) ∷ []

abbrev pub form_of : Grant → List (String × String)
form_of grant =
    ("client_id", "a9f7486a-d5c3-466f-8fb5-295b7ea892ce")
    ∷ ("scope", "XboxLive.signin offline_access")
    ∷ grant_fields grant

-- s.slice(0, n)
slice_to : ℕ → String → String
slice_to zero s = ""
slice_to (suc n) empty = ""
slice_to (suc n) (cons c s) = cons c (slice_to n s)

-- `parsed?.error_description ?? …`; `slice` of a value that is no text throws
abbrev description_of : Option Json → Option String
description_of none = some "no description"
description_of (some null) = some "no description"
description_of (some (text s)) = some s
description_of _ = none

details_with : Json → Option String → String
unfolding slice_to
details_with parsed none = "unknown"
details_with parsed (some description) = concat (
    default "unknown" (as_text (member "error" (some parsed)))
    ∷ ": "
    ∷ slice_to 256 description
    ∷ [])

details_of : Outcome Json → String
unfolding details_with
details_of (throw e) = "unknown"
details_of (ok parsed) =
    details_with parsed (description_of (member "error_description" (some parsed)))

-- a text that is not empty
abbrev pub not_empty : Option String → Option String
not_empty none = none
not_empty (some empty) = none
not_empty (some (cons c s)) = some (cons c s)

abbrev pub filled_text : Option Json → Option String
filled_text json = not_empty (as_text json)

abbrev pub required : String → Option String → Outcome String
required message none = throw (error message)
required message (some s) = ok s

module _ {S : Type 0} (web : Web S) where
  refuse : Response S → Exec S MicrosoftTokens
  unfolding details_of
  refuse response = do
    parsed ← attempt response.json
    lift (
        throw (
          error (
            concat (
              "The Microsoft token request failed with the status "
              ∷ decimal response.status
              ∷ " ("
              ∷ details_of parsed
              ∷ ")"
              ∷ []))))

  abbrev read_tokens : Response S → Exec S MicrosoftTokens
  read_tokens response = do
    parsed ← response.json
    access_token ← lift (
        required "The Microsoft token response is missing the access token"
          (filled_text (member "access_token" (some parsed))))
    renewal ← lift (
        required
          "The Microsoft token response is missing the refresh token. Is the 'offline_access' scope present?"
          (filled_text (member "refresh_token" (some parsed))))
    pure (record {
      access_token = access_token;
      refresh_token = renewal;
      expires_in = default 3600 (as_number (member "expires_in" (some parsed)));
    })

  unfoldable pub request_microsoft_tokens : Grant → Exec S MicrosoftTokens
  unfolding refuse
  request_microsoft_tokens grant = do
    response ← web.fetch (record {
      url = "https://login.microsoftonline.com/consumers/oauth2/v2.0/token";
      method = "POST";
      headers = ("Origin", "") ∷ ("Content-Type", "application/x-www-form-urlencoded") ∷ [];
      body = some (web.encode_form (form_of grant));
    })
    (if response.is_ok then read_tokens response else refuse response)
