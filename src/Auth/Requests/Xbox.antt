-- ===== src/Auth/Requests/Xbox.antt =====
-- authenticate-with-xbox-live.ts and authorize-with-xsts.ts
use kaede.Prelude.{String, Option, none, some, List, [], ◌∷◌, ◌==◌, str_eq, if◌then◌else◌}
use kaede.Prelude.Text.{concat}
use kaede.Prelude.Text.Decimal.{decimal}
use kaede.Outcome.{Outcome, ok, throw, error, type_error}
use kaede.Exec.{Exec, pure, lift, attempt, ◌>>=◌, ◌>>◌}
use kaede.Json.{
  Json, number, text, array, object, nil, cons, end, field, member, first_item, as_text,
}
use kaede.Network.Http.{Request, Response}
use kaede.Auth.Types.{Web, XboxToken}

-- the headers of the requests with a JSON body
abbrev pub json_headers : List (String × String)
json_headers = ("Content-Type", "application/json") ∷ ("Accept", "application/json") ∷ []

abbrev pub post_json : String → String → Request
post_json url body = record { url = url; method = "POST"; headers = json_headers; body = some body }

-- `if (!response.ok) throw new Error(…status)`
abbrev pub ensure_ok : {S : Type 0} → String → Response S → Exec S (Unit {0})
ensure_ok message response =
    if response.is_ok
    then pure tt
    else lift (throw (error (concat (message ∷ decimal response.status ∷ []))))

abbrev pub or_throw : {A : Type 0} → String → Option A → Outcome A
or_throw message none = throw (type_error message)
or_throw message (some a) = ok a

-- `parsed?.Token` and `parsed?.DisplayClaims?.xui?.[0]?.uhs`, both texts
abbrev both : Option String → Option String → Option XboxToken
both (some token) (some userhash) = some (record { token = token; userhash = userhash })
both _ _ = none

abbrev pub xbox_token_of : Json → Option XboxToken
xbox_token_of parsed =
    both (as_text (member "Token" (some parsed)))
      (as_text (member "uhs" (first_item (member "xui" (member "DisplayClaims" (some parsed))))))

abbrev xbox_live_properties : String → Json
xbox_live_properties access_token = object (
    field "AuthMethod" (text "RPS") (
      field "SiteName" (text "user.auth.xboxlive.com")
        (field "RpsTicket" (text (concat ("d=" ∷ access_token ∷ []))) end)))

abbrev xbox_live_body : String → Json
xbox_live_body access_token = object (
    field "Properties" (xbox_live_properties access_token)
      (field "RelyingParty" (text "http://auth.xboxlive.com") (field "TokenType" (text "JWT") end)))

abbrev xsts_properties : XboxToken → Json
xsts_properties xbox_live_token = object (
    field "SandboxId" (text "RETAIL")
      (field "UserTokens" (array (cons (text xbox_live_token.token) nil)) end))

abbrev xsts_body : XboxToken → Json
xsts_body xbox_live_token = object (
    field "Properties" (xsts_properties xbox_live_token) (
      field "RelyingParty" (text "rp://api.minecraftservices.com/")
        (field "TokenType" (text "JWT") end)))

-- XstsErrors
abbrev xsts_errors : List (String × String)
xsts_errors =
    ("2148916227", "The account is banned from Xbox")
    ∷ (
      "2148916233",
      "The account doesn't have an Xbox account. Once you sign up for one (or login through minecraft.net to create one), you can proceed with the login",
    )
    ∷ ("2148916235", "The account is from a country where Xbox Live is not available/banned")
    ∷ ("2148916236", "The account needs adult verification on Xbox page")
    ∷ ("2148916237", "The account needs adult verification on Xbox page")
    ∷ (
      "2148916238",
      "The account is a child (under 18) and cannot proceed unless the account is added to a Family by an adult",
    )
    ∷ (
      "2148916262",
      "Unknown error. See https://minecraft.wiki/w/Microsoft_authentication if there is additional information",
    )
    ∷ []

abbrev message_in : List (String × String) → String → String
message_in [] code = concat ("The XSTS authorization was denied (XErr: " ∷ code ∷ ")" ∷ [])
message_in ((known, message) ∷ errors) code =
    if str_eq known code then message else message_in errors code

-- `(parsed?.XErr ?? "unknown").toString()`, of a number or a text
abbrev xerr_text : Option Json → String
xerr_text (some (number n)) = decimal n
xerr_text (some (text s)) = s
xerr_text _ = "unknown"

module _ {S : Type 0} (web : Web S) where
  unfoldable pub authenticate_with_xbox_live : String → Exec S XboxToken
  authenticate_with_xbox_live access_token = do
    response ← web.fetch (
        post_json "https://user.auth.xboxlive.com/user/authenticate"
          (web.stringify (xbox_live_body access_token)))
    ensure_ok "The Xbox Live authentication failed with the status " response
    parsed ← response.json
    lift (
        or_throw "The Xbox Live response is missing the token or the userhash"
          (xbox_token_of parsed))

  -- the code of a body that is no JSON is unknown too
  abbrev xerr_of : Outcome Json → String
  xerr_of (throw e) = "unknown"
  xerr_of (ok parsed) = xerr_text (member "XErr" (some parsed))

  abbrev deny : Response S → Exec S XboxToken
  deny response = do
    parsed ← attempt response.json
    lift (throw (error (message_in xsts_errors (xerr_of parsed))))

  abbrev read_xsts : Response S → Exec S XboxToken
  read_xsts response = do
    ensure_ok "The XSTS authorization failed with the status " response
    parsed ← response.json
    lift (or_throw "The XSTS response is missing the token or the userhash" (xbox_token_of parsed))

  unfoldable pub authorize_with_xsts : XboxToken → Exec S XboxToken
  authorize_with_xsts xbox_live_token = do
    response ← web.fetch (
        post_json "https://xsts.auth.xboxlive.com/xsts/authorize"
          (web.stringify (xsts_body xbox_live_token)))
    (if response.status == 401 then deny response else read_xsts response)
