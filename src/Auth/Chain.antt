-- ===== src/Auth/Chain.antt =====
-- fetch-skin-as-base64.ts, complete-authentication-chain.ts and sign-in-with-microsoft.ts. The
-- window and the local server of authorizeInteractively are a parameter.
pub mod Usable
use Prim.Native.Char.{Char, code}
use Prim.Native.String.{[] as empty, ◌∷◌ as cons}
use kaede.Prelude.{
  String, Bool, true, false, Option, none, some, List, [], ◌∷◌, ◌==◌, default, str_eq,
  if◌then◌else◌,
}
use kaede.Outcome.{Outcome, Error, ok, throw, error, type_error}
use kaede.Exec.{Exec, pure, lift, attempt, ◌>>=◌, ◌>>◌}
use kaede.Network.Http.{Request, Response, of_url}
use kaede.Auth.Types.{
  Web, MicrosoftTokens, XboxToken, MinecraftToken, ProfileSkin, MinecraftProfile, StoredTokens,
  StoredSkin, UserAccount,
}
use kaede.Auth.Requests.Xbox.{ensure_ok, authenticate_with_xbox_live, authorize_with_xsts}
use kaede.Auth.Requests.Microsoft.{Grant, authorization_code, request_microsoft_tokens}
use kaede.Auth.Requests.Minecraft.{fetch_minecraft_token, fetch_minecraft_profile}

-- `skins.find(skin => skin.state === "ACTIVE")`
find_active : List ProfileSkin → Option ProfileSkin
find_active [] = none
find_active (skin ∷ skins) =
    let rest = find_active skins in if str_eq skin.state "ACTIVE" then some skin else rest

abbrev head_of : List ProfileSkin → Option ProfileSkin
head_of [] = none
head_of (skin ∷ skins) = some skin

abbrev or_head : Option ProfileSkin → List ProfileSkin → Option ProfileSkin
or_head (some skin) skins = some skin
or_head none skins = head_of skins

-- `toLowerCase`, as far as it can lead to "slim"
abbrev lower : Char → Char
lower c =
    if code c == b'S'
    then "s"
    else if code c == b'L'
    then "l"
    else if code c == b'I'
    then "i"
    else if code c == b'M'
    then "m"
    else c

to_lower_case : String → String
to_lower_case empty = ""
to_lower_case (cons c s) = cons (lower c) (to_lower_case s)

abbrev variant_of : String → String
variant_of variant = if str_eq (to_lower_case variant) "slim" then "slim" else "classic"

-- what follows the first comma, or the whole text
rest_after_comma : String → Option String
rest_after_comma empty = none
rest_after_comma (cons c s) =
    let rest = rest_after_comma s in if code c == b',' then some s else rest

abbrev base64_part : String → String
base64_part data_url = default data_url (rest_after_comma data_url)

abbrev no_skin : StoredSkin
no_skin = record { id = ""; skin_data = ""; url = ""; variant = "classic" }

abbrev stored_skin : ProfileSkin → String → StoredSkin
stored_skin skin texture = record {
  id = skin.id;
  skin_data = texture;
  url = skin.url;
  variant = variant_of skin.variant;
}

-- SignInStatusType
pub data SignInStatus : Type 0 where
  authorizing exchanging_code xbox_live xsts minecraft_token profile finalizing : SignInStatus

-- SignInResultType
pub data SignInResult : Type 0 where
  success : UserAccount → SignInResult
  failure : (reason : String) → SignInResult

-- `error instanceof Error ? error.message : …`
abbrev reason_of : Error → String
reason_of (error message) = message
reason_of (type_error message) = message
reason_of _ = "An unknown error occurred during the sign-in"

abbrev of_sign_in : Outcome UserAccount → SignInResult
of_sign_in (ok account) = success account
of_sign_in (throw e) = failure (reason_of e)

abbrev pub account_of :
    MicrosoftTokens → MinecraftToken → MinecraftProfile → StoredSkin → UserAccount
account_of microsoft_tokens token owner skin = record {
  msa =
      some (record { token = token.access_token; refresh_token = microsoft_tokens.refresh_token });
  uuid = owner.uuid;
  name = owner.name;
  type = "msa";
  skin = skin;
}

module _ {S : Type 0} (web : Web S) where
  download_texture : String → Exec S String
  unfolding rest_after_comma
  download_texture url = do
    response ← web.fetch (of_url url)
    ensure_ok "The skin texture request failed with the status " response
    data_url ← response.data_url
    pure (base64_part data_url)

  abbrev with_texture : ProfileSkin → Outcome String → Exec S StoredSkin
  with_texture skin (ok texture) = pure (stored_skin skin texture)
  with_texture skin (throw e) = pure (stored_skin skin "")

  abbrev fetch_active : Option ProfileSkin → Exec S StoredSkin
  fetch_active none = pure no_skin
  fetch_active (some skin) =
      if str_eq skin.url ""
      then pure no_skin
      else do texture ← attempt (download_texture skin.url); with_texture skin texture

  unfoldable pub fetch_skin_as_base64 : MinecraftProfile → Exec S StoredSkin
  unfolding find_active download_texture to_lower_case
  fetch_skin_as_base64 owner = fetch_active (or_head (find_active owner.skins) owner.skins)

  -- `onStatus?.(status)`
  abbrev report : Option (SignInStatus → Exec S (Unit {0})) → SignInStatus → Exec S (Unit {0})
  report none status = pure tt
  report (some on_status) status = on_status status

  unfoldable pub complete_authentication_chain :
      MicrosoftTokens → Option (SignInStatus → Exec S (Unit {0})) → Exec S UserAccount
  complete_authentication_chain microsoft_tokens on_status = do
    report on_status xbox_live
    xbox_live_token ← authenticate_with_xbox_live web microsoft_tokens.access_token
    report on_status xsts
    xsts_token ← authorize_with_xsts web xbox_live_token
    report on_status minecraft_token
    token ← fetch_minecraft_token web xsts_token
    report on_status profile
    owner ← fetch_minecraft_profile web token.access_token
    report on_status finalizing
    skin ← fetch_skin_as_base64 owner
    pure (account_of microsoft_tokens token owner skin)

  sign_in : Exec S Grant → Option (SignInStatus → Exec S (Unit {0})) → Exec S UserAccount
  sign_in authorize_interactively on_status = do
    report on_status authorizing
    grant ← authorize_interactively
    report on_status exchanging_code
    microsoft_tokens ← request_microsoft_tokens web grant
    complete_authentication_chain microsoft_tokens on_status

  unfoldable pub sign_in_with_microsoft :
      Exec S Grant → Option (SignInStatus → Exec S (Unit {0})) → Exec S SignInResult
  unfolding sign_in
  sign_in_with_microsoft authorize_interactively on_status = do
    tried ← attempt (sign_in authorize_interactively on_status)
    pure (of_sign_in tried)
