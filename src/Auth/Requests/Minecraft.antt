-- ===== src/Auth/Requests/Minecraft.antt =====
-- fetch-minecraft-token.ts and fetch-minecraft-profile.ts
pub mod Filled
use kaede.Prelude.{
  String, ℕ, Option, none, some, List, [], ◌∷◌, ◌==◌, default, str_eq, if◌then◌else◌,
}
use kaede.Prelude.Text.{concat}
use kaede.Outcome.{Outcome, ok, throw, error, type_error}
use kaede.Exec.{Exec, pure, lift, ◌>>=◌, ◌>>◌}
use kaede.Json.{
  Json, Items, null, text, array, object, nil, cons, end, field, member, as_text, as_number,
}
use kaede.Network.Http.{Request, Response}
use kaede.Auth.Types.{Web, XboxToken, MinecraftToken, ProfileSkin, MinecraftProfile}
use kaede.Auth.Requests.Xbox.{post_json, ensure_ok}
use kaede.Auth.Requests.Microsoft.{filled_text, required}

abbrev identity_of : XboxToken → Json
identity_of xsts_token = object (
    field "identityToken"
      (text (concat ("XBL3.0 x=" ∷ xsts_token.userhash ∷ ";" ∷ xsts_token.token ∷ []))) end)

-- `skin.id ?? ""`, of a text
abbrev text_or : String → String → Json → String
text_or d key skin = default d (as_text (member key (some skin)))

abbrev skin_of : Json → ProfileSkin
skin_of skin = record {
  id = text_or "" "id" skin;
  state = text_or "" "state" skin;
  url = text_or "" "url" skin;
  variant = text_or "CLASSIC" "variant" skin;
}

abbrev cons_skin : ProfileSkin → Outcome (List ProfileSkin) → Outcome (List ProfileSkin)
cons_skin skin (ok skins) = ok (skin ∷ skins)
cons_skin skin (throw e) = throw e

-- the `map`, which throws at a skin that is `null`
skins_in : Items → Outcome (List ProfileSkin)
skins_in nil = ok []
skins_in (cons null items) = throw (type_error "Cannot read properties of null")
skins_in (cons skin items) = cons_skin (skin_of skin) (skins_in items)

-- `(parsed.skins ?? []).map(…)`
skins_of : Option Json → Outcome (List ProfileSkin)
unfolding skins_in
skins_of none = ok []
skins_of (some null) = ok []
skins_of (some (array items)) = skins_in items
skins_of _ = throw (type_error "map is not a function")

abbrev is_text : String → Option Json → Outcome (Unit {0})
is_text expected (some (text s)) =
    if str_eq s expected
    then throw (error "The Microsoft account has no Minecraft profile")
    else ok tt
is_text expected _ = ok tt

abbrev named : Option String → Option String → Outcome (String × String)
named (some uuid) (some name) = ok (uuid, name)
named _ _ = throw (type_error "The Minecraft profile response is missing the UUID or the name")

module _ {S : Type 0} (web : Web S) where
  unfoldable pub fetch_minecraft_token : XboxToken → Exec S MinecraftToken
  fetch_minecraft_token xsts_token = do
    response ← web.fetch (
        post_json "https://api.minecraftservices.com/authentication/login_with_xbox"
          (web.stringify (identity_of xsts_token)))
    ensure_ok "The Minecraft Services sign-in failed with the status " response
    parsed ← response.json
    access_token ← lift (
        required "The Minecraft Services response is missing the access token"
          (filled_text (member "access_token" (some parsed))))
    pure (record {
      access_token = access_token;
      expires_in = default 86400 (as_number (member "expires_in" (some parsed)));
    })

  abbrev ensure_found : Response S → Exec S (Unit {0})
  ensure_found response =
      if response.status == 404
      then lift (
          throw (
            error
              "The Microsoft account does not own a Minecraft. Or, if you are using Game Pass, the profile was not created. Sign in to minecraft.net to fix the second issue"))
      else pure tt

  unfoldable pub fetch_minecraft_profile : String → Exec S MinecraftProfile
  unfolding skins_of
  fetch_minecraft_profile access_token = do
    response ← web.fetch (record {
      url = "https://api.minecraftservices.com/minecraft/profile";
      method = "GET";
      headers =
          ("Authorization", concat ("Bearer " ∷ access_token ∷ []))
          ∷ ("Accept", "application/json")
          ∷ [];
      body = none;
    })
    ensure_found response
    ensure_ok "The Minecraft profile request failed with the status " response
    parsed ← response.json
    lift (is_text "NOT_FOUND" (member "error" (some parsed)))
    names ←
        lift (named (as_text (member "id" (some parsed))) (as_text (member "name" (some parsed))))
    skins ← lift (skins_of (member "skins" (some parsed)))
    pure (record { uuid = names.0; name = names.1; skins = skins })
