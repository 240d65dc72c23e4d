-- ===== src/Auth/Types.antt =====
-- types/auth/microsoft-auth.type.ts and the stored accounts, with what the platform gives.
use kaede.Prelude.{String, ℕ, Option, List}
use kaede.Json.{Json}
use kaede.Network.Http.{Fetch}

-- `fetch`, `JSON.stringify`, `URLSearchParams`, `Date.now()`, and `JSON.parse` of what `atob` and
-- `TextDecoder` make of a text; the last is `none` where one of the three throws
pub record Web (S : Type 0) : Type 0 where
  pub fetch : Fetch S
  pub stringify : Json → String
  pub encode_form : List (String × String) → String
  pub now : S → ℕ
  pub parse_base64 : String → Option Json

-- MicrosoftTokensType
pub record MicrosoftTokens : Type 0 where
  pub access_token : String
  pub refresh_token : String
  pub expires_in : ℕ

-- XboxTokenType
pub record XboxToken : Type 0 where
  pub token : String
  pub userhash : String

-- MinecraftTokenType
pub record MinecraftToken : Type 0 where
  pub access_token : String
  pub expires_in : ℕ

pub record ProfileSkin : Type 0 where
  pub id : String
  pub state : String
  pub url : String
  pub variant : String

-- MinecraftProfileType
pub record MinecraftProfile : Type 0 where
  pub uuid : String
  pub name : String
  pub skins : List ProfileSkin

-- the `msa`, `skin` and `profile` of AccountType
pub record StoredTokens : Type 0 where
  pub token : String
  pub refresh_token : String

pub record StoredSkin : Type 0 where
  pub id : String
  pub skin_data : String
  pub url : String
  pub variant : String

-- AccountType, with the three fields of `profile`
pub record UserAccount : Type 0 where
  pub msa : Option StoredTokens
  pub uuid : String
  pub name : String
  pub type : String
  pub skin : StoredSkin
