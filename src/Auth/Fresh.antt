-- ===== src/Auth/Fresh.antt =====
-- ensure-fresh-account.ts and build-launch-auth.ts
pub mod Laws
use Prim.Native.Nat.{◌*◌}
use kaede.Meta.{Account}
use kaede.Prelude.{
  String, ℕ, ◌+◌, Bool, true, false, not, ◌&&◌, Option, none, some, ltb, default, if◌then◌else◌,
}
use kaede.Outcome.{Outcome, ok, throw}
use kaede.Exec.{Exec, pure, attempt, ◌>>=◌}
use kaede.Json.{Fields, read, as_number, as_text}
use kaede.Auth.Types.{Web, StoredTokens, UserAccount}
use kaede.Auth.Jwt.{decode_jwt_payload}
use kaede.Auth.Requests.Microsoft.{refresh_token, request_microsoft_tokens}
use kaede.Auth.Chain.{complete_authentication_chain}

-- EnsureFreshResultType
pub data Freshness : Type 0 where
  fresh refreshed failed : Freshness

-- MicrosoftAuth.ExpirationMargin, in milliseconds
abbrev pub expiration_margin : ℕ
expiration_margin = 300000

-- `payload?.key`
abbrev claim_number : Option Fields → String → Option ℕ
claim_number none key = none
claim_number (some payload) key = as_number (read key payload)

abbrev claim_text : Option Fields → String → Option String
claim_text none key = none
claim_text (some payload) key = as_text (read key payload)

abbrev of_refresh : UserAccount → Outcome UserAccount → UserAccount × Freshness
of_refresh account (ok renewed) = (renewed, refreshed)
of_refresh account (throw e) = (account, failed)

module _ {S : Type 0} (web : Web S) where
  -- in milliseconds, or zero to refresh the token
  abbrev pub expiration_of : String → ℕ
  expiration_of token =
      default 0 (claim_number (decode_jwt_payload web.parse_base64 token) "exp") * 1000

  -- `expiration - ExpirationMargin > Date.now()`
  abbrev pub is_valid_at : String → ℕ → Bool
  is_valid_at token now = ltb (now + expiration_margin) (expiration_of token)

  refresh : StoredTokens → Exec S UserAccount
  refresh msa = do
    microsoft_tokens ← request_microsoft_tokens web (refresh_token msa.refresh_token)
    complete_authentication_chain web microsoft_tokens none

  abbrev renew : UserAccount → StoredTokens → Exec S (UserAccount × Freshness)
  renew account msa = do tried ← attempt (refresh msa); pure (of_refresh account tried)

  abbrev ensure_fresh : UserAccount → Bool → Option StoredTokens → Exec S (UserAccount × Freshness)
  ensure_fresh account force_refresh none s = (ok (account, fresh), s)
  ensure_fresh account force_refresh (some msa) s =
      if not force_refresh && is_valid_at msa.token (web.now s)
      then (ok (account, fresh), s)
      else renew account msa s

  unfoldable pub ensure_fresh_account : UserAccount → Bool → Exec S (UserAccount × Freshness)
  unfolding refresh
  ensure_fresh_account account force_refresh = ensure_fresh account force_refresh account.msa

  abbrev auth_with : UserAccount → Option StoredTokens → Account
  auth_with account none = record {
    username = account.name;
    token = "none";
    uuid = account.uuid;
    type = "legacy";
    xuid = "";
  }
  auth_with account (some msa) = record {
    username = account.name;
    token = msa.token;
    uuid = account.uuid;
    type = "msa";
    xuid = default "" (claim_text (decode_jwt_payload web.parse_base64 msa.token) "xuid");
  }

  unfoldable pub build_launch_auth : UserAccount → Account
  build_launch_auth account = auth_with account account.msa
