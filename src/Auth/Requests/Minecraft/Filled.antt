-- ===== src/Auth/Requests/Minecraft/Filled.antt =====
-- The token that fetchMinecraftToken gives is not empty.
use mathlib.Core.Path.{subst}
use kaede.Prelude.{some, ◌≡◌}
use kaede.Outcome.{ok}
use kaede.Exec.{lift, >>=-eq-ok, pure_inj}
use kaede.Json.{as_text, member}
use kaede.Auth.Types.{Web, XboxToken, MinecraftToken}
use kaede.Auth.Requests.Xbox.{ensure_ok}
use kaede.Auth.Requests.Microsoft.{filled_text, required}
use kaede.Auth.Requests.Microsoft.Filled.{IsFilled, required-IsFilled}
use kaede.Auth.Requests.Minecraft.{fetch_minecraft_token}

module _ {S : Type 0} (web : Web S) where
  pub fetch_minecraft_token-IsFilled :
      (xsts_token : XboxToken) (token : MinecraftToken) (s s' : S)
      → fetch_minecraft_token web xsts_token s ≡ (ok token, s')
      → IsFilled token.access_token
  unfolding fetch_minecraft_token
  fetch_minecraft_token-IsFilled xsts_token token s s' h =
      let (response, t, _, more) = >>=-eq-ok (web.fetch _) _ h in
      let (_, u, _, rest) =
        >>=-eq-ok (ensure_ok "The Minecraft Services sign-in failed with the status " response) _
          more in
      let (parsed, v, _, last) = >>=-eq-ok response.json _ rest in
      let (access, w, first, end) =
        >>=-eq-ok (lift {S = S} (required _ (filled_text (member "access_token" (some parsed))))) _
          last in
      subst (λ (m : MinecraftToken). IsFilled m.access_token) (pure_inj _ token w s' end).0
        (required-IsFilled _ (as_text (member "access_token" (some parsed))) access v w first)
