-- ===== src/Auth/Chain/Usable.antt =====
-- The accounts that the chain makes have tokens that are not empty.
use mathlib.Core.Path.{subst}
use kaede.Prelude.{Option, some, ◌≡◌, refl}
use kaede.Outcome.{Outcome, ok, throw}
use kaede.Exec.{Exec, ◌>>=◌, >>=-eq-ok, pure_inj}
use kaede.Auth.Types.{
  Web, MicrosoftTokens, MinecraftToken, MinecraftProfile, StoredTokens, StoredSkin, UserAccount,
}
use kaede.Auth.Requests.Xbox.{authenticate_with_xbox_live, authorize_with_xsts}
use kaede.Auth.Requests.Microsoft.{Grant, request_microsoft_tokens}
use kaede.Auth.Requests.Microsoft.Filled.{IsFilled, request_microsoft_tokens-AreFilled}
use kaede.Auth.Requests.Minecraft.{fetch_minecraft_token, fetch_minecraft_profile}
use kaede.Auth.Requests.Minecraft.Filled.{fetch_minecraft_token-IsFilled}
use kaede.Auth.Chain.{
  SignInStatus, authorizing, exchanging_code, xbox_live, xsts, minecraft_token, profile, finalizing,
  SignInResult, success, failure, of_sign_in, report, account_of, fetch_skin_as_base64,
  complete_authentication_chain, sign_in, sign_in_with_microsoft,
}

-- An account of Microsoft with both tokens.
abbrev pub HasTokens : UserAccount → Type 0
HasTokens account =
    (msa : StoredTokens) × (account.msa ≡ some msa)
    × IsFilled msa.token
    × IsFilled msa.refresh_token

account_of-HasTokens :
    (tokens : MicrosoftTokens) (token : MinecraftToken) (owner : MinecraftProfile)
    (skin : StoredSkin)
    → IsFilled token.access_token
    → IsFilled tokens.refresh_token
    → HasTokens (account_of tokens token owner skin)
account_of-HasTokens tokens token owner skin h k =
    (record { token = token.access_token; refresh_token = tokens.refresh_token }, refl, h, k)

module _ {S : Type 0} (web : Web S) where
  pub complete_authentication_chain-HasTokens :
      (tokens : MicrosoftTokens) (on_status : Option (SignInStatus → Exec S (Unit {0})))
      (account : UserAccount) (s s' : S)
      → IsFilled tokens.refresh_token
      → complete_authentication_chain web tokens on_status s ≡ (ok account, s')
      → HasTokens account
  unfolding complete_authentication_chain
  complete_authentication_chain-HasTokens tokens on_status account s s' filled h =
      let (_, s1, _, h1) = >>=-eq-ok (report web on_status xbox_live) _ h in
      let (x, s2, _, h2) = >>=-eq-ok (authenticate_with_xbox_live web tokens.access_token) _ h1 in
      let (_, s3, _, h3) = >>=-eq-ok (report web on_status xsts) _ h2 in
      let (y, s4, _, h4) = >>=-eq-ok (authorize_with_xsts web x) _ h3 in
      let (_, s5, _, h5) = >>=-eq-ok (report web on_status minecraft_token) _ h4 in
      let (token, s6, got, h6) = >>=-eq-ok (fetch_minecraft_token web y) _ h5 in
      let (_, s7, _, h7) = >>=-eq-ok (report web on_status profile) _ h6 in
      let (owner, s8, _, h8) = >>=-eq-ok (fetch_minecraft_profile web token.access_token) _ h7 in
      let (_, s9, _, h9) = >>=-eq-ok (report web on_status finalizing) _ h8 in
      let (skin, s10, _, h10) = >>=-eq-ok (fetch_skin_as_base64 web owner) _ h9 in
      subst HasTokens (pure_inj (account_of tokens token owner skin) account s10 s' h10).0 (
        account_of-HasTokens tokens token owner skin
          (fetch_minecraft_token-IsFilled web y token s5 s6 got) filled)

  -- The tokens of a grant make an account.
  pub request_then_chain-HasTokens :
      (grant : Grant) (on_status : Option (SignInStatus → Exec S (Unit {0})))
      (account : UserAccount) (s s' : S)
      → (request_microsoft_tokens web grant >>= λ tokens.
            complete_authentication_chain web tokens on_status)
          s
        ≡ (ok account, s')
      → HasTokens account
  request_then_chain-HasTokens grant on_status account s s' h =
      let (tokens, t, got, more) = >>=-eq-ok (request_microsoft_tokens web grant) _ h in
      complete_authentication_chain-HasTokens tokens on_status account t s'
        (request_microsoft_tokens-AreFilled web grant tokens s t got).1 more

  module _ (authorize_interactively : Exec S Grant)
      (on_status : Option (SignInStatus → Exec S (Unit {0}))) where
    sign_in-HasTokens :
        (account : UserAccount) (s s' : S)
        → sign_in web authorize_interactively on_status s ≡ (ok account, s')
        → HasTokens account
    unfolding sign_in
    sign_in-HasTokens account s s' h =
        let (_, t, _, more) = >>=-eq-ok (report web on_status authorizing) _ h in
        let (grant, u, _, rest) = >>=-eq-ok authorize_interactively _ more in
        let (_, v, _, last) = >>=-eq-ok (report web on_status exchanging_code) _ rest in
        request_then_chain-HasTokens grant on_status account v s' last

    -- A sign-in that succeeds, of any outcome.
    abbrev pub IsSound : SignInResult → Type 0
    IsSound (success account) = HasTokens account
    IsSound (failure reason) = Unit

    of_sign_in-IsSound :
        (tried : Outcome UserAccount) (s s' : S)
        → sign_in web authorize_interactively on_status s ≡ (tried, s')
        → IsSound (of_sign_in tried)
    of_sign_in-IsSound (ok account) s s' h = sign_in-HasTokens account s s' h
    of_sign_in-IsSound (throw e) s s' h = tt

    -- signInWithMicrosoft always returns, whatever the window, the listener of the statuses and
    -- the services do; and if it succeeds, the account has a Minecraft token and a refresh token
    -- that are not empty.
    pub sign_in_with_microsoft-IsSound :
        (s : S)
        → (result : SignInResult) × (s' : S) × (sign_in_with_microsoft web authorize_interactively
              on_status s
            ≡ (ok result, s'))
          × IsSound result
    unfolding sign_in_with_microsoft
    sign_in_with_microsoft-IsSound s =
        let tried = sign_in web authorize_interactively on_status s in
        (of_sign_in tried.0, tried.1, refl, of_sign_in-IsSound tried.0 s tried.1 refl)
