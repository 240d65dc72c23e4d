-- ===== src/Auth/Requests/Microsoft/Filled.antt =====
-- The tokens that requestMicrosoftTokens gives are not empty.
use Prim.Native.String.{[] as empty, ◌∷◌ as cons}
use mathlib.Core.Path.{subst}
use kaede.Prelude.{String, Bool, true, false, Option, none, some, ◌≡◌, if◌then◌else◌}
use kaede.Outcome.{Outcome, ok}
use kaede.Exec.{lift, >>=-eq-ok, pure_inj}
use kaede.Json.{as_text, member}
use kaede.Network.Http.{Response}
use kaede.Auth.Types.{Web, MicrosoftTokens}
use kaede.Auth.Requests.Microsoft.{
  Grant, not_empty, filled_text, required, refuse, read_tokens, request_microsoft_tokens,
}

-- The text is not empty.
abbrev pub IsFilled : String → Type 0
IsFilled empty = ⊥
IsFilled (cons c s) = Unit

pub required-IsFilled :
    {S : Type 0} (message : String) (o : Option String) (s : String) (t t' : S)
    → ◌≡◌ {A = Outcome String × S} (required message (not_empty o), t) (ok s, t')
    → IsFilled s
required-IsFilled message none s t t' h = absurd (cc)
required-IsFilled message (some empty) s t t' h = absurd (cc)
required-IsFilled message (some (cons c r)) s t t' h =
    subst IsFilled (pure_inj (cons c r) s t t' h).0 tt

-- Both tokens are there.
abbrev pub AreFilled : MicrosoftTokens → Type 0
AreFilled tokens = IsFilled tokens.access_token × IsFilled tokens.refresh_token

module _ {S : Type 0} (web : Web S) where
  refuse-throws :
      (response : Response S) (tokens : MicrosoftTokens) (s s' : S)
      → refuse web response s ≡ (ok tokens, s')
      → ⊥
  unfolding refuse
  refuse-throws response tokens s s' h = cc

  read_tokens-AreFilled :
      (response : Response S) (tokens : MicrosoftTokens) (s s' : S)
      → read_tokens web response s ≡ (ok tokens, s')
      → AreFilled tokens
  read_tokens-AreFilled response tokens s s' h =
      let (parsed, t, _, more) = >>=-eq-ok response.json _ h in
      let (access, u, first, rest) =
        >>=-eq-ok (lift {S = S} (required _ (filled_text (member "access_token" (some parsed))))) _
          more in
      let (renewal, v, second, last) =
        >>=-eq-ok (lift {S = S} (required _ (filled_text (member "refresh_token" (some parsed))))) _
          rest in
      subst AreFilled (pure_inj _ tokens v s' last).0 (
        required-IsFilled _ (as_text (member "access_token" (some parsed))) access t u first,
        required-IsFilled _ (as_text (member "refresh_token" (some parsed))) renewal u v second,
      )

  of_response-AreFilled :
      (response : Response S) (is_ok : Bool) (tokens : MicrosoftTokens) (s s' : S)
      → (if is_ok then read_tokens web response else refuse web response) s ≡ (ok tokens, s')
      → AreFilled tokens
  of_response-AreFilled response true tokens s s' h = read_tokens-AreFilled response tokens s s' h
  of_response-AreFilled response false tokens s s' h = absurd (refuse-throws response tokens s s' h)

  pub request_microsoft_tokens-AreFilled :
      (grant : Grant) (tokens : MicrosoftTokens) (s s' : S)
      → request_microsoft_tokens web grant s ≡ (ok tokens, s')
      → AreFilled tokens
  unfolding request_microsoft_tokens
  request_microsoft_tokens-AreFilled grant tokens s s' h =
      let (response, t, _, more) = >>=-eq-ok (web.fetch _) _ h in
      of_response-AreFilled response response.is_ok tokens t s' more
