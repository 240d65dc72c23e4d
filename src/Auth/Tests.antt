-- ===== src/Auth/Tests.antt =====
-- Runs of the sign-in and of the choice of the account, and an instance of each of their theorems.
use kaede.Prelude.{
  String, true, false, none, some, [], ◌∷◌, ◌≡◌, refl, str_eq, ◌==◌, get_elem?, if◌then◌else◌,
}
use kaede.Prelude.Text.{split, join}
use kaede.Prelude.Text.Decimal.{decimal}
use kaede.Prelude.Dictionary.{get, put}
use kaede.Outcome.{Outcome, ok, throw, rejected}
use kaede.Exec.{Exec, pure, lift}
use kaede.FileManager.{file_join}
use kaede.Json.{Json, Fields, number, text, array, object, nil, cons, end, field, read}
use kaede.Network.Http.{Fetch}
use kaede.Auth.Types.{Web, UserAccount}
use kaede.Auth.Jwt.{replace_url, to_base64, decode_jwt_payload}
use kaede.Auth.Jwt.Laws.{IsPadded, to_base64-IsPadded}
use kaede.Auth.Requests.Xbox.{authenticate_with_xbox_live, authorize_with_xsts}
use kaede.Auth.Requests.Microsoft.{Grant, authorization_code, request_microsoft_tokens}
use kaede.Auth.Requests.Minecraft.{fetch_minecraft_token, fetch_minecraft_profile}
use kaede.Auth.Chain.{
  SignInResult, success, fetch_skin_as_base64, complete_authentication_chain,
  sign_in_with_microsoft,
}
use kaede.Auth.Chain.Usable.{IsSound, sign_in_with_microsoft-IsSound}
use kaede.Auth.Fresh.{Freshness, refreshed, ensure_fresh_account, build_launch_auth}
use kaede.Auth.Fresh.Laws.{IsEnsured, ensure_fresh_account-IsEnsured}
use kaede.Auth.LaunchAccount.{AccountSources, write_accounts, resolve_launch_account}
use kaede.Auth.LaunchAccount.Laws.{resolve_launch_account-refreshed}
use kaede.Samples.{Machine, statuses, disk}

code : Unit {0}
unfolding split join decimal get put file_join read replace_url to_base64 decode_jwt_payload
    authenticate_with_xbox_live authorize_with_xsts request_microsoft_tokens fetch_minecraft_token
    fetch_minecraft_profile fetch_skin_as_base64 complete_authentication_chain
    sign_in_with_microsoft ensure_fresh_account build_launch_auth write_accounts
    resolve_launch_account
code = tt

abbrev entry : String → String → Fields → Fields
entry key value fields = field key (text value) fields

abbrev xbox : String → Json
xbox token = object (
    entry "Token" token (
      field "DisplayClaims"
        (object (field "xui" (array (cons (object (entry "uhs" "hash" end)) nil)) end)) end))

abbrev skins : Json
skins = array (
    cons (object (entry "state" "INACTIVE" (entry "url" "https://t/1" end))) (
      cons
        (object (
          entry "id" "2"
            (entry "state" "ACTIVE" (entry "url" "https://t/2" (entry "variant" "SLIM" end)))))
        nil))

-- The services of Microsoft and Minecraft, by the address.
abbrev answer : String → Outcome Json
answer url =
    if str_eq url "https://login.microsoftonline.com/consumers/oauth2/v2.0/token"
    then ok (object (entry "access_token" "ms" (entry "refresh_token" "next" end)))
    else if str_eq url "https://user.auth.xboxlive.com/user/authenticate"
    then ok (xbox "live")
    else if str_eq url "https://xsts.auth.xboxlive.com/xsts/authorize"
    then ok (xbox "xsts")
    else if str_eq url "https://api.minecraftservices.com/authentication/login_with_xbox"
    then ok (object (entry "access_token" "a.b.c" end))
    else if str_eq url "https://api.minecraftservices.com/minecraft/profile"
    then ok (object (entry "id" "uuid" (entry "name" "Steve" (field "skins" skins end))))
    else throw (rejected url)

abbrev serve : Fetch Machine
serve request = pure (record {
  is_ok = true;
  status = 200;
  json = lift (answer request.url);
  data_url = pure "data:image/png;base64,AAA";
})

abbrev web : Web Machine
web = record {
  fetch = serve;
  stringify = λ json. "";
  encode_form = λ fields. "";
  now = λ s. 2000000;
  parse_base64 = λ t. some (object (field "exp" (number 2000) (entry "xuid" "x" end)));
}

abbrev stale : UserAccount
stale = record {
  msa = some (record { token = "old.old.old"; refresh_token = "old" });
  uuid = "uuid";
  name = "Steve";
  type = "msa";
  skin = record { id = ""; skin_data = ""; url = ""; variant = "classic" };
}

abbrev offline : UserAccount
offline = record stale { msa = none; name = "Alex"; type = "legacy" }

abbrev renewed : UserAccount
renewed = record stale {
  msa = some (record { token = "a.b.c"; refresh_token = "next" });
  skin = record { id = "2"; skin_data = "AAA"; url = "https://t/2"; variant = "slim" };
}

abbrev start : Machine
start = ([], statuses)

refresh_stale : ensure_fresh_account web stale false start ≡ (ok (renewed, refreshed), start)
unfolding code
refresh_stale = refl

abbrev given : Exec Machine Grant
given = pure (authorization_code "code" "http://localhost:1" "verifier")

sign_in_steve : sign_in_with_microsoft web given none start ≡ (ok (success renewed), start)
unfolding code
sign_in_steve = refl

sign_in_with_microsoft-IsSound_example :
    (result : SignInResult) × (s' : Machine) × (sign_in_with_microsoft web given none start
      ≡ (ok result, s'))
    × IsSound web given none result
sign_in_with_microsoft-IsSound_example = sign_in_with_microsoft-IsSound web given none start

ensure_fresh_account-IsEnsured_example :
    (r : UserAccount × Freshness) × (s' : Machine) × (ensure_fresh_account web stale false start
      ≡ (ok r, s'))
    × IsEnsured web stale false r.0 r.1 start s'
ensure_fresh_account-IsEnsured_example = ensure_fresh_account-IsEnsured web stale false start

abbrev sources : AccountSources Machine
sources = record {
  web = web;
  files = disk;
  base_directory = "/k";
  is_valid_account = λ account. true;
  stringify_accounts = λ accounts. "accounts";
  confirm = pure true;
}

-- The second account is selected and refreshed: the first is lost, and the old second one stays.
resolve_launch_account-refreshed_example :
    (s' : Machine) × (resolve_launch_account sources 1 (offline ∷ stale ∷ []) start
      ≡ (ok (some (build_launch_auth web renewed, renewed ∷ stale ∷ [])), s'))
    × (get_elem? (renewed ∷ stale ∷ []) 1 ≡ (if 1 == 0 then some renewed else some stale))
resolve_launch_account-refreshed_example =
    resolve_launch_account-refreshed sources 1 (offline ∷ stale ∷ []) stale renewed start start refl
      refresh_stale

to_base64-IsPadded_example : IsPadded "a-b_c" (to_base64 "a-b_c")
to_base64-IsPadded_example = to_base64-IsPadded "a-b_c"

aligned : to_base64 "a-b_" ≡ "a+b/"
unfolding code
aligned = refl

padded : to_base64 "a-b_c" ≡ "a+b/c==="
unfolding code
padded = refl
