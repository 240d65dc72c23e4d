-- ===== src/Auth/LaunchAccount.antt =====
-- resolve-launch-account.ts, with lib/configs/scopes/write-accounts.ts. The confirmation of the user
-- and the generated validator of an account are parameters.
pub mod Laws
use kaede.Meta.{Account}
use kaede.Prelude.{
  String, ℕ, Bool, true, false, Option, none, some, List, [], ◌∷◌, get_elem?, if◌then◌else◌,
}
use kaede.Outcome.{Outcome, ok, throw}
use kaede.Exec.{Exec, pure, attempt, ◌>>=◌, ◌>>◌}
use kaede.FileManager.{file_join}
use kaede.FileManager.JsonFile.{Files}
use kaede.Auth.Types.{Web, UserAccount}
use kaede.Auth.Fresh.{Freshness, fresh, refreshed, failed, ensure_fresh_account, build_launch_auth}

pub record AccountSources (S : Type 0) : Type 0 where
  pub web : Web S
  pub files : Files S
  pub base_directory : String
  pub is_valid_account : UserAccount → Bool
  pub stringify_accounts : List UserAccount → String
  pub confirm : Exec S Bool

-- `accounts.slice(1)`
abbrev pub rest_of : List UserAccount → List UserAccount
rest_of [] = []
rest_of (account ∷ accounts) = accounts

module _ {S : Type 0} (sources : AccountSources S) where
  all_valid : List UserAccount → Bool
  all_valid [] = true
  all_valid (account ∷ accounts) =
      let rest = all_valid accounts in if sources.is_valid_account account then rest else false

  abbrev is_written : Outcome (Unit {0}) → Bool
  is_written (ok done) = true
  is_written (throw e) = false

  abbrev write_file : List UserAccount → Exec S Bool
  write_file accounts = do
    written ← attempt (
        sources.files.write_text_file
          (file_join sources.files.delimiter (sources.base_directory ∷ "accounts.json" ∷ []))
          (sources.stringify_accounts accounts))
    pure (is_written written)

  unfoldable pub write_accounts : List UserAccount → Exec S Bool
  unfolding all_valid
  write_accounts accounts = if all_valid accounts then write_file accounts else pure false

  abbrev LaunchAccount : Type 0
  LaunchAccount = Option (Account × List UserAccount)

  abbrev keep : UserAccount → List UserAccount → Bool → Exec S LaunchAccount
  keep account accounts false = pure none
  keep account accounts true = pure (some (build_launch_auth sources.web account, accounts))

  abbrev of_status : UserAccount → List UserAccount → Freshness → Exec S LaunchAccount
  of_status account accounts failed = do
    to_continue ← sources.confirm
    keep account accounts to_continue
  of_status account accounts fresh = keep account accounts true
  of_status account accounts refreshed = do
    write_accounts (account ∷ rest_of accounts)
    keep account (account ∷ rest_of accounts) true

  abbrev of_active : List UserAccount → Option UserAccount → Exec S LaunchAccount
  of_active accounts none = pure none
  of_active accounts (some active) = do
    ensured ← ensure_fresh_account sources.web active false
    of_status ensured.0 accounts ensured.1

  -- `selected` is globalStates.selected.account
  unfoldable pub resolve_launch_account : ℕ → List UserAccount → Exec S LaunchAccount
  resolve_launch_account selected accounts = of_active accounts (get_elem? accounts selected)
