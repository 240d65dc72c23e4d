-- ===== src/Auth/LaunchAccount/Laws.antt =====
-- Which account a launch gets, and what becomes of the list of accounts.
use kaede.Prelude.{
  ℕ, zero, suc, false, some, List, [], ◌∷◌, ◌≡◌, refl, ◌∙◌, inl, inr, get_elem?, Bool-cases, ◌==◌,
  if◌then◌else◌, arith,
}
use kaede.Outcome.{ok}
use kaede.Exec.Total.{NeverThrows, pure-NeverThrows}
use kaede.FileManager.{file_join}
use kaede.Auth.Types.{UserAccount}
use kaede.Auth.Fresh.{Freshness, refreshed, ensure_fresh_account, build_launch_auth}
use kaede.Auth.LaunchAccount.{
  AccountSources, rest_of, all_valid, is_written, write_file, write_accounts, of_status,
  resolve_launch_account,
}

module _ {S : Type 0} (sources : AccountSources S) where
  write_file-NeverThrows : (accounts : List UserAccount) → NeverThrows (write_file sources accounts)
  write_file-NeverThrows accounts s =
      let written =
        sources.files.write_text_file
          (file_join sources.files.delimiter (sources.base_directory ∷ "accounts.json" ∷ []))
          (sources.stringify_accounts accounts) s in
      (is_written sources written.0, written.1, refl)

  pub write_accounts-NeverThrows :
      (accounts : List UserAccount) → NeverThrows (write_accounts sources accounts)
  unfolding write_accounts
  write_accounts-NeverThrows accounts s = elim (Bool-cases (all_valid sources accounts)) [
    | inl e ↦ rw e (write_file-NeverThrows accounts s)
    | inr e ↦ rw e (pure-NeverThrows false s)
  ]

  of_refreshed :
      (account : UserAccount) (accounts : List UserAccount) (s : S)
      → (s' : S) × (of_status sources account accounts refreshed s
          ≡ (ok (some (build_launch_auth sources.web account, account ∷ rest_of accounts)), s'))
  of_refreshed account accounts s =
      let (done, t, e) = write_accounts-NeverThrows (account ∷ rest_of accounts) s in (t, rw e)

  of_known :
      (selected : ℕ) (accounts : List UserAccount) (active : UserAccount)
      (r : UserAccount × Freshness) (s t : S)
      → get_elem? accounts selected ≡ some active
      → ensure_fresh_account sources.web active false s ≡ (ok r, t)
      → resolve_launch_account sources selected accounts s ≡ of_status sources r.0 accounts r.1 t
  unfolding resolve_launch_account
  of_known selected accounts active r s t known ran = rw (known, ran)

  get_elem?-updated :
      (selected : ℕ) (accounts : List UserAccount) (active account : UserAccount)
      → get_elem? accounts selected ≡ some active
      → get_elem? (account ∷ rest_of accounts) selected
        ≡ (if selected == 0 then some account else some active)
  get_elem?-updated zero accounts active account known = refl
  get_elem?-updated (suc i) [] active account known = absurd (cc)
  get_elem?-updated (suc i) (first ∷ accounts) active account known = ground (arith, known)

  -- If the selected account is refreshed, resolveLaunchAccount returns the authentication of the
  -- refreshed account and a list that begins with it and goes on with the old list from its
  -- second entry; at the selected index this list has the refreshed account if the index is zero,
  -- and the old account otherwise.
  pub resolve_launch_account-refreshed :
      (selected : ℕ) (accounts : List UserAccount) (active account : UserAccount) (s t : S)
      → get_elem? accounts selected ≡ some active
      → ensure_fresh_account sources.web active false s ≡ (ok (account, refreshed), t)
      → (s' : S) × (resolve_launch_account sources selected accounts s
          ≡ (ok (some (build_launch_auth sources.web account, account ∷ rest_of accounts)), s'))
        × (get_elem? (account ∷ rest_of accounts) selected
            ≡ (if selected == 0 then some account else some active))
  resolve_launch_account-refreshed selected accounts active account s t known ran =
      let (s', e) = of_refreshed account accounts t in
      (
        s',
        of_known selected accounts active (account, refreshed) s t known ran ∙ e,
        get_elem?-updated selected accounts active account known,
      )
