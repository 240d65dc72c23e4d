-- ===== src/Auth/Fresh/Laws.antt =====
-- What ensureFreshAccount makes of an account.
use kaede.Prelude.{
  ◌+◌, ◌<◌, ◌≤◌, Bool, true, false, not, ◌&&◌, Option, none, some, ◌≡◌, refl, ◌⊎◌, inl, inr,
  Bool-cases, arith,
}
use kaede.Outcome.{Outcome, ok, throw}
use kaede.Auth.Types.{Web, StoredTokens, UserAccount}
use kaede.Auth.Requests.Microsoft.{refresh_token}
use kaede.Auth.Chain.Usable.{HasTokens, request_then_chain-HasTokens}
use kaede.Auth.Fresh.{
  Freshness, fresh, refreshed, failed, expiration_margin, expiration_of, is_valid_at, refresh,
  of_refresh, ensure_fresh, ensure_fresh_account,
}

module _ {S : Type 0} (web : Web S) (account : UserAccount) (force_refresh : Bool) where
  -- The token runs out within the margin, or the refresh is forced.
  abbrev pub IsStale : StoredTokens → S → Type 0
  IsStale msa s =
      (force_refresh ≡ true) ⊎ (expiration_of web msa.token ≤ web.now s + expiration_margin)

  abbrev pub IsLasting : StoredTokens → S → Type 0
  IsLasting msa s =
      (force_refresh ≡ false) × (web.now s + expiration_margin < expiration_of web msa.token)

  abbrev pub WasStale : S → Type 0
  WasStale s = (msa : StoredTokens) × (account.msa ≡ some msa) × IsStale msa s

  abbrev pub IsEnsured : UserAccount → Freshness → S → S → Type 0
  IsEnsured result fresh s s' =
      (result ≡ account)
      × (s' ≡ s)
      × ((account.msa ≡ none) ⊎ ((msa : StoredTokens) × (account.msa ≡ some msa) × IsLasting msa s))
  IsEnsured result refreshed s s' = HasTokens result × WasStale s
  IsEnsured result failed s s' = (result ≡ account) × WasStale s

  IsStale-of_false :
      (msa : StoredTokens) (s : S)
      → (not force_refresh && is_valid_at web msa.token (web.now s)) ≡ false
      → IsStale msa s
  IsStale-of_false msa s h = elim (Bool-cases force_refresh) [
    | inl e ↦ inl e
    | inr e ↦ inr (ground arith)
  ]

  IsLasting-of_true :
      (msa : StoredTokens) (s : S)
      → (not force_refresh && is_valid_at web msa.token (web.now s)) ≡ true
      → IsLasting msa s
  IsLasting-of_true msa s h = elim (Bool-cases force_refresh) [
    | inl e ↦ absurd (ground arith)
    | inr e ↦ (e, ground arith)
  ]

  of_refresh-IsEnsured :
      (msa : StoredTokens) (tried : Outcome UserAccount) (s s' : S)
      → account.msa ≡ some msa
      → IsStale msa s
      → refresh web msa s ≡ (tried, s')
      → IsEnsured (of_refresh account tried).0 (of_refresh account tried).1 s s'
  unfolding refresh
  of_refresh-IsEnsured msa (ok renewed) s s' known stale ran = (
    request_then_chain-HasTokens web (refresh_token msa.refresh_token) none renewed s s' ran,
    (msa, known, stale),
  )
  of_refresh-IsEnsured msa (throw e) s s' known stale ran = (refl, (msa, known, stale))

  -- The result for each stored state of the tokens.
  abbrev Ensures : (UserAccount × Freshness) → S → S → Type 0
  Ensures r s s' = IsEnsured r.0 r.1 s s'

  ensure_fresh-Ensures :
      (stored : Option StoredTokens) (s : S)
      → account.msa ≡ stored
      → (r : UserAccount × Freshness) × (s' : S) × (ensure_fresh web account force_refresh stored s
          ≡ (ok r, s'))
        × Ensures r s s'
  ensure_fresh-Ensures none s known = ((account, fresh), s, refl, (refl, refl, inl known))
  ensure_fresh-Ensures (some msa) s known =
      elim (Bool-cases (not force_refresh && is_valid_at web msa.token (web.now s))) [
        | inl e ↦
            ((account, fresh), s, rw e, (refl, refl, inr (msa, known, IsLasting-of_true msa s e)))
        | inr e ↦
            let tried = refresh web msa s in
            (
              of_refresh account tried.0,
              tried.1,
              rw e,
              of_refresh-IsEnsured msa tried.0 s tried.1 known (IsStale-of_false msa s e) refl,
            )
      ]

  -- ensureFreshAccount always returns. With the status fresh the account and the state are as
  -- they were, and the account is offline or no refresh is forced and the token outlives the
  -- margin; with failed the account is as it was and the token is stale; with refreshed the token
  -- was stale and the new account has a token and a refresh token that are not empty.
  pub ensure_fresh_account-IsEnsured :
      (s : S)
      → (r : UserAccount × Freshness) × (s' : S) × (ensure_fresh_account web account force_refresh s
          ≡ (ok r, s'))
        × IsEnsured r.0 r.1 s s'
  unfolding ensure_fresh_account
  ensure_fresh_account-IsEnsured s = ensure_fresh-Ensures account.msa s refl
