-- ===== src/Hooks/Laws.antt =====
-- What the callers of lib/hooks rely on: an asynchronous run never throws, a synchronous run that
-- does not throw agrees with it, and void hooks all run.
use mathlib.Core.List.{foldl}
use kaede.Prelude.{
  ◌≡◌, refl, Option, none, some, List, [], ◌∷◌, arith, Bool-cases, str_eq, inl, inr,
}
use kaede.Outcome.{Outcome, ok, throw}
use kaede.Exec.{Exec, ◌>>=◌, share}
use kaede.Hooks.{
  Reply, Hook, VoidHook, IsSilent, or_else, HookResult, proceed, undefined, of_response,
  handle_hook_response, iterate_async, iterate_sync, catch_async_response_hooks,
  catch_sync_response_hooks, run_async, catch_async_void_hooks,
}

module _ {S P T : Type 0} where
  iterate_async-of_sync :
      (hooks : List (Hook S P T)) (p : P) (s s' : S) (r : HookResult T)
      → iterate_sync hooks p s ≡ (ok r, s')
      → iterate_async hooks p s ≡ (ok r, s')
  unfolding iterate_async iterate_sync handle_hook_response
  iterate_async-of_sync [] p s s' r h = h
  iterate_async-of_sync (hook ∷ hooks) p s s' r h =
      go (hook p s) refl h (iterate_async-of_sync hooks p)
    where
      go :
          (a : Outcome (Reply T) × S)
          → hook p s ≡ a
          → iterate_sync (hook ∷ hooks) p s ≡ (ok r, s')
          → ((t u : S) (q : HookResult T)
              → iterate_sync hooks p t ≡ (ok q, u)
              → iterate_async hooks p t ≡ (ok q, u))
          → iterate_async (hook ∷ hooks) p s ≡ (ok r, s')
      go (throw e, t) a h ih = ground (arith)
      go (ok reply, t) a h ih = elim (Bool-cases (str_eq reply.status "stop")) [
        | inl stop ↦ rw (a, stop) (rw (a, stop) at h)
        | inr other ↦ rw (a, other) (ih t s' r (rw (a, other) at h))
      ]

  -- If catchSyncResponseHooks returns on some hooks, catchAsyncResponseHooks on the same hooks
  -- gives the same answer and state.
  pub catch_async-eq-sync :
      (hooks : Option (List (Hook S P T))) (p : P) (s s' : S) (r : HookResult T)
      → catch_sync_response_hooks hooks p s ≡ (ok r, s')
      → catch_async_response_hooks hooks p s ≡ (ok r, s')
  unfolding catch_sync_response_hooks catch_async_response_hooks
  catch_async-eq-sync none p s s' r h = h
  catch_async-eq-sync (some hooks) p s s' r h = iterate_async-of_sync hooks p s s' r h

module _ {S P T : Type 0} where
  -- Where no hook is registered, the caller goes on as if there were no hooks.
  pub sync-of_IsSilent :
      (hooks : Option (List (Hook S P T))) (p : P) (rest : Exec S T) (s : S)
      → IsSilent hooks
      → (catch_sync_response_hooks hooks p >>= λ r. or_else r rest) s ≡ rest s
  unfolding catch_sync_response_hooks
  sync-of_IsSilent none p rest s h = refl
  sync-of_IsSilent (some []) p rest s h = refl
  sync-of_IsSilent (some (hook ∷ hooks)) p rest s h = absurd h

  pub async-of_IsSilent :
      (hooks : Option (List (Hook S P T))) (p : P) (rest : Exec S T) (s : S)
      → IsSilent hooks
      → (catch_async_response_hooks hooks p >>= λ r. or_else r rest) s ≡ rest s
  unfolding catch_async_response_hooks
  async-of_IsSilent none p rest s h = refl
  async-of_IsSilent (some []) p rest s h = refl
  async-of_IsSilent (some (hook ∷ hooks)) p rest s h = absurd h

-- catchAsyncVoidHooks runs every hook of a list once, in order, each on the state that the one
-- before left whether that one returned or threw, and never throws.
pub catch_async_void-foldl :
    {S P : Type 0} (hooks : List (VoidHook S P)) (p : P) (s : S)
    → catch_async_void_hooks (some hooks) p s ≡ (ok tt, foldl (λ t hook. (hook p t).1) s hooks)
unfolding catch_async_void_hooks
catch_async_void-foldl hooks p s = go hooks p s
  where
    go :
        {S P : Type 0} (hooks : List (VoidHook S P)) (p : P) (s : S)
        → run_async hooks p s ≡ (ok tt, foldl (λ t hook. (hook p t).1) s hooks)
    go [] p s = refl
    go (hook ∷ hooks) p s = go hooks p (hook p s).1

-- The same where the hooks share an object with the caller.
module _ {S X P T : Type 0} where
  pub async_share-of_IsSilent :
      (hooks : Option (List (Hook (S × X) P T))) (p : P) (x : X) (rest : X → Exec S T) (s : S)
      → IsSilent hooks
      → (share x (catch_async_response_hooks hooks p) >>= λ a. or_else a.0 (rest a.1)) s ≡ rest x s
  unfolding catch_async_response_hooks
  async_share-of_IsSilent none p x rest s h = refl
  async_share-of_IsSilent (some []) p x rest s h = refl
  async_share-of_IsSilent (some (hook ∷ hooks)) p x rest s h = absurd h

  pub sync_share-of_IsSilent :
      (hooks : Option (List (Hook (S × X) P T))) (p : P) (x : X) (rest : X → Exec S T) (s : S)
      → IsSilent hooks
      → (share x (catch_sync_response_hooks hooks p) >>= λ a. or_else a.0 (rest a.1)) s ≡ rest x s
  unfolding catch_sync_response_hooks
  sync_share-of_IsSilent none p x rest s h = refl
  sync_share-of_IsSilent (some []) p x rest s h = refl
  sync_share-of_IsSilent (some (hook ∷ hooks)) p x rest s h = absurd h

-- The action returns, from this state.
abbrev pub Returns : {S A : Type 0} → Exec S A → S → Type 0
Returns {S} {A} m s = (a : A) × (t : S) × (m s ≡ (ok a, t))

iterate_async-Returns :
    {S P T : Type 0} (hooks : List (Hook S P T)) (p : P) (s : S) → Returns (iterate_async hooks p) s
unfolding iterate_async handle_hook_response
iterate_async-Returns [] p s = (proceed, s, refl)
iterate_async-Returns {S = S} {T = T} (hook ∷ hooks) p s =
    tried (hook p s) refl (iterate_async-Returns hooks p)
  where
    tried :
        (a : Outcome (Reply T) × S)
        → hook p s ≡ a
        → ((t : S) → Returns (iterate_async hooks p) t)
        → Returns (iterate_async (hook ∷ hooks) p) s
    tried (throw e, t) h rest = let (r, u, k) = rest t in (r, u, rw h k)
    tried (ok reply, t) h rest = elim (Bool-cases (str_eq reply.status "stop")) [
      | inl stop ↦ (of_response reply.response, t, rw (h, stop) refl)
      | inr other ↦ let (r, u, k) = rest t in (r, u, rw (h, other) k)
    ]

-- An asynchronous run of hooks always returns.
pub catch_async-Returns :
    {S P T : Type 0} (hooks : Option (List (Hook S P T))) (p : P) (s : S)
    → Returns (catch_async_response_hooks hooks p) s
unfolding catch_async_response_hooks
catch_async-Returns none p s = (undefined, s, refl)
catch_async-Returns (some hooks) p s = iterate_async-Returns hooks p s
