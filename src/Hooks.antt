-- ===== src/Hooks.antt =====
-- lib/hooks: the extensions' hooks that run before and after a part of the launch. A hook is an
-- action on the state `S` that may throw; `P` is the payload and `T` the type of its response.
-- Logging and the time measurements are left out.
pub mod FirstStop
pub mod Laws
pub mod Total
mod Tests
use kaede.Prelude.{
  String, Bool, true, false, Option, none, some, List, [], ◌∷◌, str_eq, if◌then◌else◌,
}
use kaede.Outcome.{Outcome, ok, throw}
use kaede.Exec.{Exec, pure, attempt, ◌>>=◌, ◌>>◌}

-- What a hook returns; an absent `response` is `none`.
pub record Reply (T : Type 0) : Type 0 where
  pub status : String
  pub response : Option T

abbrev pub Hook : Type 0 → Type 0 → Type 0 → Type 0
Hook S P T = P → Exec S (Reply T)

-- `GlobalObject.hooks[scope]`: a timing that is no key of the object has `none`.
pub record Scope (S P T : Type 0) : Type 0 where
  pub before : Option (List (Hook S P T))
  pub after : Option (List (Hook S P T))

-- `HookResponseStatus.Continue`, `undefined`, or a value of the caller's type
pub data HookResult (T : Type 0) : Type 0 where
  proceed undefined : HookResult T
  response : T → HookResult T

-- `ExtraHookResponseStatus.ContinueLoop`, or the response
pub data Handled (T : Type 0) : Type 0 where
  continue_loop : Handled T
  returned : Option T → Handled T

abbrev of_response : {T : Type 0} → Option T → HookResult T
of_response none = undefined
of_response (some t) = response t

unfoldable pub handle_hook_response : {T : Type 0} → Reply T → Handled T
handle_hook_response r = if str_eq r.status "stop" then returned r.response else continue_loop

module _ {S T : Type 0} where
  -- the end of one round: go on with the rest of the loop, or return the response
  abbrev next_round : Handled T → Exec S (HookResult T) → Exec S (HookResult T)
  next_round continue_loop rest = rest
  next_round (returned r) rest = pure (of_response r)

  -- after `catch`, the loop continues with the next hook
  abbrev next_attempt : Outcome (Reply T) → Exec S (HookResult T) → Exec S (HookResult T)
  next_attempt (ok reply) rest = next_round (handle_hook_response reply) rest
  next_attempt (throw e) rest = rest

  -- The callers' test `result !== "continue" && result !== undefined`.
  abbrev pub or_else : HookResult T → Exec S T → Exec S T
  or_else proceed rest = rest
  or_else undefined rest = rest
  or_else (response t) rest = pure t

module _ {S P T : Type 0} where
  -- the loop of `catchSyncResponseHooks`: an exception passes through
  iterate_sync : List (Hook S P T) → P → Exec S (HookResult T)
  iterate_sync [] p = pure proceed
  iterate_sync (hook ∷ hooks) p = do
    reply ← hook p
    next_round (handle_hook_response reply) (iterate_sync hooks p)

  -- the loop of `catchAsyncResponseHooks`
  iterate_async : List (Hook S P T) → P → Exec S (HookResult T)
  iterate_async [] p = pure proceed
  iterate_async (hook ∷ hooks) p = do
    tried ← attempt (hook p)
    next_attempt tried (iterate_async hooks p)

  unfoldable pub catch_sync_response_hooks : Option (List (Hook S P T)) → P → Exec S (HookResult T)
  unfolding iterate_sync handle_hook_response
  catch_sync_response_hooks none p = pure undefined
  catch_sync_response_hooks (some hooks) p = iterate_sync hooks p

  unfoldable pub catch_async_response_hooks : Option (List (Hook S P T)) → P → Exec S (HookResult T)
  unfolding iterate_async handle_hook_response
  catch_async_response_hooks none p = pure undefined
  catch_async_response_hooks (some hooks) p = iterate_async hooks p

-- No hook is registered: the timing is absent, or its list is empty.
abbrev pub IsSilent : {S P T : Type 0} → Option (List (Hook S P T)) → Type 0
IsSilent none = Unit
IsSilent (some []) = Unit
IsSilent (some (hook ∷ hooks)) = ⊥

-- A hook whose result is not read.
abbrev pub VoidHook : Type 0 → Type 0 → Type 0
VoidHook S P = P → Exec S (Unit {0})

module _ {S P : Type 0} where
  -- the loops of `catchSyncVoidHooks` and `catchAsyncVoidHooks`
  run_sync : List (VoidHook S P) → P → Exec S (Unit {0})
  run_sync [] p = pure tt
  run_sync (hook ∷ hooks) p = do hook p; run_sync hooks p

  run_async : List (VoidHook S P) → P → Exec S (Unit {0})
  run_async [] p = pure tt
  run_async (hook ∷ hooks) p = do attempt (hook p); run_async hooks p

  unfoldable pub catch_sync_void_hooks : Option (List (VoidHook S P)) → P → Exec S (Unit {0})
  unfolding run_sync
  catch_sync_void_hooks none p = pure tt
  catch_sync_void_hooks (some hooks) p = run_sync hooks p

  unfoldable pub catch_async_void_hooks : Option (List (VoidHook S P)) → P → Exec S (Unit {0})
  unfolding run_async
  catch_async_void_hooks none p = pure tt
  catch_async_void_hooks (some hooks) p = run_async hooks p
