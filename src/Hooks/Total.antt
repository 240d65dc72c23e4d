-- ===== src/Hooks/Total.antt =====
-- catchAsyncResponseHooks throws nothing: what a hook throws is caught.
use kaede.Prelude.{Option, none, some, List, [], ◌∷◌}
use kaede.Outcome.{Outcome, ok, throw}
use kaede.Exec.{Exec, attempt}
use kaede.Exec.Total.{NeverThrows, pure-NeverThrows, attempt-NeverThrows, >>=-NeverThrows}
use kaede.Hooks.{
  Hook, Reply, HookResult, proceed, undefined, response, Handled, continue_loop, returned,
  of_response, next_round, next_attempt, or_else, handle_hook_response, iterate_async,
  catch_async_response_hooks,
}

module _ {S T : Type 0} where
  next_round-NeverThrows :
      (h : Handled T) (rest : Exec S (HookResult T))
      → NeverThrows rest
      → NeverThrows (next_round h rest)
  next_round-NeverThrows continue_loop rest r = r
  next_round-NeverThrows (returned o) rest r = pure-NeverThrows (of_response o)

  next_attempt-NeverThrows :
      (tried : Outcome (Reply T)) (rest : Exec S (HookResult T))
      → NeverThrows rest
      → NeverThrows (next_attempt tried rest)
  next_attempt-NeverThrows (ok reply) rest r =
      next_round-NeverThrows (handle_hook_response reply) rest r
  next_attempt-NeverThrows (throw e) rest r = r

  pub or_else-NeverThrows :
      (answer : HookResult T) (rest : Exec S T)
      → NeverThrows rest
      → NeverThrows (or_else answer rest)
  or_else-NeverThrows proceed rest r = r
  or_else-NeverThrows undefined rest r = r
  or_else-NeverThrows (response t) rest r = pure-NeverThrows t

module _ {S P T : Type 0} where
  iterate_async-NeverThrows :
      (hooks : List (Hook S P T)) (p : P) → NeverThrows (iterate_async hooks p)
  unfolding iterate_async
  iterate_async-NeverThrows [] p = pure-NeverThrows proceed
  iterate_async-NeverThrows (hook ∷ hooks) p =
      >>=-NeverThrows (attempt (hook p)) _ (attempt-NeverThrows (hook p))
        (λ tried. next_attempt-NeverThrows tried _ (iterate_async-NeverThrows hooks p))

  pub catch_async_response_hooks-NeverThrows :
      (hooks : Option (List (Hook S P T))) (p : P)
      → NeverThrows (catch_async_response_hooks hooks p)
  unfolding catch_async_response_hooks
  catch_async_response_hooks-NeverThrows none p = pure-NeverThrows undefined
  catch_async_response_hooks-NeverThrows (some hooks) p = iterate_async-NeverThrows hooks p
