-- ===== src/Hooks/Tests.antt =====
-- Runs of the hooks, and an instance of each of their theorems. The state is the list of the names of
-- the hooks that ran.
use kaede.Prelude.{String, some, List, [], ◌∷◌, ◌++◌, ◌≡◌, ◌↔◌, refl}
use kaede.Outcome.{ok, throw, from_hook}
use kaede.Hooks.{Hook, response, VoidHook, catch_sync_response_hooks, catch_async_response_hooks}
use kaede.Hooks.FirstStop.{FirstStop, catch_async_iff}

abbrev answering : String → String → Hook (List String) (Unit {0}) String
answering name status p s = (ok (record { status = status; response = some name }), s ++ name ∷ [])

abbrev throwing : String → Hook (List String) (Unit {0}) String
throwing name p s = (throw (from_hook name), s ++ name ∷ [])

abbrev hooks : List (Hook (List String) (Unit {0}) String)
hooks = throwing "a" ∷ answering "b" "continue" ∷ answering "c" "stop" ∷ answering "d" "stop" ∷ []

catch_hooks_tests :
    (catch_async_response_hooks (some hooks) tt [] ≡ (ok (response "c"), "a" ∷ "b" ∷ "c" ∷ []))
    × (catch_sync_response_hooks (some hooks) tt [] ≡ (throw (from_hook "a"), "a" ∷ []))
unfolding catch_async_response_hooks catch_sync_response_hooks
catch_hooks_tests = (refl, refl)

catch_async_iff_example :
    (catch_async_response_hooks (some hooks) tt [] ≡ (ok (response "c"), "a" ∷ "b" ∷ "c" ∷ []))
    ↔ FirstStop tt hooks [] (response "c") ("a" ∷ "b" ∷ "c" ∷ [])
catch_async_iff_example = catch_async_iff tt hooks [] ("a" ∷ "b" ∷ "c" ∷ []) (response "c")

abbrev calm : List (Hook (List String) (Unit {0}) String)
calm = answering "b" "continue" ∷ answering "c" "stop" ∷ []

abbrev voids : List (VoidHook (List String) (Unit {0}))
voids = (λ p s. (throw (from_hook "a"), s ++ "a" ∷ [])) ∷ (λ p s. (ok tt, s ++ "b" ∷ [])) ∷ []
