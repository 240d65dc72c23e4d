-- ===== src/Hooks/FirstStop.antt =====
-- What a list of response hooks answers, stated as a relation: every hook up to the first that
-- answers "stop" runs, in order, and its response is the answer; with no such hook the answer is
-- "continue".
use kaede.Prelude.{
  ◌≡◌, ◌≢◌, refl, sym, ap, ◌∙◌, ◌↔◌, some, List, [], ◌∷◌, eq_iff, str_eq, Bool-cases, inl, inr,
}
use mathlib.Core.Path.{subst₂}
use kaede.Outcome.{Error, Outcome, ok, throw}
use kaede.Hooks.{
  Reply, Hook, HookResult, proceed, of_response, handle_hook_response, iterate_async,
  catch_async_response_hooks,
}

module _ {S P T : Type 0} (p : P) where
  -- from the state before, the answer and the state after
  pub data FirstStop : List (Hook S P T) → S → HookResult T → S → Type 0 where
    exhausted : {s : S} → FirstStop [] s proceed s
    stops :
        {hook : Hook S P T} {hooks : List (Hook S P T)} {s s' : S} (reply : Reply T)
        → hook p s ≡ (ok reply, s')
        → reply.status ≡ "stop"
        → FirstStop (hook ∷ hooks) s (of_response reply.response) s'
    continues :
        {hook : Hook S P T} {hooks : List (Hook S P T)} {s s' s'' : S} {r : HookResult T}
        (reply : Reply T)
        → hook p s ≡ (ok reply, s')
        → reply.status ≢ "stop"
        → FirstStop hooks s' r s''
        → FirstStop (hook ∷ hooks) s r s''
    throws :
        {hook : Hook S P T} {hooks : List (Hook S P T)} {s s' s'' : S} {r : HookResult T}
        (e : Error)
        → hook p s ≡ (throw e, s')
        → FirstStop hooks s' r s''
        → FirstStop (hook ∷ hooks) s r s''

  FirstStop-of_async :
      (hooks : List (Hook S P T)) (s : S)
      → (r : HookResult T) × (s' : S) × (iterate_async hooks p s ≡ (ok r, s'))
        × FirstStop hooks s r s'
  unfolding iterate_async handle_hook_response
  FirstStop-of_async [] s = (proceed, s, refl, exhausted)
  FirstStop-of_async (hook ∷ hooks) s = go (hook p s) refl (FirstStop-of_async hooks)
    where
      go :
          (a : Outcome (Reply T) × S)
          → hook p s ≡ a
          → ((t : S)
              → (r : HookResult T) × (s' : S) × (iterate_async hooks p t ≡ (ok r, s'))
                × FirstStop hooks t r s')
          → (r : HookResult T) × (s' : S) × (iterate_async (hook ∷ hooks) p s ≡ (ok r, s'))
            × FirstStop (hook ∷ hooks) s r s'
      go (throw e, t) h ih = let (r, s', ran, d) = ih t in (r, s', rw h ran, throws e h d)
      go (ok reply, t) h ih =
          let (r, s', ran, d) = ih t in
          elim (Bool-cases (str_eq reply.status "stop")) [
            | inl stop ↦ (
              of_response reply.response,
              t,
              rw (h, stop) refl,
              stops reply h ((eq_iff _ _).0 stop),
            )
            | inr other ↦ (
              r,
              s',
              rw (h, other) ran,
              continues reply h (λ e. cc (other, (eq_iff reply.status "stop").1 e)) d,
            )
          ]

  -- The relation determines the answer and the final state.
  async_of_FirstStop :
      {hooks : List (Hook S P T)} {s s' : S} {r : HookResult T}
      → FirstStop hooks s r s'
      → iterate_async hooks p s ≡ (ok r, s')
  unfolding iterate_async handle_hook_response
  async_of_FirstStop exhausted = refl
  async_of_FirstStop (stops reply h e) = rw (h, (eq_iff _ _).1 e) refl
  async_of_FirstStop (continues reply h e d) =
      let ih = async_of_FirstStop d in
      elim (Bool-cases (str_eq reply.status "stop")) [
        | inl stop ↦ absurd (e ((eq_iff _ _).0 stop))
        | inr other ↦ rw (h, other) ih
      ]
  async_of_FirstStop (throws e h d) = rw h (async_of_FirstStop d)

  -- catchAsyncResponseHooks on a list of hooks gives an answer and a state exactly if the
  -- relation FirstStop does: the hooks up to the first that answers stop run in order, each on
  -- the state that the one before left, a hook that throws or answers another status is passed
  -- over, the response of the one that stops is the answer, and with no such hook the answer is
  -- continue.
  pub catch_async_iff :
      (hooks : List (Hook S P T)) (s s' : S) (r : HookResult T)
      → (catch_async_response_hooks (some hooks) p s ≡ (ok r, s')) ↔ FirstStop hooks s r s'
  unfolding catch_async_response_hooks
  catch_async_iff hooks s s' r = (
    (λ e.
        let (r', t, ran, d) = FirstStop-of_async hooks s in
        let same : (ok r', t) ≡ (ok r, s') = sym ran ∙ e in
        subst₂ (λ a b. FirstStop hooks s a b) (ap answer same) (ap (λ q. q.1) same) d),
    async_of_FirstStop,
  )
    where
      answer : Outcome (HookResult T) × S → HookResult T
      answer (ok a, u) = a
      answer (throw e, u) = r
