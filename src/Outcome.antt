-- ===== src/Outcome.antt =====
-- What a function that may throw returns: a value, or the exception.
use Prim.Native.String.{String}
use mathlib.Core.Path.{◌≡◌, refl}
use mathlib.Core.Option.{Option}
use mathlib.Core.Logic.{◌⊎◌, inl, inr}

-- The exceptions that the modelled code throws, or passes on from an extension's hook.
pub data Error : Type 0 where
  unhandled_platform : String → Error
  bad_artifact_path : (group name version : Option String) → Error
  missing_arguments missing_account : Error
  -- a `TypeError`, and a refusal of the permissions, with what they say
  type_error refused : String → Error
  -- `new Error(message)`, and a rejection of the platform (the file system, the network)
  error rejected : String → Error
  from_hook : String → Error

pub data Outcome {ℓ} (A : Type ℓ) : Type ℓ where
  ok : A → Outcome A
  throw : Error → Outcome A

infixl 10 ◌>>=◌
abbrev pub ◌>>=◌ {ℓ κ} : {A : Type ℓ} {B : Type κ} → Outcome A → (next : A → Outcome B) → Outcome B
◌>>=◌ (throw e) next = throw e
◌>>=◌ (ok a) next = next a

pub Outcome-cases {ℓ} :
    {A : Type ℓ} (r : Outcome A) → ((a : A) × (r ≡ ok a)) ⊎ ((e : Error) × (r ≡ throw e))
Outcome-cases (ok a) = inl (a, refl)
Outcome-cases (throw e) = inr (e, refl)

-- A chain that returns has a first step that returns.
pub >>=-eq-ok {ℓ κ} :
    {A : Type ℓ} {B : Type κ} (first : Outcome A) (next : A → Outcome B) {b : B}
    → (first >>= next) ≡ ok b
    → (a : A) × (first ≡ ok a) × (next a ≡ ok b)
>>=-eq-ok (throw e) next returned = cc
>>=-eq-ok (ok a) next returned = (a, refl, returned)
