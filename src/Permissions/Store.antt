-- ===== src/Permissions/Store.antt =====
-- request-permissions.ts and grant-static-permissions.ts: `globalStates.extensions.permissions`, what
-- the user has answered, per extension and permission.
pub mod Answers
pub mod Static
use kaede.Prelude.{String, Bool, true, false, Option, none, some, List, [], ◌∷◌, ◌++◌, default}
use kaede.Prelude.Dictionary.{Dictionary, get, put}
use kaede.Outcome.{Outcome, ok, throw, type_error}
use kaede.Exec.{Exec, pure, lift, ◌>>=◌, ◌>>◌}
use kaede.Permissions.Handle.{Capability, handle_permission}

abbrev pub Permissions : Type 0
Permissions = Dictionary (Dictionary Bool)

-- The permissions, and the state of the user who is asked.
abbrev pub Asking : Type 0 → Type 0
Asking U = Permissions × U

-- currentPermissions?.[extension]?.[permission]
abbrev pub answer_in : String → Option (Dictionary Bool) → Option Bool
answer_in permission none = none
answer_in permission (some own) = get permission own

abbrev pub answer_of : String → String → Permissions → Option Bool
answer_of extension permission permissions = answer_in permission (get extension permissions)

-- The object of an extension is made if it is not there.
abbrev pub own_of : String → Permissions → Dictionary Bool
own_of extension permissions = default [] (get extension permissions)

abbrev pub with_object : String → Permissions → Permissions
with_object extension permissions = put extension (own_of extension permissions) permissions

-- currentPermissions[extension][permission] = answer
abbrev pub set_answer : String → String → Bool → Permissions → Permissions
set_answer extension permission answer permissions =
    put extension (put permission answer (own_of extension permissions)) permissions

-- An entry of the result: a capability, or `false`.
pub data Granted : Type 0 where
  denied : Granted
  granted : Capability → Granted

abbrev pub grant : Bool → String → Outcome Granted
grant false permission = ok denied
grant true permission = elim (handle_permission permission) [
  | ok c ↦ ok (granted c)
  | throw e ↦ throw e
]

module _ {U : Type 0} where
  abbrev pub change : (Permissions → Permissions) → Exec (Asking U) (Unit {0})
  change f (permissions, user) = (ok tt, (f permissions, user))

  module _ (ask : String → String → U → Bool × U) (extension : String) where
    -- The modal window, which the user closes with an answer; nothing else changes the answers while it
    -- is open.
    abbrev asking : String → Exec (Asking U) Bool
    asking permission (permissions, user) =
        let (allowed, after) = ask permission extension user in (ok allowed, (permissions, after))

    -- `hasPermission`
    abbrev stored : String → Exec (Asking U) (Option Bool)
    stored permission (permissions, user) =
        (ok (answer_of extension permission permissions), (permissions, user))

    -- a permission that has no answer yet
    abbrev ask_for : String → Exec (Asking U) Granted
    ask_for permission = do
      allowed ← asking permission
      change (with_object extension)
      result ← lift (grant allowed permission)
      change (set_answer extension permission allowed)
      pure result

    -- one round of the loop, from the answer that is stored
    abbrev decide : Option Bool → String → Exec (Asking U) Granted
    decide (some has_permission) permission = lift (grant has_permission permission)
    decide none permission = ask_for permission

    -- the loop over an array; an entry that is no string is `none`
    unfoldable pub request_permissions : List (Option String) → Exec (Asking U) (List Granted)
    request_permissions [] = pure []
    request_permissions (none ∷ permissions) =
        lift (throw (type_error "A permission must be a string"))
    request_permissions (some permission ∷ permissions) = do
      has_permission ← stored permission
      result ← decide has_permission permission
      rest ← request_permissions permissions
      pure (result ∷ rest)

  -- the loop of `grantStaticPermissions`, with the object `scopedThis`
  unfoldable pub grant_each :
      String → List String → Dictionary Capability → Exec (Asking U) (Dictionary Capability)
  grant_each id [] scoped_this = pure scoped_this
  grant_each id (permission ∷ permissions) scoped_this = do
    capability ← lift (handle_permission permission)
    change (set_answer id permission true)
    grant_each id permissions (put permission capability scoped_this)

  -- `permissions` is `none` where the extension has none
  unfoldable pub grant_static_permissions :
      String → Option (List String) → Exec (Asking U) (Dictionary Capability)
  grant_static_permissions id none = pure []
  grant_static_permissions id (some permissions) = do
    change (with_object id)
    grant_each id permissions []
