-- ===== src/Fetching/Platform.antt =====
-- What the downloads of a launch come through, and verify-paths.ts.
use kaede.Prelude.{String, Bool, true, false, Option, List, [], ◌∷◌, map, ◌||◌, str_eq}
use kaede.Outcome.{Outcome, ok, throw}
use kaede.Exec.{Exec, pure, lift, attempt, ◌>>=◌}
use kaede.Hooks.{Hook, VoidHook, or_else, catch_async_response_hooks}
use kaede.FileManager.JsonFile.{Files}
use kaede.Network.Http.{Fetch}
use kaede.Network.Call.{Backend}
use kaede.Statuses.{Launch}
use kaede.Meta.{FinalizedPatch, Necessaries, Artifact}

-- the `toPass` of the hooks
abbrev pub Payload : Type 0
Payload = Necessaries × FinalizedPatch

-- The hooks of one scope with an answer before and none after.
pub record GetHooks (S P T : Type 0) : Type 0 where
  pub before : Option (List (Hook S P T))
  pub after : Option (List (VoidHook S P))

-- The file system, the backend's commands, the network and the hooks.
pub record Platform (W : Type 0) : Type 0 where
  pub files : Files (Launch W)
  -- `mkdir`, with its option `recursive`, and the names in a directory
  pub make_directory : Bool → String → Exec (Launch W) (Unit {0})
  pub read_directory : String → Exec (Launch W) (List String)
  pub verify_file_paths : List (String × String) → Exec (Launch W) (List String)
  pub get_missing_files : List String → Exec (Launch W) (List String)
  pub backend : Backend W
  pub fetch : Fetch (Launch W)
  pub libraries_get : GetHooks (Launch W) Payload Bool
  pub client_get : GetHooks (Launch W) Payload Bool
  pub logging_get : GetHooks (Launch W) Payload Bool

-- `hooks.before` may answer in the place of `rest`.
abbrev pub unless_answered : {S P T : Type 0} → Option (List (Hook S P T)) → P → Exec S T → Exec S T
unless_answered before payload rest = do
  answer ← catch_async_response_hooks before payload
  or_else answer rest

-- `missing.has(path)`, over the list of the set
abbrev pub has : String → List String → Bool
has path [] = false
has path (p ∷ paths) = str_eq p path || has path paths

-- `{ path, hash }` of an artifact
abbrev pub path_and_hash : Artifact → String × String
path_and_hash artifact = (artifact.path, artifact.hash)

abbrev pub path_of : String × String → String
path_of (path, hash) = path

-- Promise.all over two outcomes: the first exception in their order
abbrev pub both_done : Outcome (Unit {0}) → Outcome (Unit {0}) → Outcome (Unit {0})
both_done (throw e) second = throw e
both_done (ok done) second = second

module _ {W : Type 0} (platform : Platform W) where
  unfoldable pub verify_paths : Bool → List (String × String) → Exec (Launch W) (List String)
  verify_paths true paths = platform.verify_file_paths paths
  verify_paths false paths = platform.get_missing_files (map path_of paths)

  -- Promise.all over `mkdir`, one after the other; a rejection does not stop the others
  unfoldable pub make_directories : Bool → List String → Exec (Launch W) (Unit {0})
  make_directories recursive [] = pure tt
  make_directories recursive (directory ∷ directories) = do
    made ← attempt (platform.make_directory recursive directory)
    rest ← attempt (make_directories recursive directories)
    lift (both_done made rest)
