-- ===== src/Parsers/Libraries.antt =====
-- shallowly-validate-library.ts and parse-libraries.ts, with the hooks "onLibrariesParsing". A
-- hook is handed the payload by value: what it would write into the payload's objects is left out.
pub mod Laws
use kaede.Prelude.{
  String, Bool, true, false, Option, none, some, List, [], ◌∷◌, ◌++◌, if◌then◌else◌,
}
use kaede.Outcome.{Outcome, ok, throw}
use kaede.Exec.{Exec, pure, lift, modify, ◌>>=◌, ◌>>◌}
use kaede.Hooks.{Scope, catch_sync_response_hooks, or_else}
use kaede.Statuses.{LauncherStatuses, libraries_failed_to_validate, set_current}
use kaede.Meta.{Library, Entry, not_an_object, without_name, Artifact, Necessaries}
use kaede.Parsers.Rules.{should_include_library}
use kaede.Parsers.Native.{check_is_native, parse_native}
use kaede.Parsers.Library.{parse_library}

-- the objects that are passed to the hooks; before the parsing `parsed` is absent
pub record LibrariesPayload : Type 0 where
  pub necessaries : Necessaries
  pub libraries : List Entry
  pub parsed : Option (List Artifact)

abbrev pub LibrariesHooks : Type 0
LibrariesHooks = Scope LauncherStatuses LibrariesPayload (List Artifact)

-- shallowly-validate-library.ts: an entry that is no object, or has no name, is reported
unfoldable pub shallowly_validate_library : Entry → Exec LauncherStatuses (Option Library)
shallowly_validate_library not_an_object = do
  modify (set_current libraries_failed_to_validate)
  pure none
shallowly_validate_library without_name = do
  modify (set_current libraries_failed_to_validate)
  pure none
shallowly_validate_library (Entry.library l) = pure (some l)

-- `if (artifact) results.push(artifact)`
abbrev pub pushed : Option Artifact → List Artifact
pushed none = []
pushed (some artifact) = artifact ∷ []

module _ (delimiter : String) (necessaries : Necessaries) (is_maven : Bool) where
  -- the artifacts of one library: its own, and that of its native
  unfoldable pub parse_included : Library → Exec LauncherStatuses (List Artifact)
  parse_included l = do
    artifact ← lift (parse_library delimiter necessaries is_maven l)
    if check_is_native l
        then (do
          native_artifact ← lift (parse_native delimiter necessaries l)
          pure (pushed artifact ++ pushed native_artifact))
        else pure (pushed artifact)

  -- one round of the loop
  abbrev parse_valid : Option Library → Exec LauncherStatuses (List Artifact)
  parse_valid none = pure []
  parse_valid (some l) = do
    to_include ← lift (should_include_library necessaries l)
    if to_include then parse_included l else pure []

  unfoldable pub parse_entry : Entry → Exec LauncherStatuses (List Artifact)
  unfolding shallowly_validate_library
  parse_entry entry = do valid ← shallowly_validate_library entry; parse_valid valid

  -- the loop, from the results so far
  unfoldable pub parse_entries : List Entry → List Artifact → Exec LauncherStatuses (List Artifact)
  parse_entries [] results = pure results
  parse_entries (entry ∷ entries) results = do
    artifacts ← parse_entry entry
    parse_entries entries (results ++ artifacts)

  unfoldable pub parse_libraries :
      LibrariesHooks → List Entry → Exec LauncherStatuses (List Artifact)
  parse_libraries hooks libraries = do
    before ←
        catch_sync_response_hooks hooks.before
          (record { necessaries = necessaries; libraries = libraries; parsed = none })
    or_else before (do
      results ← parse_entries libraries []
      after ←
          catch_sync_response_hooks hooks.after
            (record { necessaries = necessaries; libraries = libraries; parsed = some results })
      or_else after (pure results))
