-- ===== src/FileManager/JsonFile.antt =====
-- lib/file-manager/handle-json-file.ts: a JSON file with a value in its place where it is missing,
-- stale or broken. The file system, the clock, JSON.parse and JSON.stringify are parameters.
pub mod Cache
mod Tests
pub mod Failures
use Prim.Native.Nat.{◌/◌}
use kaede.Prelude.{
  String, ℕ, ◌+◌, ◌-◌, Bool, true, false, Option, none, some, List, ◌∷◌, ltb, default,
}
use kaede.Outcome.{Outcome, ok, throw}
use kaede.Exec.{Exec, pure, attempt, ◌>>=◌, ◌>>◌}
use kaede.FileManager.{file_join}
use kaede.Json.{Json, null}

-- @tauri-apps/plugin-fs, with the clock and the two functions of JSON. `last_modified` is
-- `(await stat(path)).mtime`, in milliseconds.
pub record Files (S : Type 0) : Type 0 where
  pub delimiter : String
  pub exists : String → Exec S Bool
  pub last_modified : String → Exec S (Option ℕ)
  pub now : Exec S ℕ
  pub read_text_file : String → Exec S String
  pub write_text_file : String → String → Exec S (Unit {0})
  pub parse : String → Option Json
  pub stringify : Json → String

-- milliseconds
abbrev pub day : ℕ
day = 86400000

-- lib/general/scopes/check-days-difference.ts
unfoldable pub check_days_difference : ℕ → ℕ → ℕ
check_days_difference from to = ((from - to) + (to - from)) / day

-- `invalidation`, with `getNewValue`; a value that may be undefined is an Option
pub record Invalidation (S : Type 0) : Type 0 where
  pub days : ℕ
  pub get_new_value : Exec S (Option Json)

-- `exists(filePath).catch(() => false)`
abbrev or_false : Outcome Bool → Bool
or_false (ok found) = found
or_false (throw e) = false

module _ {S : Type 0} (files : Files S) where
  abbrev overwrite : String → Option Json → Exec S (Option Json)
  overwrite path value = do
    files.write_text_file path (files.stringify (default null value))
    pure value

  is_stale : ℕ → Option ℕ → Exec S Bool
  is_stale days none = pure true
  is_stale days (some modified) = do
    today ← files.now
    pure (ltb days (check_days_difference modified today))

  module _ (path : String) (get_default_value : Exec S (Option Json)) where
    -- `return await overwrite(await getDefaultValue())`
    abbrev renew : Exec S (Option Json) → Exec S (Option Json)
    renew get = do value ← get; overwrite path value

    abbrev of_parsed : Option Json → Exec S (Option Json)
    of_parsed (some value) = pure (some value)
    of_parsed none = renew get_default_value

    read_stored : Exec S (Option Json)
    read_stored = do stored ← files.read_text_file path; of_parsed (files.parse stored)

    abbrev of_staleness : Exec S (Option Json) → Bool → Exec S (Option Json)
    of_staleness get_new_value true = renew get_new_value
    of_staleness get_new_value false = read_stored

    read_existing : Option (Invalidation S) → Exec S (Option Json)
    unfolding read_stored is_stale
    read_existing none = read_stored
    read_existing (some invalidation) = do
      modified ← files.last_modified path
      stale ← is_stale invalidation.days modified
      of_staleness invalidation.get_new_value stale

    abbrev of_existence : Option (Invalidation S) → Bool → Exec S (Option Json)
    of_existence invalidation false = renew get_default_value
    of_existence invalidation true = read_existing invalidation

    -- the body of `try`
    read_or_renew : Option (Invalidation S) → Exec S (Option Json)
    unfolding read_existing
    read_or_renew invalidation = do
      found ← attempt (files.exists path)
      of_existence invalidation (or_false found)

    abbrev or_default : Outcome (Option Json) → Exec S (Option Json)
    or_default (ok value) = pure value
    or_default (throw e) = get_default_value

    handle_at : Option (Invalidation S) → Exec S (Option Json)
    unfolding read_or_renew
    handle_at invalidation = do tried ← attempt (read_or_renew invalidation); or_default tried

  unfoldable pub handle_json_file :
      String → List String → Exec S (Option Json) → Option (Invalidation S) → Exec S (Option Json)
  unfolding handle_at
  handle_json_file base_directory path get_default_value =
      handle_at (file_join files.delimiter (base_directory ∷ path)) get_default_value
