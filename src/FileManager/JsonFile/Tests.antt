-- ===== src/FileManager/JsonFile/Tests.antt =====
-- Runs of handleJsonFile on a disk in memory, and an instance of each of its theorems.
use kaede.Prelude.{Option, some, [], ◌∷◌, ◌≡◌, refl}
use kaede.Prelude.Dictionary.{get, put}
use kaede.Prelude.Text.{join}
use kaede.Outcome.{ok, throw, rejected}
use kaede.Exec.{Exec, pure, lift}
use kaede.FileManager.{file_join}
use kaede.FileManager.JsonFile.{Invalidation, check_days_difference, handle_json_file}
use kaede.FileManager.JsonFile.Cache.{Origin, handle_json_file-Origin, handle_json_file_twice}
use kaede.FileManager.JsonFile.Failures.{handle_json_file-throw}
use kaede.Json.{Json, text}
use kaede.Samples.{Machine, statuses, disk, disk-IsLawful}

code : Unit {0}
unfolding get put join file_join handle_json_file check_days_difference
code = tt

abbrev fresh : Exec Machine (Option Json)
fresh = pure (some (text "v"))

abbrev failing : Exec Machine (Option Json)
failing = lift (throw (rejected "offline"))

abbrev weekly : Exec Machine (Option Json) → Option (Invalidation Machine)
weekly get = some (record { days = 7; get_new_value = get })

abbrev empty_disk : Machine
empty_disk = ([], statuses)

abbrev filled : Machine
filled = (("/k/a.json", "v") ∷ [], statuses)

-- The file is made, and read although the network is gone.
handle_json_file_twice_example :
    (handle_json_file disk "/k" ("a.json" ∷ []) fresh (weekly fresh) empty_disk
      ≡ (ok (some (text "v")), filled))
    × (handle_json_file disk "/k" ("a.json" ∷ []) failing (weekly failing) filled
        ≡ (ok (some (text "v")), filled))
unfolding code
handle_json_file_twice_example =
    handle_json_file_twice disk "/k" ("a.json" ∷ []) fresh failing (weekly fresh) (weekly failing)
      (some (text "v")) empty_disk empty_disk empty_disk filled disk-IsLawful refl refl refl refl

handle_json_file-throw_example :
    (u : Machine) × (failing u ≡ (throw (rejected "offline"), empty_disk))
unfolding code
handle_json_file-throw_example =
    handle_json_file-throw disk "/k" ("a.json" ∷ []) failing (weekly failing) (rejected "offline")
      empty_disk empty_disk refl

handle_json_file-Origin_example : Origin disk "/k/a.json" failing (weekly failing) (some (text "v"))
unfolding code
handle_json_file-Origin_example =
    handle_json_file-Origin disk "/k" ("a.json" ∷ []) failing (weekly failing) (some (text "v"))
      filled filled refl
