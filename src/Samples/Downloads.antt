-- ===== src/Samples/Downloads.antt =====
-- A platform over the disk in memory: every path is missing, and the backend puts the URL at it.
use kaede.Prelude.{String, false, none, some, [], ◌∷◌, map, str_eq, if◌then◌else◌}
use kaede.Prelude.Dictionary.{Dictionary, put}
use kaede.Outcome.{ok, throw, rejected}
use kaede.Exec.{pure}
use kaede.Json.{Json, text, object, end, field}
use kaede.Network.Http.{Fetch}
use kaede.Network.Call.{Backend}
use kaede.FileManager.JsonFile.{Files}
use kaede.Fetching.Platform.{Platform}
use kaede.Samples.{Machine, disk}

abbrev pub Disk : Type 0
Disk = Dictionary String

abbrev pub asset_index : Json
asset_index =
    object
      (field "objects" (object (field "icon" (object (field "hash" (text "abcd") end)) end)) end)

abbrev pub files : Files Machine
files = record disk { parse = λ t. if str_eq t "index" then some asset_index else some (text t) }

-- Nothing comes from the network but what the backend downloads.
abbrev pub offline : Fetch Machine
offline request s = (throw (rejected request.url), s)

unfoldable pub put_each : Dictionary String → Disk → Disk
put_each [] world = world
put_each ((path, url) ∷ entries) world = put_each entries (put path url world)

abbrev pub backend : Backend Disk
backend entries world =
    (([], ok (record { success = 0; failed = 0; cancelled = false })), put_each entries world)

unfoldable pub first_of : String × String → String
first_of (path, hash) = path

abbrev pub platform : Platform Disk
platform = record {
  files = files;
  make_directory = λ recursive directory. pure tt;
  read_directory = λ directory. pure [];
  verify_file_paths = λ paths. pure (map first_of paths);
  get_missing_files = λ paths. pure paths;
  backend = backend;
  fetch = offline;
  libraries_get = record { before = none; after = none };
  client_get = record { before = none; after = none };
  logging_get = record { before = none; after = none };
}
