-- ===== src/Fetching/Tests.antt =====
-- Runs of the downloads of a launch, and an instance of each of their theorems.
use kaede.Prelude.{String, Bool, true, none, some, [], ◌∷◌, ◌≡◌, refl}
use kaede.Prelude.Text.{join}
use kaede.Prelude.Dictionary.{get, put}
use kaede.Outcome.{Outcome, ok, rejected, throw}
use kaede.Hooks.{catch_async_response_hooks, catch_async_void_hooks}
use kaede.FileManager.{file_join}
use kaede.FileManager.JsonFile.{check_days_difference, handle_json_file}
use kaede.Json.{read}
use kaede.Network.Download.{
  unique_map, start, apply_snapshot_data, delete_finished, set_each, on_message, delete_each,
  finish,
}
use kaede.Network.Call.{concurrently_download}
use kaede.Meta.{Artifact, ArtifactStatus, library, empty, native, FinalizedPatch}
use kaede.Fetching.Platform.{Platform, verify_paths, make_directories}
use kaede.Fetching.Assets.{download_assets}
use kaede.Fetching.Client.{download_client}
use kaede.Fetching.Logging.{download_logging}
use kaede.Fetching.Libraries.{download_libraries}
use kaede.Fetching.Libraries.Laws.{IsFetched, download_libraries-IsFetched}
use kaede.Samples.{Machine, machine, statuses}
use kaede.Samples.Downloads.{Disk, put_each, first_of, platform}

code : Unit {0}
unfolding join get put catch_async_response_hooks catch_async_void_hooks file_join
    check_days_difference handle_json_file read unique_map start apply_snapshot_data delete_finished
    set_each on_message delete_each finish concurrently_download verify_paths make_directories
    download_assets download_client download_logging download_libraries put_each first_of
code = tt

abbrev artifact : String → String → ArtifactStatus → Artifact
artifact path url status = record {
  id = path;
  path = path;
  file = path;
  directory = "/k/libraries";
  url = url;
  hash = "abc";
  status = some status;
  first = none;
  exclude = none;
}

-- Two entries have one path, and one entry has no file.
abbrev patch : FinalizedPatch
patch = record {
  jvm_args = [];
  traits = [];
  tweakers = [];
  artifacts =
      artifact "/k/a.jar" "https://l/a" library
      ∷ artifact "/k/a.jar" "https://m/a" native
      ∷ artifact "" "" empty
      ∷ artifact "/k/b.jar" "https://l/b" library
      ∷ [];
  main_class = "Main";
  minecraft_arguments = "";
  asset_index = some (record { id = some "5"; sha1 = none; url = some "https://a/5.json" });
  type = none;
  client = some (artifact "/k/c.jar" "https://c" library);
  logging = none;
}

abbrev before : Machine
before = (("/k/assets/indexes/5.json", "index") ∷ [], statuses)

-- A backend that rejects the call.
abbrev broken : Platform Disk
broken = record platform {
  backend = λ artifacts world. (([], throw (rejected "no connection")), world);
}

abbrev libraries_run : Outcome Bool × Machine
libraries_run = download_libraries platform machine patch before

libraries_are_asked_for : get "/k/a.jar" libraries_run.1.0 ≡ some "https://m/a"
unfolding code
libraries_are_asked_for = refl

-- A rejected download of the client is counted, and the launch goes on.
client_is_counted : (download_client broken machine patch before).0 ≡ ok true
unfolding code
client_is_counted = refl

assets_are_asked_for :
    get "/k/assets/objects/ab/abcd" (download_assets platform machine patch before).1.0
    ≡ some "https://resources.download.minecraft.net/ab/abcd"
unfolding code
assets_are_asked_for = refl

download_libraries-IsFetched_example : IsFetched platform machine patch before
unfolding code
download_libraries-IsFetched_example =
    download_libraries-IsFetched platform machine patch before libraries_run.1 tt refl
