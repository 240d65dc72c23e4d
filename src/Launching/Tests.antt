-- ===== src/Launching/Tests.antt =====
-- A launch from the disk and the server to the process, and an instance of each of the theorems.
use kaede.Prelude.{String, true, Option, none, some, [], ◌∷◌, map, ◌≡◌, refl}
use kaede.Prelude.Dictionary.{get, put}
use kaede.Outcome.{Outcome, ok}
use kaede.Exec.{pure, modify}
use kaede.Json.{read}
use kaede.Network.Download.{
  unique_map, start, apply_snapshot_data, delete_finished, set_each, on_message, delete_each,
  finish,
}
use kaede.Network.Call.{concurrently_download}
use kaede.FileManager.JsonFile.{check_days_difference, handle_json_file}
use kaede.Meta.{Live, Account, Entry, MainJar, Patch}
use kaede.Arguments.Replace.{match_at, with_auth, replace_at, replace_launch_arguments}
use kaede.Patches.Resolve.{resolve_patch, Sources}
use kaede.Fetching.Platform.{verify_paths, make_directories}
use kaede.Launching.PreLaunch.{extract_pre_launch_information}
use kaede.Launching.Natives.{extract_native_archives}
use kaede.Launching.Spawn.{spawn_minecraft, LaunchResponse}
use kaede.Launching.Handle.{Instance, Launcher, handle_launch}
use kaede.Launching.Handle.Success.{IsLaunched, handle_launch-IsLaunched}
use kaede.Samples.{Machine, statuses}
use kaede.Samples.Downloads.{Disk, files, offline, put_each, first_of, platform}
use kaede.Prelude.Text.{split, join, includes, ends_with, count_of}
use kaede.Prelude.Unique.{has, add, add_each}
use kaede.FileManager.{file_join}
use kaede.Network.Metadata.{fetch_metadata, refetch}
use kaede.Hooks.{
  catch_sync_response_hooks, catch_async_response_hooks, catch_sync_void_hooks,
  catch_async_void_hooks,
}
use kaede.Parsers.ArtifactPath.{normalize_artifact_path}
use kaede.Parsers.Finalize.{
  add_artifact, add_all, take_fields, after_round, add_maven_files, add_artifacts_to_map, add_patch,
  add_patches, finalize_patches,
}
use kaede.Parsers.Libraries.{
  shallowly_validate_library, parse_included, parse_entry, parse_entries, parse_libraries,
}
use kaede.Parsers.Library.{parse_library}
use kaede.Parsers.MainJar.{parse_main_jar, parse_logging}
use kaede.Parsers.Native.{check_is_native, required_name, parse_native}
use kaede.Parsers.Platform.{unify_platform_with_arch}
use kaede.Parsers.Rules.{
  is_rule_arch, handle_platform_rule, apply_rule, apply_rules, should_include_library,
}
use kaede.Parsers.Url.{build_url_from_base}
use kaede.Patches.Version.{resolve_patch_version}
use kaede.Patches.SubPatches.{resolve_sub_patches}
use kaede.Arguments.ClassPaths.{gather, get_class_paths}
use kaede.Arguments.Command.{create_command}
use kaede.Fetching.Assets.{download_assets}
use kaede.Fetching.Client.{download_client}
use kaede.Fetching.Logging.{download_logging}
use kaede.Fetching.Libraries.{download_libraries}
use kaede.Launching.Directories.{
  ensure_minecraft_directory, ensure_patch_directories, initialize_short_hash_directories,
  initialize_assets_directories,
}
use kaede.Arguments.Start.{get_java_binary, get_additional_start_arguments}
use kaede.Arguments.Jvm.{get_jvm_arguments}
use kaede.Arguments.Game.{get_game_arguments, build_game_arguments}
use kaede.Modrinth.{Manifest, install_mrpack}

code : Unit {0}
unfolding split join includes ends_with count_of has add add_each file_join read
    check_days_difference handle_json_file unique_map start apply_snapshot_data delete_finished
    set_each on_message delete_each finish concurrently_download fetch_metadata refetch
    catch_sync_response_hooks catch_async_response_hooks catch_sync_void_hooks
    catch_async_void_hooks normalize_artifact_path add_artifact add_all take_fields after_round
    add_maven_files add_artifacts_to_map add_patch add_patches finalize_patches
    shallowly_validate_library parse_included parse_entry parse_entries parse_libraries
    parse_library parse_main_jar parse_logging check_is_native required_name parse_native
    unify_platform_with_arch is_rule_arch handle_platform_rule apply_rule apply_rules
    should_include_library build_url_from_base resolve_patch_version resolve_patch
    resolve_sub_patches gather get_class_paths create_command match_at replace_at
    replace_launch_arguments verify_paths make_directories download_assets download_client
    download_logging download_libraries ensure_minecraft_directory ensure_patch_directories
    initialize_short_hash_directories initialize_assets_directories extract_pre_launch_information
    extract_native_archives spawn_minecraft get put install_mrpack handle_launch get_java_binary
    get_jvm_arguments get_game_arguments build_game_arguments get_additional_start_arguments
    with_auth
code = tt

abbrev library_of : String → String → Entry
library_of name url = Entry.library (record {
  name = some name;
  downloads = some (record {
    artifact = some (record { sha1 = some "abc"; url = some url });
    classifiers = none;
  });
  exclude = none;
  rules = none;
  url = none;
  mmc_hint = none;
})

abbrev client_jar : MainJar
client_jar = record {
  name = some "com.mojang:minecraft:1.20.1:client";
  artifact = some (record { sha1 = some "c"; url = some "https://c/client.jar" });
}

abbrev game : Patch
game = record {
  uid = "net.minecraft";
  jvm_args = none;
  traits = none;
  tweakers = none;
  maven_files = none;
  libraries = some (
      library_of "org.lwjgl:lwjgl:3.3.1" "https://l/lwjgl.jar"
      ∷ library_of "org.lwjgl:lwjgl:3.3.1:natives-linux" "https://l/natives.jar"
      ∷ []);
  plus_libraries = none;
  main_class = some "net.minecraft.client.main.Main";
  minecraft_arguments = some "--username ${auth_player_name}";
  asset_index = some (record { id = some "5"; sha1 = none; url = some "https://a/5.json" });
  type = some "release";
  logging = none;
  main_jar = some client_jar;
  requires = none;
}

abbrev sources : Sources Disk
sources = record {
  files = files;
  fetch = offline;
  hooks = record { before = none; after = none };
  validate = λ json. elim json [ none ↦ none | some value ↦ some game ];
  optifine_patch = λ version. pure none;
}

abbrev steve : Account
steve = record { username = "Steve"; token = "t"; uuid = "u"; type = "msa"; xuid = "x" }

-- The objects of a launch are kept on the disk: the name of the account, and the game arguments.
abbrev put_text : String → Option String → Disk → Disk
put_text key none world = world
put_text key (some t) world = put key t world

abbrev name_of : Option Account → Option String
name_of none = none
name_of (some account) = some account.username

abbrev hold : Live → Disk → Disk
hold live world =
    put_text "user" (name_of live.account) (put_text "arguments" live.minecraft_arguments world)

abbrev named : Option String → Option Account
named none = none
named (some username) =
    some (record { username = username; token = "t"; uuid = "u"; type = "msa"; xuid = "x" })

abbrev live : Disk → Live
live world = record {
  account = named (get "user" world);
  minecraft_arguments = get "arguments" world;
}

abbrev pack : Manifest
pack = record {
  name = "pack";
  dependencies = ("minecraft", "1.20.1") ∷ [];
  files = record { path = "mods/a.jar"; url = "https://m/a"; sha1 = "abc" } ∷ [];
}

abbrev launcher : Launcher Disk
launcher = record {
  hold = hold;
  live = live;
  host = record {
    delimiter = "/";
    os = "linux";
    arch = "x86_64";
    base_directory = "/k";
    pre_launch = record { before = none; after = none };
  };
  platform = platform;
  sources = sources;
  libraries_hooks = record { before = none; after = none };
  argument_hooks = record {
    java_binary_before = none;
    jvm_before = none;
    jvm_after = none;
    class_paths_before = none;
    game_before = none;
    game_after = none;
    additional_before = none;
    replace_before = none;
    replace_after = none;
  };
  unzipping = record {
    hooks = record { before = some []; after = some [] };
    unzip = λ archives directory. modify (λ (w, s). (put directory "natives" w, s));
  };
  spawning = record {
    spawn_process = λ command directory. pure 7;
    launch_before = none;
    launch_after = none;
    kill_after = none;
    on_close = λ instance_id. pure tt;
  };
  unpack = λ archive directory. pure pack;
  confirm = pure true;
  os_version = "6";
  launcher_version = "1";
}

abbrev inst : Instance
inst = record {
  id = "i";
  entry = "net.minecraft";
  modpack_path = some "/pack.mrpack";
  preferences = record {
    window_width = "854";
    window_height = "480";
    patch_versions = ("net.minecraft", "1.20.1") ∷ [];
    game_arguments = none;
    jvm_arguments = none;
    java_binary = "java";
    account = some steve;
    versions = some (("net.minecraft", "1.20.1") ∷ []);
    checksum = true;
  };
}

abbrev before : Machine
before = (
  ("/k/cache/net.minecraft/1.20.1.json", "game") ∷ ("/k/assets/indexes/5.json", "index") ∷ [],
  statuses,
)

abbrev success : LaunchResponse
success = record { success = true; process = some 7 }

abbrev launched : Outcome (Option LaunchResponse) × Machine
launched = handle_launch launcher 1 inst before

result_of : {A : Type 0} → Outcome A × Machine → Outcome A
result_of r = r.0

launch_runs : result_of launched ≡ ok (some success)
unfolding code result_of put_each first_of
launch_runs = refl

-- The icon of the assets, the natives and the file of the modpack are on the disk.
launch_downloads :
    map
      (λ path. get path launched.1.0)
      ("/k/assets/objects/ab/abcd" ∷ "/k/instances/i/natives"
        ∷ "/k/instances/i/minecraft/mods/a.jar" ∷ [])
    ≡ some "https://resources.download.minecraft.net/ab/abcd"
      ∷ some "natives"
      ∷ some "https://m/a"
      ∷ []
unfolding code put_each first_of
launch_downloads = refl

handle_launch-IsLaunched_example : IsLaunched launcher 1 inst success
unfolding code put_each first_of
handle_launch-IsLaunched_example =
    handle_launch-IsLaunched launcher 1 inst success refl before (launched.1) refl
