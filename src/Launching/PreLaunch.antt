-- ===== src/Launching/PreLaunch.antt =====
-- extractors/extract-pre-launch-information.ts, and lib/instances/get-minecraft-directory.ts.
use kaede.Prelude.{String, Bool, Option, none, some, List, [], ◌∷◌, str_eq, if◌then◌else◌}
use kaede.Prelude.Text.{concat}
use kaede.Prelude.Dictionary.{Dictionary}
use kaede.Exec.{Exec, pure, ◌>>=◌, ◌>>◌, share}
use kaede.Hooks.{Hook, or_else, catch_sync_response_hooks}
use kaede.FileManager.{file_join}
use kaede.Statuses.{Launch, set_status}
use kaede.Parsers.Platform.{Platform, windows, macos, linux, Arch, x64, x86, arm64, arm32}
use kaede.Meta.{Account, Directories, Necessaries}

-- what the modelled code reads of the instance and of the user's preferences
pub record Preferences : Type 0 where
  pub window_width : String
  pub window_height : String
  pub patch_versions : Dictionary String
  pub game_arguments : Option (List String)
  pub jvm_arguments : Option (List String)
  pub java_binary : String
  pub account : Option Account
  pub versions : Option (Dictionary String)
  pub checksum : Bool

-- the `switch` over `platform()`
abbrev pub compatible_platform : String → Option Platform
compatible_platform provided =
    if str_eq provided "linux"
    then some linux
    else if str_eq provided "windows"
    then some windows
    else if str_eq provided "macos"
    then some macos
    else none

-- the `switch` over `arch()`
abbrev pub compatible_arch : String → Option Arch
compatible_arch provided =
    if str_eq provided "x86"
    then some x86
    else if str_eq provided "x86_64"
    then some x64
    else if str_eq provided "arm"
    then some arm32
    else if str_eq provided "aarch64"
    then some arm64
    else if str_eq provided "riscv64"
    then some arm64
    else none

-- The hooks may change the object that is returned.
pub record PreLaunchHooks (S : Type 0) : Type 0 where
  pub before : Option (List (Hook S String (Option Necessaries)))
  pub after : Option (List (Hook (S × Necessaries) (Unit {0}) (Option Necessaries)))

-- The operating system, the base directory and the hooks.
pub record Host (W : Type 0) : Type 0 where
  pub delimiter : String
  pub os : String
  pub arch : String
  pub base_directory : String
  pub pre_launch : PreLaunchHooks (Launch W)

module _ {W : Type 0} (host : Host W) where
  abbrev join_base : List String → String
  join_base path = file_join host.delimiter (host.base_directory ∷ path)

  -- getMinecraftDirectory, with the directories of the launch
  abbrev pub directories_of : String → Directories
  directories_of instance_id =
      let instance_root = join_base ("instances" ∷ instance_id ∷ []) in
      let assets = join_base ("assets" ∷ []) in
      record {
        base = host.base_directory;
        instance_root = instance_root;
        instance_dir = file_join host.delimiter (instance_root ∷ "minecraft" ∷ []);
        assets = assets;
        logging = join_base ("assets" ∷ "log_configs" ∷ []);
        libraries = join_base ("libraries" ∷ []);
        natives = join_base ("instances" ∷ instance_id ∷ "natives" ∷ []);
        asset_indexes = file_join host.delimiter (assets ∷ "indexes" ∷ []);
        asset_objects = file_join host.delimiter (assets ∷ "objects" ∷ []);
      }

  module _ (preferences : Preferences) (instance_id : String) where
    abbrev pub pre_launch_information : Platform → Arch → Necessaries
    pre_launch_information platform arch = record {
      platform = platform;
      arch = arch;
      directories = directories_of instance_id;
      window_width = preferences.window_width;
      window_height = preferences.window_height;
      patch_versions = preferences.patch_versions;
      game_arguments = preferences.game_arguments;
      jvm_arguments = preferences.jvm_arguments;
      java_binary = preferences.java_binary;
      account = preferences.account;
      versions = preferences.versions;
      checksum = preferences.checksum;
      cancel_id = concat (instance_id ∷ "-download" ∷ []);
    }

    abbrev after_hooks : Necessaries → Exec (Launch W) (Option Necessaries)
    after_hooks information = do
      answer ← share information (catch_sync_response_hooks host.pre_launch.after tt)
      or_else answer.0 (pure (some answer.1))

    abbrev of_arch : Platform → Option Arch → Exec (Launch W) (Option Necessaries)
    of_arch platform none = do set_status "errors-incompatible-arch"; pure none
    of_arch platform (some arch) = after_hooks (pre_launch_information platform arch)

    abbrev of_platform : Option Platform → Exec (Launch W) (Option Necessaries)
    of_platform none = do set_status "errors-incompatible-platform"; pure none
    of_platform (some platform) = of_arch platform (compatible_arch host.arch)

    unfoldable pub extract_pre_launch_information : Exec (Launch W) (Option Necessaries)
    extract_pre_launch_information = do
      answer ← catch_sync_response_hooks host.pre_launch.before instance_id
      or_else answer (of_platform (compatible_platform host.os))
