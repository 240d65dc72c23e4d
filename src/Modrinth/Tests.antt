-- ===== src/Modrinth/Tests.antt =====
-- Runs of the modules of Modrinth.
use kaede.Prelude.{true, false, none, some, [], ◌∷◌, ◌≡◌, refl}
use kaede.Prelude.Text.{join}
use kaede.Prelude.Dictionary.{get, put}
use kaede.Outcome.{ok}
use kaede.Exec.{pure}
use kaede.FileManager.{file_join}
use kaede.Network.Download.{unique_map, start, apply_snapshot_data, delete_each, finish}
use kaede.Network.Call.{concurrently_download}
use kaede.Fetching.Platform.{Platform, verify_paths}
use kaede.Modrinth.{Manifest, install_mrpack}
use kaede.Modrinth.Versions.{resolve_patch_versions}
use kaede.Samples.{Machine, statuses}
use kaede.Samples.Downloads.{Disk, put_each, first_of, platform}

code : Unit {0}
unfolding join get put file_join unique_map start apply_snapshot_data delete_each finish
    concurrently_download verify_paths install_mrpack resolve_patch_versions put_each first_of
code = tt

versions_are_found :
    resolve_patch_versions (("minecraft", "1.20.1") ∷ ("fabric-loader", "0.15") ∷ ("x", "1") ∷ [])
    ≡ some (("net.minecraft", "1.20.1") ∷ ("net.fabricmc.fabric-loader", "0.15") ∷ [])
unfolding code
versions_are_found = refl

versions_need_the_game : resolve_patch_versions (("fabric-loader", "0.15") ∷ []) ≡ none
unfolding code
versions_need_the_game = refl

abbrev pack : Manifest
pack = record {
  name = "pack";
  dependencies = [];
  files = record { path = "mods/a.jar"; url = "https://m/a"; sha1 = "abc" } ∷ [];
}

abbrev before : Machine
before = ([], record statuses { launching = 1 })

-- A backend whose user cancels.
abbrev cancelling : Platform Disk
cancelling = record platform {
  backend =
      λ artifacts world. (([], ok (record { success = 0; failed = 0; cancelled = true })), world);
}

pack_is_installed :
    install_mrpack platform (λ archive directory. pure pack) true "/p.mrpack" "/i" before ≡ (
      ok (some pack, record { success = 0; failed = 0; cancelled = false }),
      (
        ("/i/mods/a.jar", "https://m/a") ∷ [],
        record statuses {
          launching = 0;
          downloads = record { total = 1; success = 0; failed = 0; current = [] };
        },
      ),
    )
unfolding code
pack_is_installed = refl

-- A cancelled installation reports no failure.
cancelled_pack :
    (install_mrpack cancelling (λ archive directory. pure pack) true "/p.mrpack" "/i" before).0
    ≡ ok (none, record { success = 0; failed = 0; cancelled = true })
unfolding code
cancelled_pack = refl
