-- ===== src/Samples.antt =====
-- The data that the tests of several parts share: a machine, a disk in memory, and a server.
pub mod Downloads
use mathlib.Core.Path.{subst}
use kaede.Prelude.{
  String, Bool, true, false, Option, none, some, [], ◌∷◌, ◌≡◌, refl, ap, eq_iff, arith,
}
use kaede.Prelude.Dictionary.{Dictionary, get, put, get-put}
use kaede.Outcome.{Outcome, ok, throw, rejected}
use kaede.Json.{text}
use kaede.FileManager.JsonFile.{Files, check_days_difference}
use kaede.FileManager.JsonFile.Cache.{Holds, IsLawful}
use kaede.Parsers.Platform.{linux, x64}
use kaede.Statuses.{LauncherStatuses, Launch}
use kaede.Meta.{Directories, Necessaries}

abbrev pub directories : Directories
directories = record {
  base = "/k";
  instance_root = "/k/i";
  instance_dir = "/k/i/m";
  assets = "/k/assets";
  logging = "/k/logging";
  libraries = "/k/libraries";
  natives = "/k/natives";
  asset_indexes = "/k/assets/indexes";
  asset_objects = "/k/assets/objects";
}

abbrev pub machine : Necessaries
machine = record {
  platform = linux;
  arch = x64;
  directories = directories;
  window_width = "854";
  window_height = "480";
  patch_versions = ("net.minecraft", "1.20.1") ∷ [];
  game_arguments = none;
  jvm_arguments = none;
  java_binary = "java";
  account = none;
  versions = some (("net.minecraft", "1.20.1") ∷ []);
  checksum = true;
  cancel_id = "launch";
}

abbrev pub statuses : LauncherStatuses
statuses = record {
  instance_id = "i";
  launching = 0;
  current = none;
  downloads = record { total = 0; success = 0; failed = 0; current = [] };
}

-- The disk maps paths to texts.
abbrev pub Machine : Type 0
Machine = Launch (Dictionary String)

abbrev of_text : Machine → Option String → Outcome String × Machine
of_text s none = (throw (rejected "no such file"), s)
of_text s (some t) = (ok t, s)

abbrev is_some : Option String → Bool
is_some none = false
is_some (some t) = true

-- Every text is taken for a JSON text as it is.
abbrev pub disk : Files Machine
disk = record {
  delimiter = "/";
  exists = λ path s. (ok (is_some (get path s.0)), s);
  last_modified = λ path s. (ok (some 0), s);
  now = λ s. (ok 0, s);
  read_text_file = λ path s. of_text s (get path s.0);
  write_text_file = λ path t s. (ok tt, (put path t s.0, s.1));
  parse = λ t. some (text t);
  stringify = λ json. elim json [ text t ↦ t | _ ↦ "null" ];
}

get-put_self : (path t : String) (d : Dictionary String) → get path (put path t d) ≡ some t
get-put_self path t d = ground (arith, get-put path path t d, eq_iff path path)

disk-Holds : (path t : String) (s : Machine) → Holds disk path t (put path t s.0, s.1)
unfolding check_days_difference
disk-Holds path t s = record {
  found = rw (get-put_self path t s.0);
  content = rw (get-put_self path t s.0);
  modified = 0;
  today = 0;
  dated = refl;
  clock = refl;
  young = refl;
}

pub disk-IsLawful : IsLawful disk
disk-IsLawful = record {
  written = λ path t s s' h.
      let e : (put path t s.0, s.1) ≡ s' = ap (λ (r : Outcome (Unit {0}) × Machine). r.1) h in
      subst (Holds disk path t) e (disk-Holds path t s);
}
