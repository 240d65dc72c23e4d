-- ===== src/Statuses.antt =====
-- types/launcher/launch/launch-status.type.ts and the `LaunchStatus` words of constants/launcher.ts:
-- the statuses of a launch, which the parsers and the downloads write.
use kaede.Prelude.{String, ℕ, Option, some, List}
use kaede.Exec.{Exec, modify}

-- `downloads.current` maps a path to the progress and the speed of its download.
pub record DownloadStatuses : Type 0 where
  pub total : ℕ
  pub success : ℕ
  pub failed : ℕ
  pub current : List (String × (ℕ × ℕ))

-- LauncherStatusesType
pub record LauncherStatuses : Type 0 where
  pub instance_id : String
  pub launching : ℕ
  pub current : Option String
  pub downloads : DownloadStatuses

abbrev pub libraries_failed_to_validate : String
libraries_failed_to_validate = "libraries-error-validation"

abbrev pub logging_failed_to_parse : String
logging_failed_to_parse = "logging-error-parse"

abbrev pub client_failed_to_parse : String
client_failed_to_parse = "client-error-parse"

abbrev pub set_current : String → LauncherStatuses → LauncherStatuses
set_current status s = record s { current = some status }

-- A launch on the rest `W` of the world: its statuses are shared by all parts of it.
abbrev pub Launch : Type 0 → Type 0
Launch W = W × LauncherStatuses

-- statuses.current = status
abbrev pub set_status : {W : Type 0} → String → Exec (Launch W) (Unit {0})
set_status status = modify (λ (w, s). (w, set_current status s))
