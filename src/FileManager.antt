-- ===== src/FileManager.antt =====
-- lib/file-manager/join.ts, over the delimiter of the platform (`GlobalInternals.joinDelimiter`).
pub mod JsonFile
use kaede.Prelude.{String, List, str_eq, not, filter}
use kaede.Prelude.Text.{join}

unfoldable pub file_join : (delimiter : String) → List String → String
file_join delimiter paths = join delimiter (filter (λ path. not (str_eq path "")) paths)
