-- ===== src/Permissions/Handle.antt =====
-- handle-permission.ts, with the scopes of the modules under atomic/: the capability that a permission
-- of the form "base::scope::argument" stands for.
pub mod Parts
use Prim.Native.String.{[] as nil, ◌∷◌ as cons}
use kaede.Prelude.{
  ℕ, zero, code, String, Bool, true, false, ◌&&◌, Option, none, some, List, [], ◌∷◌, str_eq,
  if◌then◌else◌, ◌==◌, get_elem?,
}
use kaede.Prelude.Text.{onto_head}
use kaede.Outcome.{Outcome, ok, throw, refused}
use kaede.Parsers.ArtifactPath.{truthy}

-- What is handed to an extension; `undefined` is `nothing`.
pub data Capability : Type 0 where
  performance date : Capability
  interactive_dom safe_dom : Capability
  http_get http_post : String → Capability
  log_write log_read log_stream : Capability
  nothing : Capability

-- key.split("::")
unfoldable pub split_scopes : String → List String
split_scopes nil = "" ∷ []
split_scopes (cons c nil) = cons c nil ∷ []
split_scopes (cons c (cons d s)) =
    let skipped = split_scopes s in
    let next = split_scopes (cons d s) in
    if (code c == 58) && (code d == 58) then "" ∷ skipped else onto_head c next

abbrev pub time_permission : String → Capability
time_permission scope =
    if str_eq scope "performance"
    then performance
    else if str_eq scope "date"
    then date
    else nothing

abbrev pub ui_permission : String → Capability
ui_permission scope = if str_eq scope "interactivity" then interactive_dom else safe_dom

abbrev pub internet_permission : String → Option String → Outcome Capability
internet_permission scope none = throw (refused "Internet permissions must include a URL scope")
internet_permission scope (some argument) = ok (
    if str_eq scope "http-get"
    then http_get argument
    else if str_eq scope "http-post"
    then http_post argument
    else nothing)

abbrev pub logging_permission : String → Capability
logging_permission scope =
    if str_eq scope "write"
    then log_write
    else if str_eq scope "read"
    then log_read
    else if str_eq scope "stream"
    then log_stream
    else nothing

abbrev by_base : (base scope : String) → Option String → Outcome Capability
by_base base scope argument =
    if str_eq base "time"
    then ok (time_permission scope)
    else if str_eq base "ui"
    then ok (ui_permission scope)
    else if str_eq base "internet"
    then internet_permission scope (truthy argument)
    else if str_eq base "log"
    then ok (logging_permission scope)
    else ok nothing

abbrev by_parts : (base scope argument : Option String) → Outcome Capability
by_parts (some base) (some scope) argument = by_base base scope argument
by_parts _ _ argument = throw (refused "The requested permission is invalid")

unfoldable pub handle_permission : String → Outcome Capability
handle_permission permission =
    let parts = split_scopes permission in
    by_parts (truthy (get_elem? parts 0)) (truthy (get_elem? parts 1)) (get_elem? parts 2)
