-- ===== src/Network/Download.antt =====
-- lib/network/concurrently-download.ts: the downloads that run in the backend report their progress,
-- and several of them may write the same statuses. A session is one call of `concurrentlyDownload`
-- with its variables; the backend is an arbitrary sequence of messages and a report for each.
pub mod Accounting
pub mod Current
pub mod Paths
use Prim.Native.Nat.{◌-◌}
use kaede.Prelude.{
  ℕ, zero, suc, ◌+◌, String, Bool, true, false, ◌||◌, not, Option, none, some, List, [], ◌∷◌, ◌++◌,
  map, ltb, if◌then◌else◌, length,
}
use kaede.Prelude.Dictionary.{Dictionary, get, put, delete}
use kaede.Statuses.{DownloadStatuses}

-- `[progress, speed]`
abbrev pub Progress : Type 0
Progress = ℕ × ℕ

pub record Snapshot : Type 0 where
  pub current : Dictionary Progress
  pub success : ℕ
  pub failed : ℕ

pub record Report : Type 0 where
  pub success : ℕ
  pub failed : ℕ
  pub cancelled : Bool

-- `{ url, path }`
pub record DownloadEntry : Type 0 where
  pub url : String
  pub path : String

-- the variables of one call; `report` is what it has returned
pub record Session : Type 0 where
  pub artifacts : Dictionary String
  pub previous_success : ℕ
  pub previous_failed : ℕ
  pub previous_paths : List String
  pub report : Option Report

-- new Map(entries.map(({ url, path }) => [path, url]))
unfoldable pub unique_map : List DownloadEntry → Dictionary String → Dictionary String
unique_map [] found = found
unique_map (entry ∷ entries) found = unique_map entries (put entry.path entry.url found)

-- the call, up to `invoke`
unfoldable pub start : List DownloadEntry → DownloadStatuses → DownloadStatuses × Session
start entries statuses =
    let artifacts = unique_map entries [] in
    (
      record statuses { total = statuses.total + length artifacts },
      record {
        artifacts = artifacts;
        previous_success = 0;
        previous_failed = 0;
        previous_paths = [];
        report = none;
      },
    )

-- `applySnapshotData`; by the guard no subtraction goes below zero
unfoldable pub apply_snapshot_data :
    (success failed : ℕ) → DownloadStatuses × Session → DownloadStatuses × Session
apply_snapshot_data success failed (statuses, session) =
    if ltb success session.previous_success || ltb failed session.previous_failed
    then (statuses, session)
    else (
      record statuses {
        success = (statuses.success + success) - session.previous_success;
        failed = (statuses.failed + failed) - session.previous_failed;
      },
      record session { previous_success = success; previous_failed = failed },
    )

abbrev pub is_key : String → Dictionary Progress → Bool
is_key path current = elim (get path current) [ none ↦ false | some p ↦ true ]

-- the loop over `previousPaths`
unfoldable pub delete_finished :
    List String → Dictionary Progress → Dictionary Progress → Dictionary Progress
delete_finished [] reported current = current
delete_finished (path ∷ paths) reported current =
    delete_finished paths reported (if is_key path reported then current else delete path current)

-- the loop over the entries of the snapshot
unfoldable pub set_each : Dictionary Progress → Dictionary Progress → Dictionary Progress
set_each [] current = current
set_each ((path, progress) ∷ reported) current = set_each reported (put path progress current)

-- `onProgress.onmessage`
unfoldable pub on_message : Snapshot → DownloadStatuses × Session → DownloadStatuses × Session
on_message snapshot (statuses, session) = apply_snapshot_data snapshot.success snapshot.failed (
  record statuses {
    current =
        set_each snapshot.current
          (delete_finished session.previous_paths snapshot.current statuses.current);
  },
  record session { previous_paths = map (λ entry. entry.0) snapshot.current },
)

-- the second loop over `previousPaths`
unfoldable pub delete_each : List String → Dictionary Progress → Dictionary Progress
delete_each [] current = current
delete_each (path ∷ paths) current = delete_each paths (delete path current)

-- What stands in `total` for a cancelled call goes back: `total - (n - success - failed)`, with the
-- sums first, so that the difference is taken once.
abbrev release : Bool → ℕ → ℕ → ℕ → ℕ
release false done n total = total
release true done n total = (total + done) - n

-- the call, from the end of `invoke`
unfoldable pub finish : Report → DownloadStatuses × Session → DownloadStatuses × Session
finish report before =
    let (statuses, session) = apply_snapshot_data report.success report.failed before in
    (
      record statuses {
        current = delete_each session.previous_paths statuses.current;
        total =
            release report.cancelled (report.success + report.failed) (length session.artifacts)
              statuses.total;
      },
      record session { previous_paths = []; report = some report },
    )

-- The statuses with all the calls so far.
pub record World : Type 0 where
  pub statuses : DownloadStatuses
  pub sessions : List Session

-- What happens next: a new call, or a message or the report for the call with a number.
pub data Event : Type 0 where
  started : List DownloadEntry → Event
  message : ℕ → Snapshot → Event
  finished : ℕ → Report → Event

-- `invoke` settles once.
abbrev pub settle_with :
    Option Report → Report → DownloadStatuses × Session → DownloadStatuses × Session
settle_with none report before = finish report before
settle_with (some r) report before = before

abbrev pub settle : Report → DownloadStatuses × Session → DownloadStatuses × Session
settle report before = settle_with before.1.report report before

-- Run a handler for the call with a number.
unfoldable pub at :
    ℕ
    → (DownloadStatuses × Session → DownloadStatuses × Session)
    → DownloadStatuses
    → List Session
    → DownloadStatuses × List Session
at i handler statuses [] = (statuses, [])
at zero handler statuses (session ∷ sessions) =
    let (statuses', session') = handler (statuses, session) in (statuses', session' ∷ sessions)
at (suc i) handler statuses (session ∷ sessions) =
    let (statuses', rest) = at i handler statuses sessions in (statuses', session ∷ rest)

abbrev world : DownloadStatuses × List Session → World
world (statuses, sessions) = record { statuses = statuses; sessions = sessions }

unfoldable pub step : Event → World → World
step (started entries) w =
    let (statuses, session) = start entries w.statuses in
    record { statuses = statuses; sessions = session ∷ w.sessions }
step (message i snapshot) w = world (at i (on_message snapshot) w.statuses w.sessions)
step (finished i report) w = world (at i (settle report) w.statuses w.sessions)

unfoldable pub run : List Event → World → World
run [] w = w
run (event ∷ events) w = run events (step event w)
