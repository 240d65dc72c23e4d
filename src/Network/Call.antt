-- ===== src/Network/Call.antt =====
-- concurrently-download.ts as its callers see it: one call on the statuses of the launch. What the
-- backend reports while it runs is its answer to `invoke`.
use kaede.Prelude.{String, List, [], ◌∷◌}
use kaede.Prelude.Dictionary.{Dictionary}
use kaede.Outcome.{Outcome, ok, throw}
use kaede.Exec.{Exec}
use kaede.Statuses.{DownloadStatuses, Launch}
use kaede.Network.Download.{Snapshot, Report, DownloadEntry, Session, start, on_message, finish}

-- The messages on the channel, and then the report or a rejection.
abbrev pub Backend : Type 0 → Type 0
Backend W = Dictionary String → W → (List Snapshot × Outcome Report) × W

-- the messages, in their order
pub messages : List Snapshot → DownloadStatuses × Session → DownloadStatuses × Session
messages [] before = before
messages (snapshot ∷ snapshots) before = messages snapshots (on_message snapshot before)

abbrev pub settled : Outcome Report → DownloadStatuses × Session → Outcome Report × DownloadStatuses
settled (ok report) before = (ok report, (finish report before).0)
settled (throw e) before = (throw e, before.0)

module _ {W : Type 0} (backend : Backend W) where
  unfoldable pub concurrently_download : List DownloadEntry → Exec (Launch W) Report
  unfolding messages
  concurrently_download entries (world, statuses) =
      let begun = start entries statuses.downloads in
      let (answer, after) = backend begun.1.artifacts world in
      let (result, downloads) = settled answer.1 (messages answer.0 begun) in
      (result, (after, record statuses { downloads = downloads }))
