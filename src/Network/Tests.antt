-- ===== src/Network/Tests.antt =====
-- Runs of the downloads, and an instance of each of their theorems.
use kaede.Prelude.{String, false, true, none, List, [], ◌∷◌, ◌≡◌, refl}
use kaede.Prelude.Dictionary.{get, put, delete}
use kaede.Prelude.Unique.{has}
use kaede.Statuses.{DownloadStatuses}
use kaede.Network.Download.{
  Snapshot, Report, DownloadEntry, Session, unique_map, start, apply_snapshot_data, delete_finished,
  set_each, on_message, delete_each, finish, at, World, Event, started, message, finished, step,
  run,
}
use kaede.Network.Download.Accounting.{Accounted, run-Accounted}
use kaede.Network.Download.Current.{receive, finish-leaves_nothing}

code : Unit {0}
unfolding get put delete has unique_map start apply_snapshot_data delete_finished set_each
    on_message delete_each finish at step run receive
code = tt

abbrev idle : DownloadStatuses
idle = record { total = 0; success = 0; failed = 0; current = [] }

abbrev entry : String → DownloadEntry
entry path = record { url = "https://l/"; path = path }

abbrev snapshot : Snapshot
snapshot = record { current = ("a", (10, 5)) ∷ []; success = 0; failed = 1 }

abbrev partial : Report
partial = record { success = 1; failed = 1; cancelled = true }

abbrev complete : Report
complete = record { success = 2; failed = 0; cancelled = false }

abbrev idle_world : World
idle_world = record { statuses = idle; sessions = [] }

-- Two calls, whose messages and reports interleave; the first is cancelled with one artifact left.
abbrev events : List Event
events =
    started (entry "a" ∷ entry "b" ∷ entry "c" ∷ entry "a" ∷ [])
    ∷ started (entry "d" ∷ entry "e" ∷ [])
    ∷ message 1 snapshot
    ∷ finished 0 complete
    ∷ finished 1 partial
    ∷ []

run_test :
    (run events idle_world).statuses ≡ record { total = 4; success = 3; failed = 1; current = [] }
unfolding code
run_test = refl

run-Accounted_example : Accounted idle (run events idle_world)
run-Accounted_example =
    run-Accounted idle events idle_world (record { success = refl; failed = refl; total = refl })

abbrev session : Session
session = record {
  artifacts = ("a", "u") ∷ ("b", "v") ∷ [];
  previous_success = 1;
  previous_failed = 0;
  previous_paths = "b" ∷ [];
  report = none;
}

finish-leaves_nothing_example :
    get "a"
      (finish complete
        (receive (snapshot ∷ []) (start (entry "a" ∷ entry "b" ∷ []) idle))).0.current
    ≡ none
unfolding code
finish-leaves_nothing_example =
    finish-leaves_nothing "a" (entry "a" ∷ entry "b" ∷ []) (snapshot ∷ []) complete idle
      ((tt, tt), tt) refl
