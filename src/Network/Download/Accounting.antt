-- ===== src/Network/Download/Accounting.antt =====
-- The numbers of `statuses.downloads` are the sums over the calls that share them, whatever the order
-- of their messages and reports.
use kaede.Prelude.{
  ℕ, zero, suc, ◌+◌, ◌≤◌, ◌||◌, Option, none, some, List, [], ◌∷◌, ltb, length, if◌then◌else◌, ◌≡◌,
  refl, ap, ◌∙◌, arith, Bool-cases, inl, inr,
}
use kaede.Statuses.{DownloadStatuses}
use kaede.Network.Download.{
  Report, Session, Snapshot, start, apply_snapshot_data, on_message, finish, settle, settle_with,
  at, World, Event, started, message, finished, step, run,
}

abbrev sum : (Session → ℕ) → List Session → ℕ
sum measure [] = 0
sum measure (session ∷ sessions) = measure session + sum measure sessions

-- What a call holds of `total`: all its artifacts, or only those that it was done with when it was
-- cancelled.
abbrev pub held : Session → ℕ
held session = elim session.report [
  | none ↦ length session.artifacts
  | some report ↦
      if report.cancelled then report.success + report.failed else length session.artifacts
]

abbrev previous_success_of : Session → ℕ
previous_success_of session = session.previous_success

abbrev previous_failed_of : Session → ℕ
previous_failed_of session = session.previous_failed

module _ (field : DownloadStatuses → ℕ) (measure : Session → ℕ) where
  -- A handler moves the number by what it changes of the measure of its call.
  abbrev Keeps : (DownloadStatuses × Session → DownloadStatuses × Session) → Type 0
  Keeps handler =
      (x : ℕ) (statuses : DownloadStatuses) (session : Session)
      → field statuses ≡ x + measure session
      → field (handler (statuses, session)).0 ≡ x + measure (handler (statuses, session)).1

  at-Keeps :
      (i : ℕ) (handler : DownloadStatuses × Session → DownloadStatuses × Session)
      → Keeps handler
      → (x : ℕ) (statuses : DownloadStatuses) (sessions : List Session)
      → field statuses ≡ x + sum measure sessions
      → field (at i handler statuses sessions).0
        ≡ x + sum measure (at i handler statuses sessions).1
  unfolding at
  at-Keeps i handler keeps x statuses [] h = h
  at-Keeps zero handler keeps x statuses (session ∷ sessions) h =
      omega (arith, h, keeps (x + sum measure sessions) statuses session (omega (arith, h)))
  at-Keeps (suc i) handler keeps x statuses (session ∷ sessions) h = omega (
    arith,
    h,
    at-Keeps i handler keeps (x + measure session) statuses sessions (omega (arith, h)),
  )

apply-success :
    (success failed : ℕ)
    → Keeps (λ st. st.success) previous_success_of (apply_snapshot_data success failed)
unfolding apply_snapshot_data
apply-success success failed x statuses session h = ground arith

apply-failed :
    (success failed : ℕ)
    → Keeps (λ st. st.failed) previous_failed_of (apply_snapshot_data success failed)
unfolding apply_snapshot_data
apply-failed success failed x statuses session h = ground arith

apply-total :
    (success failed : ℕ) → Keeps (λ st. st.total) held (apply_snapshot_data success failed)
unfolding apply_snapshot_data
apply-total success failed x statuses session h =
    elim (Bool-cases (ltb success session.previous_success || ltb failed session.previous_failed)) [
      | inl e ↦ rw e h
      | inr e ↦ rw e h
    ]

-- The counters of a snapshot do not touch what the call holds of the total.
apply-fixed :
    (success failed : ℕ) (statuses : DownloadStatuses) (session : Session)
    → ((apply_snapshot_data success failed (statuses, session)).0.total ≡ statuses.total)
      × ((apply_snapshot_data success failed (statuses, session)).1.artifacts ≡ session.artifacts)
unfolding apply_snapshot_data
apply-fixed success failed statuses session =
    elim (Bool-cases (ltb success session.previous_success || ltb failed session.previous_failed)) [
      | inl e ↦ rw e (refl, refl)
      | inr e ↦ rw e (refl, refl)
    ]

message-success :
    (snapshot : Snapshot) → Keeps (λ st. st.success) previous_success_of (on_message snapshot)
unfolding on_message
message-success snapshot x statuses session h =
    apply-success snapshot.success snapshot.failed x _ _ h

message-failed :
    (snapshot : Snapshot) → Keeps (λ st. st.failed) previous_failed_of (on_message snapshot)
unfolding on_message
message-failed snapshot x statuses session h = apply-failed snapshot.success snapshot.failed x _ _ h

message-total : (snapshot : Snapshot) → Keeps (λ st. st.total) held (on_message snapshot)
unfolding on_message
message-total snapshot x statuses session h = apply-total snapshot.success snapshot.failed x _ _ h

settle-Keeps :
    (field : DownloadStatuses → ℕ) (measure : Session → ℕ) (report : Report)
    → ((x : ℕ) (statuses : DownloadStatuses) (session : Session)
        → session.report ≡ none
        → field statuses ≡ x + measure session
        → field (finish report (statuses, session)).0
          ≡ x + measure (finish report (statuses, session)).1)
    → Keeps field measure (settle report)
settle-Keeps field measure report keeps x statuses session h = go session.report refl
  where
    go :
        (o : Option Report)
        → session.report ≡ o
        → field (settle_with o report (statuses, session)).0
          ≡ x + measure (settle_with o report (statuses, session)).1
    go none e = keeps x statuses session e h
    go (some r) e = h

settle-success : (report : Report) → Keeps (λ st. st.success) previous_success_of (settle report)
unfolding finish
settle-success report =
    settle-Keeps _ previous_success_of report
      (λ x statuses session e h. apply-success report.success report.failed x statuses session h)

settle-failed : (report : Report) → Keeps (λ st. st.failed) previous_failed_of (settle report)
unfolding finish
settle-failed report =
    settle-Keeps _ previous_failed_of report
      (λ x statuses session e h. apply-failed report.success report.failed x statuses session h)

finish-total :
    (report : Report) (x : ℕ) (statuses : DownloadStatuses) (session : Session)
    → statuses.total ≡ x + length session.artifacts
    → (finish report (statuses, session)).0.total ≡ x + held (finish report (statuses, session)).1
unfolding finish
finish-total report x statuses session h =
    let (total, artifacts) = apply-fixed report.success report.failed statuses session in
    let sizes = ap length artifacts in
    elim (Bool-cases report.cancelled) [
      | inl e ↦ rw e (omega (arith, h, total, sizes))
      | inr e ↦ rw e (omega (arith, h, total, sizes))
    ]

settle-total : (report : Report) → Keeps (λ st. st.total) held (settle report)
settle-total report =
    settle-Keeps (λ st. st.total) held report
      (λ x statuses session e h.
        finish-total report x statuses session (h ∙ ap (λ n. x + n) (held-of_none session e)))
  where
    held-of_none :
        (session : Session) → session.report ≡ none → held session ≡ length session.artifacts
    held-of_none session e = rw e refl

-- The numbers, as sums over the calls.
pub record Accounted (base : DownloadStatuses) (w : World) : Type 0 where
  pub success : w.statuses.success ≡ base.success + sum previous_success_of w.sessions
  pub failed : w.statuses.failed ≡ base.failed + sum previous_failed_of w.sessions
  pub total : w.statuses.total ≡ base.total + sum held w.sessions

step-Accounted :
    (base : DownloadStatuses) (event : Event) (w : World)
    → Accounted base w
    → Accounted base (step event w)
unfolding step start
step-Accounted base (started entries) w a = record {
  success = omega (arith, a.success);
  failed = omega (arith, a.failed);
  total = omega (arith, a.total);
}
step-Accounted base (message i snapshot) w a = record {
  success =
      at-Keeps _ previous_success_of i (on_message snapshot) (message-success snapshot) base.success
        w.statuses w.sessions a.success;
  failed =
      at-Keeps _ previous_failed_of i (on_message snapshot) (message-failed snapshot) base.failed
        w.statuses w.sessions a.failed;
  total =
      at-Keeps _ held i (on_message snapshot) (message-total snapshot) base.total w.statuses
        w.sessions a.total;
}
step-Accounted base (finished i report) w a = record {
  success =
      at-Keeps _ previous_success_of i (settle report) (settle-success report) base.success
        w.statuses w.sessions a.success;
  failed =
      at-Keeps _ previous_failed_of i (settle report) (settle-failed report) base.failed w.statuses
        w.sessions a.failed;
  total =
      at-Keeps _ held i (settle report) (settle-total report) base.total w.statuses w.sessions
        a.total;
}

-- Whatever calls are started and in whatever order their messages and reports arrive, if at the
-- start the counters of statuses.downloads are a base plus the sums over the calls, so they are
-- at the end: success and failed are the base plus the counters that each call last applied, and
-- total is the base plus, for each call, its number of unique artifacts, or for a cancelled one
-- only those that its report counts as downloaded or failed.
pub run-Accounted :
    (base : DownloadStatuses) (events : List Event) (w : World)
    → Accounted base w
    → Accounted base (run events w)
unfolding run
run-Accounted base [] w a = a
run-Accounted base (event ∷ events) w a =
    run-Accounted base events (step event w) (step-Accounted base event w a)

-- If the counters of a report are at least those that the call last applied, the call has applied
-- those of the report when it returns.
pub finish-of_le :
    (report : Report) (statuses : DownloadStatuses) (session : Session)
    → session.previous_success ≤ report.success
    → session.previous_failed ≤ report.failed
    → (finish report (statuses, session)).1.previous_success ≡ report.success
      × ((finish report (statuses, session)).1.previous_failed ≡ report.failed)
unfolding finish apply_snapshot_data
finish-of_le report statuses session hs hf = (ground arith, ground arith)
