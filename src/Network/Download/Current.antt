-- ===== src/Network/Download/Current.antt =====
-- Which downloads `statuses.downloads.current` shows while a call runs and when it is over.
use mathlib.Core.Path.{subst}
use kaede.Prelude.{
  ℕ, String, Bool, true, false, ◌||◌, Option, none, some, List, [], ◌∷◌, map, ltb, if◌then◌else◌,
  ◌≡◌, refl, sym, ap, ◌∙◌, arith, Bool-cases, inl, inr, str_eq, eq_iff,
}
use kaede.Prelude.Dictionary.{
  Dictionary, HasDistinctKeys, Lacks, get, put, delete, get-put, get-delete,
}
use kaede.Prelude.Unique.{has}
use kaede.Statuses.{DownloadStatuses}
use kaede.Network.Download.{
  Progress, Report, Session, Snapshot, DownloadEntry, start, apply_snapshot_data, is_key,
  delete_finished, set_each, delete_each, on_message, finish,
}

get-delete_each :
    (p : String) (paths : List String) (current : Dictionary Progress)
    → get p (delete_each paths current) ≡ (if has p paths then none else get p current)
unfolding delete_each has
get-delete_each p [] current = refl
get-delete_each p (path ∷ paths) current =
    ground (arith, get-delete_each p paths (delete path current), get-delete path p current)

get-delete_finished :
    (p : String) (paths : List String) (reported current : Dictionary Progress)
    → get p reported ≡ none
    → get p (delete_finished paths reported current) ≡ (if has p paths then none else get p current)
unfolding delete_finished has
get-delete_finished p [] reported current n = refl
get-delete_finished p (path ∷ paths) reported current n = elim (Bool-cases (str_eq path p)) [
  | inl e ↦
      rw (e, is_key-of_none ((eq_iff path p).0 e))
        (get-delete_finished p paths reported (delete path current) n
          ∙ rw (get-delete path p current, e) (if_same (has p paths)))
  | inr e ↦ rw e (elim (Bool-cases (is_key path reported)) [
    | inl k ↦ rw k (get-delete_finished p paths reported current n)
    | inr k ↦ rw k (
        get-delete_finished p paths reported (delete path current) n
        ∙ rw (get-delete path p current, e) refl)
  ])
]
  where
    is_some : Option Progress → Bool
    is_some o = elim o [ none ↦ false | some v ↦ true ]

    is_key-of_none : path ≡ p → is_key path reported ≡ false
    is_key-of_none e = ap (λ q. is_key q reported) e ∙ ap (λ o. is_some o) n

    if_same : (b : Bool) → ◌≡◌ {A = Option Progress} (if b then none else none) none
    if_same true = refl
    if_same false = refl

Lacks-get : (p : String) (d : Dictionary Progress) → Lacks p d → get p d ≡ none
unfolding get
Lacks-get p [] h = refl
Lacks-get p ((k, v) ∷ d) h = ground (arith, eq_iff k p, h.0, Lacks-get p d h.1)

get-set_each :
    (p : String) (reported current : Dictionary Progress)
    → HasDistinctKeys reported
    → get p (set_each reported current)
      ≡ elim (get p reported) [ none ↦ get p current | some v ↦ some v ]
unfolding set_each get
get-set_each p [] current h = refl
get-set_each p ((k, v) ∷ reported) current h = elim (Bool-cases (str_eq k p)) [
  | inl e ↦
      rw e (
        get-set_each p reported (put k v current) h.1
        ∙ rw (absent e, get-put k p v current, e) refl)
  | inr e ↦ rw e (
      get-set_each p reported (put k v current) h.1
      ∙ ap (λ o. elim (get p reported) [ none ↦ o | some w ↦ some w ])
          (get-put k p v current ∙ rw e refl))
]
  where
    absent : str_eq k p ≡ true → get p reported ≡ none
    absent e = subst (λ q. get q reported ≡ none) ((eq_iff k p).0 e) (Lacks-get k reported h.0)

apply-current :
    (success failed : ℕ) (statuses : DownloadStatuses) (session : Session)
    → ((apply_snapshot_data success failed (statuses, session)).0.current ≡ statuses.current)
      × ((apply_snapshot_data success failed (statuses, session)).1.previous_paths
          ≡ session.previous_paths)
unfolding apply_snapshot_data
apply-current success failed statuses session =
    elim (Bool-cases (ltb success session.previous_success || ltb failed session.previous_failed)) [
      | inl e ↦ rw e (refl, refl)
      | inr e ↦ rw e (refl, refl)
    ]

-- After a message whose snapshot lists each path once, the current download of a path is that of
-- the snapshot, or none if only the message before listed it, or else what it was.
pub get-on_message :
    (p : String) (snapshot : Snapshot) (statuses : DownloadStatuses) (session : Session)
    → HasDistinctKeys snapshot.current
    → get p (on_message snapshot (statuses, session)).0.current ≡ elim (get p snapshot.current) [
      | none ↦ if has p session.previous_paths then none else get p statuses.current
      | some progress ↦ some progress
    ]
unfolding on_message
get-on_message p snapshot statuses session h =
    ap (get p) (apply-current snapshot.success snapshot.failed _ _).0
    ∙ get-set_each p snapshot.current
        (delete_finished session.previous_paths snapshot.current statuses.current) h
    ∙ go (get p snapshot.current)
        (get-delete_finished p session.previous_paths snapshot.current statuses.current)
  where
    go :
        (o : Option Progress)
        → (o ≡ none
            → get p (delete_finished session.previous_paths snapshot.current statuses.current)
              ≡ (if has p session.previous_paths then none else get p statuses.current))
        → ◌≡◌ {A = Option Progress}
            (elim o [
              | none ↦
                  get p (delete_finished session.previous_paths snapshot.current statuses.current)
              | some v ↦ some v
            ])
            (elim o [
              | none ↦ if has p session.previous_paths then none else get p statuses.current
              | some v ↦ some v
            ])
    go none e = e refl
    go (some v) e = refl

-- The messages of a call, one after the other.
unfoldable pub receive : List Snapshot → DownloadStatuses × Session → DownloadStatuses × Session
receive [] before = before
receive (snapshot ∷ snapshots) before = receive snapshots (on_message snapshot before)

abbrev pub AllDistinct : List Snapshot → Type 0
AllDistinct [] = Unit
AllDistinct (snapshot ∷ snapshots) = HasDistinctKeys snapshot.current × AllDistinct snapshots

-- A path that a call alone shows is among its previous paths.
abbrev IsTracked : String → DownloadStatuses × Session → Type 0
IsTracked p before = has p before.1.previous_paths ≡ false → get p before.0.current ≡ none

has-keys :
    (p : String) (d : Dictionary Progress)
    → has p (map (λ entry. entry.0) d) ≡ false
    → get p d ≡ none
unfolding has get
has-keys p [] h = refl
has-keys p ((k, v) ∷ d) h = ground (arith, has-keys p d)

previous_paths-on_message :
    (snapshot : Snapshot) (before : DownloadStatuses × Session)
    → (on_message snapshot before).1.previous_paths ≡ map (λ entry. entry.0) snapshot.current
unfolding on_message
previous_paths-on_message snapshot before = (apply-current snapshot.success snapshot.failed _ _).1

on_message-IsTracked :
    (p : String) (snapshot : Snapshot) (before : DownloadStatuses × Session)
    → HasDistinctKeys snapshot.current
    → IsTracked p before
    → IsTracked p (on_message snapshot before)
on_message-IsTracked p snapshot before d h n =
    get-on_message p snapshot before.0 before.1 d
    ∙ rw
        (has-keys p snapshot.current
          (ap (has p) (sym (previous_paths-on_message snapshot before)) ∙ n))
        (elim (Bool-cases (has p before.1.previous_paths)) [
          | inl e ↦ rw e refl
          | inr e ↦ rw e (h e)
        ])

receive-IsTracked :
    (p : String) (snapshots : List Snapshot) (before : DownloadStatuses × Session)
    → AllDistinct snapshots
    → IsTracked p before
    → IsTracked p (receive snapshots before)
unfolding receive
receive-IsTracked p [] before d h = h
receive-IsTracked p (snapshot ∷ snapshots) before d h =
    receive-IsTracked p snapshots (on_message snapshot before) d.1
      (on_message-IsTracked p snapshot before d.0 h)

get-finish :
    (p : String) (report : Report) (statuses : DownloadStatuses) (session : Session)
    → get p (finish report (statuses, session)).0.current
      ≡ (if has p session.previous_paths then none else get p statuses.current)
unfolding finish
get-finish p report statuses session =
    let (current, paths) = apply-current report.success report.failed statuses session in
    get-delete_each p _ _ ∙ rw (current, paths) refl

-- If a path is not among the current downloads when a call of concurrentlyDownload starts, and no
-- other call writes the statuses, then after any messages whose snapshots list each path once,
-- and the report, the path is not among the current downloads.
pub finish-leaves_nothing :
    (p : String) (entries : List DownloadEntry) (snapshots : List Snapshot) (report : Report)
    (statuses : DownloadStatuses)
    → AllDistinct snapshots
    → get p statuses.current ≡ none
    → get p (finish report (receive snapshots (start entries statuses))).0.current ≡ none
unfolding start
finish-leaves_nothing p entries snapshots report statuses d h =
    let last = receive snapshots (start entries statuses) in
    let tracked = receive-IsTracked p snapshots (start entries statuses) d (λ n. h) in
    get-finish p report last.0 last.1 ∙ go (has p last.1.previous_paths) tracked
  where
    go : {o : Option Progress} (b : Bool) → (b ≡ false → o ≡ none) → (if b then none else o) ≡ none
    go true e = refl
    go false e = e refl
