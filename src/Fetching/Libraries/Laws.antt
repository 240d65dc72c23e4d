-- ===== src/Fetching/Libraries/Laws.antt =====
-- download-libraries.ts: what is asked for, and what has come when the libraries are said to be
-- handled.
use mathlib.Core.List.{Memᴰ}
use mathlib.Core.List.Memᴰ
use kaede.Prelude.{
  String, Bool, true, false, Option, none, some, List, [], ◌∷◌, ◌≡◌, refl, ap, sym, ◌∙◌, inl, inr,
  ◌⊎◌, map, filter, str_eq, eq_iff, if◌then◌else◌,
}
use kaede.Prelude.Dictionary.{Dictionary, get}
use kaede.Prelude.Filtered.{mem-filter, filter-mem, map-mem, mem-map}
use kaede.Outcome.{Outcome, ok, throw}
use kaede.Exec.{Exec, >>=-eq-ok}
use kaede.Hooks.{Hook, IsSilent, catch_async_response_hooks}
use kaede.Network.Download.{DownloadEntry, Snapshot, Report, Session, start}
use kaede.Network.Download.Paths.{last_url, start-IsRequested}
use kaede.Network.Call.{messages, settled, concurrently_download}
use kaede.Statuses.{DownloadStatuses, Launch}
use kaede.Meta.{Artifact, FinalizedPatch, Necessaries}
use kaede.Fetching.Platform.{
  Platform, unless_answered, has, path_and_hash, verify_paths, make_directories,
}
use kaede.Fetching.Libraries.{
  is_needed, needed_artifacts, is_missing, entry_of, directory_of, after_libraries, fetch_missing,
  verify_and_fetch, download_libraries,
}

last_url-mem :
    (path url : String) (entries : List DownloadEntry)
    → last_url path entries ≡ some url
    → (entry : DownloadEntry) × Memᴰ entry entries × (entry.path ≡ path) × (entry.url ≡ url)
last_url-mem path url [] h = absurd (cc)
last_url-mem path url (entry ∷ entries) h =
    go (last_url path entries) (str_eq entry.path path) refl refl h (last_url-mem path url entries)
  where
    go :
        (o : Option String) (b : Bool)
        → last_url path entries ≡ o
        → str_eq entry.path path ≡ b
        → elim o [ none ↦ if b then some entry.url else none | some u ↦ some u ] ≡ some url
        → (last_url path entries ≡ some url
            → (e : DownloadEntry) × Memᴰ e entries × (e.path ≡ path) × (e.url ≡ url))
        → (e : DownloadEntry) × Memᴰ e (entry ∷ entries) × (e.path ≡ path) × (e.url ≡ url)
    go none true e t h later = (entry, Memᴰ.head refl, (eq_iff entry.path path).0 t, cc)
    go none false e t h later = absurd (cc)
    go (some u) b e t h later = let (x, m, p, q) = later (cc) in (x, Memᴰ.tail m, p, q)

last_url-of_mem :
    (entry : DownloadEntry) (entries : List DownloadEntry)
    → Memᴰ entry entries
    → (url : String) × (last_url entry.path entries ≡ some url)
last_url-of_mem entry [] m = absurd (Memᴰ.not-nil m)
last_url-of_mem entry (e ∷ entries) m =
    go (last_url entry.path entries) refl (Memᴰ.cases_cons m) (last_url-of_mem entry entries)
  where
    go :
        (o : Option String)
        → last_url entry.path entries ≡ o
        → (entry ≡ e) ⊎ Memᴰ entry entries
        → (Memᴰ entry entries → (u : String) × (last_url entry.path entries ≡ some u))
        → (u : String) × (elim o [
          | none ↦ if str_eq e.path entry.path then some e.url else none
          | some v ↦ some v
        ]
            ≡ some u)
    go (some u) h c later = (u, refl)
    go none h (inl same) later =
        let t : str_eq e.path entry.path ≡ true =
          (eq_iff e.path entry.path).1 (ap (λ x. x.path) (sym same)) in
        (e.url, rw t)
    go none h (inr n) later = let (u, k) = later n in absurd (cc)

unless_answered-of_IsSilent :
    {S P T : Type 0} (before : Option (List (Hook S P T))) (p : P) (rest : Exec S T) (s : S)
    → IsSilent before
    → unless_answered before p rest s ≡ rest s
unfolding catch_async_response_hooks
unless_answered-of_IsSilent none p rest s h = refl
unless_answered-of_IsSilent (some []) p rest s h = refl
unless_answered-of_IsSilent (some (hook ∷ hooks)) p rest s h = absurd h

settled-inv :
    (r : Outcome Report) (report : Report) (before : DownloadStatuses × Session)
    → (settled r before).0 ≡ ok report
    → r ≡ ok report
settled-inv (ok q) report before h = h
settled-inv (throw e) report before h = absurd (cc)

not_cancelled-inv :
    {W : Type 0} (platform : Platform W) (necessaries : Necessaries) (patch : FinalizedPatch)
    (cancelled : Bool) (s s' : Launch W)
    → after_libraries platform necessaries patch cancelled s ≡ (ok true, s')
    → cancelled ≡ false
not_cancelled-inv platform necessaries patch false s s' h = refl
not_cancelled-inv platform necessaries patch true s s' h = absurd (cc)

module _ {W : Type 0} (platform : Platform W) (necessaries : Necessaries)
    (patch : FinalizedPatch) where
  -- What has been asked of the backend, and what it has answered.
  pub record IsFetched (s : Launch W) : Type 0 where
    pub missing : List String
    pub verified :
        (t : Launch W) × (verify_paths platform necessaries.checksum
            (map path_and_hash (needed_artifacts patch))
            s
          ≡ (ok missing, t))
    pub artifacts : Dictionary String
    pub report : Report
    pub asked :
        (w w' : W) × (snapshots : List Snapshot) × (platform.backend artifacts w
          ≡ ((snapshots, ok report), w'))
    pub not_cancelled : report.cancelled ≡ false
    pub only :
        (path url : String)
        → get path artifacts ≡ some url
        → (a : Artifact) × Memᴰ a patch.artifacts
          × (is_needed a ≡ true)
          × (has path missing ≡ true)
          × (a.path ≡ path)
          × (a.url ≡ url)
    pub all :
        (a : Artifact)
        → Memᴰ a patch.artifacts
        → is_needed a ≡ true
        → has a.path missing ≡ true
        → (url : String) × (get a.path artifacts ≡ some url)

  concurrently_download-asked :
      (entries : List DownloadEntry) (report : Report) (s s' : Launch W)
      → concurrently_download platform.backend entries s ≡ (ok report, s')
      → (w w' : W) × (snapshots : List Snapshot) × (platform.backend
            (start entries s.1.downloads).1.artifacts
            w
          ≡ ((snapshots, ok report), w'))
  unfolding concurrently_download
  concurrently_download-asked entries report (w, statuses) s' h =
      let begun = start entries statuses.downloads in
      let answer = platform.backend begun.1.artifacts w in
      let e = settled-inv answer.0.1 report (messages answer.0.0 begun) (ap (λ r. r.0) h) in
      (w, answer.1, answer.0.0, ap (λ r. ((answer.0.0, r), answer.1)) e)

  fetch_missing-IsFetched :
      (missing : List String) (r s s' : Launch W)
      → verify_paths platform necessaries.checksum (map path_and_hash (needed_artifacts patch)) r
        ≡ (ok missing, s)
      → fetch_missing platform necessaries patch
          (filter (is_missing missing) (needed_artifacts patch))
          s
        ≡ (ok true, s')
      → IsFetched r
  unfolding fetch_missing
  fetch_missing-IsFetched missing r s s' run h =
      let wanted = filter (is_missing missing) (needed_artifacts patch) in
      let entries = map entry_of wanted in
      let (unit, t, made, more) =
        >>=-eq-ok (make_directories platform true (map directory_of wanted)) _ h in
      let (report, u, got, last) =
        >>=-eq-ok (concurrently_download platform.backend entries) _ more in
      let urls = (start-IsRequested entries t.1.downloads).urls in
      record {
        missing = missing;
        verified = (s, run);
        artifacts = (start entries t.1.downloads).1.artifacts;
        report = report;
        asked = concurrently_download-asked entries report t u got;
        not_cancelled = not_cancelled-inv platform necessaries patch report.cancelled u s' last;
        only = λ path url e.
            let (entry, m, p, q) = last_url-mem path url entries (sym (urls path) ∙ e) in
            let (a, n, same) = mem-map entry_of entry wanted m in
            let (k, miss) = mem-filter (is_missing missing) a (needed_artifacts patch) n in
            let (l, need) = mem-filter is_needed a patch.artifacts k in
            let is_path : a.path ≡ path = ap (λ x. x.path) same ∙ p in
            (
              a,
              l,
              need,
              ap (λ x. has x missing) (sym is_path) ∙ miss,
              is_path,
              ap (λ x. x.url) same ∙ q,
            );
        all = λ a m need miss.
            let n =
              filter-mem (is_missing missing) a (needed_artifacts patch)
                (filter-mem is_needed a patch.artifacts m need) miss in
            let (url, e) = last_url-of_mem (entry_of a) entries (map-mem entry_of a wanted n) in
            (url, urls a.path ∙ e);
      }

  -- If no hook stands before the libraries and downloadLibraries returns true, the paths of the
  -- artifacts whose status is not "empty" were verified, the backend was asked to download, and
  -- answered with a report that is not cancelled; what it was asked for are paths of such
  -- artifacts that were reported missing, each with the URL of one of them, and all of these
  -- paths.
  pub download_libraries-IsFetched :
      (s s' : Launch W)
      → IsSilent platform.libraries_get.before
      → download_libraries platform necessaries patch s ≡ (ok true, s')
      → IsFetched s
  unfolding download_libraries verify_and_fetch
  download_libraries-IsFetched s s' silent h =
      let started =
        sym (
          unless_answered-of_IsSilent platform.libraries_get.before (necessaries, patch)
            (verify_and_fetch platform necessaries patch) s silent)
        ∙ h in
      let (missing, t, run, more) =
        >>=-eq-ok
          (verify_paths platform necessaries.checksum (map path_and_hash (needed_artifacts patch)))
          _ started in
      fetch_missing-IsFetched missing s t s' run more
