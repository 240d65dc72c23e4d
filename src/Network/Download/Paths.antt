-- ===== src/Network/Download/Paths.antt =====
-- What a call of `concurrentlyDownload` asks the backend for.
use kaede.Prelude.{
  String, Bool, true, false, Option, none, some, List, [], ◌∷◌, ◌≡◌, refl, ap, ◌∙◌, str_eq,
  if◌then◌else◌, length, ◌+◌,
}
use kaede.Prelude.Dictionary.{Dictionary, HasDistinctKeys, get, put, get-put, put-HasDistinctKeys}
use kaede.Statuses.{DownloadStatuses}
use kaede.Network.Download.{DownloadEntry, unique_map, start}

-- The URL of the last entry with a path.
abbrev pub last_url : String → List DownloadEntry → Option String
last_url path [] = none
last_url path (entry ∷ entries) = elim (last_url path entries) [
  | none ↦ if str_eq entry.path path then some entry.url else none
  | some url ↦ some url
]

abbrev or : Option String → Option String → Option String
or none other = other
or (some url) other = some url

get-unique_map :
    (path : String) (entries : List DownloadEntry) (found : Dictionary String)
    → get path (unique_map entries found) ≡ or (last_url path entries) (get path found)
unfolding unique_map
get-unique_map path [] found = refl
get-unique_map path (entry ∷ entries) found =
    get-unique_map path entries (put entry.path entry.url found)
    ∙ ap (or (last_url path entries)) (get-put entry.path path entry.url found)
    ∙ go (last_url path entries) (str_eq entry.path path)
  where
    go :
        (o : Option String) (b : Bool)
        → or o (if b then some entry.url else get path found)
          ≡ or
              (elim o [ none ↦ if b then some entry.url else none | some url ↦ some url ])
              (get path found)
    go none true = refl
    go none false = refl
    go (some url) b = refl

unique_map-HasDistinctKeys :
    (entries : List DownloadEntry) (found : Dictionary String)
    → HasDistinctKeys found
    → HasDistinctKeys (unique_map entries found)
unfolding unique_map
unique_map-HasDistinctKeys [] found h = h
unique_map-HasDistinctKeys (entry ∷ entries) found h =
    unique_map-HasDistinctKeys entries (put entry.path entry.url found)
      (put-HasDistinctKeys entry.path entry.url found h)

-- What the call asks for, and what it adds to the total.
pub record IsRequested (entries : List DownloadEntry) (statuses : DownloadStatuses) : Type 0 where
  pub distinct : HasDistinctKeys (start entries statuses).1.artifacts
  pub urls : (path : String) → get path (start entries statuses).1.artifacts ≡ last_url path entries
  pub total :
      (start entries statuses).0.total
      ≡ statuses.total + length (start entries statuses).1.artifacts

-- A call of concurrentlyDownload asks for every path of its entries once, with the URL of the
-- last entry that has it, and for no other path, and adds their number to the total.
pub start-IsRequested :
    (entries : List DownloadEntry) (statuses : DownloadStatuses) → IsRequested entries statuses
unfolding start
start-IsRequested entries statuses = record {
  distinct = unique_map-HasDistinctKeys entries [] tt;
  urls = λ path. get-unique_map path entries [] ∙ go path (last_url path entries);
  total = refl;
}
  where
    go : (path : String) (o : Option String) → or o (get path []) ≡ o
    go path none = unfold get in refl
    go path (some url) = refl
