-- ===== src/Network/Metadata.antt =====
-- lib/launcher/scopes/fetching/fetch-metadata.ts, and the way its callers go on with it.
use kaede.Prelude.{String, Option, some}
use kaede.Outcome.{Outcome, ok, throw, error}
use kaede.Exec.{Exec, pure, lift, attempt, ◌>>=◌, ◌>>◌}
use kaede.Statuses.{Launch, set_status}
use kaede.Json.{Json}
use kaede.Network.Http.{Response, Fetch, of_url}

-- `LaunchStatus[scope]`, of the scopes PatchIndex, PatchMetadata and AssetIndex
pub record ScopeStatuses : Type 0 where
  pub reading : String
  pub fetching : String
  pub failed_to_fetch : String
  pub failed_to_parse : String
  pub failed_to_validate : String

-- `{ data }`, or a status
pub data Fetched : Type 0 where
  fetched : Json → Fetched
  failed : String → Fetched

module _ {S : Type 0} (fetch : Fetch S) (scope : ScopeStatuses) where
  abbrev of_parsed : Outcome Json → Exec S Fetched
  of_parsed (ok json) = pure (fetched json)
  of_parsed (throw e) = pure (failed scope.failed_to_parse)

  abbrev of_response : Outcome (Response S) → Exec S Fetched
  of_response (throw e) = pure (failed scope.failed_to_fetch)
  of_response (ok response) = do parsed ← attempt response.json; of_parsed parsed

  unfoldable pub fetch_metadata : String → Exec S Fetched
  fetch_metadata url = do response ← attempt (fetch (of_url url)); of_response response

module _ {W : Type 0} (fetch : Fetch (Launch W)) (scope : ScopeStatuses) (message : String) where
  abbrev or_report : Fetched → Exec (Launch W) (Option Json)
  or_report (fetched json) = pure (some json)
  or_report (failed status) = do set_status status; lift (throw (error message))

  -- `refetch` of the callers: a status that is no data is reported, and stops the write of the file
  unfoldable pub refetch : String → Exec (Launch W) (Option Json)
  refetch url = do
    set_status scope.fetching
    answer ← fetch_metadata fetch scope url
    or_report answer
