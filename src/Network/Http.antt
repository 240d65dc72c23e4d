-- ===== src/Network/Http.antt =====
-- `fetch`, which the platform gives: a request, and what the launcher reads of a response.
use kaede.Prelude.{String, ℕ, Bool, Option, none, List, []}
use kaede.Exec.{Exec}
use kaede.Json.{Json}

pub record Request : Type 0 where
  pub url : String
  pub method : String
  pub headers : List (String × String)
  pub body : Option String

-- `response.ok`, `response.status`, `await response.json()`, which throws where the body is no JSON,
-- and `await response.blob()` as a data URL
pub record Response (S : Type 0) : Type 0 where
  pub is_ok : Bool
  pub status : ℕ
  pub json : Exec S Json
  pub data_url : Exec S String

abbrev pub Fetch : Type 0 → Type 0
Fetch S = Request → Exec S (Response S)

-- `fetch(url)`
abbrev pub of_url : String → Request
of_url url = record { url = url; method = "GET"; headers = []; body = none }
