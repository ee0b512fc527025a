-- ===== src/Api/Client/Tasks.antt =====
-- apps/web/src/api/client.ts: how `request`, `requestBlob` and `uploadImport` go on when something
-- arrives, and the event loop that runs any number of calls and the shared refresh.
pub mod Moves
pub mod Budget
pub mod Live
pub mod Progress
pub mod Finish
pub mod Refresh
pub mod Expiry
use novel_platform.Common.{
  ℕ, String, ◌+◌, Bool, true, false, not, ◌&&◌, ◌||◌, Option, none, some, List, [], ◌∷◌, ◌++◌, map,
  if◌then◌else◌, ltb, leb, ◌==◌, is_some, get_elem?, modify,
}
use novel_platform.Api.Types.{
  Token, ErrorInfo, Body, Thrown, api_error, fetch_failed, Outcome, fulfilled, blob, rejected,
  Transport, json, binary, form, Endpoint,
}
use novel_platform.Api.Client.{
  Flight, idle, requesting, reading_refresh, settled, Shared, set_access_token, expire,
  api_error_of, is_ok, no_details, refresh_access_token, refresh_headers, refresh_content,
  can_refresh, Phase, fetching, reading, waiting, resuming, finished, begin, retry, finish,
}

-- `request`, between its `await fetch` and its next `await`.
unfoldable pub request_headers : Endpoint → Option Token → Bool → ℕ → Shared → Shared × Phase
unfolding retry finish
request_headers e token_used allow_retry status s =
    if status == 401 && allow_retry && is_some token_used && can_refresh e.path
    then retry e token_used s
    else if status == 204
    then finish e.after (fulfilled none) s
    else (s, reading token_used status)

-- `request`, once the body is there; `none` is `null`, also for a body that is no JSON.
unfoldable pub request_content : Endpoint → Option Token → ℕ → Option Body → Shared → Shared × Phase
unfolding expire api_error_of finish
request_content e token_used status body s =
    if is_ok status
    then finish e.after (fulfilled body) s
    else finish e.after (rejected (api_error_of body status))
        (if status == 401 && is_some token_used && can_refresh e.path then expire s else s)

-- `requestBlob`, between its `await fetch` and its next `await`.
unfoldable pub request_blob_headers : Endpoint → Option Token → Bool → ℕ → Shared → Shared × Phase
unfolding retry
request_blob_headers e token_used allow_retry status s =
    if status == 401 && allow_retry && is_some token_used && can_refresh e.path
    then retry e token_used s
    else (s, reading token_used status)

-- `requestBlob`, once the body is there.
unfoldable pub request_blob_content :
    Endpoint → Option Token → ℕ → Option Body → Shared → Shared × Phase
unfolding expire api_error_of finish
request_blob_content e token_used status body s =
    if is_ok status
    then finish e.after blob s
    else finish e.after (rejected (api_error_of body status))
        (if status == 401 && is_some token_used then expire s else s)

-- `xhr.onload` of `uploadImport`: status and body are there together.
unfoldable pub upload_load :
    Endpoint → Option Token → Bool → ℕ → Option Body → Shared → Shared × Phase
unfolding retry expire api_error_of finish
upload_load e token_used allow_retry status body s =
    if status == 401 && allow_retry && is_some token_used
    then retry e token_used s
    else if ltb status 200 || leb 300 status
    then finish e.after (rejected (api_error_of body status))
        (if status == 401 && is_some token_used then expire s else s)
    else finish e.after (fulfilled body) s

-- `xhr.onerror`
abbrev network_error : Thrown
network_error =
    api_error (record { message = "上传网络连接失败。"; code = "network_error"; details = no_details }) 0

-- What can arrive for a call that waits.
pub data Arrival : Type 0 where
  headers : ℕ → Arrival
  content : Option Body → Arrival
  loaded : ℕ → Option Body → Arrival
  failure : Arrival
  continued : Arrival

-- One arrival at one call. What its transport and phase do not wait for is ignored.
unfoldable pub arrive : Endpoint → Transport → Phase → Arrival → Shared → Shared × Phase
unfolding request_headers request_content request_blob_headers request_blob_content upload_load
    begin finish
arrive e json (fetching token_used allow_retry) (headers status) s =
    request_headers e token_used allow_retry status s
arrive e json (fetching token_used allow_retry) failure s = finish e.after (rejected fetch_failed) s
arrive e json (reading token_used status) (content body) s =
    request_content e token_used status body s
arrive e binary (fetching token_used allow_retry) (headers status) s =
    request_blob_headers e token_used allow_retry status s
arrive e binary (fetching token_used allow_retry) failure s =
    finish e.after (rejected fetch_failed) s
arrive e binary (reading token_used status) (content body) s =
    request_blob_content e token_used status body s
arrive e binary (reading token_used status) failure s =
    if is_ok status
    then finish e.after (rejected fetch_failed) s
    else (s, reading token_used status)
arrive e form (fetching token_used allow_retry) (loaded status body) s =
    upload_load e token_used allow_retry status body s
arrive e form (fetching token_used allow_retry) failure s =
    finish e.after (rejected network_error) s
arrive e transport (resuming (rejected thrown)) continued s = finish e.after (rejected thrown) s
arrive e transport (resuming outcome) continued s = begin e false s
arrive e transport phase arrival s = (s, phase)

pub record Task : Type 0 where
  pub endpoint : Endpoint
  pub phase : Phase

pub record Client : Type 0 where
  pub shared : Shared
  pub tasks : List Task

pub data Event : Type 0 where
  call : Endpoint → Event
  arrival : ℕ → Arrival → Event
  refresh : Event
  refresh_arrival : Arrival → Event
  settle : Event
  set_token : Option Token → Event

unfoldable pub set_phase : ℕ → Client → Shared × Phase → Client
set_phase i c (s, p) = record { shared = s; tasks = modify c.tasks i (λ t. record t { phase = p }) }

-- What arrives for the shared refresh.
unfoldable pub arrive_refresh : Flight → Arrival → Shared → Shared
unfolding refresh_headers refresh_content
arrive_refresh requesting (headers status) s = refresh_headers status s
arrive_refresh requesting failure s = record s { refresh_flight = settled (rejected fetch_failed) }
arrive_refresh (reading_refresh status) (content body) s = refresh_content status body s
arrive_refresh _ _ s = s

-- The promise that callers of `refreshAccessToken` share settles after its `finally`.
abbrev wake : Outcome → Phase → Phase
wake outcome waiting = resuming outcome
wake outcome phase = phase

abbrev wake_all : Outcome → List Task → List Task
wake_all outcome = map {A = Task} (λ t. record t { phase = wake outcome t.phase })

unfoldable pub settle_flight : Flight → Client → Client
settle_flight (settled outcome) c = record {
  shared = record (c.shared) { refresh_flight = idle };
  tasks = wake_all outcome c.tasks;
}
settle_flight _ c = c

unfoldable pub arrive_at : ℕ → Arrival → Client → Option Task → Client
unfolding set_phase
arrive_at i a c none = c
arrive_at i a c (some t) = set_phase i c (arrive t.endpoint t.endpoint.transport t.phase a c.shared)

unfoldable pub start : Endpoint → Client → Shared × Phase → Client
start e c (s, p) = record { shared = s; tasks = c.tasks ++ record { endpoint = e; phase = p } ∷ [] }

unfoldable pub step : Client → Event → Client
unfolding arrive_at arrive_refresh settle_flight start refresh_access_token set_access_token
step c (call e) = start e c (begin e true c.shared)
step c (arrival i a) = arrive_at i a c (get_elem? c.tasks i)
step c refresh = record c { shared = refresh_access_token c.shared }
step c (refresh_arrival a) = record c { shared = arrive_refresh c.shared.refresh_flight a c.shared }
step c settle = settle_flight c.shared.refresh_flight c
step c (set_token token) = record c { shared = set_access_token token c.shared }

unfoldable pub run : Client → List Event → Client
run c [] = c
run c (e ∷ es) = run (step c e) es
