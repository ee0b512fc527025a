-- ===== src/Api/Tests.antt =====
-- The client of apps/web/src/api at concrete inputs.
use novel_platform.Common.Text.{str_eq_iff}
use novel_platform.Common.{
  all, String, ◌≤◌, ◌≡◌, ◌≢◌, refl, true, false, some, List, [], ◌∷◌, length, arith, ◌⊎◌,
}
use novel_platform.Api.Types.{Token, text, Endpoint, json, Method}
use novel_platform.Api.Client.{Shared, idle, requesting, fetching, reading, waiting, can_refresh}
use novel_platform.Api.Client.Tasks.{Client, Event, call, arrival, headers, step, run, arrive}
use novel_platform.Api.Client.Tasks.Moves.{Moves, arrive-Moves}
use novel_platform.Api.Client.Tasks.Budget.{run_sent}
use novel_platform.Api.Client.Tasks.Finish.{is_answer, AllFinished, run_finishes}
use novel_platform.Api.Client.Tasks.Refresh.{step_single_flight}
use novel_platform.Api.Client.Tasks.Expiry.{Ended, EndCause, step-Ended}
use novel_platform.Api.Endpoints.{Platform, request}
use novel_platform.Api.Endpoints.Library.{LibraryCall}
use novel_platform.Api.Endpoints.Refreshable.{endpoint, on_library, can_refresh-endpoint}

abbrev signed_in : Shared
signed_in = record {
  access_token = some (text "t1");
  refresh_flight = idle;
  handler = true;
  auth_failures = 0;
  refreshes = 0;
  sent = [];
}

abbrev start : Client
start = record { shared = signed_in; tasks = [] }

abbrev books : Endpoint
books = request Method.get "/api/v1/books" false

abbrev sign_in : Endpoint
sign_in = request Method.post "/api/v1/auth/login" true

-- Two calls go out, and both are refused.
abbrev both_refused : List Event
both_refused = call books ∷ call books ∷ arrival 0 (headers 401) ∷ arrival 1 (headers 401) ∷ []

both_wait :
    (run start both_refused).tasks
    ≡ record { endpoint = books; phase = waiting }
      ∷ record { endpoint = books; phase = waiting }
      ∷ []
unfolding run step can_refresh arrive
both_wait = refl

one_refresh : (run start both_refused).shared.refreshes ≡ 1
unfolding run step can_refresh arrive
one_refresh = refl

run_finishes_example :
    (more : List Event) × (all is_answer more ≡ true)
    × AllFinished (run (run (record { shared = signed_in; tasks = [] }) both_refused) more).tasks
run_finishes_example = run_finishes signed_in both_refused

abbrev busy : Client
busy = record {
  shared = record signed_in { refresh_flight = requesting; refreshes = 1 };
  tasks = record { endpoint = books; phase = fetching (some (text "t1")) true } ∷ [];
}

step_single_flight_example : (step busy (arrival 0 (headers 401))).shared.refreshes ≡ 1
step_single_flight_example = step_single_flight busy (arrival 0 (headers 401)) (λ e. cc)

run_sent_example : length (run start both_refused).shared.sent ≤ 4
run_sent_example = run_sent start both_refused

arrive-Moves_example :
    Moves books signed_in
      (fetching (some (text "t1")) true)
      (arrive books json (fetching (some (text "t1")) true) (headers 401) signed_in)
arrive-Moves_example =
    arrive-Moves books json (fetching (some (text "t1")) true) (headers 401) signed_in refl

step-Ended_example :
    ((step busy (arrival 0 (headers 401))).shared.auth_failures ≡ 0)
    ⊎ (Ended busy.shared (step busy (arrival 0 (headers 401))).shared
        × EndCause busy (arrival 0 (headers 401)))
step-Ended_example = step-Ended busy (arrival 0 (headers 401))

abbrev signing_in : Client
signing_in = record {
  shared = signed_in;
  tasks = record { endpoint = sign_in; phase = fetching (some (text "t1")) true } ∷ [];
}

login_exempt : can_refresh sign_in.path ≡ false
unfolding can_refresh
login_exempt = refl

-- The call read the token "t1", was refused twice, and meanwhile "t2" was stored.
abbrev outrun : Client
outrun = record {
  shared = record signed_in { access_token = some (text "t2") };
  tasks = record { endpoint = books; phase = reading (some (text "t1")) 401 } ∷ [];
}

books_refreshable : can_refresh books.path ≡ true
unfolding can_refresh
books_refreshable = refl

texts_differ : ◌≢◌ {A = String} "t1" "t2"
texts_differ = ground (arith, str_eq_iff "t1" "t2")

text_injective : (a b : String) → text a ≡ text b → a ≡ b
text_injective a b e = cc

t1-ne-t2 : ◌≢◌ {A = Token} (text "t1") (text "t2")
t1-ne-t2 e = texts_differ (text_injective "t1" "t2" e)

abbrev plain_platform : Platform
plain_platform = record {
  encode_component = λ s. s;
  number_text = λ n. "12";
  query_text = λ q. "limit=12";
}

can_refresh-endpoint_example :
    can_refresh (endpoint plain_platform (on_library (LibraryCall.get_book "b1"))).path ≡ true
can_refresh-endpoint_example =
    can_refresh-endpoint plain_platform (on_library (LibraryCall.get_book "b1")) tt
