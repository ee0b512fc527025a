-- ===== src/Auth/Joint.antt =====
-- `AuthProvider` (apps/web/src/auth/AuthProvider.tsx) together with the client (apps/web/src/api/client.ts)
-- whose token and failure handler it shares. What an arrival from the network leads to runs before the next
-- one arrives: the client's code, its failure handler, and the rest of the provider's callback that awaited
-- the call. A body of any shape can arrive; of one that is no token response the provider takes `undefined`.
pub mod Signed
pub mod Held
pub mod Refreshing
pub mod Sound
pub mod Refines
mod Tests
use novel_platform.Common.{
  ℕ, Bool, true, false, Option, none, some, List, [], ◌∷◌, ◌++◌, get_elem?, if◌then◌else◌, ◌==◌,
}
use novel_platform.Api.Types.{
  User, TokenResponse, token_body, registration_body, Outcome, fulfilled, blob, rejected, After,
  nothing, store_token, store_authentication, clear_token, Endpoint,
}
use novel_platform.Api.Client.{Shared, Flight, idle, settled, Phase, finished, set_access_token}
use novel_platform.Api.Client.Tasks.{
  Arrival, Task, Client, call, arrival, refresh, refresh_arrival, settle, step,
}
use novel_platform.Auth.Provider.{
  Startup, fetching_site, refreshing, started, Provider, mounted, Event, site_answer,
  refresh_answer, signs_in, signs_in_bare, refreshes_bare, registers, signs_out, fails, unmounts,
  renames, site_refreshed, provide,
}

pub record Joint (S : Type 0) : Type 0 where
  pub client : Client
  pub provider : Provider S

module _ {S : Type 0} where
  -- Whether `clearAuth` runs.
  abbrev pub clears : Event S → Provider S → Bool
  clears signs_out p = true
  clears fails p = p.active
  clears (refresh_answer none) p = p.active
  clears e p = false

  -- What an event of the provider does to the client: `clearAuth` forgets the token, and the end of the
  -- effect takes the handler away.
  unfoldable pub follow : Event S → Provider S → Shared → Shared
  unfolding set_access_token
  follow unmounts p s = record s { handler = false }
  follow e p s = if clears e p then set_access_token none s else s

  unfoldable pub deliver : List (Event S) → Shared × Provider S → Shared × Provider S
  unfolding follow
  deliver [] (s, p) = (s, p)
  deliver (e ∷ es) (s, p) = deliver es (follow e p s, provide e p)

  -- `authFailureHandler`, which is `clearAuth`, if it has been called.
  unfoldable pub failures : Shared → Shared → List (Event S)
  failures s s' = if s'.auth_failures == s.auth_failures then [] else fails ∷ []

  -- The callback that has awaited a call, by what the method of `api` does with the result.
  unfoldable pub resumed : After → Outcome → List (Event S)
  resumed store_token (fulfilled (some (token_body r))) = signs_in r ∷ []
  resumed store_token (fulfilled (some b)) = signs_in_bare ∷ []
  resumed store_authentication (fulfilled (some (registration_body o))) = registers o ∷ []
  resumed clear_token o = signs_out ∷ []
  resumed a o = []

  unfoldable pub resumed_by : Phase → Phase → After → List (Event S)
  unfolding resumed
  resumed_by (finished o) q a = []
  resumed_by p (finished o) a = resumed a o
  resumed_by p q a = []

  -- The effect, when the refresh that it awaits has settled. What `applyTokenResponse` throws on `null`
  -- ends in the same `catch`.
  unfoldable pub refreshed : Outcome → List (Event S)
  refreshed (fulfilled (some (token_body r))) = refresh_answer (some r) ∷ []
  refreshed (fulfilled (some b)) = refreshes_bare ∷ []
  refreshed o = refresh_answer none ∷ []

  unfoldable pub refreshed_by : Startup → Flight → Flight → List (Event S)
  unfolding refreshed
  refreshed_by s (settled o) f = []
  refreshed_by refreshing f (settled o) = refreshed o
  refreshed_by s f g = []

  pub put : Client → Shared × Provider S → Joint S
  put c (s, p) = record { client = record c { shared = s }; provider = p }

  pub arrived : Option Task → Option Task → Client → Client → Provider S → Joint S
  unfolding deliver failures resumed_by put
  arrived (some t) (some t') c c' p = put c' (
      deliver (failures c.shared c'.shared ++ resumed_by t.phase t'.phase t.endpoint.after)
        (c'.shared, p))
  arrived t t' c c' p = put c' (c'.shared, p)

  pub refresh_arrived : Client → Client → Provider S → Joint S
  unfolding deliver failures refreshed_by put
  refresh_arrived c c' p = put (step c' settle) (
      deliver
        (failures c.shared c'.shared
          ++ refreshed_by p.startup c.shared.refresh_flight c'.shared.refresh_flight)
        ((step c' settle).shared, p))

-- The effect's `api.publicSite` is answered; a call starts; something arrives for a call or for the refresh;
-- the effect ends; the name or the site's settings change.
pub data Happening (S : Type 0) : Type 0 where
  site_arrives : Option S → Happening S
  calls : Endpoint → Happening S
  arrives : ℕ → Arrival → Happening S
  refresh_arrives : Arrival → Happening S
  leaves : Happening S
  name_arrives : User → Happening S
  settings_arrive : Option S → Happening S

module _ {S : Type 0} where
  -- The effect goes on with `api.refresh()`.
  pub site_arrived : Startup → Option S → Joint S → Joint S
  site_arrived fetching_site a j = record {
    client = step j.client refresh;
    provider = provide (site_answer a) j.provider;
  }
  site_arrived s a j = j

  pub deliver_to : Event S → Joint S → Joint S
  unfolding put deliver
  deliver_to e j = put j.client (deliver (e ∷ []) (j.client.shared, j.provider))

  unfoldable pub happens : Happening S → Joint S → Joint S
  unfolding site_arrived arrived refresh_arrived deliver_to
  happens (site_arrives a) j = site_arrived j.provider.startup a j
  happens (calls e) j = record j { client = step j.client (call e) }
  happens (arrives i a) j =
      let c' = step j.client (arrival i a) in
      arrived (get_elem? j.client.tasks i) (get_elem? c'.tasks i) j.client c' j.provider
  happens (refresh_arrives a) j =
      refresh_arrived j.client (step j.client (refresh_arrival a)) j.provider
  happens leaves j = deliver_to unmounts j
  happens (name_arrives u) j = deliver_to (renames u) j
  happens (settings_arrive a) j = deliver_to (site_refreshed a) j

  unfoldable pub happen_all : List (Happening S) → Joint S → Joint S
  happen_all [] j = j
  happen_all (h ∷ hs) j = happen_all hs (happens h j)

  -- The modules as they are loaded, with the provider mounted.
  unfoldable pub loaded : Joint S
  unfolding mounted
  loaded = record {
    client = record {
      shared = record {
        access_token = none;
        refresh_flight = idle;
        handler = true;
        auth_failures = 0;
        refreshes = 0;
        sent = [];
      };
      tasks = [];
    };
    provider = mounted;
  }
