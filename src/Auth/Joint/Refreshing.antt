-- ===== src/Auth/Joint/Refreshing.antt =====
-- What arrives for the shared refresh of apps/web/src/api/client.ts, and what it leaves.
use novel_platform.Common.{
  ℕ, true, Option, none, some, is_some, ◌==◌, ◌≡◌, refl, inl, inr, Bool-cases,
}
use novel_platform.Api.Types.{Token, Body, fulfilled, rejected, Thrown}
use novel_platform.Api.Client.{
  Shared, Flight, requesting, reading_refresh, settled, refresh_headers, refresh_content, is_ok,
  expire,
}
use novel_platform.Api.Client.Tasks.{Arrival, headers, content, failure, arrive_refresh}

-- What an arrival for the refresh does to the shared variables.
pub data Refreshing (f : Flight) (s s' : Shared) : Type 0 where
  ignores : s' ≡ s → Refreshing f s s'
  waits : (n : ℕ) → s' ≡ record s { refresh_flight = reading_refresh n } → Refreshing f s s'
  breaks :
      (th : Thrown) → s' ≡ record s { refresh_flight = settled (rejected th) } → Refreshing f s s'
  stores :
      (t : Option Token) (b : Body)
      → is_some t ≡ true
      → s' ≡ record s { access_token = t; refresh_flight = settled (fulfilled (some b)) }
      → Refreshing f s s'
  refuses :
      (th : Thrown)
      → s' ≡ record (expire s) { refresh_flight = settled (rejected th) }
      → Refreshing f s s'

headers-Refreshing : (n : ℕ) (s : Shared) → Refreshing requesting s (refresh_headers n s)
unfolding refresh_headers
headers-Refreshing n s = elim (Bool-cases (n == 204)) [
  | inl e ↦ rw e (breaks _ refl)
  | inr e ↦ rw e (waits n refl)
]

content-Refreshing :
    (n : ℕ) (o : Option Body) (s : Shared)
    → Refreshing (reading_refresh n) s (refresh_content n o s)
unfolding refresh_content
content-Refreshing n none s = elim (Bool-cases (is_ok n)) [
  | inl e ↦ rw e (breaks _ refl)
  | inr e ↦ rw e (refuses _ refl)
]
content-Refreshing n (some b) s = elim (Bool-cases (is_ok n)) [
  | inl e ↦ rw e (stores _ b refl refl)
  | inr e ↦ rw e (refuses _ refl)
]

pub arrive_refresh-Refreshing :
    (f : Flight) (a : Arrival) (s : Shared) → Refreshing f s (arrive_refresh f a s)
unfolding arrive_refresh
arrive_refresh-Refreshing requesting (headers n) s = headers-Refreshing n s
arrive_refresh-Refreshing requesting failure s = breaks _ refl
arrive_refresh-Refreshing (reading_refresh n) (content o) s = content-Refreshing n o s
arrive_refresh-Refreshing f a s = ignores refl
