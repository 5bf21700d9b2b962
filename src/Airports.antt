-- ===== src/Airports.antt =====
-- The airport nearest to a position (src/airports.ts). The airport list is a file that the server
-- downloads; here it is an argument.
pub mod Search
use msfslogger.Base.{Option, none, some, List, [], ◌∷◌, if◌then◌else◌, String}
use msfslogger.Base.Double.{Double}
use msfslogger.Geo.{haversine_nm}

pub record Airport (N : Type 0) : Type 0 where
  pub icao : String
  pub name : String
  pub lat : N
  pub lon : N

-- { icao, name }
pub record AirportRef : Type 0 where
  pub icao : String
  pub name : String

module _ {N : Type 0} (d : Double N) where
  open d use {lit, lt, le, infinity}

  abbrev pub distance_to : N → N → Airport N → N
  unfolding haversine_nm
  distance_to lat lon ap = haversine_nm d lat lon ap.lat ap.lon

  -- The loop, with its `best` and `bestDist`.
  unfoldable pub search_from :
      N → N → Option (Airport N) → N → List (Airport N) → Option (Airport N) × N
  unfolding haversine_nm
  search_from lat lon best best_dist [] = (best, best_dist)
  search_from lat lon best best_dist (ap ∷ aps) =
      let dist = haversine_nm d lat lon ap.lat ap.lon in
      search_from lat lon (if lt dist best_dist then some ap else best)
        (if lt dist best_dist then dist else best_dist) aps

  unfoldable pub within_max : N → Option (Airport N) → N → Option AirportRef
  within_max max_nm none dist = none
  within_max max_nm (some ap) dist =
      if le dist max_nm then some (record { icao = ap.icao; name = ap.name }) else none

  unfoldable pub find_nearest_within : List (Airport N) → N → N → N → Option AirportRef
  unfolding search_from within_max
  find_nearest_within airports lat lon max_nm =
      let (best, dist) = search_from lat lon none infinity airports in within_max max_nm best dist

  -- `maxNm` is 10 unless a caller gives it.
  unfoldable pub find_nearest_airport : List (Airport N) → N → N → Option AirportRef
  unfolding find_nearest_within
  find_nearest_airport airports lat lon = find_nearest_within airports lat lon (lit 10)
