-- ===== src/Tests/Matcher.antt =====
-- The theorems about the nearest airport, and about the leg matcher at a takeoff with two legs in reach,
-- one of them flown.
use mathlib.Core.List.{Mem}
use msfslogger.Airports.{Airport, AirportRef, distance_to, find_nearest_within}
use msfslogger.Airports.Search.{find_nearest_least}
use msfslogger.Base.{refl, List, ℕ, true, false, none, some, [], ◌∷◌, ◌≡◌, All, is_some, ltb, arith}
use msfslogger.Db.{LegStatus, planned, flown}
use msfslogger.LegMatcher.{LegMatchCandidate, LegMatchInput, Scored, match_planned_leg}
use msfslogger.LegMatcher.Decision.{expected_leg, is_matched, match-expected_leg, match-reason}
use msfslogger.Tests.Fixtures.{whole}

abbrev candidate : ℕ → LegStatus → LegMatchCandidate ℕ
candidate i st = record {
  planned_leg_id = i;
  trip_id = 2;
  seq = i;
  departure_ident = some "LSZB";
  departure_is_airport = true;
  departure_lat = 46;
  departure_lon = 7;
  status = st;
  linked_flight_id = none;
  aircraft_type = none;
}

abbrev takeoff : LegMatchInput ℕ
takeoff = record {
  lat = 46;
  lon = 7;
  start_time = "2026-01-04";
  aircraft = none;
  active_trip_id = some 2;
  flight_already_linked_to = none;
  candidates = candidate 5 planned ∷ candidate 6 flown ∷ [];
  radius_nm = none;
}

match-expected_leg_example :
    (match_planned_leg whole takeoff).planned_leg_id ≡ expected_leg whole takeoff
match-expected_leg_example = match-expected_leg whole takeoff

match-reason_example :
    is_matched (match_planned_leg whole takeoff).reason
    ≡ is_some (match_planned_leg whole takeoff).planned_leg_id
match-reason_example = match-reason whole takeoff

abbrev scored : ℕ → ℕ → Scored ℕ
scored i nm = record { candidate = candidate i planned; distance_nm = nm }

ltb_trans : (x y z : ℕ) → ltb x y ≡ true → ltb y z ≡ true → ltb x z ≡ true
ltb_trans x y z p q = ground arith

ltb_irrefl : (x : ℕ) → ltb x x ≡ false
ltb_irrefl x = ground arith

abbrev fields : List (Airport ℕ)
fields =
    record { icao = "LSZB"; name = "Bern"; lat = 46; lon = 7 }
    ∷ record { icao = "LSGS"; name = "Sion"; lat = 46; lon = 7 }
    ∷ []

abbrev bern : AirportRef
bern = record { icao = "LSZB"; name = "Bern" }

-- Of two airports at one place the first is found.
find_nearest_least_example :
    (a : Airport ℕ) × Mem a fields
    × (bern ≡ record { icao = a.icao; name = a.name })
    × (whole.le (distance_to whole 46 7 a) 10 ≡ true)
    × All (λ b. whole.lt (distance_to whole 46 7 b) (distance_to whole 46 7 a) ≡ false) fields
unfolding find_nearest_within
find_nearest_least_example = find_nearest_least whole ltb_trans ltb_irrefl fields 46 7 10 bern refl
