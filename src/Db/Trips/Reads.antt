-- ===== src/Db/Trips/Reads.antt =====
-- Trips as the pages read them (src/db/trips.ts): with their flights, their legs and what SQL
-- aggregates over the flights.
use msfslogger.Base.{
  ℕ, Bool, Option, none, some, List, [], String, map, holds, length, first_where, where_rows,
  count_where,
}
use msfslogger.Base.Sorting.{sort_by}
use msfslogger.Db.{Flight, Trip, Db}
use msfslogger.Db.PlannedLegs.Reads.{PlannedLegWithChildren, get_planned_legs_for_trip}
use msfslogger.Db.Flights.{get_flight_track_points}
use msfslogger.Db.Flights.Edits.{FlightWithPoints}
use msfslogger.Db.Trips.{trip_is, leg_of_trip}

-- SUM and MAX of SQLite over the values of a column, NULL ones among them, and the order of texts.
pub record Sql (N : Type 0) : Type 0 where
  pub sum_of : List (Option N) → Option N
  pub max_of : List (Option N) → Option N
  pub text_lt : String → String → Bool

pub record TripWithFlights (N : Type 0) : Type 0 where
  pub trip : Trip
  pub flights : List (FlightWithPoints N)
  pub flight_count : ℕ
  pub total_distance_nm : Option N
  pub total_duration_sec : Option N
  pub max_altitude_ft : Option N
  pub planned_leg_count : ℕ
  pub planned_legs : List (PlannedLegWithChildren N)

module _ {N : Type 0} where
  abbrev flight_in_trip : ℕ → Flight N → Bool
  flight_in_trip trip f = holds trip f.trip_id

  -- SELECT * FROM flights WHERE trip_id = ? ORDER BY start_time ASC
  unfoldable pub fetch_flights : Sql N → ℕ → Db N → List (Flight N)
  fetch_flights sql trip db =
      sort_by (λ f g. sql.text_lt f.start_time g.start_time)
        (where_rows (flight_in_trip trip) db.flights)

  -- The row that aggregates a trip, with the flights and legs that the caller attaches.
  unfoldable pub agg_row :
      Sql N
      → Db N
      → List (FlightWithPoints N)
      → List (PlannedLegWithChildren N)
      → Trip
      → TripWithFlights N
  agg_row sql db flights legs t =
      let joined = where_rows (flight_in_trip t.id) db.flights in
      record {
        trip = t;
        flights = flights;
        flight_count = length joined;
        total_distance_nm = sql.sum_of (map (λ f. f.distance_nm) joined);
        total_duration_sec = sql.sum_of (map (λ f. f.duration_sec) joined);
        max_altitude_ft = sql.max_of (map (λ f. f.max_altitude_ft) joined);
        planned_leg_count = count_where (leg_of_trip t.id) db.planned_legs;
        planned_legs = legs;
      }

  -- created_at DESC
  unfoldable pub get_trips : Sql N → Db N → List (TripWithFlights N)
  unfolding fetch_flights agg_row
  get_trips sql db =
      map
        (λ t.
          agg_row sql db (map (λ f. record { flight = f; points = [] }) (fetch_flights sql t.id db))
            [] t)
        (sort_by (λ s t. sql.text_lt t.created_at s.created_at) db.trips)

  unfoldable pub get_trip_by_id : Sql N → ℕ → Db N → Option (TripWithFlights N)
  unfolding fetch_flights agg_row
  get_trip_by_id sql trip db = elim (first_where (trip_is trip) db.trips) [
    | none ↦ none
    | some row ↦ some (
        agg_row sql db
          (map (λ f. record { flight = f; points = get_flight_track_points sql.text_lt f.id db })
            (fetch_flights sql trip db))
          (get_planned_legs_for_trip trip db) row)
  ]
