-- ===== src/Db/Flights.antt =====
-- Flights and their points (src/db/flights.ts).
pub mod Edits
pub mod Combine
use msfslogger.Base.{
  ℕ, suc, Bool, true, false, Option, none, some, List, [], ◌∷◌, ◌++◌, ◌==◌, is_none, holds, map,
  ltb, if◌then◌else◌, String, update_where, where_rows, delete_where, count_where, ◌||◌, ◌&&◌,
}
use msfslogger.Base.Sorting.{sort_by}
use msfslogger.Db.{Flight, FlightPoint, GroundSession, Db}
use msfslogger.Db.PlannedLegs.{flight_is, clear_planned_leg_link}
use msfslogger.Db.PlannedLegs.Crud.{drop_ref, delete_messages}

-- What closeFlight() writes.
pub record FlightClose (N : Type 0) : Type 0 where
  pub end_time : String
  pub arrival_lat : N
  pub arrival_lon : N
  pub duration_sec : N
  pub distance_nm : N
  pub max_altitude_ft : N
  pub max_airspeed_kts : N
  pub point_count : ℕ
  pub arrival_icao : Option String
  pub arrival_name : Option String

module _ {N : Type 0} where
  unfoldable pub new_flight : ℕ → String → N → N → String → Option String → Option String → Flight N
  new_flight i aircraft lat lon start_time departure_icao departure_name = record {
    id = i;
    aircraft = some aircraft;
    departure_lat = some lat;
    departure_lon = some lon;
    arrival_lat = none;
    arrival_lon = none;
    start_time = start_time;
    end_time = none;
    duration_sec = none;
    distance_nm = none;
    max_altitude_ft = none;
    max_airspeed_kts = none;
    point_count = none;
    notes = none;
    trip_id = none;
    departure_icao = departure_icao;
    departure_name = departure_name;
    arrival_icao = none;
    arrival_name = none;
    flight_plan_name = none;
    planned_leg_id = none;
    planned_leg_link_source = none;
    planned_leg_prev_trip_id = none;
  }

  unfoldable pub insert_flight :
      String → N → N → String → Option String → Option String → Db N → ℕ × Db N
  unfolding new_flight
  insert_flight aircraft lat lon start_time departure_icao departure_name db = (
    db.next_flight_id,
    record db {
      flights =
          db.flights
          ++ new_flight db.next_flight_id aircraft lat lon start_time departure_icao departure_name
            ∷ [];
      next_flight_id = suc db.next_flight_id;
    },
  )

  unfoldable pub closed_row : FlightClose N → Flight N → Flight N
  closed_row c f = record f {
    end_time = some c.end_time;
    arrival_lat = some c.arrival_lat;
    arrival_lon = some c.arrival_lon;
    duration_sec = some c.duration_sec;
    distance_nm = some c.distance_nm;
    max_altitude_ft = some c.max_altitude_ft;
    max_airspeed_kts = some c.max_airspeed_kts;
    point_count = some c.point_count;
    arrival_icao = c.arrival_icao;
    arrival_name = c.arrival_name;
  }

  unfoldable pub close_flight : ℕ → FlightClose N → Db N → Db N
  unfolding closed_row
  close_flight i c db = record db { flights = update_where (flight_is i) (closed_row c) db.flights }

  -- The row of insertPoint(), with the id that AUTOINCREMENT gives.
  unfoldable pub insert_point : FlightPoint N → Db N → Db N
  insert_point p db = record db {
    flight_points = db.flight_points ++ record p { id = db.next_point_id } ∷ [];
    next_point_id = suc db.next_point_id;
  }

  abbrev pub point_of : ℕ → FlightPoint N → Bool
  point_of i p = p.flight_id == i

  unfoldable pub get_flight_point_count : ℕ → Db N → ℕ
  get_flight_point_count i db = count_where (point_of i) db.flight_points

  abbrev pub flight_open : Flight N → Bool
  flight_open f = is_none f.end_time

  -- start_time DESC, id DESC
  newer : (String → String → Bool) → Flight N → Flight N → Bool
  newer text_lt f g =
      text_lt g.start_time f.start_time
      || ((if text_lt f.start_time g.start_time then false else true) && ltb g.id f.id)

  first_of_list : List (Flight N) → Option (Flight N)
  first_of_list [] = none
  first_of_list (f ∷ fs) = some f

  unfoldable pub get_open_flight : (String → String → Bool) → Db N → Option (Flight N)
  unfolding newer first_of_list sort_by
  get_open_flight text_lt db =
      first_of_list (sort_by (newer text_lt) (where_rows flight_open db.flights))

  -- ts ASC
  earlier : (String → String → Bool) → FlightPoint N → FlightPoint N → Bool
  earlier text_lt p q = text_lt p.ts q.ts

  unfoldable pub get_flight_track_points :
      (String → String → Bool) → ℕ → Db N → List (FlightPoint N)
  unfolding earlier sort_by
  get_flight_track_points text_lt i db =
      sort_by (earlier text_lt) (where_rows (point_of i) db.flight_points)

  unfoldable pub forget_flight : ℕ → GroundSession N → GroundSession N
  unfolding drop_ref
  forget_flight i s = record s { flight_id = drop_ref i s.flight_id }

  -- DELETE FROM flights WHERE id = ?, with what the foreign keys do.
  unfoldable pub delete_flight_row : ℕ → Db N → Db N
  unfolding forget_flight delete_messages
  delete_flight_row i db = record db {
    flights = delete_where (flight_is i) db.flights;
    flight_points = delete_where (point_of i) db.flight_points;
    ground_sessions = map (forget_flight i) db.ground_sessions;
    acars_messages = delete_messages (λ m. holds i m.flight_id) db.acars_messages;
  }

  -- The caller also removes the attached PDF when a row went.
  unfoldable pub delete_flight : ℕ → Db N → Db N × Bool
  unfolding delete_flight_row
  delete_flight i db =
      let db' = clear_planned_leg_link i db in
      (delete_flight_row i db', ltb 0 (count_where (flight_is i) db'.flights))
