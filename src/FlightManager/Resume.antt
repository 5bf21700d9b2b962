-- ===== src/FlightManager/Resume.antt =====
-- Resuming a flight that was open when the server stopped (src/flightManager.ts, resumeFlight()).
use msfslogger.Base.{
  ℕ, true, false, Option, none, some, List, [], ◌∷◌, String, if◌then◌else◌, or_else, ltb, ◌&&◌,
  length,
}
use msfslogger.Base.Int.{ℤ, pos, sub_ℕ, ◌+ℤ◌, leb_ℤ}
use msfslogger.Base.Double.{Double}
use msfslogger.Geo.{haversine_nm}
use msfslogger.Db.{Flight, FlightPoint}
use msfslogger.Db.Flights.{get_flight_track_points}
use msfslogger.GroundState.{SimFrame}
use msfslogger.FlightManager.State.{flying, Manager, Env, notify_scope_change, set_app_flight}
use msfslogger.FlightManager.Legs.{refresh_planned_leg_for_flight}
use msfslogger.FlightManager.Recording.{write_point, max_counted_gap_ms}

module _ {N : Type 0} (d : Double N) where
  open d use {lit, add, lt}

  -- The loop that rebuilds the maxima of a track.
  max_from : (FlightPoint N → N) → N → List (FlightPoint N) → N
  max_from f m [] = m
  max_from f m (p ∷ ps) = max_from f (if lt m (f p) then f p else m) ps

  track_distance : N → FlightPoint N → List (FlightPoint N) → N
  unfolding haversine_nm
  track_distance acc p [] = acc
  track_distance acc p (q ∷ ps) =
      track_distance (add acc (haversine_nm d p.lat p.lon q.lat q.lon)) q ps

  -- A gap between two recorded instants counts if both parse and it is positive and short enough.
  unfoldable pub track_gap : Option ℕ → Option ℕ → ℤ
  track_gap none _ = pos 0
  track_gap (some a) none = pos 0
  track_gap (some a) (some b) =
      if ltb a b && leb_ℤ (sub_ℕ b a) (pos max_counted_gap_ms) then sub_ℕ b a else pos 0

  unfoldable pub track_active : (String → Option ℕ) → ℤ → FlightPoint N → List (FlightPoint N) → ℤ
  unfolding track_gap
  track_active parse acc p [] = acc
  track_active parse acc p (q ∷ ps) =
      track_active parse (acc +ℤ track_gap (parse p.ts) (parse q.ts)) q ps

  last_of : FlightPoint N → List (FlightPoint N) → FlightPoint N
  last_of p [] = p
  last_of p (q ∷ ps) = last_of q ps

  -- Departure coordinates, taken together, or the frame's.
  departure_or : Option N → Option N → N → N → N × N
  departure_or (some lat) (some lon) _ _ = (lat, lon)
  departure_or _ _ lat lon = (lat, lon)

  -- The accumulators that a track gives.
  unfoldable pub rebuilt :
      Flight N → List (FlightPoint N) → SimFrame N → Env N → Manager N → Manager N
  unfolding max_from track_distance track_active last_of departure_or
  rebuilt row [] frame env m =
      let (lat, lon) = departure_or row.departure_lat row.departure_lon frame.lat frame.lon in
      record m {
        point_count = 0;
        max_altitude_ft = frame.altitude_ft;
        max_airspeed_kts = frame.airspeed_knots;
        last_point_lat = lat;
        last_point_lon = lon;
        distance_nm = lit 0;
        active_ms = pos 0;
      }
  rebuilt row (p ∷ ps) frame env m = record m {
    point_count = length (p ∷ ps);
    max_altitude_ft = max_from (λ q. q.altitude_ft) p.altitude_ft ps;
    max_airspeed_kts = max_from (λ q. q.airspeed_kts) p.airspeed_kts ps;
    last_point_lat = (last_of p ps).lat;
    last_point_lon = (last_of p ps).lon;
    distance_nm = track_distance (lit 0) p ps;
    active_ms = track_active env.parse_date (pos 0) p ps;
  }

  unfoldable pub resume_fields : Flight N → Env N → Manager N → Manager N
  resume_fields row env m = record m {
    current_flight_id = some row.id;
    state = flying;
    app = set_app_flight flying (some row.id) m.app;
    airborne_streak = 0;
    landed_streak = 0;
    ground_streak = 0;
    last_point_time = env.now_ms;
    flight_start_ms = or_else (env.parse_date row.start_time) env.now_ms;
    interrupted = true;
    on_event_filed = false;
    position_report_interval_ms = env.report_interval_ms;
    last_position_report_window = 0;
    planned_leg_cache = none;
  }

  unfoldable pub resume_flight : Flight N → SimFrame N → Env N → Manager N → Manager N
  unfolding rebuilt resume_fields refresh_planned_leg_for_flight write_point notify_scope_change
  resume_flight row frame env m = notify_scope_change (
      write_point d frame env (
        refresh_planned_leg_for_flight d row.id (
          resume_fields row env
            (rebuilt row (get_flight_track_points env.text_lt row.id m.db) frame env m))))
