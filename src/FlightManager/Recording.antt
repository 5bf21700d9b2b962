-- ===== src/FlightManager/Recording.antt =====
-- Recording points: distance, counted time, maxima, and the periodic position report
-- (src/flightManager.ts).
use msfslogger.Base.{
  ℕ, suc, ◌+◌, ◌-◌, ◌/◌, Bool, false, not, none, some, String, if◌then◌else◌, ltb, leb, ◌&&◌, ◌||◌,
  ◌==◌,
}
use msfslogger.Base.Int.{ℤ, pos, sub_ℕ, ◌+ℤ◌, leb_ℤ}
use msfslogger.Base.Double.{Double}
use msfslogger.Geo.{haversine_nm}
use msfslogger.Db.{FlightPoint}
use msfslogger.Db.Flights.{insert_point}
use msfslogger.Db.AcarsMessages.{file_acars_message_once}
use msfslogger.GroundState.{SimFrame}
use msfslogger.FlightManager.State.{Manager, Env, PlannedLegCache, now_iso}
use msfslogger.FlightManager.Legs.{get_planned_leg_status}

-- MAX_COUNTED_GAP_MS, RECORD_INTERVAL_MS
abbrev pub max_counted_gap_ms : ℕ
max_counted_gap_ms = 60000

abbrev pub record_interval_ms : ℕ
record_interval_ms = 5000

-- A gap between two instants, added to the counted time unless it was an interruption.
unfoldable pub count_gap : Bool → ℕ → ℕ → ℤ → ℤ
count_gap interrupted now last active =
    if not interrupted && leb_ℤ (sub_ℕ now last) (pos max_counted_gap_ms)
    then active +ℤ sub_ℕ now last
    else active

module _ {N : Type 0} where
  unfoldable pub point_row : ℕ → String → SimFrame N → FlightPoint N
  point_row flight_id ts frame = record {
    id = 0;
    flight_id = flight_id;
    ts = ts;
    lat = frame.lat;
    lon = frame.lon;
    altitude_ft = frame.altitude_ft;
    airspeed_kts = frame.airspeed_knots;
    ground_speed_kts = frame.ground_speed_knots;
    heading_deg = frame.heading_deg;
    vertical_speed_fpm = frame.vertical_speed_fpm;
    on_ground = frame.on_ground;
  }

module _ {N : Type 0} (d : Double N) where
  open d use {lt, add}

  -- Once the window is new: the report of a route that has one.
  unfoldable pub file_report :
      ℕ → PlannedLegCache N → ℕ → SimFrame N → Env N → Manager N → Manager N
  unfolding get_planned_leg_status
  file_report flight_id cache window frame env m =
      elim (get_planned_leg_status d frame.lat frame.lon cache) [
        | none ↦ m
        | some status ↦ record m {
          db =
              (file_acars_message_once
                (env.build_position_report_message (record {
                  flight_id = flight_id;
                  window_index = window;
                  at = now_iso env;
                  lat = frame.lat;
                  lon = frame.lon;
                  altitude_ft = frame.altitude_ft;
                  ground_speed_knots = frame.ground_speed_knots;
                  heading_deg = frame.heading_deg;
                  next_waypoint_ident = status.next_waypoint_ident;
                  destination_ident = status.destination_ident;
                  remaining_distance_nm = status.remaining_distance_nm;
                  planned_leg_id = status.planned_leg_id;
                }))
                (now_iso env) m.db).1;
        }
      ]

  -- Math.floor((nowMs - flightStartMs) / interval): below 1 if the clock stands before the start.
  unfoldable pub report_window : Env N → Manager N → ℕ
  report_window env m = (env.now_ms - m.flight_start_ms) / m.position_report_interval_ms

  unfoldable pub report_in_window :
      ℕ → PlannedLegCache N → SimFrame N → Env N → Manager N → Manager N
  unfolding report_window file_report
  report_in_window flight_id cache frame env m =
      let window = report_window env m in
      if ltb window 1 || leb window m.last_position_report_window
      then m
      else file_report flight_id cache window frame env
          (record m { last_position_report_window = window })

  unfoldable pub report_if_due : ℕ → SimFrame N → Env N → Manager N → Manager N
  unfolding report_in_window
  report_if_due flight_id frame env m =
      if m.position_report_interval_ms == 0 then m else (elim m.planned_leg_cache [
        | none ↦ m
        | some cache ↦ report_in_window flight_id cache frame env m
      ])

  unfoldable pub maybe_file_position_report : SimFrame N → Env N → Manager N → Manager N
  unfolding report_if_due
  maybe_file_position_report frame env m = elim m.current_flight_id [
    | none ↦ m
    | some flight_id ↦ report_if_due flight_id frame env m
  ]

  -- The accumulators and the row of a point, before the position report.
  unfoldable pub add_point : ℕ → SimFrame N → Env N → Manager N → Manager N
  unfolding count_gap point_row
  add_point flight_id frame env m = record m {
    distance_nm =
        if ltb 0 m.point_count
        then add m.distance_nm
            (haversine_nm d m.last_point_lat m.last_point_lon frame.lat frame.lon)
        else m.distance_nm;
    active_ms =
        if ltb 0 m.point_count
        then count_gap m.interrupted env.now_ms m.last_point_time m.active_ms
        else m.active_ms;
    max_altitude_ft =
        if lt m.max_altitude_ft frame.altitude_ft then frame.altitude_ft else m.max_altitude_ft;
    max_airspeed_kts =
        if lt m.max_airspeed_kts frame.airspeed_knots
        then frame.airspeed_knots
        else m.max_airspeed_kts;
    db = insert_point (point_row flight_id (now_iso env) frame) m.db;
    last_point_lat = frame.lat;
    last_point_lon = frame.lon;
    last_point_time = env.now_ms;
    point_count = suc m.point_count;
    interrupted = false;
  }

  unfoldable pub write_point : SimFrame N → Env N → Manager N → Manager N
  unfolding add_point maybe_file_position_report
  write_point frame env m = elim m.current_flight_id [
    | none ↦ m
    | some flight_id ↦ maybe_file_position_report frame env (add_point flight_id frame env m)
  ]

  -- `Date.now() - lastPointTime < RECORD_INTERVAL_MS`, also when the clock went back.
  unfoldable pub record_point : SimFrame N → Env N → Manager N → Manager N
  unfolding write_point
  record_point frame env m =
      if ltb env.now_ms (m.last_point_time + record_interval_ms) then m else write_point frame env m
