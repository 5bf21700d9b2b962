-- ===== src/FlightManager/Flight.antt =====
-- Starting, resuming and ending a flight (src/flightManager.ts).
use msfslogger.Base.{
  ℕ, Bool, true, false, Option, none, some, String, if◌then◌else◌, is_none, or_else,
}
use msfslogger.Base.Int.{pos}
use msfslogger.Base.Double.{Double}
use msfslogger.Geo.{haversine_nm}
use msfslogger.Airports.{AirportRef, find_nearest_airport}
use msfslogger.Db.{Db, flight_started}
use msfslogger.Db.Flights.{insert_flight, close_flight}
use msfslogger.Db.GroundSessions.{close_open_ground_session}
use msfslogger.Db.PlannedLegs.{get_flight_planned_leg_id}
use msfslogger.Db.PlannedLegs.Status.{
  ArrivalOutcome, arrived_flown, arrived_diverted, record_planned_leg_arrival,
}
use msfslogger.Db.AcarsMessages.{file_acars_message_once}
use msfslogger.LegMatcher.{arrival_radius_nm}
use msfslogger.GroundState.{SimFrame}
use msfslogger.FlightManager.State.{
  idle, flying, OooiEvent, out_event, off_event, on_event, in_event, Manager, Env, now_iso,
  notify_scope_change, set_app_flight, PlannedLegCache, GroundSessionLiveStatus,
}
use msfslogger.FlightManager.Legs.{auto_link_planned_leg, get_leg}
use msfslogger.FlightManager.Recording.{write_point, count_gap}

abbrev pub airport_icao : Option AirportRef → Option String
airport_icao none = none
airport_icao (some ap) = some ap.icao

abbrev airport_name : Option AirportRef → Option String
airport_name none = none
airport_name (some ap) = some ap.name

abbrev session_airport : Option GroundSessionLiveStatus → Option String
session_airport none = none
session_airport (some s) = s.airport_icao

abbrev session_stand : Option GroundSessionLiveStatus → Option String
session_stand none = none
session_stand (some s) = s.parking_position

module _ {N : Type 0} where
  abbrev destination_of : Option (PlannedLegCache N) → Option String
  destination_of none = none
  destination_of (some c) = some c.destination_ident

  abbrev leg_id_of : Option (PlannedLegCache N) → Option ℕ
  leg_id_of none = none
  leg_id_of (some c) = some c.planned_leg_id

  -- One OOOI message of flight `i`, filed if it is the first under its key.
  unfoldable pub file_oooi :
      ℕ
      → OooiEvent
      → String
      → Option String
      → Option String
      → Bool
      → SimFrame N
      → Env N
      → Manager N
      → Manager N
  file_oooi i event at icao stand estimated frame env m = record m {
    db =
        (file_acars_message_once
          (env.build_oooi_message (record {
            flight_id = i;
            event = event;
            at = at;
            airport_icao = icao;
            stand = stand;
            aircraft = some frame.aircraft;
            destination_ident = destination_of m.planned_leg_cache;
            planned_leg_id = leg_id_of m.planned_leg_cache;
            estimated = estimated;
          }))
          (now_iso env) m.db).1;
  }

module _ {N : Type 0} (d : Double N) where
  open d use {lit, add, mul, div, le, lt, round, of_ms}

  -- fileTouchdownOn(): the flag is set before anything else.
  unfoldable pub file_touchdown_on : SimFrame N → Env N → Manager N → Manager N
  unfolding file_oooi
  file_touchdown_on frame env m = elim m.current_flight_id [
    | none ↦ record m { on_event_filed = true }
    | some i ↦
        file_oooi i on_event (now_iso env)
          (airport_icao (find_nearest_airport d env.airports frame.lat frame.lon)) none false frame
          env (record m { on_event_filed = true })
  ]

  -- The first half of startFlight(): the rows.
  unfoldable pub open_flight : SimFrame N → Env N → Manager N → ℕ × Manager N
  unfolding auto_link_planned_leg
  open_flight frame env m =
      let dep = find_nearest_airport d env.airports frame.lat frame.lon in
      let (i, db') =
        insert_flight frame.aircraft frame.lat frame.lon (now_iso env) (airport_icao dep)
          (airport_name dep) m.db in
      (
        i,
        auto_link_planned_leg d i frame (now_iso env) (record m {
          db = (close_open_ground_session flight_started (some i) (now_iso env) db').1;
          ground_anchor = none;
          ground_session_cache = none;
          planned_leg_cache = none;
        }),
      )

  -- The second half: the fields.
  unfoldable pub begin_flying : ℕ → SimFrame N → Env N → Manager N → Manager N
  unfolding notify_scope_change
  begin_flying i frame env m = notify_scope_change (record m {
    current_flight_id = some i;
    state = flying;
    airborne_streak = 0;
    landed_streak = 0;
    ground_streak = 0;
    distance_nm = lit 0;
    max_altitude_ft = frame.altitude_ft;
    max_airspeed_kts = frame.airspeed_knots;
    point_count = 0;
    last_point_lat = frame.lat;
    last_point_lon = frame.lon;
    last_point_time = env.now_ms;
    flight_start_ms = env.now_ms;
    active_ms = pos 0;
    interrupted = false;
    app = set_app_flight flying (some i) m.app;
    on_event_filed = false;
    position_report_interval_ms = env.report_interval_ms;
    last_position_report_window = 0;
  })

  -- The OUT and OFF messages; `before` is the recorder as the flight found it.
  unfoldable pub file_departure : ℕ → Manager N → SimFrame N → Env N → Manager N → Manager N
  unfolding file_oooi
  file_departure i before frame env m =
      file_oooi i off_event (now_iso env)
        (airport_icao (find_nearest_airport d env.airports frame.lat frame.lon)) none false frame
        env
        (file_oooi i out_event (or_else before.out_blocks_at (now_iso env))
          (session_airport before.ground_session_cache) (session_stand before.ground_session_cache)
          (is_none before.out_blocks_at) frame env m)

  unfoldable pub start_flight : SimFrame N → Env N → Manager N → Manager N
  unfolding open_flight begin_flying file_departure write_point
  start_flight frame env m =
      let (i, opened) = open_flight frame env m in
      write_point d frame env
        (record (file_departure i m frame env (begin_flying i frame env opened)) {
          out_blocks_at = none;
        })

  -- `Math.round(x * 10) / 10`
  abbrev pub tenth : N → N
  tenth x = div (round (mul x (lit 10))) (lit 10)

  abbrev pub arrival_status : N → ArrivalOutcome
  arrival_status deviation =
      if le deviation (arrival_radius_nm d) then arrived_flown else arrived_diverted

  unfoldable pub record_arrival_on_planned_leg : ℕ → SimFrame N → Db N → Db N
  unfolding get_leg
  record_arrival_on_planned_leg i frame db = elim (get_flight_planned_leg_id i db) [
    | none ↦ db
    | some l ↦ elim (get_leg l db) [
      | none ↦ db
      | some leg ↦
          let deviation =
            haversine_nm d frame.lat frame.lon leg.plan.destination.lat leg.plan.destination.lon in
          record_planned_leg_arrival l (arrival_status deviation) (tenth deviation) db
    ]
  ]

  -- endFlight(), up to the messages.
  unfoldable pub close_current : ℕ → SimFrame N → Env N → Manager N → Manager N
  unfolding count_gap record_arrival_on_planned_leg
  close_current i frame env m =
      let active = count_gap m.interrupted env.now_ms m.last_point_time m.active_ms in
      let arr = find_nearest_airport d env.airports frame.lat frame.lon in
      record m {
        active_ms = active;
        db = record_arrival_on_planned_leg i frame (
            close_flight i
              (record {
                end_time = now_iso env;
                arrival_lat = frame.lat;
                arrival_lon = frame.lon;
                duration_sec = round (div (of_ms active) (lit 1000));
                distance_nm = tenth m.distance_nm;
                max_altitude_ft = round m.max_altitude_ft;
                max_airspeed_kts = round m.max_airspeed_kts;
                point_count = m.point_count;
                arrival_icao = airport_icao arr;
                arrival_name = airport_name arr;
              })
              m.db);
      }

  -- The messages: ON only if no touchdown filed it, then IN.
  unfoldable pub file_arrival : ℕ → SimFrame N → Env N → Manager N → Manager N
  unfolding file_oooi
  file_arrival i frame env m =
      let icao = airport_icao (find_nearest_airport d env.airports frame.lat frame.lon) in
      let on_filed =
        if m.on_event_filed
        then m
        else record (file_oooi i on_event (now_iso env) icao none true frame env m) {
          on_event_filed = true;
        } in
      file_oooi i in_event (now_iso env) icao none false frame env on_filed

  unfoldable pub end_tracking : Manager N → Manager N
  unfolding notify_scope_change
  end_tracking m =
      record (notify_scope_change (record m {
        current_flight_id = none;
        planned_leg_cache = none;
        state = idle;
        app = set_app_flight idle none m.app;
      })) { airborne_streak = 0; landed_streak = 0 }

  unfoldable pub end_flight : SimFrame N → Env N → Manager N → Manager N
  unfolding close_current file_arrival end_tracking
  end_flight frame env m = elim m.current_flight_id [
    | none ↦ m
    | some i ↦ end_tracking (file_arrival i frame env (close_current i frame env m))
  ]
