-- ===== src/Tests/Fixtures.antt =====
-- A small logbook, a number type that stands in for `number`, and an environment, for the examples.
use msfslogger.Base.{
  ℕ, ◌+◌, ◌-◌, ◌*◌, ◌/◌, ◌%◌, ◌^◌, Bool, true, false, Option, none, some, [], ◌∷◌, String, ltb, leb,
  ◌==◌, if◌then◌else◌,
}
use msfslogger.Base.Int.{ℤ}
use msfslogger.Base.Double.{Double}
use msfslogger.Db.{
  Flight, PlannedLeg, LegPlan, GroundSession, Db, planned, flown, manual, uplink, LegStatus,
  LinkSource,
}
use msfslogger.Db.AcarsMessages.{CreateAcarsMessage}
use msfslogger.GroundState.{SimFrame}
use msfslogger.FlightManager.State.{Manager, Env, FlightState}

-- Whole numbers, with angles that are flat.
abbrev pub whole : Double ℕ
whole = record {
  lit = λ n. n;
  add = λ a b. a + b;
  sub = λ a b. a - b;
  mul = λ a b. a * b;
  div = λ a b. a / b;
  rem = λ a b. a % b;
  pow = λ a b. a ^ b;
  lt = ltb;
  le = leb;
  eq = λ a b. a == b;
  infinity = 1000000;
  pi = 3;
  sin = λ a. a;
  cos = λ a. 1;
  atan2 = λ a b. a;
  sqrt = λ a. a;
  min = λ a b. if ltb a b then a else b;
  max = λ a b. if ltb a b then b else a;
  round = λ a. a;
  of_ms = λ z. 0;
}

abbrev pub plan : LegPlan ℕ
plan = record {
  departure = record { ident = "LSZB"; name = none; lat = 46; lon = 7; is_airport = true };
  departure_start = record { start = some "A3"; start_type = none; pos_lat = none; pos_lon = none };
  destination = record { ident = "LSGS"; name = none; lat = 46; lon = 8; is_airport = true };
  is_snippet = false;
  cruise_alt_ft = none;
  flightplan_type = none;
  aircraft_type = none;
  procedures = record {
    sid_name = none;
    sid_runway = none;
    sid_transition = none;
    sid_type = none;
    sid_custom_distance_nm = none;
    star_name = none;
    star_runway = none;
    star_transition = none;
    approach_name = none;
    approach_runway = none;
    approach_transition = none;
    approach_type = none;
    approach_arinc = none;
    approach_suffix = none;
    approach_transition_type = none;
    approach_custom_distance_nm = none;
    approach_custom_altitude_ft = none;
    approach_custom_offset_deg = none;
  };
  waypoint_count = 0;
  alternate_count = 0;
  approx_distance_nm = 60;
  remarks = none;
  plan_created_at = none;
  source_filename = "a.lnmpln";
  source_sha256 = "00";
  source_program = none;
  imported_at = "2026-01-01";
}

abbrev pub leg : ℕ → LegStatus → PlannedLeg ℕ
leg i st = record {
  id = i;
  trip_id = some 2;
  seq = i;
  status = st;
  plan = plan;
  arrival_deviation_nm = none;
}

abbrev pub flight : ℕ → Option ℕ → Option ℕ → Option LinkSource → Flight ℕ
flight i trip linked source = record {
  id = i;
  aircraft = some "DA40";
  departure_lat = none;
  departure_lon = none;
  arrival_lat = none;
  arrival_lon = none;
  start_time = "2026-01-02";
  end_time = some "2026-01-03";
  duration_sec = none;
  distance_nm = none;
  max_altitude_ft = none;
  max_airspeed_kts = none;
  point_count = none;
  notes = none;
  trip_id = trip;
  departure_icao = none;
  departure_name = none;
  arrival_icao = none;
  arrival_name = none;
  flight_plan_name = none;
  planned_leg_id = linked;
  planned_leg_link_source = source;
  planned_leg_prev_trip_id = none;
}

abbrev pub session : LinkSource → GroundSession ℕ
session source = record {
  id = 1;
  source = source;
  airport_icao = some "LSZB";
  airport_name = none;
  lat = some 46;
  lon = some 7;
  parking_position = none;
  parking_position_source = none;
  planned_leg_id = none;
  planned_leg_link_source = none;
  aircraft = none;
  started_at = "2026-01-01";
  ended_at = none;
  ended_reason = none;
  flight_id = none;
  created_at = "2026-01-01";
  updated_at = "2026-01-01";
}

-- Flight 1 is free, flight 2 is linked to leg 6 by hand, leg 5 is free; one session is open.
abbrev pub logbook : LinkSource → Db ℕ
logbook source = record {
  flights = flight 1 (some 9) none none ∷ flight 2 (some 2) (some 6) (some manual) ∷ [];
  next_flight_id = 3;
  flight_points = [];
  next_point_id = 1;
  trips =
      record { id = 2; name = "Alps"; notes = none; created_at = "2026-01-01"; is_active = true }
      ∷ [];
  next_trip_id = 10;
  planned_legs = leg 5 planned ∷ leg 6 flown ∷ [];
  next_leg_id = 7;
  planned_waypoints = [];
  planned_alternates = [];
  ground_sessions = session source ∷ [];
  next_session_id = 2;
  acars_messages = [];
  next_message_id = 1;
}

abbrev pub frame : Bool → ℕ → SimFrame ℕ
frame on_ground knots = record {
  lat = 46;
  lon = 7;
  altitude_ft = 1700;
  airspeed_knots = knots;
  ground_speed_knots = knots;
  heading_deg = 140;
  vertical_speed_fpm = 0;
  on_ground = on_ground;
  sim_running = 2;
  aircraft = "DA40";
  parking_brake = none;
  engine_count = some 1;
  engines_running = some 1;
}

abbrev message : String → CreateAcarsMessage
message key = record {
  flight_id = some 1;
  planned_leg_id = none;
  direction = uplink;
  category = "oooi";
  label = none;
  body = "";
  payload_json = none;
  correlation_id = none;
  dedup_key = some key;
  sent_at = none;
}

abbrev pub env : Env ℕ
env = record {
  now_ms = 100000;
  iso = λ n. "2026-01-04";
  parse_date = λ s. none;
  text_lt = λ a b. false;
  airports = [];
  report_interval_ms = 0;
  build_oooi_message = λ i. message "oooi";
  build_position_report_message = λ i. message "position";
}

-- The recorder over the logbook, not FLYING.
abbrev pub recorder : FlightState → LinkSource → ℕ → Manager ℕ
recorder st source streak = record {
  state = st;
  current_flight_id = none;
  planned_leg_cache = none;
  airborne_streak = streak;
  landed_streak = 0;
  ground_streak = 0;
  ground_anchor = none;
  ground_session_cache = none;
  out_blocks_at = none;
  on_event_filed = false;
  position_report_interval_ms = 0;
  last_position_report_window = 0;
  is_paused = false;
  last_point_time = 0;
  interrupted = false;
  open_flight_checked_at_boot = true;
  distance_nm = 0;
  max_altitude_ft = 0;
  max_airspeed_kts = 0;
  point_count = 0;
  last_point_lat = 46;
  last_point_lon = 7;
  flight_start_ms = 0;
  active_ms = ℤ.pos 0;
  app = record {
    flight_state = st;
    current_flight_id = none;
    connected = true;
    last_frame = none;
    paused = false;
    pause_flags = 0;
  };
  db = logbook source;
  scope_changes = 0;
}
