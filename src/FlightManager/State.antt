-- ===== src/FlightManager/State.antt =====
-- The fields of the class FlightManager (src/flightManager.ts) and what its methods are given.
use msfslogger.Base.{ℕ, suc, Bool, Option, some, List, String}
use msfslogger.Base.Int.{ℤ}
use msfslogger.Db.{Db, LinkSource}
use msfslogger.Db.AcarsMessages.{CreateAcarsMessage}
use msfslogger.Airports.{Airport}
use msfslogger.GroundState.{SimFrame}

pub data FlightState : Type 0 where
  idle ground flying ended : FlightState

pub data OooiEvent : Type 0 where
  out_event off_event on_event in_event : OooiEvent

pub record OooiEventInput : Type 0 where
  pub flight_id : ℕ
  pub event : OooiEvent
  pub at : String
  pub airport_icao : Option String
  pub stand : Option String
  pub aircraft : Option String
  pub destination_ident : Option String
  pub planned_leg_id : Option ℕ
  pub estimated : Bool

pub record PositionReportInput (N : Type 0) : Type 0 where
  pub flight_id : ℕ
  pub window_index : ℕ
  pub at : String
  pub lat : N
  pub lon : N
  pub altitude_ft : N
  pub ground_speed_knots : N
  pub heading_deg : N
  pub next_waypoint_ident : String
  pub destination_ident : String
  pub remaining_distance_nm : N
  pub planned_leg_id : ℕ

pub record RoutePoint (N : Type 0) : Type 0 where
  pub ident : String
  pub lat : N
  pub lon : N

pub record PlannedLegCache (N : Type 0) : Type 0 where
  pub flight_id : ℕ
  pub planned_leg_id : ℕ
  pub trip_id : Option ℕ
  pub trip_name : Option String
  pub destination_ident : String
  pub waypoints : List (RoutePoint N)
  pub remaining_from_nm : List N

pub record GroundSessionLiveStatus : Type 0 where
  pub ground_session_id : ℕ
  pub source : LinkSource
  pub airport_icao : Option String
  pub airport_name : Option String
  pub parking_position : Option String
  pub parking_position_source : Option LinkSource
  pub planned_leg_id : Option ℕ
  pub planned_leg_link_source : Option LinkSource
  pub trip_id : Option ℕ
  pub trip_name : Option String
  pub departure_ident : Option String
  pub destination_ident : Option String
  pub started_at : String

pub record Anchor (N : Type 0) : Type 0 where
  pub lat : N
  pub lon : N

pub record AppState (N : Type 0) : Type 0 where
  pub flight_state : FlightState
  pub current_flight_id : Option ℕ
  pub connected : Bool
  pub last_frame : Option (SimFrame N)
  pub paused : Bool
  pub pause_flags : ℕ

-- The private fields, `app` for `appState`, the database, and how often the scope listener was
-- called.
pub record Manager (N : Type 0) : Type 0 where
  pub state : FlightState
  pub current_flight_id : Option ℕ
  pub planned_leg_cache : Option (PlannedLegCache N)
  pub airborne_streak : ℕ
  pub landed_streak : ℕ
  pub ground_streak : ℕ
  pub ground_anchor : Option (Anchor N)
  pub ground_session_cache : Option GroundSessionLiveStatus
  pub out_blocks_at : Option String
  pub on_event_filed : Bool
  pub position_report_interval_ms : ℕ
  pub last_position_report_window : ℕ
  pub is_paused : Bool
  pub last_point_time : ℕ
  pub interrupted : Bool
  pub open_flight_checked_at_boot : Bool
  pub distance_nm : N
  pub max_altitude_ft : N
  pub max_airspeed_kts : N
  pub point_count : ℕ
  pub last_point_lat : N
  pub last_point_lon : N
  pub flight_start_ms : ℕ
  pub active_ms : ℤ
  pub app : AppState N
  pub db : Db N
  pub scope_changes : ℕ

-- What a handler reads from outside: the clock, once for each handler, JavaScript's dates, the
-- order that SQLite gives texts, the airport list, and POSITION_REPORT_INTERVAL_MIN as parsed;
-- with the builders of message rows (src/acars.ts).
pub record Env (N : Type 0) : Type 0 where
  pub now_ms : ℕ
  pub iso : ℕ → String
  pub parse_date : String → Option ℕ
  pub text_lt : String → String → Bool
  pub airports : List (Airport N)
  pub report_interval_ms : ℕ
  pub build_oooi_message : OooiEventInput → CreateAcarsMessage
  pub build_position_report_message : PositionReportInput N → CreateAcarsMessage

module _ {N : Type 0} where
  -- new Date().toISOString()
  abbrev pub now_iso : Env N → String
  now_iso env = env.iso env.now_ms

  unfoldable pub notify_scope_change : Manager N → Manager N
  notify_scope_change m = record m { scope_changes = suc m.scope_changes }

  abbrev pub set_app_flight : FlightState → Option ℕ → AppState N → AppState N
  set_app_flight st i a = record a { flight_state = st; current_flight_id = i }

  abbrev pub set_app_state : FlightState → AppState N → AppState N
  set_app_state st a = record a { flight_state = st }

  abbrev pub set_app_frame : SimFrame N → AppState N → AppState N
  set_app_frame frame a = record a { last_frame = some frame }
