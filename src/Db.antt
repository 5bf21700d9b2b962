-- ===== src/Db.antt =====
-- The rows of the logbook's SQLite tables (src/types.ts, src/db/schema.ts) and the database as a
-- value. A table is the list of its rows in insertion order with the next AUTOINCREMENT id; a
-- transaction is a function from database to database. Text columns, the ISO instants among them,
-- are `String`; NULL is `none`; REAL columns are of the type `N` of `number`.
pub mod Flights
pub mod PlannedLegs
pub mod GroundSessions
pub mod Trips
pub mod AcarsMessages
pub mod Sound
use msfslogger.Base.{ℕ, Bool, String, Option, List}

pub data LinkSource : Type 0 where
  auto manual : LinkSource

pub data LegStatus : Type 0 where
  planned flown diverted skipped : LegStatus

pub record Flight (N : Type 0) : Type 0 where
  pub id : ℕ
  pub aircraft : Option String
  pub departure_lat : Option N
  pub departure_lon : Option N
  pub arrival_lat : Option N
  pub arrival_lon : Option N
  pub start_time : String
  pub end_time : Option String
  pub duration_sec : Option N
  pub distance_nm : Option N
  pub max_altitude_ft : Option N
  pub max_airspeed_kts : Option N
  pub point_count : Option ℕ
  pub notes : Option String
  pub trip_id : Option ℕ
  pub departure_icao : Option String
  pub departure_name : Option String
  pub arrival_icao : Option String
  pub arrival_name : Option String
  pub flight_plan_name : Option String
  pub planned_leg_id : Option ℕ
  pub planned_leg_link_source : Option LinkSource
  pub planned_leg_prev_trip_id : Option ℕ

pub record FlightPoint (N : Type 0) : Type 0 where
  pub id : ℕ
  pub flight_id : ℕ
  pub ts : String
  pub lat : N
  pub lon : N
  pub altitude_ft : N
  pub airspeed_kts : N
  pub ground_speed_kts : N
  pub heading_deg : N
  pub vertical_speed_fpm : N
  pub on_ground : Bool

pub record Trip : Type 0 where
  pub id : ℕ
  pub name : String
  pub notes : Option String
  pub created_at : String
  pub is_active : Bool

-- The columns that an import copies from the parsed plan and that nothing updates.
pub record LegEndpoint (N : Type 0) : Type 0 where
  pub ident : String
  pub name : Option String
  pub lat : N
  pub lon : N
  pub is_airport : Bool

pub record LegDepartureStart (N : Type 0) : Type 0 where
  pub start : Option String
  pub start_type : Option String
  pub pos_lat : Option N
  pub pos_lon : Option N

pub record LegProcedures (N : Type 0) : Type 0 where
  pub sid_name : Option String
  pub sid_runway : Option String
  pub sid_transition : Option String
  pub sid_type : Option String
  pub sid_custom_distance_nm : Option N
  pub star_name : Option String
  pub star_runway : Option String
  pub star_transition : Option String
  pub approach_name : Option String
  pub approach_runway : Option String
  pub approach_transition : Option String
  pub approach_type : Option String
  pub approach_arinc : Option String
  pub approach_suffix : Option String
  pub approach_transition_type : Option String
  pub approach_custom_distance_nm : Option N
  pub approach_custom_altitude_ft : Option N
  pub approach_custom_offset_deg : Option N

pub record LegPlan (N : Type 0) : Type 0 where
  pub departure : LegEndpoint N
  pub departure_start : LegDepartureStart N
  pub destination : LegEndpoint N
  pub is_snippet : Bool
  pub cruise_alt_ft : Option N
  pub flightplan_type : Option String
  pub aircraft_type : Option String
  pub procedures : LegProcedures N
  pub waypoint_count : ℕ
  pub alternate_count : ℕ
  pub approx_distance_nm : N
  pub remarks : Option String
  pub plan_created_at : Option String
  pub source_filename : String
  pub source_sha256 : String
  pub source_program : Option String
  pub imported_at : String

pub record PlannedLeg (N : Type 0) : Type 0 where
  pub id : ℕ
  pub trip_id : Option ℕ
  pub seq : ℕ
  pub status : LegStatus
  pub plan : LegPlan N
  pub arrival_deviation_nm : Option N

pub record PlannedWaypoint (N : Type 0) : Type 0 where
  pub planned_leg_id : ℕ
  pub seq : ℕ
  pub ident : String
  pub name : Option String
  pub region : Option String
  pub airway : Option String
  pub track : Option String
  pub waypoint_type : String
  pub comment : Option String
  pub lat : N
  pub lon : N
  pub alt_ft : Option N

pub record PlannedAlternate (N : Type 0) : Type 0 where
  pub planned_leg_id : ℕ
  pub seq : ℕ
  pub ident : String
  pub name : Option String
  pub alternate_type : Option String
  pub lat : Option N
  pub lon : Option N
  pub alt_ft : Option N

pub data EndReason : Type 0 where
  flight_started sim_exit crash slew superseded corrected by_hand : EndReason

pub record GroundSession (N : Type 0) : Type 0 where
  pub id : ℕ
  pub source : LinkSource
  pub airport_icao : Option String
  pub airport_name : Option String
  pub lat : Option N
  pub lon : Option N
  pub parking_position : Option String
  pub parking_position_source : Option LinkSource
  pub planned_leg_id : Option ℕ
  pub planned_leg_link_source : Option LinkSource
  pub aircraft : Option String
  pub started_at : String
  pub ended_at : Option String
  pub ended_reason : Option EndReason
  pub flight_id : Option ℕ
  pub created_at : String
  pub updated_at : String

pub data AcarsDirection : Type 0 where
  uplink downlink : AcarsDirection

pub record AcarsMessage : Type 0 where
  pub id : ℕ
  pub flight_id : Option ℕ
  pub planned_leg_id : Option ℕ
  pub direction : AcarsDirection
  pub category : String
  pub label : Option String
  pub body : String
  pub payload_json : Option String
  pub correlation_id : Option ℕ
  pub dedup_key : Option String
  pub sent_at : String
  pub read_at : Option String

pub record Db (N : Type 0) : Type 0 where
  pub flights : List (Flight N)
  pub next_flight_id : ℕ
  pub flight_points : List (FlightPoint N)
  pub next_point_id : ℕ
  pub trips : List Trip
  pub next_trip_id : ℕ
  pub planned_legs : List (PlannedLeg N)
  pub next_leg_id : ℕ
  pub planned_waypoints : List (PlannedWaypoint N)
  pub planned_alternates : List (PlannedAlternate N)
  pub ground_sessions : List (GroundSession N)
  pub next_session_id : ℕ
  pub acars_messages : List AcarsMessage
  pub next_message_id : ℕ

-- A call that returns, or throws; a transaction that throws is rolled back.
pub data Result {ℓ κ} (E : Type ℓ) (A : Type κ) : Type (ℓ ⊔ κ) where
  ok : A → Result E A
  thrown : E → Result E A

-- What holds of the value of a call that returns.
abbrev pub OnOk {ℓ κ μ} : {E : Type ℓ} {A : Type κ} → (A → Type μ) → Result E A → Type μ
OnOk P (ok a) = P a
OnOk P (thrown e) = Unit
