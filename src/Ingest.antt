-- ===== src/Ingest.antt =====
-- The routes that the agent posts to (src/ingest.ts): frames, events and traffic, with the
-- connection that they keep up. A handler is given its instant by the environment of the recorder.
pub mod Soundness
pub mod Refusals
use msfslogger.Base.{
  ℕ, suc, Bool, true, false, Option, none, some, List, [], ◌∷◌, ◌==◌, ◌&&◌, not, if◌then◌else◌,
  ◌>>=◌, String, str_eq, is_some,
}
use msfslogger.Base.Int.{sub_ℕ, ltb_ℤ, pos}
use msfslogger.Base.Double.{Double}
use msfslogger.Base.Number.{Number}
use msfslogger.Base.Json.{
  Json, Fields, end, obj, arr, bool, num, as_object, as_number, as_text, as_bool, get_field,
}
use msfslogger.Auth.{token_digest, token_matches}
use msfslogger.GroundState.{SimFrame}
use msfslogger.FlightManager.State.{Manager, Env, AppState}
use msfslogger.FlightManager.Frame.{on_frame, on_crash, on_sim_disconnect, set_paused}
use msfslogger.Traffic.{
  TrafficStore, TrafficBatchResult, accepted, replace, apply_retention_cap, build_traffic_objects,
}

-- The recorder, the traffic store and the variables of the router, with how often the listener of
-- status changes was called.
pub record Ingest (N : Type 0) : Type 0 where
  pub manager : Manager N
  pub traffic : TrafficStore N
  pub last_frame_at : ℕ
  pub traffic_disabled_logged : Bool
  pub status_changes : ℕ

-- The configured token, and TRAFFIC_ENABLED as parsed.
pub record IngestConfig : Type 0 where
  pub token : Option String
  pub traffic_enabled : Bool

-- The status of an answer.
pub data Answer : Type 0 where
  no_content bad_request unauthorized : Answer

abbrev pub stale_timeout_ms : ℕ
stale_timeout_ms = 10000

module _ {N : Type 0} where
  -- `typeof body === 'object' && body !== null`; an array has none of the fields.
  abbrev pub frame_fields : Json N → Option (Fields N)
  frame_fields (obj fields) = some fields
  frame_fields (arr items) = some end
  frame_fields _ = none

  unfoldable pub set_connected : Bool → Manager N → Manager N
  set_connected b m = record m { app = record (m.app) { connected = b } }

  unfoldable pub mark_connected : ℕ → Ingest N → Ingest N
  unfolding set_connected
  mark_connected now s = record s { manager = set_connected true s.manager; last_frame_at = now }

  unfoldable pub notify : Ingest N → Ingest N
  notify s = record s { status_changes = suc s.status_changes }

  abbrev pub with_manager : Manager N → Ingest N → Ingest N
  with_manager m s = record s { manager = m }

  unfoldable pub answer_event : Option (Ingest N) → Ingest N → Answer × Ingest N
  unfolding notify
  answer_event none s = (bad_request, s)
  answer_event (some s') s = (no_content, notify s')

  abbrev pub own_position : Option (SimFrame N) → Option (N × N)
  own_position none = none
  own_position (some frame) = some (frame.lat, frame.lon)

module _ {N : Type 0} (number : Number N) where
  open number use {is_finite}

  -- `x === undefined || typeof x === 'boolean'`, with the flag that is then read.
  abbrev pub optional_bool : Option (Json N) → Option (Option Bool)
  optional_bool none = some none
  optional_bool (some (bool b)) = some (some b)
  optional_bool (some _) = none

  -- `x === undefined || (typeof x === 'number' && Number.isFinite(x))`
  abbrev pub optional_count : Option (Json N) → Option (Option N)
  optional_count none = some none
  optional_count (some (num x)) = if is_finite x then some (some x) else none
  optional_count (some _) = none

  -- isValidFrame(), with the frame that the body then is.
  unfoldable pub frame_of : Fields N → Option (SimFrame N)
  frame_of f = do
    lat ← as_number (get_field "lat" f)
    lon ← as_number (get_field "lon" f)
    altitude_ft ← as_number (get_field "altitudeFt" f)
    airspeed_knots ← as_number (get_field "airspeedKnots" f)
    ground_speed_knots ← as_number (get_field "groundSpeedKnots" f)
    heading_deg ← as_number (get_field "headingDeg" f)
    vertical_speed_fpm ← as_number (get_field "verticalSpeedFpm" f)
    on_ground ← as_bool (get_field "onGround" f)
    sim_running ← as_number (get_field "simRunning" f)
    aircraft ← as_text (get_field "aircraft" f)
    parking_brake ← optional_bool (get_field "parkingBrake" f)
    engine_count ← optional_count (get_field "engineCount" f)
    engines_running ← optional_count (get_field "enginesRunning" f)
    some (record {
      lat = lat;
      lon = lon;
      altitude_ft = altitude_ft;
      airspeed_knots = airspeed_knots;
      ground_speed_knots = ground_speed_knots;
      heading_deg = heading_deg;
      vertical_speed_fpm = vertical_speed_fpm;
      on_ground = on_ground;
      sim_running = sim_running;
      aircraft = aircraft;
      parking_brake = parking_brake;
      engine_count = engine_count;
      engines_running = engines_running;
    })

-- checkAuth(): without a configured token everyone passes.
unfoldable pub check_auth : (String → String) → IngestConfig → Option String → Bool
unfolding token_digest token_matches
check_auth sha256 cfg header = elim (token_digest sha256 cfg.token) [
  | none ↦ true
  | some digest ↦ token_matches sha256 header digest
]

module _ {N : Type 0} (d : Double N) (number : Number N) where
  open d use {eq, lit}
  open number use {is_finite, whole}

  unfoldable pub mark_disconnected : Env N → Ingest N → Ingest N
  unfolding set_connected on_sim_disconnect
  mark_disconnected env s =
      if s.manager.app.connected
      then with_manager (on_sim_disconnect d env (set_connected false s.manager)) s
      else s

  -- The timer that catches an agent that fell silent.
  unfoldable pub check_stale : Env N → Ingest N → Ingest N
  unfolding mark_disconnected notify
  check_stale env s =
      if s.manager.app.connected && ltb_ℤ (pos stale_timeout_ms) (sub_ℕ env.now_ms s.last_frame_at)
      then notify (mark_disconnected env s)
      else s

  -- POST /frame, once the body was read.
  unfoldable pub take_frame : Option (SimFrame N) → Env N → Ingest N → Answer × Ingest N
  unfolding mark_connected notify
  take_frame none env s = (bad_request, s)
  take_frame (some frame) env s =
      let up = mark_connected env.now_ms s in
      (no_content, notify (with_manager (on_frame d frame env up.manager) up))

  unfoldable pub post_frame :
      (String → String)
      → IngestConfig
      → Option String
      → Json N
      → Env N
      → Ingest N
      → Answer × Ingest N
  unfolding check_auth frame_of take_frame
  post_frame sha256 cfg header body env s =
      if check_auth sha256 cfg header
      then take_frame (frame_fields body >>= frame_of number) env s
      else (unauthorized, s)

  -- `case 'pause'`: the flags must be a finite number.
  unfoldable pub pause_event : Option N → Env N → Ingest N → Answer × Ingest N
  unfolding mark_connected notify set_paused
  pause_event none env s = (bad_request, s)
  pause_event (some flags) env s =
      if is_finite flags
      then (let up = mark_connected env.now_ms s in
          (
            no_content,
            notify (with_manager (set_paused (not (eq flags (lit 0))) (whole flags) up.manager) up),
          ))
      else (bad_request, s)

  -- The other cases of the switch; none is the default.
  unfoldable pub simple_event : String → Env N → Ingest N → Option (Ingest N)
  unfolding mark_connected mark_disconnected set_paused on_crash
  simple_event type env s =
      if str_eq type "connected"
      then some (mark_connected env.now_ms s)
      else (if str_eq type "disconnected"
          then some (mark_disconnected env s)
          else (if str_eq type "paused"
              then some (with_manager (set_paused true 1 s.manager) s)
              else (if str_eq type "unpaused"
                  then some (with_manager (set_paused false 0 s.manager) s)
                  else (if str_eq type "crashed"
                      then some (with_manager (on_crash d env s.manager) s)
                      else none))))

  -- `switch (type)`
  unfoldable pub typed_event : Option String → Fields N → Env N → Ingest N → Answer × Ingest N
  unfolding pause_event simple_event answer_event
  typed_event none fields env s = (bad_request, s)
  typed_event (some type) fields env s =
      if str_eq type "pause"
      then pause_event (as_number (get_field "flags" fields)) env s
      else answer_event (simple_event type env s) s

  unfoldable pub take_event : Fields N → Env N → Ingest N → Answer × Ingest N
  unfolding typed_event
  take_event fields env s = typed_event (as_text (get_field "type" fields)) fields env s

  -- POST /event; express.json() gives an object or an array.
  unfoldable pub post_event :
      (String → String)
      → IngestConfig
      → Option String
      → Fields N
      → Env N
      → Ingest N
      → Answer × Ingest N
  unfolding check_auth take_event
  post_event sha256 cfg header fields env s =
      if check_auth sha256 cfg header then take_event fields env s else (unauthorized, s)

  unfoldable pub take_traffic : TrafficBatchResult N → Env N → Ingest N → Answer × Ingest N
  unfolding apply_retention_cap replace
  take_traffic (accepted objects) env s = (
    no_content,
    record s {
      traffic =
          replace (apply_retention_cap d number objects (own_position s.manager.app.last_frame))
            env.now_ms s.traffic;
    },
  )
  take_traffic _ env s = (bad_request, s)

  -- POST /traffic
  unfoldable pub post_traffic :
      (String → String)
      → IngestConfig
      → Option String
      → Json N
      → Env N
      → Ingest N
      → Answer × Ingest N
  unfolding check_auth build_traffic_objects take_traffic
  post_traffic sha256 cfg header body env s =
      if check_auth sha256 cfg header
      then (if cfg.traffic_enabled
          then take_traffic (build_traffic_objects d number body) env s
          else (no_content, record s { traffic_disabled_logged = true }))
      else (unauthorized, s)
