-- ===== src/FlightManager/Ground.antt =====
-- Entering and leaving the GROUND state (src/flightManager.ts).
use msfslogger.Base.{Bool, true, Option, none, some, String, str_eq, if◌then◌else◌, or_else}
use msfslogger.Base.Double.{Double}
use msfslogger.Airports.{AirportRef, find_nearest_airport}
use msfslogger.Db.{Db, GroundSession, auto, EndReason, Result, ok, thrown}
use msfslogger.Db.GroundSessions.{
  SessionError, CreateGroundSession, source_if_given, get_open_ground_session,
  insert_ground_session, close_open_ground_session, fill_open_ground_session_gaps,
}
use msfslogger.Db.GroundSessions.Manual.{is_auto}
use msfslogger.GroundState.{SimFrame}
use msfslogger.FlightManager.State.{
  idle, ground, Manager, Env, now_iso, notify_scope_change, set_app_state,
}
use msfslogger.FlightManager.Legs.{
  GroundMatch, build_ground_session_cache, match_ground_planned_leg,
}

-- `knownIcao === null || ap === null || knownIcao === ap.icao`
abbrev pub airport_agrees : Option String → Option AirportRef → Bool
airport_agrees none ap = true
airport_agrees (some known) none = true
airport_agrees (some known) (some ap) = str_eq known ap.icao

abbrev icao_of : Option AirportRef → Option String
icao_of none = none
icao_of (some ap) = some ap.icao

abbrev name_of : Option AirportRef → Option String
name_of none = none
name_of (some ap) = some ap.name

module _ {N : Type 0} where
  unfoldable pub reset_ground_tracking : Manager N → Manager N
  unfolding notify_scope_change
  reset_ground_tracking m = notify_scope_change (record m {
    ground_anchor = none;
    ground_session_cache = none;
    ground_streak = 0;
    out_blocks_at = none;
    state = idle;
    app = set_app_state idle m.app;
  })

  unfoldable pub close_ground_session_and_return_to_idle : EndReason → Env N → Manager N → Manager N
  unfolding reset_ground_tracking
  close_ground_session_and_return_to_idle reason env m =
      reset_ground_tracking
        (record m { db = (close_open_ground_session reason none (now_iso env) m.db).1 })

  -- Only a session that is open and `auto` is closed.
  unfoldable pub close_auto_session : EndReason → Env N → Db N → Db N
  close_auto_session reason env db = elim (get_open_ground_session db) [
    | none ↦ db
    | some s ↦
        if is_auto s.source then (close_open_ground_session reason none (now_iso env) db).1 else db
  ]

  unfoldable pub close_auto_ground_session_and_return_to_idle :
      EndReason → Env N → Manager N → Manager N
  unfolding close_auto_session reset_ground_tracking
  close_auto_ground_session_and_return_to_idle reason env m =
      reset_ground_tracking (record m { db = close_auto_session reason env m.db })

  -- What is filled into a session that is adopted; `keep` is airportAgrees.
  unfoldable pub session_patch :
      Bool → Option AirportRef → SimFrame N → GroundMatch → Option String → CreateGroundSession N
  session_patch keep ap frame found started_at = record {
    source = auto;
    airport_icao = if keep then icao_of ap else none;
    airport_name = if keep then name_of ap else none;
    lat = some frame.lat;
    lon = some frame.lon;
    parking_position = found.parking_position;
    parking_position_source = source_if_given auto found.parking_position;
    planned_leg_id = found.planned_leg_id;
    planned_leg_link_source = source_if_given auto found.planned_leg_id;
    aircraft = some frame.aircraft;
    started_at = started_at;
  }

  -- `filled ?? open`
  abbrev pub adopted :
      GroundSession N
      → Result SessionError (Option (GroundSession N) × Db N)
      → Result SessionError (GroundSession N × Db N)
  adopted s (ok (filled, db)) = ok (or_else filled s, db)
  adopted s (thrown e) = thrown e

  -- The open session adopted, or a new one inserted.
  unfoldable pub adopt_or_insert :
      Option AirportRef
      → SimFrame N
      → GroundMatch
      → Env N
      → Db N
      → Result SessionError (GroundSession N × Db N)
  unfolding session_patch
  adopt_or_insert ap frame found env db = elim (get_open_ground_session db) [
    | some s ↦ adopted s (
        fill_open_ground_session_gaps
          (session_patch (airport_agrees s.airport_icao ap) ap frame found none) (now_iso env) db)
    | none ↦
        insert_ground_session (session_patch true ap frame found (some (now_iso env))) (now_iso env)
          db
  ]

  unfoldable pub entered : SimFrame N → GroundSession N → Db N → Manager N → Manager N
  unfolding notify_scope_change build_ground_session_cache
  entered frame s db m = notify_scope_change (record m {
    db = db;
    ground_anchor = some (record { lat = frame.lat; lon = frame.lon });
    ground_session_cache = some (build_ground_session_cache s db);
    ground_streak = 0;
    out_blocks_at = none;
    state = ground;
    app = set_app_state ground m.app;
  })

  -- What is done with the session: a throw of the database leaves the machine IDLE, with the streak
  -- at zero.
  unfoldable pub enter_with :
      Result SessionError (GroundSession N × Db N) → SimFrame N → Manager N → Manager N
  unfolding entered
  enter_with (ok (s, db')) frame m = entered frame s db' m
  enter_with (thrown e) frame m = record m { ground_streak = 0 }

  -- refreshGroundSession(), after a write by the routes.
  unfoldable pub refresh_ground_session : Manager N → Manager N
  unfolding notify_scope_change reset_ground_tracking build_ground_session_cache
  refresh_ground_session m = elim (get_open_ground_session m.db) [
    | some s ↦
        notify_scope_change
          (record m { ground_session_cache = some (build_ground_session_cache s m.db) })
    | none ↦ elim m.state [
      | ground ↦ reset_ground_tracking m
      | _ ↦ notify_scope_change (record m { ground_session_cache = none })
    ]
  ]

module _ {N : Type 0} (d : Double N) where
  unfoldable pub enter_ground : SimFrame N → Env N → Manager N → Manager N
  unfolding adopt_or_insert enter_with match_ground_planned_leg
  enter_ground frame env m =
      enter_with
        (adopt_or_insert (find_nearest_airport d env.airports frame.lat frame.lon) frame
          (match_ground_planned_leg d frame (now_iso env) m.db) env m.db)
        frame m
