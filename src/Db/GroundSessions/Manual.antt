-- ===== src/Db/GroundSessions/Manual.antt =====
-- An operator's request for a ground session (insertManualGroundSession(), src/db/groundSessions.ts).
use msfslogger.Base.{
  ℕ, Bool, true, false, Option, none, some, if◌then◌else◌, String, str_eq, ◌&&◌, or_else, not,
  is_some,
}
use msfslogger.Db.{
  GroundSession, Db, LinkSource, auto, manual, EndReason, superseded, corrected, Result, ok, thrown,
}
use msfslogger.Db.GroundSessions.{
  SessionError, vanished, foreign_key, leg_exists, CreateGroundSession, CreateManualGroundSession,
  source_if_given, get_open_ground_session, get_ground_session_row, insert_ground_session,
  write_session, close_open_ground_session, update_open_ground_session_parking,
}

abbrev pub is_auto : LinkSource → Bool
is_auto auto = true
is_auto manual = false

-- `airport_icao !== null && airport_icao === icao`
abbrev pub at_airport : Option String → String → Bool
at_airport none icao = false
at_airport (some a) icao = str_eq a icao

-- `open.source === 'manual' ? 'superseded' : 'corrected'`
abbrev pub replacement_reason : LinkSource → EndReason
replacement_reason manual = superseded
replacement_reason auto = corrected

module _ {N : Type 0} where
  unfoldable pub fresh_input : CreateManualGroundSession → CreateGroundSession N
  fresh_input input = record {
    source = manual;
    airport_icao = some input.airport_icao;
    airport_name = none;
    lat = none;
    lon = none;
    parking_position = input.parking_position;
    parking_position_source = source_if_given manual input.parking_position;
    planned_leg_id = input.planned_leg_id;
    planned_leg_link_source = source_if_given manual input.planned_leg_id;
    aircraft = input.aircraft;
    started_at = none;
  }

  unfoldable pub fresh_insert :
      CreateManualGroundSession
      → String
      → Db N
      → Result SessionError (GroundSession N × Bool × Db N)
  unfolding fresh_input
  fresh_insert input now db = elim (insert_ground_session (fresh_input input) now db) [
    | thrown e ↦ thrown e
    | ok (s, db') ↦ ok (s, true, db')
  ]

  unfoldable pub leg_row : ℕ → LinkSource → String → GroundSession N → GroundSession N
  leg_row leg_id source now s = record s {
    planned_leg_id = some leg_id;
    planned_leg_link_source = some source;
    updated_at = now;
  }

  unfoldable pub set_open_ground_session_planned_leg :
      ℕ → ℕ → LinkSource → String → Db N → Result SessionError (GroundSession N × Db N)
  unfolding get_ground_session_row write_session leg_row leg_exists
  set_open_ground_session_planned_leg i leg_id source now db =
      if not (leg_exists (some leg_id) db) && is_some (get_ground_session_row i db)
      then thrown foreign_key
      else let db' = write_session i (leg_row leg_id source now) db in
        elim (get_ground_session_row i db') [ none ↦ thrown vanished | some row ↦ ok (row, db') ]

  -- The refine branch: first the stand, if it was given, ...
  unfoldable pub refine_parking :
      CreateManualGroundSession → String → GroundSession N → Db N → GroundSession N × Db N
  unfolding update_open_ground_session_parking
  refine_parking input now s db =
      if input.parking_position_given
      then (let (row, db') =
            update_open_ground_session_parking input.parking_position manual now db in
          (or_else row s, db'))
      else (s, db)

  -- ... then the leg, if one was given.
  unfoldable pub refine_leg :
      CreateManualGroundSession
      → String
      → GroundSession N
      → Db N
      → Result SessionError (GroundSession N × Bool × Db N)
  unfolding set_open_ground_session_planned_leg
  refine_leg input now s db =
      if input.planned_leg_id_given
      then (elim input.planned_leg_id [
        | none ↦ ok (s, false, db)
        | some leg_id ↦ elim (set_open_ground_session_planned_leg s.id leg_id manual now db) [
          | thrown e ↦ thrown e
          | ok (s', db') ↦ ok (s', false, db')
        ]
      ])
      else ok (s, false, db)

  unfoldable pub refine :
      CreateManualGroundSession
      → String
      → GroundSession N
      → Db N
      → Result SessionError (GroundSession N × Bool × Db N)
  unfolding refine_parking refine_leg
  refine input now s db =
      let (s', db') = refine_parking input now s db in refine_leg input now s' db'

  -- What is done with the session that is open.
  unfoldable pub with_open :
      CreateManualGroundSession
      → String
      → GroundSession N
      → Db N
      → Result SessionError (GroundSession N × Bool × Db N)
  unfolding refine fresh_insert
  with_open input now s db =
      if is_auto s.source && at_airport s.airport_icao input.airport_icao
      then refine input now s db
      else fresh_insert input now
          (close_open_ground_session (replacement_reason s.source) none now db).1

  unfoldable pub insert_manual_ground_session :
      CreateManualGroundSession
      → String
      → Db N
      → Result SessionError (GroundSession N × Bool × Db N)
  unfolding get_open_ground_session with_open
  insert_manual_ground_session input now db = elim (get_open_ground_session db) [
    | none ↦ fresh_insert input now db
    | some s ↦ with_open input now s db
  ]
