-- ===== src/Db/GroundSessions.antt =====
-- Ground sessions (src/db/groundSessions.ts): the record of an aircraft on the ground before a
-- flight row exists. `now` is the instant that the source takes from the clock, as text.
pub mod Invariant
pub mod Manual
pub mod Precedence
use msfslogger.Base.{
  ℕ, suc, Bool, true, false, Option, none, some, List, [], ◌∷◌, ◌++◌, ◌==◌, is_none, is_some,
  or_else, or_try, if◌then◌else◌, String, str_eq, first_where, update_where, ◌&&◌, ◌||◌,
}
use msfslogger.Db.PlannedLegs.{leg_is}
use msfslogger.Db.{
  GroundSession, Db, LinkSource, auto, manual, EndReason, superseded, corrected, Result, ok, thrown,
}

pub data SessionError : Type 0 where
  already_open vanished foreign_key : SessionError

pub record CreateGroundSession (N : Type 0) : Type 0 where
  pub source : LinkSource
  pub airport_icao : Option String
  pub airport_name : Option String
  pub lat : Option N
  pub lon : Option N
  pub parking_position : Option String
  pub parking_position_source : Option LinkSource
  pub planned_leg_id : Option ℕ
  pub planned_leg_link_source : Option LinkSource
  pub aircraft : Option String
  pub started_at : Option String

pub record CreateManualGroundSession : Type 0 where
  pub airport_icao : String
  pub parking_position_given : Bool
  pub parking_position : Option String
  pub planned_leg_id_given : Bool
  pub planned_leg_id : Option ℕ
  pub aircraft : Option String

-- `x !== null ? 'manual' : null`
abbrev pub source_if_given {ℓ} : {A : Type ℓ} → LinkSource → Option A → Option LinkSource
source_if_given s none = none
source_if_given s (some _) = some s

-- One column of fillOpenGroundSessionGaps(): whether it is written.
abbrev pub fills {ℓ} : {A : Type ℓ} → Option A → Option A → Bool
fills current value = is_none current && is_some value

module _ {N : Type 0} where
  abbrev pub session_open : GroundSession N → Bool
  session_open s = is_none s.ended_at

  abbrev pub session_is : ℕ → GroundSession N → Bool
  session_is i s = s.id == i

  unfoldable pub get_open_ground_session : Db N → Option (GroundSession N)
  get_open_ground_session db = first_where session_open db.ground_sessions

  unfoldable pub get_ground_session_row : ℕ → Db N → Option (GroundSession N)
  get_ground_session_row i db = first_where (session_is i) db.ground_sessions

  unfoldable pub new_row : ℕ → CreateGroundSession N → String → GroundSession N
  new_row i input now = record {
    id = i;
    source = input.source;
    airport_icao = input.airport_icao;
    airport_name = input.airport_name;
    lat = input.lat;
    lon = input.lon;
    parking_position = input.parking_position;
    parking_position_source = input.parking_position_source;
    planned_leg_id = input.planned_leg_id;
    planned_leg_link_source = input.planned_leg_link_source;
    aircraft = input.aircraft;
    started_at = or_else input.started_at now;
    ended_at = none;
    ended_reason = none;
    flight_id = none;
    created_at = now;
    updated_at = now;
  }

  unfoldable pub append_session : GroundSession N → Db N → Db N
  append_session s db = record db {
    ground_sessions = db.ground_sessions ++ s ∷ [];
    next_session_id = suc db.next_session_id;
  }

  -- The foreign key on planned_leg_id: NULL, or the id of a leg that exists.
  unfoldable pub leg_exists : Option ℕ → Db N → Bool
  leg_exists none db = true
  leg_exists (some l) db = is_some (first_where (leg_is l) db.planned_legs)

  unfoldable pub insert_ground_session :
      CreateGroundSession N → String → Db N → Result SessionError (GroundSession N × Db N)
  unfolding get_open_ground_session get_ground_session_row new_row append_session leg_exists
  insert_ground_session input now db = elim (get_open_ground_session db) [
    | some _ ↦ thrown already_open
    | none ↦
        if leg_exists input.planned_leg_id db
        then (let db' = append_session (new_row db.next_session_id input now) db in
            elim (get_ground_session_row db.next_session_id db') [
              | none ↦ thrown vanished
              | some row ↦ ok (row, db')
            ])
        else thrown foreign_key
  ]

  -- UPDATE ground_sessions SET ... WHERE id = ?
  unfoldable pub write_session : ℕ → (GroundSession N → GroundSession N) → Db N → Db N
  write_session i f db = record db {
    ground_sessions = update_where (session_is i) f db.ground_sessions;
  }

  unfoldable pub ended_row : EndReason → Option ℕ → String → GroundSession N → GroundSession N
  ended_row reason flight_id now s = record s {
    ended_at = some now;
    ended_reason = some reason;
    flight_id = flight_id;
    updated_at = now;
  }

  unfoldable pub close_open_ground_session :
      EndReason → Option ℕ → String → Db N → Option (GroundSession N) × Db N
  unfolding get_open_ground_session get_ground_session_row write_session ended_row
  close_open_ground_session reason flight_id now db = elim (get_open_ground_session db) [
    | none ↦ (none, db)
    | some s ↦
        let db' = write_session s.id (ended_row reason flight_id now) db in
        (get_ground_session_row s.id db', db')
  ]

  unfoldable pub parked_row :
      Option String → LinkSource → String → GroundSession N → GroundSession N
  parked_row position source now s = record s {
    parking_position = position;
    parking_position_source = some source;
    updated_at = now;
  }

  unfoldable pub update_open_ground_session_parking :
      Option String → LinkSource → String → Db N → Option (GroundSession N) × Db N
  unfolding get_open_ground_session get_ground_session_row write_session parked_row
  update_open_ground_session_parking position source now db = elim (get_open_ground_session db) [
    | none ↦ (none, db)
    | some s ↦
        let db' = write_session s.id (parked_row position source now) db in
        (get_ground_session_row s.id db', db')
  ]

  -- Whether any column is still NULL that the patch has a value for.
  unfoldable pub has_gaps : CreateGroundSession N → GroundSession N → Bool
  has_gaps patch s =
      fills s.airport_icao patch.airport_icao
      || (fills s.airport_name patch.airport_name
          || (fills s.lat patch.lat
              || (fills s.lon patch.lon
                  || (fills s.parking_position patch.parking_position
                      || (fills s.parking_position_source patch.parking_position_source
                          || (fills s.planned_leg_id patch.planned_leg_id
                              || (fills s.planned_leg_link_source patch.planned_leg_link_source
                                  || fills s.aircraft patch.aircraft)))))))

  unfoldable pub filled_row : CreateGroundSession N → String → GroundSession N → GroundSession N
  filled_row patch now s = record s {
    airport_icao = or_try s.airport_icao patch.airport_icao;
    airport_name = or_try s.airport_name patch.airport_name;
    lat = or_try s.lat patch.lat;
    lon = or_try s.lon patch.lon;
    parking_position = or_try s.parking_position patch.parking_position;
    parking_position_source = or_try s.parking_position_source patch.parking_position_source;
    planned_leg_id = or_try s.planned_leg_id patch.planned_leg_id;
    planned_leg_link_source = or_try s.planned_leg_link_source patch.planned_leg_link_source;
    aircraft = or_try s.aircraft patch.aircraft;
    updated_at = now;
  }

  unfoldable pub fill_open_ground_session_gaps :
      CreateGroundSession N → String → Db N → Result SessionError (Option (GroundSession N) × Db N)
  unfolding get_open_ground_session get_ground_session_row write_session filled_row has_gaps
      leg_exists
  fill_open_ground_session_gaps patch now db = elim (get_open_ground_session db) [
    | none ↦ ok (none, db)
    | some s ↦
        if has_gaps patch s
        then (if leg_exists (or_try s.planned_leg_id patch.planned_leg_id) db
            then (let db' = write_session s.id (filled_row patch now) db in
                ok (get_ground_session_row s.id db', db'))
            else thrown foreign_key)
        else ok (some s, db)
  ]
