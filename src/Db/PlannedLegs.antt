-- ===== src/Db/PlannedLegs.antt =====
-- The link between flights and planned legs (src/db/plannedLegs.ts).
pub mod Invariant
pub mod Linking
pub mod Status
pub mod Crud
pub mod Deletion
pub mod Candidates
pub mod Reads
use msfslogger.Base.{
  ℕ, Bool, true, false, Option, none, some, List, [], ◌∷◌, ltb, ◌==◌, if◌then◌else◌, holds, is_some,
  ◌≡◌, first_where, update_where, count_where,
}
use msfslogger.Db.{Flight, PlannedLeg, Db, LinkSource, LegStatus, planned, Result, ok, thrown}

pub data LegError : Type 0 where
  flight_not_found : ℕ → LegError
  leg_not_found : ℕ → LegError
  already_linked : ℕ → ℕ → LegError
  has_linked_flight : ℕ → ℕ → LegError

module _ {N : Type 0} where
  -- The WHERE clauses.
  abbrev pub flight_is : ℕ → Flight N → Bool
  flight_is i f = f.id == i

  abbrev pub leg_is : ℕ → PlannedLeg N → Bool
  leg_is i l = l.id == i

  abbrev pub links_to : ℕ → Flight N → Bool
  links_to l f = holds l f.planned_leg_id

  unfoldable pub get_flight_planned_leg_id : ℕ → Db N → Option ℕ
  get_flight_planned_leg_id flight_id db = elim (first_where (flight_is flight_id) db.flights) [
    | none ↦ none
    | some row ↦ row.planned_leg_id
  ]

  unfoldable pub reopen : PlannedLeg N → PlannedLeg N
  reopen l = record l { status = planned; arrival_deviation_nm = none }

  unfoldable pub unlinked_row : Option ℕ → Flight N → Flight N
  unlinked_row trip f = record f {
    trip_id = trip;
    planned_leg_id = none;
    planned_leg_link_source = none;
    planned_leg_prev_trip_id = none;
  }

  unfoldable pub cleared_row : Flight N → Flight N
  cleared_row f = record f {
    planned_leg_id = none;
    planned_leg_link_source = none;
    planned_leg_prev_trip_id = none;
  }

  unfoldable pub linked_row : Option ℕ → Option ℕ → ℕ → LinkSource → Flight N → Flight N
  linked_row prev trip leg_id source f = record f {
    planned_leg_prev_trip_id = prev;
    trip_id = trip;
    planned_leg_id = some leg_id;
    planned_leg_link_source = some source;
  }

  unfoldable pub reopen_leg : ℕ → Db N → Db N
  unfolding reopen
  reopen_leg leg_id db = record db {
    planned_legs = update_where (leg_is leg_id) reopen db.planned_legs;
  }

  unfoldable pub write_flight : ℕ → (Flight N → Flight N) → Db N → Db N
  write_flight flight_id f db = record db {
    flights = update_where (flight_is flight_id) f db.flights;
  }

  -- The writes of an unlink, for the row that the read found.
  unfoldable pub unlink_row : ℕ → Flight N → Db N → Db N × Bool
  unfolding reopen_leg write_flight unlinked_row
  unlink_row flight_id flight db = elim flight.planned_leg_id [
    | none ↦ (db, false)
    | some leg_id ↦ (
      write_flight flight_id (unlinked_row flight.planned_leg_prev_trip_id) (reopen_leg leg_id db),
      true,
    )
  ]

  unfoldable pub unlink_flight_from_planned_leg : ℕ → Db N → Db N × Bool
  unfolding unlink_row
  unlink_flight_from_planned_leg flight_id db =
      elim (first_where (flight_is flight_id) db.flights) [
        | none ↦ (db, false)
        | some flight ↦ unlink_row flight_id flight db
      ]

  unfoldable pub clear_row : ℕ → Flight N → Db N → Db N
  unfolding reopen_leg write_flight cleared_row
  clear_row flight_id flight db = elim flight.planned_leg_id [
    | none ↦ db
    | some leg_id ↦ write_flight flight_id cleared_row (reopen_leg leg_id db)
  ]

  unfoldable pub clear_planned_leg_link : ℕ → Db N → Db N
  unfolding clear_row
  clear_planned_leg_link flight_id db = elim (first_where (flight_is flight_id) db.flights) [
    | none ↦ db
    | some flight ↦ clear_row flight_id flight db
  ]

  -- SELECT trip_id FROM flights WHERE id = ?
  unfoldable pub trip_of : ℕ → Db N → Option ℕ
  trip_of flight_id db = elim (first_where (flight_is flight_id) db.flights) [
    | none ↦ none
    | some flight ↦ flight.trip_id
  ]

  -- The part of a link after the flight's own old link is gone.
  unfoldable pub link_free_flight : ℕ → ℕ → LinkSource → Db N → Result LegError (Db N)
  unfolding trip_of write_flight linked_row
  link_free_flight flight_id leg_id source db = elim (first_where (links_to leg_id) db.flights) [
    | some holder ↦ thrown (already_linked leg_id holder.id)
    | none ↦ elim (first_where (leg_is leg_id) db.planned_legs) [
      | none ↦ thrown (leg_not_found leg_id)
      | some leg ↦
          ok (
            write_flight flight_id (linked_row (trip_of flight_id db) leg.trip_id leg_id source) db)
    ]
  ]

  unfoldable pub link_row : ℕ → Flight N → ℕ → LinkSource → Db N → Result LegError (Db N)
  unfolding unlink_flight_from_planned_leg link_free_flight
  link_row flight_id current leg_id source db =
      if holds leg_id current.planned_leg_id
      then ok db
      else link_free_flight flight_id leg_id source (
          if is_some current.planned_leg_id
          then (unlink_flight_from_planned_leg flight_id db).0
          else db)

  unfoldable pub link_flight_to_planned_leg : ℕ → ℕ → LinkSource → Db N → Result LegError (Db N)
  unfolding link_row
  link_flight_to_planned_leg flight_id leg_id source db =
      elim (first_where (flight_is flight_id) db.flights) [
        | none ↦ thrown (flight_not_found flight_id)
        | some current ↦ link_row flight_id current leg_id source db
      ]
