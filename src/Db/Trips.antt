-- ===== src/Db/Trips.antt =====
-- Trips (src/db/trips.ts), and which of them is active (src/db/plannedLegs.ts).
pub mod Assignment
pub mod Removal
pub mod Restore
pub mod Reads
use msfslogger.Base.{
  ℕ, suc, Bool, true, false, Option, none, some, [], ◌∷◌, ◌++◌, ◌==◌, ltb, holds, if◌then◌else◌,
  String, first_where, update_where, count_where, delete_where, where_rows, map, List, is_some,
  ◌&&◌, ◌||◌,
}
use msfslogger.Db.{Flight, PlannedLeg, Trip, Db}
use msfslogger.Db.PlannedLegs.{
  flight_is, leg_is, write_flight, clear_planned_leg_link, unlinked_row, links_to,
}
use msfslogger.Db.PlannedLegs.Crud.{delete_leg_row}
use msfslogger.Db.PlannedLegs.Candidates.{trip_active}

abbrev pub trip_is : ℕ → Trip → Bool
trip_is i t = t.id == i

abbrev set_active : Bool → Trip → Trip
set_active b t = record t { is_active = b }

-- TripEditPayload: a key that is absent is `none`.
pub record TripEditPayload : Type 0 where
  pub name : Option String
  pub notes : Option (Option String)

unfoldable pub edited_trip : TripEditPayload → Trip → Trip
edited_trip p t = record t {
  name = elim p.name [ none ↦ t.name | some s ↦ s ];
  notes = elim p.notes [ none ↦ t.notes | some s ↦ s ];
}

-- `linkedLeg && linkedLeg.trip_id !== tripId`
abbrev pub leaves_trip : Option (Option ℕ) → ℕ → Bool
leaves_trip none trip = false
leaves_trip (some t) trip = if holds trip t then false else true

module _ {N : Type 0} where
  unfoldable pub create_trip : String → Option String → String → Db N → ℕ × Db N
  create_trip name notes now db = (
    db.next_trip_id,
    record db {
      trips =
          db.trips
          ++ record {
            id = db.next_trip_id;
            name = name;
            notes = notes;
            created_at = now;
            is_active = false;
          }
            ∷ [];
      next_trip_id = suc db.next_trip_id;
    },
  )

  unfoldable pub get_trip_name : ℕ → Db N → Option String
  get_trip_name i db = elim (first_where (trip_is i) db.trips) [
    | none ↦ none
    | some t ↦ some t.name
  ]

  unfoldable pub set_active_trip : Option ℕ → Db N → Db N
  set_active_trip none db = record db {
    trips = update_where trip_active (set_active false) db.trips;
  }
  set_active_trip (some trip) db = elim (first_where (trip_is trip) db.trips) [
    | none ↦ db
    | some _ ↦ record db {
      trips =
          update_where (trip_is trip) (set_active true)
            (update_where trip_active (set_active false) db.trips);
    }
  ]

  -- The trip of the leg that the flight is linked to, NULL inside for a loose leg.
  unfoldable pub linked_leg_trip : ℕ → Db N → Option (Option ℕ)
  linked_leg_trip flight_id db = elim (first_where (flight_is flight_id) db.flights) [
    | none ↦ none
    | some f ↦ elim f.planned_leg_id [
      | none ↦ none
      | some l ↦ elim (first_where (leg_is l) db.planned_legs) [
        | none ↦ none
        | some leg ↦ some leg.trip_id
      ]
    ]
  ]

  unfoldable pub set_trip : Option ℕ → Flight N → Flight N
  set_trip trip f = record f { trip_id = trip }

  unfoldable pub assign_flight_to_trip : ℕ → ℕ → Db N → Db N × Bool
  unfolding linked_leg_trip write_flight set_trip
  assign_flight_to_trip flight_id trip db =
      let db' =
        if leaves_trip (linked_leg_trip flight_id db) trip
        then clear_planned_leg_link flight_id db
        else db in
      (
        write_flight flight_id (set_trip (some trip)) db',
        ltb 0 (count_where (flight_is flight_id) db'.flights),
      )

  unfoldable pub remove_flight_from_trip : ℕ → Db N → Db N × Bool
  unfolding write_flight set_trip
  remove_flight_from_trip flight_id db =
      let db' = clear_planned_leg_link flight_id db in
      (
        write_flight flight_id (set_trip none) db',
        ltb 0 (count_where (flight_is flight_id) db'.flights),
      )

  unfoldable pub update_trip : ℕ → TripEditPayload → Db N → Db N × Bool
  unfolding edited_trip
  update_trip trip payload db =
      if is_some payload.name || is_some payload.notes
      then (
        record db { trips = update_where (trip_is trip) (edited_trip payload) db.trips },
        ltb 0 (count_where (trip_is trip) db.trips),
      )
      else (db, false)

  abbrev pub leg_of_trip : ℕ → PlannedLeg N → Bool
  leg_of_trip trip leg = holds trip leg.trip_id

  -- JOIN planned_legs l ON l.id = f.planned_leg_id WHERE l.trip_id = ?
  unfoldable pub linked_in_trip : ℕ → List (PlannedLeg N) → Flight N → Bool
  linked_in_trip trip legs f =
      ltb 0 (count_where (λ leg. links_to leg.id f && leg_of_trip trip leg) legs)

  -- The loop of `restore`.
  unfoldable pub restore_flights : List (Flight N) → Db N → Db N
  unfolding write_flight
  restore_flights [] db = db
  restore_flights (f ∷ fs) db =
      restore_flights fs (write_flight f.id (unlinked_row f.planned_leg_prev_trip_id) db)

  -- ON DELETE CASCADE on planned_legs.trip_id.
  unfoldable pub delete_leg_rows : List ℕ → Db N → Db N
  unfolding delete_leg_row
  delete_leg_rows [] db = db
  delete_leg_rows (l ∷ ls) db = delete_leg_rows ls (delete_leg_row l db)

  abbrev pub leg_id : PlannedLeg N → ℕ
  leg_id leg = leg.id

  -- DELETE FROM trips WHERE id = ?
  unfoldable pub delete_trip_row : ℕ → Db N → Db N
  unfolding delete_leg_rows
  delete_trip_row trip db =
      if count_where (trip_is trip) db.trips == 0
      then db
      else let cascaded =
          delete_leg_rows (map leg_id (where_rows (leg_of_trip trip) db.planned_legs)) db in
        record cascaded { trips = delete_where (trip_is trip) cascaded.trips }

  unfoldable pub delete_trip : ℕ → Db N → Db N × Bool
  unfolding delete_trip_row restore_flights linked_in_trip
  delete_trip trip db =
      let linked = where_rows (linked_in_trip trip db.planned_legs) db.flights in
      let restored = restore_flights linked db in
      (delete_trip_row trip restored, ltb 0 (count_where (trip_is trip) restored.trips))
