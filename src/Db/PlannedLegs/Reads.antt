-- ===== src/Db/PlannedLegs/Reads.antt =====
-- The legs as the pages read them (src/db/plannedLegs.ts): with the flight that is linked to each,
-- its waypoints and its alternates.
pub mod Listing
use msfslogger.Base.{
  ℕ, Bool, true, false, Option, none, some, List, ◌==◌, ltb, if◌then◌else◌, map, is_none, holds,
  String, first_where, where_rows, ◌&&◌, ◌||◌, All, ◌≡◌, Option-cases,
}
use msfslogger.Base.Sorting.{sort_by, sort_by-IsSorted, sort_by-perm, IsSorted}
use msfslogger.Db.{PlannedLeg, PlannedWaypoint, PlannedAlternate, Db}
use msfslogger.Db.PlannedLegs.{leg_is}
use msfslogger.Db.PlannedLegs.Candidates.{leg_before, linked_flight_id}
use msfslogger.Db.PlannedLegs.Crud.{waypoint_of, alternate_of}

pub record PlannedLegWithChildren (N : Type 0) : Type 0 where
  pub leg : PlannedLeg N
  pub linked_flight_id : Option ℕ
  pub waypoints : List (PlannedWaypoint N)
  pub alternates : List (PlannedAlternate N)

pub record PlannedLegListItem (N : Type 0) : Type 0 where
  pub leg : PlannedLegWithChildren N
  pub trip_name : Option String

-- trip_id ASC, where a loose leg is before every other.
unfoldable pub pool_before : Option ℕ → Option ℕ → Bool
pool_before none none = false
pool_before none (some t) = true
pool_before (some s) none = false
pool_before (some s) (some t) = ltb s t

module _ {N : Type 0} where
  abbrev waypoint_row_before : PlannedWaypoint N → PlannedWaypoint N → Bool
  waypoint_row_before v w = ltb v.seq w.seq

  abbrev alternate_row_before : PlannedAlternate N → PlannedAlternate N → Bool
  alternate_row_before a b = ltb a.seq b.seq

  unfoldable pub attach_planned_leg_children : Db N → PlannedLeg N → PlannedLegWithChildren N
  attach_planned_leg_children db l = record {
    leg = l;
    linked_flight_id = linked_flight_id l.id db;
    waypoints = sort_by waypoint_row_before (where_rows (waypoint_of l.id) db.planned_waypoints);
    alternates =
        sort_by alternate_row_before (where_rows (alternate_of l.id) db.planned_alternates);
  }

  unfoldable pub get_planned_legs_for_trip : ℕ → Db N → List (PlannedLegWithChildren N)
  unfolding attach_planned_leg_children
  get_planned_legs_for_trip trip db =
      map (attach_planned_leg_children db)
        (sort_by leg_before (where_rows (λ l. holds trip l.trip_id) db.planned_legs))

  unfoldable pub get_planned_leg_by_id : ℕ → Db N → Option (PlannedLegWithChildren N)
  unfolding attach_planned_leg_children
  get_planned_leg_by_id leg_id db = elim (first_where (leg_is leg_id) db.planned_legs) [
    | none ↦ none
    | some row ↦ some (attach_planned_leg_children db row)
  ]

  -- (trip_id IS NULL) DESC, trip_id ASC, seq ASC, id ASC
  unfoldable pub listed_before : PlannedLeg N → PlannedLeg N → Bool
  unfolding pool_before
  listed_before l m =
      pool_before l.trip_id m.trip_id
      || ((if pool_before m.trip_id l.trip_id then false else true) && leg_before l m)

  -- LEFT JOIN trips t ON t.id = l.trip_id
  unfoldable pub trip_name_of : Option ℕ → Db N → Option String
  trip_name_of none db = none
  trip_name_of (some trip) db = elim (first_where (λ t. t.id == trip) db.trips) [
    | none ↦ none
    | some t ↦ some t.name
  ]

  unfoldable pub get_all_planned_legs : Db N → List (PlannedLegListItem N)
  unfolding attach_planned_leg_children listed_before trip_name_of
  get_all_planned_legs db =
      map
        (λ l. record {
          leg = attach_planned_leg_children db l;
          trip_name = trip_name_of l.trip_id db;
        })
        (sort_by listed_before db.planned_legs)
