-- ===== src/Db/PlannedLegs/Crud.antt =====
-- Creating, deleting and reordering legs, and the active trip (src/db/plannedLegs.ts), with what
-- the foreign keys of src/db/schema.ts do on a delete.
use msfslogger.Base.{
  ℕ, suc, ◌+◌, Bool, true, false, Option, none, some, List, [], ◌∷◌, ◌++◌, map, holds, same_opt,
  ◌==◌, ltb, first_where, update_where, count_where, delete_where, where_rows, if◌then◌else◌,
  length, String, str_eq, ◌&&◌,
}
use msfslogger.Db.{
  Flight, PlannedLeg, LegPlan, PlannedWaypoint, PlannedAlternate, GroundSession, AcarsMessage, Db,
  planned,
}
use msfslogger.Db.PlannedLegs.{leg_is, links_to, write_flight}

max_from : ℕ → List ℕ → ℕ
max_from m [] = m
max_from m (x ∷ xs) = max_from (if ltb m x then x else m) xs

-- COALESCE(MAX(seq), 0) + 1
unfoldable pub next_after : List ℕ → ℕ
unfolding max_from
next_after xs = max_from 0 xs + 1

-- ON DELETE SET NULL on a reference into a table.
unfoldable pub drop_ref : ℕ → Option ℕ → Option ℕ
drop_ref k none = none
drop_ref k (some j) = if j == k then none else some j

unfoldable pub message_is : ℕ → AcarsMessage → Bool
message_is i m = m.id == i

-- ON DELETE SET NULL on acars_messages.correlation_id, once messages are gone.
unfoldable pub drop_correlation : List AcarsMessage → AcarsMessage → AcarsMessage
unfolding message_is
drop_correlation left m = elim m.correlation_id [
  | none ↦ m
  | some c ↦ elim (first_where (message_is c) left) [
    | none ↦ record m { correlation_id = none }
    | some _ ↦ m
  ]
]

unfoldable pub delete_messages : (AcarsMessage → Bool) → List AcarsMessage → List AcarsMessage
unfolding drop_correlation
delete_messages p ms = let left = delete_where p ms in map (drop_correlation left) left

module _ {N : Type 0} where
  abbrev pub waypoint_of : ℕ → PlannedWaypoint N → Bool
  waypoint_of l w = w.planned_leg_id == l

  abbrev pub alternate_of : ℕ → PlannedAlternate N → Bool
  alternate_of l a = a.planned_leg_id == l

  abbrev pub in_pool : Option ℕ → PlannedLeg N → Bool
  in_pool trip l = same_opt l.trip_id trip

  abbrev pub seq_of : PlannedLeg N → ℕ
  seq_of l = l.seq

  -- The seq of a leg that is appended to a trip, or to the loose pool.
  unfoldable pub next_seq : Option ℕ → Db N → ℕ
  unfolding next_after
  next_seq trip db = next_after (map seq_of (where_rows (in_pool trip) db.planned_legs))

  unfoldable pub own_waypoint : ℕ → PlannedWaypoint N → PlannedWaypoint N
  own_waypoint leg_id w = record w { planned_leg_id = leg_id }

  unfoldable pub own_alternate : ℕ → PlannedAlternate N → PlannedAlternate N
  own_alternate leg_id a = record a { planned_leg_id = leg_id }

  unfoldable pub create_planned_leg :
      Option ℕ → LegPlan N → List (PlannedWaypoint N) → List (PlannedAlternate N) → Db N → ℕ × Db N
  unfolding next_seq own_waypoint own_alternate
  create_planned_leg trip plan waypoints alternates db =
      let leg_id = db.next_leg_id in
      (
        leg_id,
        record db {
          planned_legs =
              db.planned_legs
              ++ record {
                id = leg_id;
                trip_id = trip;
                seq = next_seq trip db;
                status = planned;
                plan = record plan {
                  waypoint_count = length waypoints;
                  alternate_count = length alternates;
                };
                arrival_deviation_nm = none;
              }
                ∷ [];
          next_leg_id = suc leg_id;
          planned_waypoints = db.planned_waypoints ++ map (own_waypoint leg_id) waypoints;
          planned_alternates = db.planned_alternates ++ map (own_alternate leg_id) alternates;
        },
      )

  -- The existing leg with these bytes in the same pool.
  unfoldable pub find_planned_leg_by_source : Option ℕ → String → Db N → Option (PlannedLeg N)
  find_planned_leg_by_source trip sha db =
      first_where (λ l. in_pool trip l && str_eq l.plan.source_sha256 sha) db.planned_legs

  unfoldable pub unlink_ref : ℕ → Flight N → Flight N
  unfolding drop_ref
  unlink_ref l f = record f { planned_leg_id = drop_ref l f.planned_leg_id }

  unfoldable pub unlink_session : ℕ → GroundSession N → GroundSession N
  unfolding drop_ref
  unlink_session l s = record s { planned_leg_id = drop_ref l s.planned_leg_id }

  -- DELETE FROM planned_legs WHERE id = ?, with what the foreign keys do.
  unfoldable pub delete_leg_row : ℕ → Db N → Db N
  unfolding unlink_session unlink_ref delete_messages
  delete_leg_row l db = record db {
    planned_legs = delete_where (leg_is l) db.planned_legs;
    planned_waypoints = delete_where (waypoint_of l) db.planned_waypoints;
    planned_alternates = delete_where (alternate_of l) db.planned_alternates;
    flights = update_where (links_to l) (unlink_ref l) db.flights;
    ground_sessions = map (unlink_session l) db.ground_sessions;
    acars_messages = delete_messages (λ m. holds l m.planned_leg_id) db.acars_messages;
  }

  unfoldable pub restored_row : Option ℕ → Flight N → Flight N
  restored_row trip f = record f {
    trip_id = trip;
    planned_leg_link_source = none;
    planned_leg_prev_trip_id = none;
  }

  unfoldable pub delete_planned_leg : ℕ → Db N → Db N × Bool
  unfolding delete_leg_row write_flight restored_row
  delete_planned_leg leg_id db =
      if count_where (leg_is leg_id) db.planned_legs == 0 then (db, false) else (
        elim (first_where (links_to leg_id) db.flights) [
          | none ↦ delete_leg_row leg_id db
          | some f ↦
              write_flight f.id (restored_row f.planned_leg_prev_trip_id) (delete_leg_row leg_id db)
        ],
        true,
      )

  abbrev pub leg_in_trip : ℕ → ℕ → PlannedLeg N → Bool
  leg_in_trip leg_id trip l = l.id == leg_id && holds trip l.trip_id

  reorder_from : ℕ → ℕ → List ℕ → List (PlannedLeg N) → List (PlannedLeg N)
  reorder_from trip index [] legs = legs
  reorder_from trip index (leg_id ∷ ids) legs =
      reorder_from trip (suc index) ids
        (update_where (leg_in_trip leg_id trip) (λ l. record l { seq = suc index }) legs)

  unfoldable pub reorder_planned_legs : ℕ → List ℕ → Db N → Db N
  unfolding reorder_from
  reorder_planned_legs trip leg_ids db = record db {
    planned_legs = reorder_from trip 0 leg_ids db.planned_legs;
  }
