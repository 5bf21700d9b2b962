-- ===== src/Db/PlannedLegs/Candidates.antt =====
-- The legs that the auto-matcher is given (src/db/plannedLegs.ts): all legs of the active trip, in
-- route order, whatever their status.
use msfslogger.Base.{
  ℕ, Bool, Option, none, some, List, [], ◌∷◌, ◌==◌, ltb, if◌then◌else◌, first_where, ◌&&◌, ◌||◌,
}
use msfslogger.Db.{PlannedLeg, Trip, Db}
use msfslogger.Base.Sorting.{sort_by}
use msfslogger.Db.PlannedLegs.{links_to}
use msfslogger.LegMatcher.{LegMatchCandidate}

abbrev pub is_active_trip : ℕ → Trip → Bool
is_active_trip i t = t.id == i && t.is_active

abbrev pub trip_active : Trip → Bool
trip_active t = t.is_active

module _ {N : Type 0} where
  unfoldable pub get_active_trip_id : Db N → Option ℕ
  get_active_trip_id db = elim (first_where trip_active db.trips) [
    | none ↦ none
    | some t ↦ some t.id
  ]

  -- seq ASC, id ASC
  abbrev pub leg_before : PlannedLeg N → PlannedLeg N → Bool
  leg_before l m = ltb l.seq m.seq || (l.seq == m.seq && ltb l.id m.id)

  unfoldable pub linked_flight_id : ℕ → Db N → Option ℕ
  linked_flight_id l db = elim (first_where (links_to l) db.flights) [
    | none ↦ none
    | some f ↦ some f.id
  ]

  unfoldable pub candidate_of : ℕ → PlannedLeg N → Db N → LegMatchCandidate N
  unfolding linked_flight_id
  candidate_of trip l db = record {
    planned_leg_id = l.id;
    trip_id = trip;
    seq = l.seq;
    departure_ident = if l.plan.departure.is_airport then some l.plan.departure.ident else none;
    departure_is_airport = l.plan.departure.is_airport;
    departure_lat = l.plan.departure.lat;
    departure_lon = l.plan.departure.lon;
    status = l.status;
    linked_flight_id = linked_flight_id l.id db;
    aircraft_type = l.plan.aircraft_type;
  }

  -- JOIN trips t ON t.id = l.trip_id AND t.is_active = 1
  unfoldable pub active_trip_of : PlannedLeg N → Db N → Option ℕ
  active_trip_of l db = elim l.trip_id [
    | none ↦ none
    | some t ↦ elim (first_where (is_active_trip t) db.trips) [ none ↦ none | some _ ↦ some t ]
  ]

  unfoldable pub candidates_from : List (PlannedLeg N) → Db N → List (LegMatchCandidate N)
  unfolding candidate_of active_trip_of
  candidates_from [] db = []
  candidates_from (l ∷ ls) db =
      let rest = candidates_from ls db in
      elim (active_trip_of l db) [ none ↦ rest | some t ↦ candidate_of t l db ∷ rest ]

  unfoldable pub get_planned_leg_candidates_for_active_trip : Db N → List (LegMatchCandidate N)
  unfolding candidates_from sort_by
  get_planned_leg_candidates_for_active_trip db =
      candidates_from (sort_by leg_before db.planned_legs) db
