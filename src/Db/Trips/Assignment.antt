-- ===== src/Db/Trips/Assignment.antt =====
-- What assigning a flight to a trip does to its link, and that one trip at most is active
-- (src/db/trips.ts, setActiveTrip() of src/db/plannedLegs.ts).
use msfslogger.Base.{
  ℕ, ◌≤◌, true, false, Option, none, some, List, ◌≡◌, refl, inl, inr, first_where, count_where,
  update_where, Option-cases, arith,
}
use msfslogger.Base.Table.{
  count_where-update_le_add, count_where-update_zero, count_where-update_eq,
}
use msfslogger.Db.{Trip, Db}
use msfslogger.Db.PlannedLegs.Candidates.{trip_active}
use msfslogger.Db.Trips.{trip_is, set_active, set_active_trip}

module _ {N : Type 0} where
  -- Whatever trip is activated, and if none is, at most one is active afterwards, if ids are unique
  -- and one at most was.
  pub set_active_one :
      (trip : Option ℕ) (db : Db N)
      → ((i : ℕ) → count_where (trip_is i) db.trips ≤ 1)
      → count_where trip_active db.trips ≤ 1
      → count_where trip_active (set_active_trip trip db).trips ≤ 1
  unfolding set_active_trip
  set_active_one none db ids one = omega (arith, none_left db.trips)
    where
      none_left :
          (ts : List Trip)
          → count_where trip_active (update_where trip_active (set_active false) ts) ≡ 0
      none_left ts =
          count_where-update_zero trip_active trip_active (set_active false) (λ x _. refl)
            (λ x h. h) ts
  set_active_one (some i) db ids one = elim (Option-cases (first_where (trip_is i) db.trips)) [
    | inl gone ↦ rw (gone, set_active_trip) one
    | inr (t, found) ↦
        rw (found, set_active_trip)
          (omega (
            arith,
            ids i,
            count_where-update_zero trip_active trip_active (set_active false) (λ x _. refl)
                (λ x h. h) db.trips,
            count_where-update_eq (trip_is i) trip_active (set_active false) (λ x _. refl) db.trips,
            count_where-update_le_add trip_active (trip_is i) (set_active true)
                (update_where trip_active (set_active false) db.trips),
          ))
  ]
