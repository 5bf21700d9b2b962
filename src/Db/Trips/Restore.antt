-- ===== src/Db/Trips/Restore.antt =====
-- What deleting a trip (deleteTrip() of src/db/trips.ts) does to the flights.
use msfslogger.Base.{
  ℕ, ◌≤◌, Bool, List, [], ◌∷◌, ◌==◌, ◌≡◌, refl, inl, inr, arith, count_where, where_rows,
  update_where, Bool-cases, ◌∙◌, ap, ==-refl, All, map,
}
use msfslogger.Base.Unique.{update_none}
use msfslogger.Db.{Flight, Db}
use msfslogger.Db.PlannedLegs.{flight_is, write_flight, unlinked_row}
use msfslogger.Db.PlannedLegs.Invariant.{LinkInv}
use msfslogger.Db.Trips.{
  trip_is, linked_in_trip, restore_flights, delete_trip_row, delete_trip, leg_of_trip, leg_id,
}
use msfslogger.Db.Trips.Removal.{Listed, cascade-flights, restore-LinkInv, free_legs, linked-Listed}

module _ {N : Type 0} where
  -- The row of a flight that is back where it was before its link.
  abbrev pub given_back : Flight N → Flight N
  given_back f = unlinked_row f.planned_leg_prev_trip_id f

  -- The restores one after the other, on the table alone.
  abbrev restored : List (Flight N) → List (Flight N) → List (Flight N)
  restored [] rows = rows
  restored (f ∷ fs) rows =
      restored fs (update_where (flight_is f.id) (unlinked_row f.planned_leg_prev_trip_id) rows)

  restore_flights-restored :
      (fs : List (Flight N)) (db : Db N) → (restore_flights fs db).flights ≡ restored fs db.flights
  unfolding restore_flights write_flight
  restore_flights-restored [] db = refl
  restore_flights-restored (f ∷ fs) db =
      restore_flights-restored fs (write_flight f.id (unlinked_row f.planned_leg_prev_trip_id) db)

  -- A restore of other flights passes by the first row.
  restored_past :
      (x : Flight N) (fs rows : List (Flight N))
      → count_where (flight_is x.id) fs ≡ 0
      → restored fs (x ∷ rows) ≡ x ∷ restored fs rows
  unfolding count_where update_where
  restored_past x [] rows h = refl
  restored_past x (f ∷ fs) rows h = elim (Bool-cases (x.id == f.id)) [
    | inl e ↦ absurd (ground arith)
    | inr e ↦ rw e (
        restored_past x fs
          (update_where (flight_is f.id) (unlinked_row f.planned_leg_prev_trip_id) rows)
          (ground arith))
  ]

  restored_first :
      (x : Flight N) (fs rows : List (Flight N))
      → count_where (flight_is x.id) rows ≡ 0
      → count_where (flight_is x.id) fs ≡ 0
      → restored (x ∷ fs) (x ∷ rows) ≡ given_back x ∷ restored fs rows
  unfolding update_where unlinked_row
  restored_first x fs rows alone absent =
      rw
        (
          ==-refl x.id,
          update_none (flight_is x.id) (unlinked_row x.planned_leg_prev_trip_id) rows alone,
        )
        (restored_past (given_back x) fs rows absent)

  count_where-query_le :
      (p q : Flight N → Bool) (xs : List (Flight N))
      → count_where q (where_rows p xs) ≤ count_where q xs
  unfolding count_where where_rows
  count_where-query_le p q [] = omega arith
  count_where-query_le p q (x ∷ xs) = ground (arith, count_where-query_le p q xs)

  -- Restoring the rows of a query one after the other is one update of them all.
  restored-query :
      (p : Flight N → Bool) (rows : List (Flight N))
      → ((i : ℕ) → count_where (flight_is i) rows ≤ 1)
      → restored (where_rows p rows) rows ≡ update_where p given_back rows
  unfolding count_where where_rows update_where unlinked_row
  restored-query p [] once = refl
  restored-query p (x ∷ rows) once =
      let rest = restored-query p rows (λ i. ground (arith, once i)) in
      elim (Bool-cases (p x)) [
        | inl e ↦ rw e (
            restored_first x (where_rows p rows) rows alone absent
            ∙ ap (λ ys. given_back x ∷ ys) rest)
        | inr e ↦ rw e (restored_past x (where_rows p rows) rows absent ∙ ap (λ ys. x ∷ ys) rest)
      ]
    where
      alone : count_where (flight_is x.id) rows ≡ 0
      alone = ground (arith, once x.id, ==-refl x.id)

      absent : count_where (flight_is x.id) (where_rows p rows) ≡ 0
      absent = omega (arith, alone, count_where-query_le p (flight_is x.id) rows)

  row_gone-flights :
      (trip : ℕ) (db : Db N)
      → All (Listed trip db.planned_legs []) db.flights
      → (delete_trip_row trip db).flights ≡ db.flights
  unfolding delete_trip_row
  row_gone-flights trip db free = elim (Bool-cases (count_where (trip_is trip) db.trips == 0)) [
    | inl e ↦ rw e refl
    | inr e ↦ rw e (
        cascade-flights (map leg_id (where_rows (leg_of_trip trip) db.planned_legs)) db
          (free_legs trip db free))
  ]

  -- Deleting a trip gives each flight that is linked to a leg of the trip back to the trip it was in
  -- before the link, unlinked, and changes no other flight, a flight that the user put in the trip
  -- by hand included.
  pub delete_trip-flights :
      (trip : ℕ) (db : Db N)
      → LinkInv db
      → (delete_trip trip db).0.flights
        ≡ update_where (linked_in_trip trip db.planned_legs) given_back db.flights
  unfolding delete_trip
  delete_trip-flights trip db inv =
      let p = linked_in_trip trip db.planned_legs in
      let linked = where_rows p db.flights in
      row_gone-flights trip (restore_flights linked db)
        (restore-LinkInv trip linked db inv (linked-Listed trip db)).1
      ∙ (restore_flights-restored linked db ∙ restored-query p db.flights inv.flight_ids)
