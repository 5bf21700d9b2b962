-- ===== src/Db/PlannedLegs/Linking.antt =====
-- What linkFlightToPlannedLeg() and unlinkFlightFromPlannedLeg() (src/db/plannedLegs.ts) do to the
-- trip of a flight: the trip it held before the link comes back.
use mathlib.Core.Logic.{◌≢◌}
use msfslogger.Base.{
  ℕ, ◌≤◌, Bool, true, none, some, List, [], ◌∷◌, ◌≡◌, refl, ◌∙◌, inl, inr, arith, first_where,
  update_where, count_where, Bool-cases, ap,
}
use msfslogger.Base.Table.{
  first_where-update, All-first_where, first_where_holds, first_where-none_of_count,
  count_where_of_first-none, count_where-update_le,
}
use msfslogger.Base.Unique.{update_none}
use msfslogger.Db.{Flight, PlannedLeg, Db, LinkSource, planned, ok}
use msfslogger.Db.PlannedLegs.{
  flight_is, leg_is, links_to, reopen, reopen_leg, write_flight, unlinked_row, linked_row,
  unlink_flight_from_planned_leg, trip_of, link_free_flight, link_row, link_flight_to_planned_leg,
}
use msfslogger.Db.PlannedLegs.Invariant.{RowOk, LinkInv}

module _ {ℓ} {A : Type ℓ} where
  -- Two writes to the only row that passes are one write to the row found.
  update_twice :
      (q : A → Bool) (g h : A → A) (xs : List A) (y : A)
      → ((x : A) → q (g x) ≡ q x)
      → count_where q xs ≤ 1
      → first_where q xs ≡ some y
      → h (g y) ≡ y
      → update_where q h (update_where q g xs) ≡ xs
  unfolding update_where count_where first_where
  update_twice q g h [] y k c e u = ground arith
  update_twice q g h (x ∷ xs) y k c e u = elim (Bool-cases (q x)) [
    | inl t ↦ ground (arith, k x, update_none q g xs, update_none q h xs)
    | inr t ↦ ground (arith, update_twice q g h xs y k)
  ]

module _ {N : Type 0} where
  link_at_row :
      (i l : ℕ) (s : LinkSource) (db : Db N) (f : Flight N)
      → first_where (flight_is i) db.flights ≡ some f
      → link_flight_to_planned_leg i l s db ≡ link_row i f l s db
  unfolding link_flight_to_planned_leg
  link_at_row i l s db f e = rw (e, link_flight_to_planned_leg) refl

  link_free_of_free :
      (i l : ℕ) (s : LinkSource) (db : Db N) (f : Flight N) (leg : PlannedLeg N)
      → first_where (flight_is i) db.flights ≡ some f
      → first_where (links_to l) db.flights ≡ none
      → first_where (leg_is l) db.planned_legs ≡ some leg
      → link_free_flight i l s db ≡ ok (write_flight i (linked_row f.trip_id leg.trip_id l s) db)
  unfolding link_free_flight
  link_free_of_free i l s db f leg e free found =
      rw (free, link_free_flight, found, e, trip_of) refl

  link_row_of_free :
      (i l : ℕ) (s : LinkSource) (db : Db N) (f : Flight N)
      → f.planned_leg_id ≡ none
      → link_row i f l s db ≡ link_free_flight i l s db
  unfolding link_row
  link_row_of_free i l s db f u = ground arith

  link_of_free :
      (i l : ℕ) (s : LinkSource) (db : Db N) (f : Flight N) (leg : PlannedLeg N)
      → first_where (flight_is i) db.flights ≡ some f
      → f.planned_leg_id ≡ none
      → first_where (links_to l) db.flights ≡ none
      → first_where (leg_is l) db.planned_legs ≡ some leg
      → link_flight_to_planned_leg i l s db
        ≡ ok (write_flight i (linked_row f.trip_id leg.trip_id l s) db)
  link_of_free i l s db f leg e u free found =
      link_at_row i l s db f e
      ∙ (link_row_of_free i l s db f u ∙ link_free_of_free i l s db f leg e free found)

  -- The row that a write to flight `i` leaves.
  pub written_row :
      (i : ℕ) (g : Flight N → Flight N) (db : Db N) (f : Flight N)
      → ((x : Flight N) → (g x).id ≡ x.id)
      → first_where (flight_is i) db.flights ≡ some f
      → first_where (flight_is i) (write_flight i g db).flights ≡ some (g f)
  unfolding write_flight
  written_row i g db f same e =
      first_where-update (flight_is i) (flight_is i) g (λ x _. ground (arith, same x)) db.flights f
        e
      ∙ rw (first_where_holds (flight_is i) db.flights f e)

  -- With the bookkeeping of links as it should be, linking an unlinked flight to a free leg and
  -- unlinking it again gives back every flight as it was, the trip included; the leg is left
  -- `planned`, with no deviation.
  pub unlink-link :
      (i l : ℕ) (s : LinkSource) (db : Db N) (f : Flight N) (leg : PlannedLeg N)
      → LinkInv db
      → first_where (flight_is i) db.flights ≡ some f
      → f.planned_leg_id ≡ none
      → first_where (links_to l) db.flights ≡ none
      → first_where (leg_is l) db.planned_legs ≡ some leg
      → (db' : Db N) × (link_flight_to_planned_leg i l s db ≡ ok db')
        × ((unlink_flight_from_planned_leg i db').1 ≡ true)
        × ((unlink_flight_from_planned_leg i db').0.flights ≡ db.flights)
        × (first_where (leg_is l) (unlink_flight_from_planned_leg i db').0.planned_legs
            ≡ some (record leg { status = planned; arrival_deviation_nm = none }))
  unfolding unlink_flight_from_planned_leg linked_row
  unlink-link i l s db f leg inv e u free found = (
    write_flight i (linked_row f.trip_id leg.trip_id l s) db,
    link_of_free i l s db f leg e u free found,
    rw (row, unlink_flight_from_planned_leg) refl,
    rw (row, unlink_flight_from_planned_leg)
        (update_twice (flight_is i) (linked_row f.trip_id leg.trip_id l s) (unlinked_row f.trip_id)
          db.flights f (λ x. refl) (inv.flight_ids i) e restored),
    rw (row, unlink_flight_from_planned_leg) reopened,
  )
    where
      row :
          first_where
            (flight_is i)
            (write_flight i (linked_row f.trip_id leg.trip_id l s) db).flights
          ≡ some (linked_row f.trip_id leg.trip_id l s f)
      row = written_row i (linked_row f.trip_id leg.trip_id l s) db f (λ x. refl) e

      clean : (f.planned_leg_link_source ≡ none) × (f.planned_leg_prev_trip_id ≡ none)
      clean =
          (All-first_where (RowOk db.planned_legs) (flight_is i) db.flights f inv.rows e).clean u

      restored : unlinked_row f.trip_id (linked_row f.trip_id leg.trip_id l s f) ≡ f
      restored = ground (arith, u, clean.0, clean.1)

      reopened :
          first_where (leg_is l) (update_where (leg_is l) reopen db.planned_legs)
          ≡ some (record leg { status = planned; arrival_deviation_nm = none })
      reopened =
          first_where-update (leg_is l) (leg_is l) reopen (λ x _. refl) db.planned_legs leg found
          ∙ rw (first_where_holds (leg_is l) db.planned_legs leg found)

  unlink_at_row :
      (i k : ℕ) (db : Db N) (f : Flight N)
      → first_where (flight_is i) db.flights ≡ some f
      → f.planned_leg_id ≡ some k
      → (unlink_flight_from_planned_leg i db).0
        ≡ write_flight i (unlinked_row f.planned_leg_prev_trip_id) (reopen_leg k db)
  unfolding unlink_flight_from_planned_leg
  unlink_at_row i k db f e u = rw (e, unlink_flight_from_planned_leg, u) refl

  link_row_of_linked :
      (i k l : ℕ) (s : LinkSource) (db : Db N) (f : Flight N)
      → f.planned_leg_id ≡ some k
      → k ≢ l
      → link_row i f l s db ≡ link_free_flight i l s (unlink_flight_from_planned_leg i db).0
  unfolding link_row
  link_row_of_linked i k l s db f u ne = ground arith

  -- Moving a linked flight to another, free leg is an unlink and a link: the old leg is `planned`
  -- again with no deviation, the flight sits in the new leg's trip, and what it will get back on
  -- an unlink is the trip it held before the first link.
  pub link_retarget :
      (i k l : ℕ) (s : LinkSource) (db : Db N) (f : Flight N) (old leg : PlannedLeg N)
      → first_where (flight_is i) db.flights ≡ some f
      → f.planned_leg_id ≡ some k
      → k ≢ l
      → first_where (leg_is k) db.planned_legs ≡ some old
      → first_where (links_to l) db.flights ≡ none
      → first_where (leg_is l) db.planned_legs ≡ some leg
      → (db' : Db N) × (link_flight_to_planned_leg i l s db ≡ ok db')
        × (first_where (flight_is i) db'.flights
            ≡ some (record f {
              trip_id = leg.trip_id;
              planned_leg_id = some l;
              planned_leg_link_source = some s;
              planned_leg_prev_trip_id = f.planned_leg_prev_trip_id;
            }))
        × (first_where (leg_is k) db'.planned_legs
            ≡ some (record old { status = planned; arrival_deviation_nm = none }))
  unfolding unlinked_row linked_row write_flight reopen_leg reopen
  link_retarget i k l s db f old leg e u ne was free found = (
    write_flight i (linked_row f.planned_leg_prev_trip_id leg.trip_id l s) mid,
    link_at_row i l s db f e
        ∙ (link_row_of_linked i k l s db f u ne
            ∙ (ap (link_free_flight i l s) (unlink_at_row i k db f e u)
                ∙ link_free_of_free i l s mid (unlinked_row f.planned_leg_prev_trip_id f) leg row
                    still_free still_there)),
    written_row i (linked_row f.planned_leg_prev_trip_id leg.trip_id l s) mid
        (unlinked_row f.planned_leg_prev_trip_id f) (λ x. refl) row,
    first_where-update (leg_is k) (leg_is k) reopen (λ x _. refl) db.planned_legs old was
        ∙ rw (first_where_holds (leg_is k) db.planned_legs old was),
  )
    where
      mid : Db N
      mid = write_flight i (unlinked_row f.planned_leg_prev_trip_id) (reopen_leg k db)

      row : first_where (flight_is i) mid.flights ≡ some (unlinked_row f.planned_leg_prev_trip_id f)
      row =
          written_row i (unlinked_row f.planned_leg_prev_trip_id) (reopen_leg k db) f (λ x. refl) e

      still_free : first_where (links_to l) mid.flights ≡ none
      still_free = first_where-none_of_count (links_to l) mid.flights (
          omega (
            arith,
            count_where_of_first-none (links_to l) db.flights free,
            count_where-update_le (links_to l) (flight_is i)
                (unlinked_row f.planned_leg_prev_trip_id) (λ x _ h. absurd (ground arith))
                db.flights,
          ))

      still_there : first_where (leg_is l) mid.planned_legs ≡ some leg
      still_there =
          first_where-update (leg_is l) (leg_is k) reopen (λ x _. refl) db.planned_legs leg found
          ∙ ground (arith, first_where_holds (leg_is l) db.planned_legs leg found)
