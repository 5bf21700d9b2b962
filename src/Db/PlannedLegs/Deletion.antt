-- ===== src/Db/PlannedLegs/Deletion.antt =====
-- Deleting a leg (src/db/plannedLegs.ts) strands no flight in the trip that the leg moved it to.
use msfslogger.Base.{
  ℕ, true, false, none, some, List, ◌==◌, ◌≡◌, refl, inl, inr, arith, first_where, update_where,
  count_where, delete_where, sym, subst, false≢true, Option-cases, Bool-cases, if◌then◌else◌, ◌∙◌,
  ap, ==-refl,
}
use msfslogger.Base.Table.{
  count_where-update_le, count_where-update_eq, count_where_of_first-none, first_where_holds,
  All-imp,
}
use msfslogger.Base.Unique.{
  All-only, first_where-delete_ne, All-update_twice, All-and, All-three, update_none,
  All-of_count_zero,
}
use msfslogger.Db.{Flight, PlannedLeg, Db}
use msfslogger.Db.PlannedLegs.{flight_is, leg_is, links_to, write_flight}
use msfslogger.Db.PlannedLegs.Invariant.{RowOk, LinkInv}
use msfslogger.Db.PlannedLegs.Crud.{
  delete_leg_row, unlink_ref, restored_row, delete_planned_leg, drop_ref,
}

module _ {N : Type 0} where
  -- A row whose leg is another one keeps what it promises.
  other-RowOk :
      (l : ℕ) (legs : List (PlannedLeg N)) (f : Flight N)
      → links_to l f ≡ false
      → RowOk legs f
      → RowOk (delete_where (leg_is l) legs) f
  other-RowOk l legs f other r = record {
    in_leg_trip = λ k e.
        let (leg, found, trip) = r.in_leg_trip k e in
        (leg, first_where-delete_ne (leg_is k) (leg_is l) (λ x h. ground arith) legs ∙ found, trip);
    clean = r.clean;
  }

  other_of : (l : ℕ) (x : Flight N) → (links_to l x ≡ true → ⊥) → links_to l x ≡ false
  other_of l x h = elim (Bool-cases (links_to l x)) [ inl t ↦ absurd (h t) | inr t ↦ t ]

  unlinked-RowOk :
      (legs : List (PlannedLeg N)) (l : ℕ) (f : Flight N)
      → links_to l f ≡ true
      → RowOk legs (restored_row f.planned_leg_prev_trip_id (unlink_ref l f))
  unfolding restored_row unlink_ref drop_ref
  unlinked-RowOk legs l f h = record {
    in_leg_trip = λ k e. absurd (ground arith);
    clean = λ _. (refl, refl);
  }

  -- One row, through the foreign key's action and the restore of flight `y`.
  row_through :
      (l : ℕ) (legs : List (PlannedLeg N)) (y : Flight N)
      → links_to l y ≡ true
      → (x : Flight N)
      → RowOk legs x × (links_to l x ≡ true → x ≡ y) × (flight_is y.id x ≡ true → x ≡ y)
      → let z = if links_to l x then unlink_ref l x else x in
        RowOk
          (delete_where (leg_is l) legs)
          (if flight_is y.id z then restored_row y.planned_leg_prev_trip_id z else z)
  row_through l legs y ly x h = elim (Bool-cases (links_to l x)) [
    | inl t ↦
        rw (t, same_id (h.1 t))
          (subst (λ z. RowOk (delete_where (leg_is l) legs) (restored_row z (unlink_ref l x)))
            (ap (λ (z : Flight N). z.planned_leg_prev_trip_id) (h.1 t))
            (unlinked-RowOk (delete_where (leg_is l) legs) l x t))
    | inr t ↦ rw (t, other_id t) (other-RowOk l legs x t h.0)
  ]
    where
      same_id : x ≡ y → flight_is y.id (unlink_ref l x) ≡ true
      same_id e = unfold unlink_ref in ground (arith, e)

      other_id : links_to l x ≡ false → flight_is y.id x ≡ false
      other_id t = elim (Bool-cases (flight_is y.id x)) [
        | inl same ↦ absurd (false≢true (sym t ∙ (ap (links_to l) (h.2 same) ∙ ly)))
        | inr other ↦ other
      ]

  -- Deleting a leg that no flight is linked to keeps the bookkeeping.
  pub free-LinkInv :
      (l : ℕ) (db : Db N)
      → LinkInv db
      → first_where (links_to l) db.flights ≡ none
      → LinkInv (delete_leg_row l db)
  unfolding delete_leg_row
  free-LinkInv l db inv free =
      let none_left = count_where_of_first-none (links_to l) db.flights free in
      let same = update_none (links_to l) (unlink_ref l) db.flights none_left in
      record {
        flight_ids = λ i. rw same (inv.flight_ids i);
        one_flight = λ k. rw same (inv.one_flight k);
        rows = rw same (
            All-imp (λ x. RowOk db.planned_legs x × (links_to l x ≡ true → ⊥))
              (RowOk (delete_where (leg_is l) db.planned_legs))
              (λ x h. other-RowOk l db.planned_legs x (other_of l x h.1) h.0) db.flights
              (All-and (RowOk db.planned_legs) (λ x. links_to l x ≡ true → ⊥) db.flights inv.rows
                (All-of_count_zero (λ x. ⊥) (links_to l) db.flights none_left)));
      }

  linked-LinkInv :
      (l : ℕ) (db : Db N)
      → LinkInv db
      → (y : Flight N) → first_where (links_to l) db.flights ≡ some y
      → LinkInv (write_flight y.id (restored_row y.planned_leg_prev_trip_id) (delete_leg_row l db))
  unfolding delete_leg_row write_flight
  linked-LinkInv l db inv y found = record {
    flight_ids = λ i. omega (
      arith,
      inv.flight_ids i,
      count_where-update_eq (flight_is {N = N} i) (links_to l) (unlink_ref l)
          (λ x _. unfold unlink_ref in refl) db.flights,
      count_where-update_eq (flight_is {N = N} i) (flight_is y.id)
          (restored_row y.planned_leg_prev_trip_id) (λ x _. unfold restored_row in refl)
          (update_where (links_to l) (unlink_ref l) db.flights),
    );
    one_flight = λ k. omega (
      arith,
      inv.one_flight k,
      count_where-update_le (links_to {N = N} k) (links_to l) (unlink_ref l)
          (λ x _ h. unfold unlink_ref drop_ref in ground arith) db.flights,
      count_where-update_le (links_to {N = N} k) (flight_is y.id)
          (restored_row y.planned_leg_prev_trip_id) (λ x _ h. unfold restored_row in h)
          (update_where (links_to l) (unlink_ref l) db.flights),
    );
    rows =
        All-update_twice
          (λ x.
            RowOk db.planned_legs x
            × (links_to l x ≡ true → x ≡ y)
            × (flight_is y.id x ≡ true → x ≡ y))
          (RowOk (delete_where (leg_is l) db.planned_legs)) (links_to l) (flight_is y.id)
          (unlink_ref l) (restored_row y.planned_leg_prev_trip_id)
          (row_through l db.planned_legs y (first_where_holds (links_to l) db.flights y found))
          db.flights
          (All-three (RowOk db.planned_legs) (λ x. links_to l x ≡ true → x ≡ y)
            (λ x. flight_is y.id x ≡ true → x ≡ y) db.flights inv.rows
            (All-only (links_to l) (links_to l) db.flights y (inv.one_flight l) found
              (first_where_holds (links_to l) db.flights y found))
            (All-only (links_to l) (flight_is y.id) db.flights y (inv.flight_ids y.id) found
              (==-refl y.id)));
  }

  -- Deleting a leg, whether or not it is there or linked to a flight, keeps the bookkeeping of
  -- links.
  pub delete-LinkInv : (l : ℕ) (db : Db N) → LinkInv db → LinkInv (delete_planned_leg l db).0
  unfolding delete_planned_leg
  delete-LinkInv l db inv = elim (Bool-cases (count_where (leg_is l) db.planned_legs == 0)) [
    | inl e ↦ rw e inv
    | inr e ↦ elim (Option-cases (first_where (links_to l) db.flights)) [
      | inl free ↦ rw (e, delete_planned_leg, free) (free-LinkInv l db inv free)
      | inr (y, found) ↦ rw (e, delete_planned_leg, found) (linked-LinkInv l db inv y found)
    ]
  ]
