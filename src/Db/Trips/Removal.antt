-- ===== src/Db/Trips/Removal.antt =====
-- Deleting a trip (deleteTrip() of src/db/trips.ts) strands no linked flight in it.
use msfslogger.Base.{
  ℕ, ◌≤◌, Bool, true, false, Option, none, List, [], ◌∷◌, ◌==◌, map, ◌≡◌, refl, inl, inr, arith,
  first_where, count_where, where_rows, update_where, All, Bool-cases, ◌&&◌, ◌∙◌, ==-refl,
}
use msfslogger.Base.Table.{All-imp, count_where_of_first-none}
use msfslogger.Base.Unique.{update_none, All-and}
use msfslogger.Db.{Flight, PlannedLeg, Db}
use msfslogger.Db.PlannedLegs.{flight_is, links_to, write_flight, unlinked_row}
use msfslogger.Db.PlannedLegs.Invariant.{LinkInv, write-LinkInv, unlinked-RowOk}
use msfslogger.Db.PlannedLegs.Crud.{delete_leg_row, unlink_ref}
use msfslogger.Db.PlannedLegs.Deletion.{free-LinkInv}
use msfslogger.Db.Trips.{
  trip_is, leg_of_trip, linked_in_trip, restore_flights, delete_leg_rows, leg_id, delete_trip_row,
  delete_trip,
}

module _ {ℓ} {A : Type ℓ} where
  -- Counting among the rows of a query.
  pub count_where-where_rows :
      (p q : A → Bool) (xs : List A)
      → count_where q (where_rows p xs) ≡ count_where (λ x. q x && p x) xs
  unfolding count_where where_rows
  count_where-where_rows p q [] = refl
  count_where-where_rows p q (x ∷ xs) = ground (arith, count_where-where_rows p q xs)

  -- Each row of a table is counted by a test that it passes.
  All-counted :
      (q : A → A → Bool) (xs : List A) → All (λ y. q y y ≡ true → 1 ≤ count_where (q y) xs) xs
  unfolding count_where
  All-counted q [] = tt
  All-counted q (x ∷ xs) = (
    λ h. ground arith,
    All-imp (λ y. q y y ≡ true → 1 ≤ count_where (q y) xs)
        (λ y. q y y ≡ true → 1 ≤ count_where (q y) (x ∷ xs)) (λ y k h. ground (arith, k h)) xs
        (All-counted q xs),
  )

  All-where_rows {κ} :
      (P : A → Type κ) (p : A → Bool) (xs : List A)
      → All (λ x. p x ≡ true → P x) xs
      → All P (where_rows p xs)
  unfolding where_rows
  All-where_rows P p [] h = tt
  All-where_rows P p (x ∷ xs) h = elim (Bool-cases (p x)) [
    | inl e ↦ rw e (h.0 e, All-where_rows P p xs h.1)
    | inr e ↦ rw e (All-where_rows P p xs h.1)
  ]

All-map {ℓ κ μ} :
    {A : Type ℓ}
    → {B : Type κ} → (f : A → B) (P : B → Type μ) (xs : List A) → All (λ x. P (f x)) xs
    → All P (map f xs)
All-map f P [] h = tt
All-map f P (x ∷ xs) h = (h.0, All-map f P xs h.1)

module _ {N : Type 0} where
  -- A flight that is still linked into the trip is one of those to restore.
  abbrev pub Listed : ℕ → List (PlannedLeg N) → List (Flight N) → Flight N → Type 0
  Listed trip legs fs x = linked_in_trip trip legs x ≡ true → 1 ≤ count_where (flight_is x.id) fs

  unlinked-no_trip :
      (trip : ℕ) (legs : List (PlannedLeg N)) (t : Option ℕ) (x : Flight N)
      → linked_in_trip trip legs (unlinked_row t x) ≡ false
  unfolding linked_in_trip unlinked_row count_where
  unlinked-no_trip trip [] t x = refl
  unlinked-no_trip trip (leg ∷ legs) t x = unlinked-no_trip trip legs t x

  restored-Listed :
      (trip : ℕ) (legs : List (PlannedLeg N)) (f : Flight N) (fs rows : List (Flight N))
      → All (Listed trip legs (f ∷ fs)) rows
      → All
          (Listed trip legs fs)
          (update_where (flight_is f.id) (unlinked_row f.planned_leg_prev_trip_id) rows)
  unfolding update_where count_where
  restored-Listed trip legs f fs [] h = tt
  restored-Listed trip legs f fs (x ∷ rows) h = (
    elim (Bool-cases (x.id == f.id)) [
      | inl e ↦
          rw e
            (λ k. absurd (ground (arith, unlinked-no_trip trip legs f.planned_leg_prev_trip_id x)))
      | inr e ↦ rw e (λ k. ground (arith, h.0 k))
    ],
    restored-Listed trip legs f fs rows h.1,
  )

  -- Restoring keeps the bookkeeping and leaves no flight linked into the trip.
  pub restore-LinkInv :
      (trip : ℕ) (fs : List (Flight N)) (db : Db N)
      → LinkInv db
      → All (Listed trip db.planned_legs fs) db.flights
      → LinkInv (restore_flights fs db)
        × All (Listed trip (restore_flights fs db).planned_legs []) (restore_flights fs db).flights
  unfolding restore_flights
  restore-LinkInv trip [] db inv h = (inv, h)
  restore-LinkInv trip (f ∷ fs) db inv h =
      restore-LinkInv trip fs (write_flight f.id (unlinked_row f.planned_leg_prev_trip_id) db)
        (write-LinkInv f.id (unlinked_row f.planned_leg_prev_trip_id) db
          (λ x. unfold unlinked_row in refl) (λ x k h. unfold unlinked_row in ground arith)
          (λ x _. unlinked-RowOk _ _ x) inv)
        (unfold write_flight in restored-Listed trip db.planned_legs f fs db.flights h)

  same_flights :
      (l : ℕ) (db : Db N)
      → first_where (links_to l) db.flights ≡ none
      → update_where (links_to l) (unlink_ref l) db.flights ≡ db.flights
  same_flights l db h =
      update_none (links_to l) (unlink_ref l) db.flights
        (count_where_of_first-none (links_to l) db.flights h)

  -- Deleting legs that no flight is linked to leaves the flights alone.
  pub cascade-flights :
      (ls : List ℕ) (db : Db N)
      → All (λ l. first_where (links_to l) db.flights ≡ none) ls
      → (delete_leg_rows ls db).flights ≡ db.flights
  unfolding delete_leg_rows
  cascade-flights [] db h = refl
  cascade-flights (l ∷ ls) db h =
      cascade-flights ls (delete_leg_row l db)
        (unfold delete_leg_row in rw (same_flights l db h.0) h.1)
      ∙ unfold delete_leg_row in same_flights l db h.0

  cascade-LinkInv :
      (ls : List ℕ) (db : Db N)
      → LinkInv db
      → All (λ l. first_where (links_to l) db.flights ≡ none) ls
      → LinkInv (delete_leg_rows ls db)
  unfolding delete_leg_rows
  cascade-LinkInv [] db inv h = inv
  cascade-LinkInv (l ∷ ls) db inv h =
      cascade-LinkInv ls (delete_leg_row l db) (free-LinkInv l db inv h.0)
        (unfold delete_leg_row in rw (same_flights l db h.0) h.1)

  abbrev Unlinked : List (Flight N) → PlannedLeg N → Type 0
  Unlinked rows leg = first_where (links_to leg.id) rows ≡ none

  -- When no flight is linked into the trip, none is linked to a leg of it.
  no_holder :
      (trip : ℕ) (legs : List (PlannedLeg N)) (rows : List (Flight N))
      → All (Listed trip legs []) rows
      → All (λ leg. leg_of_trip trip leg ≡ true → Unlinked rows leg) legs
  unfolding first_where linked_in_trip count_where
  no_holder trip legs [] h =
      All-imp (λ y. true ≡ true → 1 ≤ count_where (λ x. true) legs)
        (λ leg. leg_of_trip trip leg ≡ true → Unlinked [] leg) (λ x k e. refl) legs
        (All-counted (λ y x. true) legs)
  no_holder trip legs (x ∷ rows) h =
      let passes = λ (leg : PlannedLeg N). links_to leg.id x && leg_of_trip trip leg in
      All-imp
        (λ leg.
          (passes leg ≡ true → 1 ≤ count_where passes legs)
          × (leg_of_trip trip leg ≡ true → Unlinked rows leg))
        (λ leg. leg_of_trip trip leg ≡ true → Unlinked (x ∷ rows) leg)
        (λ leg k e. ground (arith, k.0, k.1 e, h.0)) legs
        (All-and (λ leg. passes leg ≡ true → 1 ≤ count_where passes legs)
          (λ leg. leg_of_trip trip leg ≡ true → Unlinked rows leg) legs
          (All-counted (λ y. passes) legs) (no_holder trip legs rows h.1))

  pub free_legs :
      (trip : ℕ) (db : Db N)
      → All (Listed trip db.planned_legs []) db.flights
      → All
          (λ l. first_where (links_to l) db.flights ≡ none)
          (map leg_id (where_rows (leg_of_trip trip) db.planned_legs))
  free_legs trip db h =
      All-map leg_id (λ l. first_where (links_to l) db.flights ≡ none)
        (where_rows (leg_of_trip trip) db.planned_legs)
        (All-where_rows (Unlinked db.flights) (leg_of_trip trip) db.planned_legs
          (no_holder trip db.planned_legs db.flights h))

  pub linked-Listed :
      (trip : ℕ) (db : Db N)
      → All
          (Listed trip db.planned_legs
            (where_rows (linked_in_trip trip db.planned_legs) db.flights))
          db.flights
  linked-Listed trip db =
      let linked = linked_in_trip trip db.planned_legs in
      All-imp
        (λ y.
          (flight_is y.id y && linked y) ≡ true
          → 1 ≤ count_where (λ x. flight_is y.id x && linked x) db.flights)
        (Listed trip db.planned_legs (where_rows linked db.flights))
        (λ y k e.
          rw (count_where-where_rows linked (flight_is y.id) db.flights)
            (k (ground (arith, ==-refl y.id))))
        db.flights (All-counted (λ y x. flight_is y.id x && linked x) db.flights)

  row_gone :
      (trip : ℕ) (db : Db N)
      → LinkInv db
      → All (Listed trip db.planned_legs []) db.flights
      → LinkInv (delete_trip_row trip db)
  unfolding delete_trip_row
  row_gone trip db inv free = elim (Bool-cases (count_where (trip_is trip) db.trips == 0)) [
    | inl e ↦ rw e inv
    | inr e ↦ rw e (
        let c =
          cascade-LinkInv (map leg_id (where_rows (leg_of_trip trip) db.planned_legs)) db inv
            (free_legs trip db free) in
        record { flight_ids = c.flight_ids; one_flight = c.one_flight; rows = c.rows })
  ]

  -- Deleting a trip keeps the bookkeeping of links: no flight stays linked to a leg that went.
  pub delete_trip-LinkInv : (trip : ℕ) (db : Db N) → LinkInv db → LinkInv (delete_trip trip db).0
  unfolding delete_trip
  delete_trip-LinkInv trip db inv =
      let linked = where_rows (linked_in_trip trip db.planned_legs) db.flights in
      let (kept, free) = restore-LinkInv trip linked db inv (linked-Listed trip db) in
      row_gone trip (restore_flights linked db) kept free
