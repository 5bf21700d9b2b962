-- ===== src/Db/Flights/Combine/Points.antt =====
-- The track of a combined flight (combineFlights() of src/db/flights.ts).
use msfslogger.Base.{
  truthy, or_try, ℕ, Bool, List, [], ◌∷◌, ◌==◌, ◌≡◌, refl, ◌∙◌, true, false, inl, inr, arith,
  first_where, count_where, delete_where, where_rows, map, ap, sym, ◌++◌, Bool-cases, Option-cases,
  ==-refl,
}
use mathlib.Core.List.{append-nil, append_assoc, map-append}
use msfslogger.Db.{Flight, FlightPoint, Db}
use msfslogger.Db.PlannedLegs.{
  flight_is, clear_planned_leg_link, clear_row, write_flight, reopen_leg,
}
use msfslogger.Db.Flights.{point_of, insert_point, delete_flight_row, get_flight_point_count}
use msfslogger.Db.Flights.Edits.{set_flight_plan_name}
use msfslogger.Db.Flights.Combine.{insert_points, insert_combined, carry_plan, write_combined}
use msfslogger.Base.Double.{Double}
use msfslogger.Db.Flights.Combine.{Dates}

module _ {ℓ} {A : Type ℓ} where
  where_rows-append :
      (p : A → Bool) (xs ys : List A) → where_rows p (xs ++ ys) ≡ where_rows p xs ++ where_rows p ys
  unfolding where_rows
  where_rows-append p [] ys = refl
  where_rows-append p (x ∷ xs) ys = elim (Bool-cases (p x)) [
    | inl e ↦ rw e (ap (λ zs. x ∷ zs) (where_rows-append p xs ys))
    | inr e ↦ rw e (where_rows-append p xs ys)
  ]

  -- A delete of rows that do not pass a test leaves its query alone.
  where_rows-delete_eq :
      (p q : A → Bool)
      → ((x : A) → q x ≡ true → p x ≡ false)
      → (xs : List A) → where_rows p (delete_where q xs) ≡ where_rows p xs
  unfolding where_rows delete_where
  where_rows-delete_eq p q h [] = refl
  where_rows-delete_eq p q h (x ∷ xs) = elim (Bool-cases (q x)) [
    | inl e ↦ rw (e, h x e) (where_rows-delete_eq p q h xs)
    | inr e ↦ elim (Bool-cases (p x)) [
      | inl t ↦ rw (e, t) (ap (λ zs. x ∷ zs) (where_rows-delete_eq p q h xs))
      | inr t ↦ rw (e, t) (where_rows-delete_eq p q h xs)
    ]
  ]

  where_rows-none : (p : A → Bool) (xs : List A) → count_where p xs ≡ 0 → where_rows p xs ≡ []
  unfolding where_rows count_where
  where_rows-none p [] h = refl
  where_rows-none p (x ∷ xs) h = elim (Bool-cases (p x)) [
    | inl e ↦ absurd (ground arith)
    | inr e ↦ rw e (where_rows-none p xs (ground arith))
  ]

module _ {N : Type 0} where
  -- A point without the ids that the database gives it.
  abbrev pub sample : FlightPoint N → FlightPoint N
  sample p = record p { id = 0; flight_id = 0 }

  -- The recorded points of a flight, in the order of their rows.
  abbrev pub samples : ℕ → Db N → List (FlightPoint N)
  samples i db = map sample (where_rows (point_of i) db.flight_points)

  insert-samples :
      (i : ℕ) (p : FlightPoint N) (db : Db N)
      → samples i (insert_point (record p { flight_id = i }) db) ≡ samples i db ++ sample p ∷ []
  unfolding insert_point where_rows
  insert-samples i p db =
      let row = record p { id = db.next_point_id; flight_id = i } in
      ap (map sample) (where_rows-append (point_of i) db.flight_points (row ∷ []))
      ∙ rw (==-refl i) (map-append sample (where_rows (point_of i) db.flight_points) (row ∷ []))

  insert_points-samples :
      (i : ℕ) (ps : List (FlightPoint N)) (db : Db N)
      → samples i (insert_points i ps db) ≡ samples i db ++ map sample ps
  unfolding insert_points
  insert_points-samples i [] db = sym (append-nil (samples i db))
  insert_points-samples i (p ∷ ps) db =
      insert_points-samples i ps (insert_point (record p { flight_id = i }) db)
      ∙ (ap (λ xs. xs ++ map sample ps) (insert-samples i p db)
          ∙ append_assoc (samples i db) (sample p ∷ []) (map sample ps))

  clear-flight_points :
      (i : ℕ) (db : Db N) → (clear_planned_leg_link i db).flight_points ≡ db.flight_points
  unfolding clear_planned_leg_link clear_row write_flight reopen_leg
  clear-flight_points i db = elim (Option-cases (first_where (flight_is i) db.flights)) [
    | inl e ↦ rw (e, clear_planned_leg_link) refl
    | inr (f, e) ↦ elim (Option-cases f.planned_leg_id) [
      | inl u ↦ rw (e, clear_planned_leg_link, u) refl
      | inr (l, u) ↦ rw (e, clear_planned_leg_link, u) refl
    ]
  ]

  delete-samples :
      (i k : ℕ) (db : Db N) → (k == i) ≡ false → samples k (delete_flight_row i db) ≡ samples k db
  unfolding delete_flight_row
  delete-samples i k db e =
      ap (map sample)
        (where_rows-delete_eq (point_of k) (point_of i) (λ p h. ground arith) db.flight_points)

module _ {N : Type 0} (d : Double N) (dates : Dates N) where
  carry-flight_points :
      (i : ℕ) (first second : Flight N) (db : Db N)
      → (carry_plan d dates i first second db).flight_points ≡ db.flight_points
  unfolding carry_plan set_flight_plan_name write_flight
  carry-flight_points i first second db =
      elim (Option-cases
        (or_try (truthy first.flight_plan_name) (truthy second.flight_plan_name))) [
          | inl e ↦ rw (carry_plan, e) refl
          | inr (name, e) ↦ rw (carry_plan, e) refl
        ]

  -- A combined flight whose id is new has the points that were to be inserted, in their order, and
  -- no other, once its halves are gone.
  pub write_combined-points :
      (first second row : Flight N) (points : List (FlightPoint N)) (db : Db N)
      → (row.id == first.id) ≡ false
      → (row.id == second.id) ≡ false
      → get_flight_point_count row.id db ≡ 0
      → samples row.id (write_combined d dates first second points row db) ≡ map sample points
  unfolding get_flight_point_count write_combined insert_combined
  write_combined-points first second row points db not_first not_second fresh =
      let inserted = insert_points row.id points (insert_combined row db) in
      let carried = carry_plan d dates row.id first second inserted in
      let once = clear_planned_leg_link first.id carried in
      let cleared = clear_planned_leg_link second.id once in
      delete-samples second.id row.id (delete_flight_row first.id cleared) not_second
      ∙ (delete-samples first.id row.id cleared not_first
          ∙ rw
              (
                clear-flight_points second.id once,
                clear-flight_points first.id carried,
                carry-flight_points row.id first second inserted,
              )
              (insert_points-samples row.id points (insert_combined row db)
                ∙ rw (where_rows-none (point_of row.id) db.flight_points fresh) refl))
