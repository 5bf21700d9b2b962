-- ===== src/Db/PlannedLegs/Invariant.antt =====
-- The bookkeeping of links (src/db/plannedLegs.ts): what the three planned_leg_* columns of a
-- flight promise, and that link, unlink and clear keep it.
use msfslogger.Base.{
  ℕ, ◌≤◌, Bool, true, Option, none, some, List, holds, ◌==◌, ==_iff, ◌≡◌, refl, inl, inr, arith,
  first_where, update_where, count_where, All, Bool-cases, Option-cases, if◌then◌else◌, is_some,
}
use msfslogger.Base.Table.{
  count_where-update_le, count_where-update_le_add, count_where-update_eq, first_where-update,
  All-update, All-imp, count_where_of_first-none,
}
use mathlib.Core.Option.{some-injective}
use msfslogger.Db.{Flight, PlannedLeg, Db, LinkSource, OnOk}
use msfslogger.Db.PlannedLegs.{
  flight_is, leg_is, links_to, reopen, reopen_leg, write_flight, unlinked_row, cleared_row,
  linked_row, unlink_row, unlink_flight_from_planned_leg, clear_row, clear_planned_leg_link,
  trip_of, link_free_flight, link_row, link_flight_to_planned_leg,
}

-- A linked flight names a leg that exists and sits in that leg's trip; an unlinked one has no
-- bookkeeping left over.
pub record RowOk {N : Type 0} (legs : List (PlannedLeg N)) (f : Flight N) : Type 0 where
  pub in_leg_trip :
      (l : ℕ)
      → f.planned_leg_id ≡ some l
      → (leg : PlannedLeg N) × (first_where (leg_is l) legs ≡ some leg) × (f.trip_id ≡ leg.trip_id)
  pub clean :
      f.planned_leg_id ≡ none
      → (f.planned_leg_link_source ≡ none) × (f.planned_leg_prev_trip_id ≡ none)

pub record LinkInv {N : Type 0} (db : Db N) : Type 0 where
  pub flight_ids : (i : ℕ) → count_where (flight_is i) db.flights ≤ 1
  pub one_flight : (l : ℕ) → count_where (links_to l) db.flights ≤ 1
  pub rows : All (RowOk db.planned_legs) db.flights

module _ {N : Type 0} where
  -- An update of the legs that keeps ids and trips keeps what the flights' rows promise.
  pub legs-RowOk :
      (q : PlannedLeg N → Bool) (g : PlannedLeg N → PlannedLeg N) (legs : List (PlannedLeg N))
      → ((x : PlannedLeg N) → (g x).id ≡ x.id)
      → ((x : PlannedLeg N) → (g x).trip_id ≡ x.trip_id)
      → (f : Flight N) → RowOk legs f
      → RowOk (update_where q g legs) f
  legs-RowOk q g legs same_id same_trip f r = record {
    in_leg_trip = λ l e.
        let (leg, found, trip) = r.in_leg_trip l e in
        (
          if q leg then g leg else leg,
          first_where-update (leg_is l) q g (λ x _. ground (arith, same_id x)) legs leg found,
          ground (arith, same_trip leg),
        );
    clean = r.clean;
  }

  pub legs-LinkInv :
      (q : PlannedLeg N → Bool) (g : PlannedLeg N → PlannedLeg N) (db : Db N)
      → ((x : PlannedLeg N) → (g x).id ≡ x.id)
      → ((x : PlannedLeg N) → (g x).trip_id ≡ x.trip_id)
      → LinkInv db
      → LinkInv (record db { planned_legs = update_where q g db.planned_legs })
  legs-LinkInv q g db same_id same_trip inv = record {
    flight_ids = inv.flight_ids;
    one_flight = inv.one_flight;
    rows =
        All-imp (RowOk db.planned_legs) (RowOk (update_where q g db.planned_legs))
          (legs-RowOk q g db.planned_legs same_id same_trip) db.flights inv.rows;
  }

  -- Writing one flight's row with something that links it to nothing.
  pub write-LinkInv :
      (i : ℕ) (g : Flight N → Flight N) (db : Db N)
      → ((x : Flight N) → (g x).id ≡ x.id)
      → ((x : Flight N) (l : ℕ) → links_to l (g x) ≡ true → links_to l x ≡ true)
      → ((x : Flight N) → RowOk db.planned_legs x → RowOk db.planned_legs (g x))
      → LinkInv db
      → LinkInv (write_flight i g db)
  unfolding write_flight
  write-LinkInv i g db same_id same_link keeps inv = record {
    flight_ids = λ j. omega (
      arith,
      inv.flight_ids j,
      count_where-update_eq (flight_is j) (flight_is i) g (λ x _. ground (arith, same_id x))
          db.flights,
    );
    one_flight = λ l. omega (
      arith,
      inv.one_flight l,
      count_where-update_le (links_to l) (flight_is i) g (λ x _. same_link x l) db.flights,
    );
    rows = All-update (RowOk db.planned_legs) (flight_is i) g (λ x _. keeps x) db.flights inv.rows;
  }

  reopen_leg-LinkInv : (l : ℕ) (db : Db N) → LinkInv db → LinkInv (reopen_leg l db)
  unfolding reopen_leg reopen
  reopen_leg-LinkInv l db = legs-LinkInv (leg_is l) reopen db (λ x. refl) (λ x. refl)

  pub unlinked-RowOk :
      (legs : List (PlannedLeg N)) (t : Option ℕ) (x : Flight N) → RowOk legs (unlinked_row t x)
  unfolding unlinked_row
  unlinked-RowOk legs t x = record {
    in_leg_trip = λ l e. absurd (ground arith);
    clean = λ _. (refl, refl);
  }

  cleared-RowOk : (legs : List (PlannedLeg N)) (x : Flight N) → RowOk legs (cleared_row x)
  unfolding cleared_row
  cleared-RowOk legs x = record {
    in_leg_trip = λ l e. absurd (ground arith);
    clean = λ _. (refl, refl);
  }

  unlink_row-LinkInv :
      (i : ℕ) (f : Flight N) (db : Db N) → LinkInv db → LinkInv (unlink_row i f db).0
  unfolding unlink_row
  unlink_row-LinkInv i f db inv = elim (Option-cases f.planned_leg_id) [
    | inl e ↦ rw e inv
    | inr (l, e) ↦ rw e (
        write-LinkInv i (unlinked_row f.planned_leg_prev_trip_id) (reopen_leg l db)
          (λ x. unfold unlinked_row in refl) (λ x k h. unfold unlinked_row in ground arith)
          (λ x _. unlinked-RowOk _ _ x) (reopen_leg-LinkInv l db inv))
  ]

  pub unlink-LinkInv :
      (i : ℕ) (db : Db N) → LinkInv db → LinkInv (unlink_flight_from_planned_leg i db).0
  unfolding unlink_flight_from_planned_leg
  unlink-LinkInv i db inv = elim (Option-cases (first_where (flight_is i) db.flights)) [
    | inl e ↦ rw (e, unlink_flight_from_planned_leg) inv
    | inr (f, e) ↦ rw (e, unlink_flight_from_planned_leg) (unlink_row-LinkInv i f db inv)
  ]

  clear_row-LinkInv : (i : ℕ) (f : Flight N) (db : Db N) → LinkInv db → LinkInv (clear_row i f db)
  unfolding clear_row
  clear_row-LinkInv i f db inv = elim (Option-cases f.planned_leg_id) [
    | inl e ↦ rw e inv
    | inr (l, e) ↦ rw e (
        write-LinkInv i cleared_row (reopen_leg l db) (λ x. unfold cleared_row in refl)
          (λ x k h. unfold cleared_row in ground arith) (λ x _. cleared-RowOk _ x)
          (reopen_leg-LinkInv l db inv))
  ]

  pub clear-LinkInv : (i : ℕ) (db : Db N) → LinkInv db → LinkInv (clear_planned_leg_link i db)
  unfolding clear_planned_leg_link
  clear-LinkInv i db inv = elim (Option-cases (first_where (flight_is i) db.flights)) [
    | inl e ↦ rw (e, clear_planned_leg_link) inv
    | inr (f, e) ↦ rw (e, clear_planned_leg_link) (clear_row-LinkInv i f db inv)
  ]

  -- The row that a link writes.
  linked-RowOk :
      (legs : List (PlannedLeg N)) (prev : Option ℕ) (leg : PlannedLeg N) (l : ℕ) (s : LinkSource)
      (x : Flight N)
      → first_where (leg_is l) legs ≡ some leg
      → RowOk legs (linked_row prev leg.trip_id l s x)
  unfolding linked_row
  linked-RowOk legs prev leg l s x found = record {
    in_leg_trip = λ k e. (leg, rw (← some-injective l k e) found, refl);
    clean = λ e. absurd (ground arith);
  }

  -- No row links to the leg before, and one at most is written.
  one_flight-write_linked :
      (i : ℕ) (prev trip : Option ℕ) (l : ℕ) (s : LinkSource) (db : Db N)
      → LinkInv db
      → first_where (links_to l) db.flights ≡ none
      → (k : ℕ)
      → count_where (links_to k) (update_where (flight_is i) (linked_row prev trip l s) db.flights)
        ≤ 1
  unfolding linked_row
  one_flight-write_linked i prev trip l s db inv free k = elim (Bool-cases (l == k)) [
    | inl e ↦ omega (
      arith,
      inv.flight_ids i,
      count_where_of_first-none (links_to l) db.flights free,
      same-count ((==_iff l k).0 e),
      count_where-update_le_add (links_to k) (flight_is i) (linked_row prev trip l s) db.flights,
    )
    | inr e ↦ omega (
      arith,
      inv.one_flight k,
      count_where-update_le (links_to k) (flight_is i) (linked_row prev trip l s)
          (λ x _ h. ground arith) db.flights,
    )
  ]
    where
      same-count : l ≡ k → count_where (links_to k) db.flights ≡ count_where (links_to l) db.flights
      same-count p = rw p

  link_free-LinkInv :
      (i l : ℕ) (s : LinkSource) (db : Db N) → LinkInv db → OnOk LinkInv (link_free_flight i l s db)
  unfolding link_free_flight
  link_free-LinkInv i l s db inv = elim (Option-cases (first_where (links_to l) db.flights)) [
    | inl free ↦ elim (Option-cases (first_where (leg_is l) db.planned_legs)) [
      | inl gone ↦ rw (free, gone, link_free_flight) tt
      | inr (leg, found) ↦
          rw (free, found, link_free_flight)
            (record {
              flight_ids = λ j. omega (
                arith,
                inv.flight_ids j,
                count_where-update_eq (flight_is j) (flight_is i)
                    (linked_row (trip_of i db) leg.trip_id l s) (λ x _. unfold linked_row in refl)
                    db.flights,
              );
              one_flight = one_flight-write_linked i (trip_of i db) leg.trip_id l s db inv free;
              rows =
                  All-update (RowOk db.planned_legs) (flight_is i)
                    (linked_row (trip_of i db) leg.trip_id l s)
                    (λ x _ _. linked-RowOk db.planned_legs (trip_of i db) leg l s x found)
                    db.flights inv.rows;
            })
    ]
    | inr (holder, e) ↦ rw (e, link_free_flight) tt
  ]

  link_row-LinkInv :
      (i : ℕ) (f : Flight N) (l : ℕ) (s : LinkSource) (db : Db N)
      → LinkInv db
      → OnOk LinkInv (link_row i f l s db)
  unfolding link_row
  link_row-LinkInv i f l s db inv = elim (Bool-cases (holds l f.planned_leg_id)) [
    | inl same ↦ rw same inv
    | inr other ↦ elim (Bool-cases (is_some f.planned_leg_id)) [
      | inl old ↦ rw (other, old) (link_free-LinkInv i l s _ (unlink-LinkInv i db inv))
      | inr new ↦ rw (other, new) (link_free-LinkInv i l s db inv)
    ]
  ]

  -- A link that is made keeps the bookkeeping, also where it moves the flight from another leg.
  pub link-LinkInv :
      (i l : ℕ) (s : LinkSource) (db : Db N)
      → LinkInv db
      → OnOk LinkInv (link_flight_to_planned_leg i l s db)
  unfolding link_flight_to_planned_leg
  link-LinkInv i l s db inv = elim (Option-cases (first_where (flight_is i) db.flights)) [
    | inl e ↦ rw (e, link_flight_to_planned_leg) tt
    | inr (f, e) ↦ rw (e, link_flight_to_planned_leg) (link_row-LinkInv i f l s db inv)
  ]
