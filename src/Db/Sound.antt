-- ===== src/Db/Sound.antt =====
-- The invariant of the whole database that the flight recorder relies on, and the writes of the
-- recorder (src/db/flights.ts, src/db/plannedLegs.ts, src/db/groundSessions.ts) that keep it.
pub mod Writes
use msfslogger.Base.{
  ℕ, suc, ◌+◌, ◌≤◌, ◌<◌, Bool, true, false, Option, none, some, List, [], ◌∷◌, ◌++◌, ◌==◌, ◌≡◌,
  refl, inl, inr, arith, first_where, update_where, count_where, Option-cases, Bool-cases, All,
  if◌then◌else◌, String, is_some, holds, ◌∙◌,
}
use msfslogger.Base.Table.{
  count_where-append, All-update, All-append, All-imp, count_where-update_eq, count_where-update_le,
}
use msfslogger.Db.{
  Flight, FlightPoint, PlannedLeg, GroundSession, AcarsMessage, Db, LinkSource, EndReason, Result,
  ok, thrown, OnOk,
}
use msfslogger.Db.Flights.{
  new_flight, insert_flight, FlightClose, closed_row, close_flight, insert_point,
}
use msfslogger.Db.PlannedLegs.{
  LegError, flight_is, leg_is, links_to, reopen_leg, write_flight, unlinked_row, linked_row,
  unlink_row, unlink_flight_from_planned_leg, trip_of, link_free_flight, link_row,
  link_flight_to_planned_leg,
}
use msfslogger.Db.PlannedLegs.Invariant.{RowOk, LinkInv, write-LinkInv, link-LinkInv}
use msfslogger.Db.PlannedLegs.Status.{
  ArrivalOutcome, outcome_status, write_outcome, record_planned_leg_arrival,
  record_planned_leg_arrival-LinkInv,
}
use msfslogger.Db.GroundSessions.{
  CreateGroundSession, get_open_ground_session, close_open_ground_session, write_session,
  insert_ground_session, append_session, fill_open_ground_session_gaps, has_gaps,
}
use msfslogger.Db.GroundSessions.Invariant.{
  SessionInv, close-SessionInv, insert-SessionInv, fill-SessionInv, insert_of_none, insert_of_open,
}
use msfslogger.Db.AcarsMessages.{
  CreateAcarsMessage, append_message, has_key, insert_unless_known, insert_acars_message_once,
  file_acars_message_once,
}

-- Links and sessions are as they should be, and the next flight id is fresh.
pub record DbInv {N : Type 0} (db : Db N) : Type 0 where
  pub links : LinkInv db
  pub sessions : SessionInv db
  pub below : All (λ f. f.id < db.next_flight_id) db.flights

module _ {N : Type 0} where
  -- What a write to legs and flights' links leaves alone.
  abbrev pub Apart : Db N → Db N → Type 0
  Apart db db' =
      (db'.ground_sessions ≡ db.ground_sessions)
      × (db'.next_session_id ≡ db.next_session_id)
      × (All (λ f. f.id < db.next_flight_id) db.flights
          → All (λ f. f.id < db'.next_flight_id) db'.flights)

  -- What a write to sessions leaves alone.
  abbrev pub FlightsKept : Db N → Db N → Type 0
  FlightsKept db db' =
      (db'.flights ≡ db.flights)
      × (db'.planned_legs ≡ db.planned_legs)
      × (db'.next_flight_id ≡ db.next_flight_id)

  sessions-Apart : (db db' : Db N) → Apart db db' → SessionInv db → SessionInv db'
  sessions-Apart db db' a inv = record {
    one_open = rw (a.0) inv.one_open;
    ids = λ i. rw (a.0) (inv.ids i);
    below = rw (a.0, a.1) inv.below;
  }

  links-FlightsKept : (db db' : Db N) → FlightsKept db db' → LinkInv db → LinkInv db'
  links-FlightsKept db db' k inv = record {
    flight_ids = λ i. rw (k.0) (inv.flight_ids i);
    one_flight = λ l. rw (k.0) (inv.one_flight l);
    rows = rw (k.0, k.1) inv.rows;
  }

  pub DbInv-FlightsKept :
      (db db' : Db N) → FlightsKept db db' → SessionInv db' → DbInv db → DbInv db'
  DbInv-FlightsKept db db' k s inv = record {
    links = links-FlightsKept db db' k inv.links;
    sessions = s;
    below = rw (k.0, k.2) inv.below;
  }

  pub write_flight-below :
      (i : ℕ) (g : Flight N → Flight N) (db : Db N)
      → ((x : Flight N) → (g x).id ≡ x.id)
      → All (λ f. f.id < db.next_flight_id) db.flights
      → All (λ f. f.id < db.next_flight_id) (write_flight i g db).flights
  unfolding write_flight
  write_flight-below i g db same =
      All-update (λ f. f.id < db.next_flight_id) (flight_is i) g (λ x _ h. rw (same x) h) db.flights

  unlink-Apart : (i : ℕ) (db : Db N) → Apart db (unlink_flight_from_planned_leg i db).0
  unfolding unlink_flight_from_planned_leg unlink_row write_flight reopen_leg
  unlink-Apart i db = elim (Option-cases (first_where (flight_is i) db.flights)) [
    | inl e ↦ rw (e, unlink_flight_from_planned_leg) (refl, refl, λ h. h)
    | inr (f, e) ↦ elim (Option-cases f.planned_leg_id) [
      | inl u ↦ rw (e, unlink_flight_from_planned_leg, u) (refl, refl, λ h. h)
      | inr (l, u) ↦
          rw (e, unlink_flight_from_planned_leg, u)
            (
              refl,
              refl,
              write_flight-below i (unlinked_row f.planned_leg_prev_trip_id) db
                  (λ x. unfold unlinked_row in refl),
            )
    ]
  ]

  link_free-Apart :
      (i l : ℕ) (s : LinkSource) (db : Db N) → OnOk (Apart db) (link_free_flight i l s db)
  unfolding link_free_flight write_flight
  link_free-Apart i l s db = elim (Option-cases (first_where (links_to l) db.flights)) [
    | inr (holder, e) ↦ rw (e, link_free_flight) tt
    | inl free ↦ elim (Option-cases (first_where (leg_is l) db.planned_legs)) [
      | inl gone ↦ rw (free, gone, link_free_flight) tt
      | inr (leg, found) ↦
          rw (free, found, link_free_flight)
            (
              refl,
              refl,
              write_flight-below i (linked_row (trip_of i db) leg.trip_id l s) db
                  (λ x. unfold linked_row in refl),
            )
    ]
  ]

  Apart-trans :
      (a b : Db N) (r : Result LegError (Db N)) → Apart a b → OnOk (Apart b) r → OnOk (Apart a) r
  Apart-trans a b (ok c) p q = (q.0 ∙ p.0, q.1 ∙ p.1, λ h. q.2 (p.2 h))
  Apart-trans a b (thrown e) p q = tt

  link_row-Apart :
      (i : ℕ) (f : Flight N) (l : ℕ) (s : LinkSource) (db : Db N)
      → OnOk (Apart db) (link_row i f l s db)
  unfolding link_row
  link_row-Apart i f l s db = elim (Bool-cases (holds l f.planned_leg_id)) [
    | inl same ↦ rw same (refl, refl, λ h. h)
    | inr other ↦ elim (Bool-cases (is_some f.planned_leg_id)) [
      | inl old ↦
          rw (other, old)
            (Apart-trans db (unlink_flight_from_planned_leg i db).0 _ (unlink-Apart i db)
              (link_free-Apart i l s (unlink_flight_from_planned_leg i db).0))
      | inr new ↦ rw (other, new) (link_free-Apart i l s db)
    ]
  ]

  link-Apart :
      (i l : ℕ) (s : LinkSource) (db : Db N) → OnOk (Apart db) (link_flight_to_planned_leg i l s db)
  unfolding link_flight_to_planned_leg
  link-Apart i l s db = elim (Option-cases (first_where (flight_is i) db.flights)) [
    | inl e ↦ rw (e, link_flight_to_planned_leg) tt
    | inr (f, e) ↦ rw (e, link_flight_to_planned_leg) (link_row-Apart i f l s db)
  ]

  DbInv-of_ok :
      (db : Db N) (r : Result LegError (Db N))
      → SessionInv db
      → All (λ f. f.id < db.next_flight_id) db.flights
      → OnOk LinkInv r
      → OnOk (Apart db) r
      → OnOk DbInv r
  DbInv-of_ok db (ok db') s b l a = record {
    links = l;
    sessions = sessions-Apart db db' a s;
    below = a.2 b;
  }
  DbInv-of_ok db (thrown e) s b l a = tt

  -- A link that is made keeps the invariant.
  pub link-DbInv :
      (i l : ℕ) (s : LinkSource) (db : Db N)
      → DbInv db
      → OnOk DbInv (link_flight_to_planned_leg i l s db)
  link-DbInv i l s db inv =
      DbInv-of_ok db (link_flight_to_planned_leg i l s db) inv.sessions inv.below
        (link-LinkInv i l s db inv.links) (link-Apart i l s db)
