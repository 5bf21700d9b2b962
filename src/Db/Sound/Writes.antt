-- ===== src/Db/Sound/Writes.antt =====
-- The recorder's writes keep the invariant of the database: flights, points, the ground session and
-- messages (src/db/flights.ts, src/db/groundSessions.ts, src/db/acarsMessages.ts).
use msfslogger.Base.{
  ℕ, suc, ◌<◌, Bool, Option, or_try, List, [], ◌∷◌, ◌≡◌, refl, inl, inr, arith, first_where,
  count_where, Option-cases, Bool-cases, All, String, str_eq,
}
use msfslogger.Base.Table.{count_where_of_first-none, count_where-append, All-append, All-imp}
use msfslogger.Db.{
  Flight, FlightPoint, GroundSession, AcarsMessage, Db, EndReason, Result, ok, thrown, OnOk,
}
use msfslogger.Db.Flights.{
  new_flight, insert_flight, FlightClose, closed_row, close_flight, insert_point,
}
use msfslogger.Db.PlannedLegs.{flight_is, links_to, write_flight}
use msfslogger.Db.PlannedLegs.Invariant.{RowOk, write-LinkInv}
use msfslogger.Db.PlannedLegs.Status.{
  ArrivalOutcome, write_outcome, record_planned_leg_arrival, record_planned_leg_arrival-LinkInv,
}
use msfslogger.Db.GroundSessions.{
  session_open, CreateGroundSession, new_row, close_open_ground_session, write_session,
  insert_ground_session, SessionError, leg_exists, append_session, fill_open_ground_session_gaps,
  has_gaps,
}
use msfslogger.Db.GroundSessions.Invariant.{
  SessionInv, close-SessionInv, append-SessionInv, fill-SessionInv, insert_of_none,
  insert_of_unknown, insert_of_open,
}
use msfslogger.Db.AcarsMessages.{
  AcarsError, CreateAcarsMessage, append_message, has_key, insert_unless_known,
  insert_acars_message_once, file_acars_message_once, filed, has_no_scope, read_back,
  find_acars_message_by_dedup_key,
}
use msfslogger.Db.Sound.{FlightsKept, DbInv, DbInv-FlightsKept, write_flight-below}

module _ {N : Type 0} where
  no_flight_from :
      (n : ℕ) (fs : List (Flight N)) → All (λ f. f.id < n) fs → count_where (flight_is n) fs ≡ 0
  unfolding count_where
  no_flight_from n [] a = refl
  no_flight_from n (f ∷ fs) a = ground (arith, a.0, no_flight_from n fs a.1)

  -- The row of a new flight links to nothing, and its id is fresh.
  pub insert_flight-DbInv :
      (aircraft : String) (lat lon : N) (start : String) (icao name : Option String) (db : Db N)
      → DbInv db
      → DbInv (insert_flight aircraft lat lon start icao name db).1
  unfolding insert_flight new_flight count_where
  insert_flight-DbInv aircraft lat lon start icao name db inv = record {
    links = record {
      flight_ids = λ i. ground (
        arith,
        inv.links.flight_ids i,
        no_flight_from db.next_flight_id db.flights inv.below,
        count_where-append (flight_is i) db.flights (row ∷ []),
      );
      one_flight = λ l.
          ground
            (arith, inv.links.one_flight l, count_where-append (links_to l) db.flights (row ∷ []));
      rows =
          All-append (RowOk db.planned_legs) db.flights (row ∷ []) inv.links.rows
            (record { in_leg_trip = λ l e. absurd (ground arith); clean = λ _. (refl, refl) }, tt);
    };
    sessions = record {
      one_open = inv.sessions.one_open;
      ids = inv.sessions.ids;
      below = inv.sessions.below;
    };
    below =
        All-append (λ f. f.id < suc db.next_flight_id) db.flights (row ∷ [])
          (All-imp (λ f. f.id < db.next_flight_id) (λ f. f.id < suc db.next_flight_id)
            (λ f h. omega arith) db.flights inv.below)
          (omega arith, tt);
  }
    where
      row : Flight N
      row = new_flight db.next_flight_id aircraft lat lon start icao name

  pub close_flight-DbInv :
      (i : ℕ) (c : FlightClose N) (db : Db N) → DbInv db → DbInv (close_flight i c db)
  unfolding close_flight closed_row write_flight
  close_flight-DbInv i c db inv = record {
    links =
        write-LinkInv i (closed_row c) db (λ x. refl) (λ x l h. h)
          (λ x r. record { in_leg_trip = r.in_leg_trip; clean = r.clean }) inv.links;
    sessions = record {
      one_open = inv.sessions.one_open;
      ids = inv.sessions.ids;
      below = inv.sessions.below;
    };
    below = write_flight-below i (closed_row c) db (λ x. refl) inv.below;
  }

  pub insert_point-DbInv : (p : FlightPoint N) (db : Db N) → DbInv db → DbInv (insert_point p db)
  unfolding insert_point
  insert_point-DbInv p db inv =
      DbInv-FlightsKept db (insert_point p db) (refl, refl, refl)
        (record {
          one_open = inv.sessions.one_open;
          ids = inv.sessions.ids;
          below = inv.sessions.below;
        })
        inv

  pub arrival-DbInv :
      (l : ℕ) (st : ArrivalOutcome) (x : N) (db : Db N)
      → DbInv db
      → DbInv (record_planned_leg_arrival l st x db)
  unfolding record_planned_leg_arrival write_outcome
  arrival-DbInv l st x db inv = record {
    links = record_planned_leg_arrival-LinkInv l st x db inv.links;
    sessions = record {
      one_open = inv.sessions.one_open;
      ids = inv.sessions.ids;
      below = inv.sessions.below;
    };
    below = inv.below;
  }

  close-FlightsKept :
      (r : EndReason) (f : Option ℕ) (now : String) (db : Db N)
      → FlightsKept db (close_open_ground_session r f now db).1
  unfolding close_open_ground_session write_session
  close-FlightsKept r f now db = elim (Option-cases (first_where session_open db.ground_sessions)) [
    | inl free ↦ rw (free, close_open_ground_session) (refl, refl, refl)
    | inr (s, e) ↦ rw (e, close_open_ground_session) (refl, refl, refl)
  ]

  pub close_session-DbInv :
      (r : EndReason) (f : Option ℕ) (now : String) (db : Db N)
      → DbInv db
      → DbInv (close_open_ground_session r f now db).1
  close_session-DbInv r f now db inv =
      DbInv-FlightsKept db _ (close-FlightsKept r f now db)
        (close-SessionInv r f now db inv.sessions) inv

  fill-FlightsKept :
      (patch : CreateGroundSession N) (now : String) (db : Db N)
      → OnOk (λ r. FlightsKept db r.1) (fill_open_ground_session_gaps patch now db)
  unfolding fill_open_ground_session_gaps write_session
  fill-FlightsKept patch now db =
      elim (Option-cases (first_where session_open db.ground_sessions)) [
        | inl free ↦ rw (free, fill_open_ground_session_gaps) (refl, refl, refl)
        | inr (s, e) ↦ elim (Bool-cases (has_gaps patch s)) [
          | inr full ↦ rw (e, fill_open_ground_session_gaps, full) (refl, refl, refl)
          | inl gaps ↦
              elim (Bool-cases (leg_exists (or_try s.planned_leg_id patch.planned_leg_id) db)) [
                | inr unknown ↦ rw (e, fill_open_ground_session_gaps, gaps, unknown) tt
                | inl known ↦ rw (e, fill_open_ground_session_gaps, gaps, known) (refl, refl, refl)
              ]
        ]
      ]

  pub fill-DbInv :
      (patch : CreateGroundSession N) (now : String) (db : Db N)
      → DbInv db
      → OnOk (λ r. DbInv r.1) (fill_open_ground_session_gaps patch now db)
  fill-DbInv patch now db inv =
      both (fill_open_ground_session_gaps patch now db) (fill-FlightsKept patch now db)
        (fill-SessionInv patch now db inv.sessions)
    where
      both :
          (r : Result SessionError (Option (GroundSession N) × Db N))
          → OnOk (λ x. FlightsKept db x.1) r
          → OnOk (λ x. SessionInv x.1) r
          → OnOk (λ x. DbInv x.1) r
      both (ok (s, db')) k h = DbInv-FlightsKept db db' k h inv
      both (thrown e) k h = tt

  pub insert_session-DbInv :
      (input : CreateGroundSession N) (now : String) (db : Db N)
      → DbInv db
      → OnOk (λ r. DbInv r.1) (insert_ground_session input now db)
  insert_session-DbInv input now db inv =
      elim (Option-cases (first_where session_open db.ground_sessions)) [
        | inr (s, e) ↦ rw (insert_of_open input now db s e) tt
        | inl free ↦ elim (Bool-cases (leg_exists input.planned_leg_id db)) [
          | inr unknown ↦ rw (insert_of_unknown input now db free unknown) tt
          | inl known ↦ rw (insert_of_none input now db inv.sessions free known) (
              DbInv-FlightsKept db _ (unfold append_session in (refl, refl, refl))
                (append-SessionInv (new_row db.next_session_id input now) db
                  (unfold new_row in refl)
                  (count_where_of_first-none session_open db.ground_sessions free) inv.sessions)
                inv)
        ]
      ]

  insert_unless_known-DbInv :
      (key : String) (msg : CreateAcarsMessage) (now : String) (db : Db N)
      → DbInv db
      → DbInv (insert_unless_known key msg now db).0
  unfolding insert_unless_known append_message
  insert_unless_known-DbInv key msg now db inv =
      elim (Option-cases (first_where (has_key key) db.acars_messages)) [
        | inr (m, e) ↦ rw (e, insert_unless_known) inv
        | inl new ↦
            rw (new, insert_unless_known)
              (DbInv-FlightsKept db _ (refl, refl, refl)
                (record {
                  one_open = inv.sessions.one_open;
                  ids = inv.sessions.ids;
                  below = inv.sessions.below;
                })
                inv)
      ]

  read_back-DbInv :
      (key : String) (db : Db N) (created : Bool)
      → DbInv db
      → OnOk (λ r. DbInv r.2) (read_back key db created)
  unfolding read_back
  read_back-DbInv key db created inv =
      elim (Option-cases (find_acars_message_by_dedup_key key db)) [
        | inl e ↦ rw (e, read_back) tt
        | inr (m, e) ↦ rw (e, read_back) inv
      ]

  insert_once-DbInv :
      (msg : CreateAcarsMessage) (now : String) (db : Db N)
      → DbInv db
      → OnOk (λ r. DbInv r.2) (insert_acars_message_once msg now db)
  unfolding insert_acars_message_once
  insert_once-DbInv msg now db inv = elim (Bool-cases (has_no_scope msg)) [
    | inl e ↦ rw (e, insert_acars_message_once) tt
    | inr scoped ↦ elim (Option-cases msg.dedup_key) [
      | inl e ↦ rw (scoped, insert_acars_message_once, e) tt
      | inr (key, e) ↦ elim (Bool-cases (str_eq key "")) [
        | inl empty ↦ rw (scoped, insert_acars_message_once, e, empty) tt
        | inr keyed ↦
            rw (scoped, insert_acars_message_once, e, keyed)
              (read_back-DbInv key _ _ (insert_unless_known-DbInv key msg now db inv))
      ]
    ]
  ]

  DbInv-of_filed :
      (r : Result AcarsError (AcarsMessage × Bool × Db N)) (db : Db N)
      → DbInv db
      → OnOk (λ x. DbInv x.2) r
      → DbInv (filed r db).1
  unfolding filed
  DbInv-of_filed (ok x) db inv h = h
  DbInv-of_filed (thrown e) db inv h = inv

  -- Filing a message keeps the invariant, whether it is new, known or refused.
  pub file-DbInv :
      (msg : CreateAcarsMessage) (now : String) (db : Db N)
      → DbInv db
      → DbInv (file_acars_message_once msg now db).1
  unfolding file_acars_message_once
  file-DbInv msg now db inv =
      DbInv-of_filed (insert_acars_message_once msg now db) db inv
        (insert_once-DbInv msg now db inv)
