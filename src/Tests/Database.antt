-- ===== src/Tests/Database.antt =====
-- The theorems about the database at the logbook of the examples.
use msfslogger.Base.{
  ◌≤◌, ℕ, true, false, none, some, ◌≡◌, refl, ◌⊎◌, String, first_where, update_where, count_where,
  arith, map,
}
use mathlib.Core.Option.{some-injective}
use msfslogger.Db.{
  uplink, ok, thrown, Db, Flight, PlannedLeg, planned, flown, manual, auto, LinkSource, OnOk,
}
use msfslogger.Db.PlannedLegs.{
  has_linked_flight, leg_is, flight_is, links_to, link_flight_to_planned_leg,
  unlink_flight_from_planned_leg,
}
use msfslogger.Db.PlannedLegs.Invariant.{LinkInv, link-LinkInv}
use msfslogger.Db.PlannedLegs.Linking.{unlink-link, link_retarget}
use msfslogger.Db.PlannedLegs.Status.{
  as_skipped, status_of, set_planned_leg_status, set_planned_leg_status_cases, hand_planned,
  hand_status, set_planned_leg_hand_outcome, hand_outcome_writes,
}
use msfslogger.Db.PlannedLegs.Crud.{delete_planned_leg}
use msfslogger.Db.PlannedLegs.Deletion.{delete-LinkInv}
use msfslogger.Db.GroundSessions.{CreateManualGroundSession}
use msfslogger.Db.GroundSessions.Manual.{insert_manual_ground_session}
use msfslogger.Db.GroundSessions.Invariant.{SessionInv}
use msfslogger.Db.GroundSessions.Precedence.{Served, insert_manual-Served}
use msfslogger.Db.Sound.{DbInv}
use msfslogger.Db.AcarsMessages.{CreateAcarsMessage, file_acars_message_once}
use msfslogger.Db.AcarsMessages.Dedup.{file_twice}
use mathlib.Core.List.{Perm}
use msfslogger.Db.PlannedLegs.Reads.{get_all_planned_legs}
use msfslogger.Db.PlannedLegs.Reads.Listing.{listed_leg, InOrder, all_legs_listed}
use msfslogger.Db.Trips.{set_active_trip, delete_trip, linked_in_trip}
use msfslogger.Db.Trips.Removal.{delete_trip-LinkInv}
use msfslogger.Db.Trips.Restore.{given_back, delete_trip-flights}
use msfslogger.Db.Trips.Assignment.{set_active_one}
use msfslogger.Db.PlannedLegs.Candidates.{trip_active}
use msfslogger.PlannedLegClose.{decide_hand_close}
use msfslogger.PlannedLegClose.Written.{OnAllowed, allowed_is_written}
use msfslogger.Tests.Fixtures.{whole, logbook, leg, flight}

logbook-LinkInv : (s : LinkSource) → LinkInv (logbook s)
unfolding count_where first_where
logbook-LinkInv s = record {
  flight_ids = λ i. ground arith;
  one_flight = λ l. ground arith;
  rows = (
    record { in_leg_trip = λ l e. absurd (ground arith); clean = λ _. (refl, refl) },
    (
      record {
        in_leg_trip = λ l e. (leg 6 flown, rw (← some-injective 6 l e) refl, refl);
        clean = λ e. absurd (ground arith);
      },
      tt,
    ),
  );
}

logbook-SessionInv : (s : LinkSource) → SessionInv (logbook s)
unfolding count_where
logbook-SessionInv s = record {
  one_open = ground arith;
  ids = λ i. ground arith;
  below = (omega arith, tt);
}

pub logbook-DbInv : (s : LinkSource) → DbInv (logbook s)
logbook-DbInv s = record {
  links = logbook-LinkInv s;
  sessions = logbook-SessionInv s;
  below = (omega arith, (omega arith, tt));
}

-- Flight 1 is linked to leg 5 and unlinked again: it is in trip 9 again.
unlink-link_example :
    (db' : Db ℕ) × (link_flight_to_planned_leg 1 5 manual (logbook auto) ≡ ok db')
    × ((unlink_flight_from_planned_leg 1 db').1 ≡ true)
    × ((unlink_flight_from_planned_leg 1 db').0.flights ≡ (logbook auto).flights)
    × (first_where (leg_is 5) (unlink_flight_from_planned_leg 1 db').0.planned_legs
        ≡ some (leg 5 planned))
unfolding first_where
unlink-link_example =
    unlink-link 1 5 manual (logbook auto) (flight 1 (some 9) none none) (leg 5 planned)
      (logbook-LinkInv auto) refl refl refl refl

-- Flight 2 moves from leg 6 to leg 5.
link_retarget_example :
    (db' : Db ℕ) × (link_flight_to_planned_leg 2 5 auto (logbook auto) ≡ ok db')
    × (first_where (flight_is 2) db'.flights ≡ some (flight 2 (some 2) (some 5) (some auto)))
    × (first_where (leg_is 6) db'.planned_legs ≡ some (leg 6 planned))
unfolding first_where
link_retarget_example =
    link_retarget 2 6 5 auto (logbook auto) (flight 2 (some 2) (some 6) (some manual)) (leg 6 flown)
      (leg 5 planned) refl refl (λ e. ground (arith, e)) refl refl refl

link-LinkInv_example : OnOk LinkInv (link_flight_to_planned_leg 2 5 auto (logbook auto))
link-LinkInv_example = link-LinkInv 2 5 auto (logbook auto) (logbook-LinkInv auto)

delete-LinkInv_example : LinkInv (delete_planned_leg 6 (logbook auto)).0
delete-LinkInv_example = delete-LinkInv 6 (logbook auto) (logbook-LinkInv auto)

-- Trip 2 goes with its legs: flight 2 is in no trip, as before its link.
delete_trip-flights_example :
    (delete_trip 2 (logbook auto)).0.flights
    ≡ update_where (linked_in_trip 2 (logbook auto).planned_legs) given_back (logbook auto).flights
delete_trip-flights_example = delete_trip-flights 2 (logbook auto) (logbook-LinkInv auto)

delete_trip-LinkInv_example : LinkInv (delete_trip 2 (logbook auto)).0
delete_trip-LinkInv_example = delete_trip-LinkInv 2 (logbook auto) (logbook-LinkInv auto)

set_planned_leg_status_cases_example :
    ((first_where (leg_is 6) (logbook auto).planned_legs ≡ none)
      × (set_planned_leg_status 6 as_skipped (logbook auto) ≡ ok (logbook auto, false)))
    ⊎ ((x : PlannedLeg ℕ) × (first_where (leg_is 6) (logbook auto).planned_legs ≡ some x)
        × (((f : Flight ℕ) × (first_where (links_to 6) (logbook auto).flights ≡ some f)
              × (set_planned_leg_status 6 as_skipped (logbook auto)
                  ≡ thrown (has_linked_flight 6 f.id)))
            ⊎ ((first_where (links_to 6) (logbook auto).flights ≡ none)
                × ((db' : Db ℕ) × (set_planned_leg_status 6 as_skipped (logbook auto)
                      ≡ ok (db', true))
                    × (db'.flights ≡ (logbook auto).flights)
                    × (first_where (leg_is 6) db'.planned_legs
                        ≡ some (record x {
                          status = status_of as_skipped;
                          arrival_deviation_nm = none;
                        }))))))
set_planned_leg_status_cases_example = set_planned_leg_status_cases 6 as_skipped (logbook auto)

-- Leg 6 is closed out by hand.
hand_outcome_writes_example :
    OnOk
      (λ r.
        (r ≡ (logbook auto, false))
        ⊎ ((x : PlannedLeg ℕ) × (f : Flight ℕ) × (end : String) × (first_where
                (links_to 6)
                (logbook auto).flights
              ≡ some f)
            × (f.planned_leg_link_source ≡ some manual)
            × (f.end_time ≡ some end)
            × (r.1 ≡ true)
            × (r.0.flights ≡ (logbook auto).flights)
            × (first_where (leg_is 6) r.0.planned_legs
                ≡ some (record x {
                  status = hand_status hand_planned;
                  arrival_deviation_nm = some 4;
                }))))
      (set_planned_leg_hand_outcome 6 hand_planned (some 4) (logbook auto))
hand_outcome_writes_example = hand_outcome_writes 6 hand_planned (some 4) (logbook auto)

abbrev request : CreateManualGroundSession
request = record {
  airport_icao = "LSGS";
  parking_position_given = true;
  parking_position = some "B1";
  planned_leg_id_given = true;
  planned_leg_id = some 5;
  aircraft = none;
}

-- The automatic session at LSZB gives way to the operator's at LSGS, for leg 5.
insert_manual-Served_example :
    Served "LSGS" (insert_manual_ground_session request "2026-01-05" (logbook auto))
unfolding first_where
insert_manual-Served_example =
    insert_manual-Served request "2026-01-05" (logbook auto) (logbook-SessionInv auto)
      (λ l e. (leg 5 planned, rw (← some-injective 5 l e) refl))

-- The logbook has legs 5 and 6, both of trip 2.
all_legs_listed_example :
    Perm (map listed_leg (get_all_planned_legs (logbook auto))) (logbook auto).planned_legs
    × InOrder (map listed_leg (get_all_planned_legs (logbook auto)))
all_legs_listed_example = all_legs_listed (logbook auto)

abbrev oooi : CreateAcarsMessage
oooi = record {
  flight_id = some 1;
  planned_leg_id = none;
  direction = uplink;
  category = "oooi";
  label = none;
  body = "OUT";
  payload_json = none;
  correlation_id = none;
  dedup_key = some "oooi:flight:1:out";
  sent_at = none;
}

file_twice_example :
    file_acars_message_once oooi "2026-01-06"
      (file_acars_message_once oooi "2026-01-05" (logbook auto)).1
    ≡ (false, (file_acars_message_once oooi "2026-01-05" (logbook auto)).1)
file_twice_example = file_twice oooi "2026-01-05" "2026-01-06" (logbook auto)

set_active_one_example : count_where trip_active (set_active_trip (some 2) (logbook auto)).trips ≤ 1
unfolding count_where
set_active_one_example = set_active_one (some 2) (logbook auto) (λ i. ground arith) (ground arith)

-- Leg 6 of flight 2, which was linked by hand, is reopened.
allowed_is_written_example :
    OnAllowed
      (λ l st x.
        (db' : Db ℕ) × (set_planned_leg_hand_outcome l st x (logbook auto) ≡ ok (db', true))
        × (first_where (leg_is 6) db'.planned_legs
            ≡ some (record (leg 6 flown) {
              status = hand_status hand_planned;
              arrival_deviation_nm = x;
            })))
      (decide_hand_close whole hand_planned
        (flight 2 (some 2) (some 6) (some manual))
        (some (leg 6 flown)))
unfolding first_where
allowed_is_written_example =
    allowed_is_written whole hand_planned (flight 2 (some 2) (some 6) (some manual)) (leg 6 flown)
      (logbook auto) refl refl
