-- ===== src/FlightManager/Ending.antt =====
-- What the end of a flight leaves in the logbook (endFlight() of src/flightManager.ts).
use msfslogger.Base.{
  ℕ, none, some, ◌≡◌, refl, ◌∙◌, ap, inl, inr, first_where, Option-cases, Bool-cases,
}
use msfslogger.Base.Double.{Double}
use msfslogger.Base.Table.{first_where-update, first_where_holds}
use msfslogger.Db.{Db, Flight}
use msfslogger.Db.Flights.{FlightClose, closed_row, close_flight}
use msfslogger.Db.PlannedLegs.{flight_is, get_flight_planned_leg_id}
use msfslogger.Db.PlannedLegs.Status.{record_planned_leg_arrival, write_outcome}
use msfslogger.Db.AcarsMessages.Dedup.{file-flights}
use msfslogger.GroundState.{SimFrame}
use msfslogger.FlightManager.State.{Manager, Env, now_iso, notify_scope_change, idle}
use msfslogger.FlightManager.Legs.{get_leg}
use msfslogger.FlightManager.Flight.{
  file_oooi, record_arrival_on_planned_leg, close_current, file_arrival, end_tracking, end_flight,
}
use msfslogger.FlightManager.Transitions.{ended_at}

module _ {N : Type 0} where
  closed :
      (i : ℕ) (c : FlightClose N) (db : Db N) (f : Flight N)
      → first_where (flight_is i) db.flights ≡ some f
      → first_where (flight_is i) (close_flight i c db).flights ≡ some (closed_row c f)
  unfolding close_flight closed_row
  closed i c db f e =
      first_where-update (flight_is i) (flight_is i) (closed_row c) (λ x _. refl) db.flights f e
      ∙ rw (first_where_holds (flight_is i) db.flights f e) refl

module _ {N : Type 0} (d : Double N) where
  record_arrival-flights :
      (i : ℕ) (frame : SimFrame N) (db : Db N)
      → (record_arrival_on_planned_leg d i frame db).flights ≡ db.flights
  unfolding record_arrival_on_planned_leg record_planned_leg_arrival write_outcome
  record_arrival-flights i frame db = elim (Option-cases (get_flight_planned_leg_id i db)) [
    | inl e ↦ rw (e, record_arrival_on_planned_leg) refl
    | inr (l, e) ↦ elim (Option-cases (get_leg l db)) [
      | inl gone ↦ rw (e, record_arrival_on_planned_leg, gone) refl
      | inr (leg, found) ↦ rw (e, record_arrival_on_planned_leg, found) refl
    ]
  ]

  file_arrival-flights :
      (i : ℕ) (frame : SimFrame N) (env : Env N) (m : Manager N)
      → (file_arrival d i frame env m).db.flights ≡ m.db.flights
  unfolding file_arrival file_oooi
  file_arrival-flights i frame env m = elim (Bool-cases m.on_event_filed) [
    | inl e ↦ rw e (file-flights _ (now_iso env) m.db)
    | inr e ↦ rw e (file-flights _ (now_iso env) _ ∙ file-flights _ (now_iso env) m.db)
  ]

  tracking_ended :
      (m : Manager N)
      → ((end_tracking d m).db ≡ m.db)
        × ((end_tracking d m).current_flight_id ≡ none)
        × ((end_tracking d m).state ≡ idle)
  unfolding end_tracking notify_scope_change
  tracking_ended m = (refl, refl, refl)

  -- What is handed to closeFlight().
  closing :
      (i : ℕ) (frame : SimFrame N) (env : Env N) (m : Manager N)
      → (c : FlightClose N) × ((close_current d i frame env m).db.flights
          ≡ (close_flight i c m.db).flights)
        × (c.end_time ≡ now_iso env)
        × (c.arrival_lat ≡ frame.lat)
        × (c.arrival_lon ≡ frame.lon)
        × (c.point_count ≡ m.point_count)
  unfolding close_current
  closing i frame env m = (_, record_arrival-flights i frame _, refl, refl, refl, refl)

  -- The end of the current flight stamps its row: it is found with the end of this instant, the
  -- place of the frame and the number of points, and no flight is current.
  pub end_flight_closes :
      (i : ℕ) (frame : SimFrame N) (env : Env N) (m : Manager N) (f : Flight N)
      → m.current_flight_id ≡ some i
      → first_where (flight_is i) m.db.flights ≡ some f
      → (g : Flight N) × (first_where (flight_is i) (end_flight d frame env m).db.flights ≡ some g)
        × (g.end_time ≡ some (now_iso env))
        × (g.arrival_lat ≡ some frame.lat)
        × (g.arrival_lon ≡ some frame.lon)
        × (g.point_count ≡ some m.point_count)
        × (g.start_time ≡ f.start_time)
        × ((end_flight d frame env m).current_flight_id ≡ none)
        × ((end_flight d frame env m).state ≡ idle)
  unfolding closed_row
  end_flight_closes i frame env m f e found =
      let closing_now = close_current d i frame env m in
      let (c, same, ends, lat, lon, points) = closing i frame env m in
      let (db, no_flight, at_idle) = tracking_ended (file_arrival d i frame env closing_now) in
      (
        closed_row c f,
        ap (λ x. first_where (flight_is i) x.db.flights) (ended_at d i frame env m e)
            ∙ (ap (λ x. first_where (flight_is i) x.flights) db
                ∙ (ap (first_where (flight_is i))
                      (file_arrival-flights i frame env closing_now ∙ same)
                    ∙ closed i c m.db f found)),
        ap some ends,
        ap some lat,
        ap some lon,
        ap some points,
        refl,
        ap (λ x. x.current_flight_id) (ended_at d i frame env m e) ∙ no_flight,
        ap (λ x. x.state) (ended_at d i frame env m e) ∙ at_idle,
      )
