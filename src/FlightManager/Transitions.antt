-- ===== src/FlightManager/Transitions.antt =====
-- Every event of the flight recorder (src/flightManager.ts) leaves it coherent, over a database that
-- is as it should be.
use msfslogger.Base.{
  ℕ, false, Option, none, some, ◌≡◌, refl, ◌∙◌, inl, inr, Option-cases, Bool-cases, is_some, sym,
  ap, List, [], ◌∷◌, false≢true,
}
use msfslogger.Base.Double.{Double}
use msfslogger.Airports.{AirportRef}
use msfslogger.Db.{
  Db, Flight, FlightPoint, GroundSession, Result, ok, thrown, OnOk, EndReason, flight_started,
}
use msfslogger.Db.Flights.{get_flight_track_points}
use msfslogger.Db.GroundSessions.{SessionError, get_open_ground_session, close_open_ground_session}
use msfslogger.Db.GroundSessions.Manual.{is_auto}
use msfslogger.Db.PlannedLegs.{get_flight_planned_leg_id}
use msfslogger.Db.Sound.{DbInv}
use msfslogger.Db.Sound.Writes.{
  insert_flight-DbInv, close_flight-DbInv, arrival-DbInv, close_session-DbInv, fill-DbInv,
  insert_session-DbInv, file-DbInv,
}
use msfslogger.GroundState.{SimFrame}
use msfslogger.FlightManager.State.{FlightState, Manager, Env, now_iso, notify_scope_change}
use msfslogger.FlightManager.Legs.{GroundMatch, get_leg, refresh_planned_leg_for_flight}
use msfslogger.FlightManager.Ground.{
  reset_ground_tracking, close_ground_session_and_return_to_idle, close_auto_session,
  close_auto_ground_session_and_return_to_idle, adopt_or_insert, adopted, entered, enter_with,
  enter_ground,
}
use msfslogger.FlightManager.Recording.{write_point}
use msfslogger.FlightManager.Flight.{
  file_oooi, open_flight, begin_flying, file_departure, start_flight, record_arrival_on_planned_leg,
  close_current, file_arrival, end_tracking, end_flight,
}
use msfslogger.FlightManager.Resume.{rebuilt, resume_fields, resume_flight}
use msfslogger.FlightManager.Coherence.{
  Sound, Sound-Keeps, is_flying, write_point-Keeps, auto_link_planned_leg-Keeps,
}

none_of : (o : Option ℕ) → is_some o ≡ false → o ≡ none
none_of none e = refl
none_of (some i) e = absurd (false≢true (sym e))

module _ {N : Type 0} where
  -- Back to IDLE, from a state with no current flight.
  reset-Sound :
      (m : Manager N) → m.current_flight_id ≡ none → Sound m → Sound (reset_ground_tracking m)
  unfolding reset_ground_tracking notify_scope_change
  reset-Sound m e s = ((refl, s.0.1, simp e), s.1)

  pub no_flight :
      (m : Manager N) (st : FlightState)
      → m.state ≡ st
      → is_flying st ≡ false
      → Sound m
      → m.current_flight_id ≡ none
  no_flight m st e f s = none_of m.current_flight_id (sym (s.0.2) ∙ (ap is_flying e ∙ f))

  pub close_ground-Sound :
      (r : EndReason) (env : Env N) (m : Manager N)
      → m.current_flight_id ≡ none
      → Sound m
      → Sound (close_ground_session_and_return_to_idle r env m)
  unfolding close_ground_session_and_return_to_idle
  close_ground-Sound r env m e s =
      reset-Sound (record m { db = (close_open_ground_session r none (now_iso env) m.db).1 }) e
        (s.0, close_session-DbInv r none (now_iso env) m.db (s.1))

  close_auto_session-DbInv :
      (r : EndReason) (env : Env N) (db : Db N) → DbInv db → DbInv (close_auto_session r env db)
  unfolding close_auto_session get_open_ground_session
  close_auto_session-DbInv r env db inv = elim (Option-cases (get_open_ground_session db)) [
    | inl e ↦ rw (e, close_auto_session) inv
    | inr (x, e) ↦ elim (Bool-cases (is_auto x.source)) [
      | inl a ↦ rw (e, close_auto_session, a) (close_session-DbInv r none (now_iso env) db inv)
      | inr a ↦ rw (e, close_auto_session, a) inv
    ]
  ]

  pub close_auto-Sound :
      (r : EndReason) (env : Env N) (m : Manager N)
      → m.current_flight_id ≡ none
      → Sound m
      → Sound (close_auto_ground_session_and_return_to_idle r env m)
  unfolding close_auto_ground_session_and_return_to_idle
  close_auto-Sound r env m e s =
      reset-Sound (record m { db = close_auto_session r env m.db }) e
        (s.0, close_auto_session-DbInv r env m.db (s.1))

  adopted-DbInv :
      (s : GroundSession N) (r : Result SessionError (Option (GroundSession N) × Db N))
      → OnOk (λ x. DbInv x.1) r
      → OnOk (λ x. DbInv x.1) (adopted s r)
  adopted-DbInv s (ok (filled, db')) h = h
  adopted-DbInv s (thrown e) h = tt

  adopt_or_insert-DbInv :
      (ap : Option AirportRef) (frame : SimFrame N) (found : GroundMatch) (env : Env N) (db : Db N)
      → DbInv db
      → OnOk (λ r. DbInv r.1) (adopt_or_insert ap frame found env db)
  unfolding adopt_or_insert get_open_ground_session
  adopt_or_insert-DbInv ap frame found env db inv =
      elim (Option-cases (get_open_ground_session db)) [
        | inl e ↦ rw (e, adopt_or_insert) (insert_session-DbInv _ (now_iso env) db inv)
        | inr (x, e) ↦
            rw (e, adopt_or_insert) (adopted-DbInv x _ (fill-DbInv _ (now_iso env) db inv))
      ]

  enter_result-Sound :
      (r : Result SessionError (GroundSession N × Db N)) (frame : SimFrame N) (m : Manager N)
      → m.current_flight_id ≡ none
      → Sound m
      → OnOk (λ x. DbInv x.1) r
      → Sound (enter_with r frame m)
  unfolding enter_with entered notify_scope_change
  enter_result-Sound (ok (s, db')) frame m e h k = ((refl, h.0.1, simp e), k)
  enter_result-Sound (thrown x) frame m e h k = h

module _ {N : Type 0} (d : Double N) where
  pub enter_ground-Sound :
      (frame : SimFrame N) (env : Env N) (m : Manager N)
      → m.current_flight_id ≡ none
      → Sound m
      → Sound (enter_ground d frame env m)
  unfolding enter_ground
  enter_ground-Sound frame env m e s =
      enter_result-Sound _ frame m e s (adopt_or_insert-DbInv _ frame _ env m.db (s.1))

  open_flight-DbInv :
      (frame : SimFrame N) (env : Env N) (m : Manager N)
      → DbInv m.db
      → DbInv (open_flight d frame env m).1.db
  unfolding open_flight
  open_flight-DbInv frame env m inv = (auto_link_planned_leg-Keeps d _ frame (now_iso env) _).3 (
      close_session-DbInv flight_started _ (now_iso env) _
        (insert_flight-DbInv frame.aircraft frame.lat frame.lon (now_iso env) _ _ m.db inv))

  begin_flying-Sound :
      (i : ℕ) (frame : SimFrame N) (env : Env N) (m : Manager N)
      → DbInv m.db
      → Sound (begin_flying d i frame env m)
  unfolding begin_flying notify_scope_change
  begin_flying-Sound i frame env m inv = ((refl, refl, refl), inv)

  write_point-Sound :
      (frame : SimFrame N) (env : Env N) (m : Manager N)
      → Sound m
      → Sound (write_point d frame env m)
  write_point-Sound frame env m =
      Sound-Keeps m (write_point d frame env m) (write_point-Keeps d frame env m)

  file_departure-Sound :
      (i : ℕ) (before : Manager N) (frame : SimFrame N) (env : Env N) (m : Manager N)
      → Sound m
      → Sound (file_departure d i before frame env m)
  unfolding file_departure file_oooi
  file_departure-Sound i before frame env m s =
      (s.0, file-DbInv _ (now_iso env) _ (file-DbInv _ (now_iso env) m.db (s.1)))

  -- A takeoff leaves the recorder FLYING with the new flight current and shown.
  pub start_flight-Sound :
      (frame : SimFrame N) (env : Env N) (m : Manager N)
      → DbInv m.db
      → Sound (start_flight d frame env m)
  unfolding start_flight
  start_flight-Sound frame env m inv =
      let (i, opened) = open_flight d frame env m in
      write_point-Sound frame env
        (record (file_departure d i m frame env (begin_flying d i frame env opened)) {
          out_blocks_at = none;
        })
        (file_departure-Sound i m frame env (begin_flying d i frame env opened)
          (begin_flying-Sound i frame env opened (open_flight-DbInv frame env m inv)))

  record_arrival-DbInv :
      (i : ℕ) (frame : SimFrame N) (db : Db N)
      → DbInv db
      → DbInv (record_arrival_on_planned_leg d i frame db)
  unfolding record_arrival_on_planned_leg
  record_arrival-DbInv i frame db inv = elim (Option-cases (get_flight_planned_leg_id i db)) [
    | inl e ↦ rw (e, record_arrival_on_planned_leg) inv
    | inr (l, e) ↦ elim (Option-cases (get_leg l db)) [
      | inl gone ↦ rw (e, record_arrival_on_planned_leg, gone) inv
      | inr (leg, found) ↦ rw (e, record_arrival_on_planned_leg, found) (arrival-DbInv l _ _ db inv)
    ]
  ]

  close_current-DbInv :
      (i : ℕ) (frame : SimFrame N) (env : Env N) (m : Manager N)
      → DbInv m.db
      → DbInv (close_current d i frame env m).db
  unfolding close_current
  close_current-DbInv i frame env m inv =
      record_arrival-DbInv i frame _ (close_flight-DbInv i _ m.db inv)

  file_arrival-DbInv :
      (i : ℕ) (frame : SimFrame N) (env : Env N) (m : Manager N)
      → DbInv m.db
      → DbInv (file_arrival d i frame env m).db
  unfolding file_arrival file_oooi
  file_arrival-DbInv i frame env m inv = elim (Bool-cases m.on_event_filed) [
    | inl e ↦ rw e (file-DbInv _ (now_iso env) m.db inv)
    | inr e ↦ rw e (file-DbInv _ (now_iso env) _ (file-DbInv _ (now_iso env) m.db inv))
  ]

  pub ended_at :
      (i : ℕ) (frame : SimFrame N) (env : Env N) (m : Manager N)
      → m.current_flight_id ≡ some i
      → end_flight d frame env m
        ≡ end_tracking d (file_arrival d i frame env (close_current d i frame env m))
  unfolding end_flight
  ended_at i frame env m e = simp (e, end_flight)

  not_ended :
      (frame : SimFrame N) (env : Env N) (m : Manager N)
      → m.current_flight_id ≡ none
      → end_flight d frame env m ≡ m
  unfolding end_flight
  not_ended frame env m e = simp (e, end_flight)

  end_tracking-Sound : (m : Manager N) → DbInv m.db → Sound (end_tracking d m)
  unfolding end_tracking notify_scope_change
  end_tracking-Sound m inv = ((refl, refl, refl), inv)

  pub end_flight-Sound :
      (frame : SimFrame N) (env : Env N) (m : Manager N)
      → Sound m
      → Sound (end_flight d frame env m)
  end_flight-Sound frame env m s = elim (Option-cases m.current_flight_id) [
    | inl e ↦ rw (not_ended frame env m e) s
    | inr (i, e) ↦ rw (ended_at i frame env m e) (
        end_tracking-Sound (file_arrival d i frame env (close_current d i frame env m)) (
          file_arrival-DbInv i frame env (close_current d i frame env m)
            (close_current-DbInv i frame env m (s.1))))
  ]

  rebuilt-DbInv :
      (row : Flight N) (ps : List (FlightPoint N)) (frame : SimFrame N) (env : Env N)
      (m : Manager N)
      → DbInv m.db
      → DbInv (rebuilt d row ps frame env m).db
  unfolding rebuilt
  rebuilt-DbInv row [] frame env m inv = inv
  rebuilt-DbInv row (p ∷ ps) frame env m inv = inv

  refresh-Sound : (i : ℕ) (m : Manager N) → Sound m → Sound (refresh_planned_leg_for_flight d i m)
  unfolding refresh_planned_leg_for_flight notify_scope_change
  refresh-Sound i m s = s

  resume_fields-Sound :
      (row : Flight N) (env : Env N) (m : Manager N)
      → DbInv m.db
      → Sound (resume_fields d row env m)
  unfolding resume_fields
  resume_fields-Sound row env m inv = ((refl, refl, refl), inv)

  -- A flight that was open at boot is current and shown once it is resumed.
  pub resume_flight-Sound :
      (row : Flight N) (frame : SimFrame N) (env : Env N) (m : Manager N)
      → DbInv m.db
      → Sound (resume_flight d row frame env m)
  resume_flight-Sound row frame env m inv =
      let again = rebuilt d row (get_flight_track_points env.text_lt row.id m.db) frame env m in
      let fields = resume_fields d row env again in
      unfold resume_flight notify_scope_change in
      write_point-Sound frame env (refresh_planned_leg_for_flight d row.id fields) (
        refresh-Sound row.id fields (
          resume_fields-Sound row env again
            (rebuilt-DbInv row (get_flight_track_points env.text_lt row.id m.db) frame env m inv)))
