-- ===== src/FlightManager/Coherence.antt =====
-- What the flight recorder (src/flightManager.ts) keeps true between events, and the helpers that
-- write neither the state, nor the flight, nor what the API shows.
use msfslogger.Base.{
  ℕ, Bool, true, false, Option, none, some, String, ◌≡◌, refl, ◌∙◌, inl, inr, ◌⊎◌, Option-cases,
  Bool-cases, if◌then◌else◌, is_some, ltb, leb, ◌+◌, ◌==◌, ◌||◌,
}
use msfslogger.Base.Double.{Double}
use msfslogger.Db.{Db, auto, Result, ok, thrown, OnOk}
use msfslogger.Db.PlannedLegs.{LegError, link_flight_to_planned_leg}
use msfslogger.Db.Sound.{DbInv, link-DbInv}
use msfslogger.Db.Sound.Writes.{insert_point-DbInv, file-DbInv}
use msfslogger.GroundState.{SimFrame}
use msfslogger.Airports.{find_nearest_airport}
use msfslogger.FlightManager.State.{
  FlightState, idle, ground, flying, ended, OooiEvent, on_event, now_iso, Manager, Env,
  PlannedLegCache,
}
use msfslogger.FlightManager.Legs.{
  get_leg, get_planned_leg_status, matched_leg, auto_link, cache_linked, auto_link_planned_leg,
}
use msfslogger.FlightManager.Recording.{
  file_report, report_window, report_in_window, report_if_due, maybe_file_position_report,
  add_point, write_point, record_point, record_interval_ms,
}
use msfslogger.FlightManager.Flight.{file_oooi, file_touchdown_on, airport_icao}

abbrev pub is_flying : FlightState → Bool
is_flying flying = true
is_flying _ = false

-- Exactly one of the four states.
pub FlightState-cases :
    (s : FlightState) → (s ≡ idle) ⊎ ((s ≡ ground) ⊎ ((s ≡ flying) ⊎ (s ≡ ended)))
FlightState-cases idle = inl refl
FlightState-cases ground = inr (inl refl)
FlightState-cases flying = inr (inr (inl refl))
FlightState-cases ended = inr (inr (inr refl))

module _ {N : Type 0} where
  -- The API shows the state and the flight, and a flight is current exactly while FLYING.
  abbrev pub Coherent : Manager N → Type 0
  Coherent m =
      (m.app.flight_state ≡ m.state)
      × (m.app.current_flight_id ≡ m.current_flight_id)
      × (is_flying m.state ≡ is_some m.current_flight_id)

  -- Coherent, over a database that is as it should be.
  abbrev pub Sound : Manager N → Type 0
  Sound m = Coherent m × DbInv m.db

  -- State, flight and view are as before, and so is the invariant of the database.
  abbrev pub Keeps : Manager N → Manager N → Type 0
  Keeps m m' =
      (m'.state ≡ m.state)
      × (m'.current_flight_id ≡ m.current_flight_id)
      × (m'.app ≡ m.app)
      × (DbInv m.db → DbInv m'.db)

  pub Keeps-trans : (a b c : Manager N) → Keeps a b → Keeps b c → Keeps a c
  Keeps-trans a b c p q = (q.0 ∙ p.0, q.1 ∙ p.1, q.2 ∙ p.2, λ h. q.3 (p.3 h))

  -- Both ways of a test.
  pub Sound-if : (b : Bool) (x y : Manager N) → Sound x → Sound y → Sound (if b then x else y)
  Sound-if true x y p q = p
  Sound-if false x y p q = q

  pub Sound-Keeps : (a b : Manager N) → Keeps a b → Sound a → Sound b
  Sound-Keeps a b k s =
      ((rw (k.0, k.2) (s.0.0), rw (k.1, k.2) (s.0.1), rw (k.0, k.1) (s.0.2)), k.3 (s.1))

  pub file_oooi-Keeps :
      (i : ℕ) (e : OooiEvent) (at : String) (icao stand : Option String) (est : Bool)
      (frame : SimFrame N) (env : Env N) (m : Manager N)
      → Keeps m (file_oooi i e at icao stand est frame env m)
  unfolding file_oooi
  file_oooi-Keeps i e at icao stand est frame env m = (refl, refl, refl, λ h. file-DbInv _ _ m.db h)

module _ {N : Type 0} (d : Double N) where
  file_report-Keeps :
      (i : ℕ) (c : PlannedLegCache N) (w : ℕ) (frame : SimFrame N) (env : Env N) (m : Manager N)
      → Keeps m (file_report d i c w frame env m)
  unfolding file_report
  file_report-Keeps i c w frame env m =
      elim (Option-cases (get_planned_leg_status d frame.lat frame.lon c)) [
        | inl e ↦ rw (e, file_report) (refl, refl, refl, λ h. h)
        | inr (s, e) ↦ rw (e, file_report) (refl, refl, refl, λ h. file-DbInv _ _ m.db h)
      ]

  report_in_window-Keeps :
      (i : ℕ) (c : PlannedLegCache N) (frame : SimFrame N) (env : Env N) (m : Manager N)
      → Keeps m (report_in_window d i c frame env m)
  unfolding report_in_window
  report_in_window-Keeps i c frame env m =
      elim (Bool-cases (
        ltb (report_window d env m) 1
        || leb (report_window d env m) m.last_position_report_window)) [
          | inl old ↦ rw old (refl, refl, refl, λ h. h)
          | inr new ↦ rw new (
              file_report-Keeps i c (report_window d env m) frame env
                (record m { last_position_report_window = report_window d env m }))
        ]

  report_if_due-Keeps :
      (i : ℕ) (frame : SimFrame N) (env : Env N) (m : Manager N)
      → Keeps m (report_if_due d i frame env m)
  unfolding report_if_due
  report_if_due-Keeps i frame env m = elim (Bool-cases (m.position_report_interval_ms == 0)) [
    | inl off ↦ rw off (refl, refl, refl, λ h. h)
    | inr on ↦ elim (Option-cases m.planned_leg_cache) [
      | inl gone ↦ rw (on, gone) (refl, refl, refl, λ h. h)
      | inr (c, cached) ↦ rw (on, cached) (report_in_window-Keeps i c frame env m)
    ]
  ]

  report_of_none :
      (frame : SimFrame N) (env : Env N) (m : Manager N)
      → m.current_flight_id ≡ none
      → maybe_file_position_report d frame env m ≡ m
  unfolding maybe_file_position_report
  report_of_none frame env m e = simp (e, maybe_file_position_report)

  report_of_some :
      (i : ℕ) (frame : SimFrame N) (env : Env N) (m : Manager N)
      → m.current_flight_id ≡ some i
      → maybe_file_position_report d frame env m ≡ report_if_due d i frame env m
  unfolding maybe_file_position_report
  report_of_some i frame env m e = simp (e, maybe_file_position_report)

  pub maybe_file_position_report-Keeps :
      (frame : SimFrame N) (env : Env N) (m : Manager N)
      → Keeps m (maybe_file_position_report d frame env m)
  maybe_file_position_report-Keeps frame env m = elim (Option-cases m.current_flight_id) [
    | inl e ↦ rw (report_of_none frame env m e) (refl, refl, refl, λ h. h)
    | inr (i, e) ↦ rw (report_of_some i frame env m e) (report_if_due-Keeps i frame env m)
  ]

  pub add_point-Keeps :
      (i : ℕ) (frame : SimFrame N) (env : Env N) (m : Manager N)
      → Keeps m (add_point d i frame env m)
  unfolding add_point
  add_point-Keeps i frame env m = (refl, refl, refl, λ h. insert_point-DbInv _ m.db h)

  pub write_of_none :
      (frame : SimFrame N) (env : Env N) (m : Manager N)
      → m.current_flight_id ≡ none
      → write_point d frame env m ≡ m
  unfolding write_point
  write_of_none frame env m e = simp (e, write_point)

  pub write_of_some :
      (i : ℕ) (frame : SimFrame N) (env : Env N) (m : Manager N)
      → m.current_flight_id ≡ some i
      → write_point d frame env m
        ≡ maybe_file_position_report d frame env (add_point d i frame env m)
  unfolding write_point
  write_of_some i frame env m e = simp (e, write_point)

  pub write_point-Keeps :
      (frame : SimFrame N) (env : Env N) (m : Manager N) → Keeps m (write_point d frame env m)
  write_point-Keeps frame env m = elim (Option-cases m.current_flight_id) [
    | inl e ↦ rw (write_of_none frame env m e) (refl, refl, refl, λ h. h)
    | inr (i, e) ↦ rw (write_of_some i frame env m e) (
        Keeps-trans m (add_point d i frame env m)
          (maybe_file_position_report d frame env (add_point d i frame env m))
          (add_point-Keeps i frame env m)
          (maybe_file_position_report-Keeps frame env (add_point d i frame env m)))
  ]

  pub record_point-Keeps :
      (frame : SimFrame N) (env : Env N) (m : Manager N) → Keeps m (record_point d frame env m)
  unfolding record_point
  record_point-Keeps frame env m =
      elim (Bool-cases (ltb env.now_ms (m.last_point_time + record_interval_ms))) [
        | inl soon ↦ rw soon (refl, refl, refl, λ h. h)
        | inr due ↦ rw due (write_point-Keeps frame env m)
      ]

  pub touchdown_of_none :
      (frame : SimFrame N) (env : Env N) (m : Manager N)
      → m.current_flight_id ≡ none
      → file_touchdown_on d frame env m ≡ record m { on_event_filed = true }
  unfolding file_touchdown_on
  touchdown_of_none frame env m e = simp (e, file_touchdown_on)

  pub touchdown_of_some :
      (i : ℕ) (frame : SimFrame N) (env : Env N) (m : Manager N)
      → m.current_flight_id ≡ some i
      → file_touchdown_on d frame env m
        ≡ file_oooi i on_event
            (now_iso env)
            (airport_icao (find_nearest_airport d env.airports frame.lat frame.lon))
            none
            false
            frame
            env
            (record m { on_event_filed = true })
  unfolding file_touchdown_on
  touchdown_of_some i frame env m e = simp (e, file_touchdown_on)

  cache_linked-Keeps :
      (i l : ℕ) (r : Result LegError (Db N)) (m : Manager N)
      → (DbInv m.db → OnOk DbInv r)
      → Keeps m (cache_linked d i l r m)
  unfolding cache_linked
  cache_linked-Keeps i l (thrown e) m k = (refl, refl, refl, λ h. h)
  cache_linked-Keeps i l (ok db') m k = elim (Option-cases (get_leg l m.db)) [
    | inl e ↦ rw (e, cache_linked) (refl, refl, refl, k)
    | inr (leg, e) ↦ rw (e, cache_linked) (refl, refl, refl, k)
  ]

  pub file_touchdown_on-Keeps :
      (frame : SimFrame N) (env : Env N) (m : Manager N) → Keeps m (file_touchdown_on d frame env m)
  unfolding file_touchdown_on
  file_touchdown_on-Keeps frame env m = elim (Option-cases m.current_flight_id) [
    | inl e ↦ rw (touchdown_of_none frame env m e) (refl, refl, refl, λ h. h)
    | inr (i, e) ↦
        rw (touchdown_of_some i frame env m e)
          (file_oooi-Keeps i on_event _ _ none false frame env (record m { on_event_filed = true }))
  ]

  pub auto_link_planned_leg-Keeps :
      (i : ℕ) (frame : SimFrame N) (start : String) (m : Manager N)
      → Keeps m (auto_link_planned_leg d i frame start m)
  unfolding auto_link_planned_leg
  auto_link_planned_leg-Keeps i frame start m =
      elim (Option-cases (matched_leg d frame start m.db)) [
        | inl e ↦ rw (e, auto_link_planned_leg) (refl, refl, refl, λ h. h)
        | inr (l, e) ↦
            rw (e, auto_link_planned_leg)
              (unfold auto_link in
                cache_linked-Keeps i l (link_flight_to_planned_leg i l auto m.db) m
                  (link-DbInv i l auto m.db))
      ]
