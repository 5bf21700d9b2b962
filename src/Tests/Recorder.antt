-- ===== src/Tests/Recorder.antt =====
-- The theorems about the flight recorder at concrete events.
use msfslogger.Base.{none, some, ℕ, ◌↔◌, true, false, ◌≡◌, refl, first_where}
use msfslogger.Db.PlannedLegs.{flight_is}
use msfslogger.FlightManager.Flight.{end_flight}
use msfslogger.FlightManager.Ending.{end_flight_closes}
use msfslogger.Db.{Flight, auto, crash}
use msfslogger.FlightManager.State.{flying, idle, Manager}
use msfslogger.FlightManager.Recording.{add_point}
use msfslogger.FlightManager.Frame.{
  is_airborne, idle_frame, touch_down, flying_frame, lost, on_frame, set_paused,
}
use msfslogger.FlightManager.Coherence.{Sound, is_flying}
use msfslogger.FlightManager.Runs.{Event, Run, Run-Sound}
use msfslogger.FlightManager.Behaviour.{touch_down_once, interrupted_not_counted}
use msfslogger.FlightManager.Takeoff.{takeoff_debounced}
use msfslogger.GroundState.{has_parked_debounce, next_parked_streak}
use msfslogger.Tests.Fixtures.{flight, whole, frame, env, recorder}
use msfslogger.Tests.Database.{logbook-DbInv}

abbrev waiting : Manager ℕ
waiting = recorder idle auto 2

waiting-Sound : Sound waiting
waiting-Sound = ((refl, refl, refl), logbook-DbInv auto)

-- A takeoff, a pause, and a crash.
Run-Sound_example :
    Sound (lost whole crash env (set_paused true 1 (on_frame whole (frame false 90) env waiting)))
Run-Sound_example =
    Run-Sound whole waiting
      (lost whole crash env (set_paused true 1 (on_frame whole (frame false 90) env waiting)))
      (Run.then_event _ _ _
        (Run.then_event _ _ _
          (Run.then_event _ _ _ (Run.stay waiting) (Event.telemetry (frame false 90) env waiting))
          (Event.pause_set true 1 (on_frame whole (frame false 90) env waiting)))
        (Event.agent_lost crash env
          (set_paused true 1 (on_frame whole (frame false 90) env waiting))))
      waiting-Sound

touch_down_once_example :
    touch_down whole (frame true 20) env (touch_down whole (frame true 60) env waiting)
    ≡ touch_down whole (frame true 60) env waiting
touch_down_once_example = touch_down_once whole (frame true 60) (frame true 20) env env waiting refl

-- The first of three airborne frames after one on the ground.
abbrev parked : Manager ℕ
parked = recorder idle auto 0

takeoff_debounced_example :
    (is_flying
        (on_frame whole
          (frame false 90)
          env
          (on_frame whole (frame false 90) env (on_frame whole (frame false 90) env parked))).state
      ≡ true)
    ↔ ((is_airborne whole (frame false 90) false ≡ true)
        × (is_airborne whole (frame false 90) false ≡ true)
        × (is_airborne whole (frame false 90) false ≡ true))
unfolding on_frame idle_frame has_parked_debounce next_parked_streak
takeoff_debounced_example =
    takeoff_debounced whole (frame false 90) (frame false 90) (frame false 90) env env env parked
      refl refl refl refl refl refl refl

interrupted_not_counted_example :
    ((flying_frame whole (frame false 90) true env waiting).db ≡ waiting.db)
    × ((add_point whole 1
          (frame false 90)
          env
          (flying_frame whole (frame false 90) true env waiting)).active_ms
        ≡ waiting.active_ms)
interrupted_not_counted_example =
    interrupted_not_counted whole 1 (frame false 90) (frame false 90) true env env waiting refl

abbrev airborne : Manager ℕ
airborne = record waiting { state = flying; current_flight_id = some 1 }

end_flight_closes_example :
    (g : Flight ℕ) × (first_where
        (flight_is 1)
        (end_flight whole (frame true 0) env airborne).db.flights
      ≡ some g)
    × (g.end_time ≡ some "2026-01-04")
    × (g.arrival_lat ≡ some 46)
    × (g.arrival_lon ≡ some 7)
    × (g.point_count ≡ some 0)
    × (g.start_time ≡ "2026-01-02")
    × ((end_flight whole (frame true 0) env airborne).current_flight_id ≡ none)
    × ((end_flight whole (frame true 0) env airborne).state ≡ idle)
unfolding first_where
end_flight_closes_example =
    end_flight_closes whole 1 (frame true 0) env airborne (flight 1 (some 9) none none) refl refl
