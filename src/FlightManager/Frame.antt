-- ===== src/FlightManager/Frame.antt =====
-- The event handlers of the flight recorder: a telemetry frame, a crash, an agent that went away,
-- a pause (src/flightManager.ts).
use msfslogger.Base.{
  ℕ, suc, Bool, true, false, not, Option, none, some, if◌then◌else◌, leb, ◌&&◌, ◌||◌, is_none,
}
use msfslogger.Base.Double.{Double}
use msfslogger.Db.{sim_exit, crash, slew, superseded, EndReason, Flight}
use msfslogger.Db.Flights.{get_open_flight}
use msfslogger.GroundState.{SimFrame, next_parked_streak, has_parked_debounce, has_left_anchor}
use msfslogger.FlightManager.State.{
  FlightState, idle, ground, flying, ended, Manager, Env, Anchor, now_iso, set_app_frame,
}
use msfslogger.FlightManager.Ground.{
  enter_ground, close_ground_session_and_return_to_idle,
  close_auto_ground_session_and_return_to_idle,
}
use msfslogger.FlightManager.Recording.{record_point}
use msfslogger.FlightManager.Flight.{start_flight, end_flight, file_touchdown_on}
use msfslogger.FlightManager.Resume.{resume_flight}

abbrev pub airborne_debounce_frames : ℕ
airborne_debounce_frames = 3

abbrev pub landed_debounce_frames : ℕ
landed_debounce_frames = 10

abbrev pub is_idle : FlightState → Bool
is_idle idle = true
is_idle _ = false

module _ {N : Type 0} (d : Double N) where
  open d use {lit, lt, le}

  -- `!inSlew && !frame.onGround && frame.airspeedKnots > 30`
  unfoldable pub is_airborne : SimFrame N → Bool → Bool
  is_airborne frame in_slew =
      not in_slew && (not frame.on_ground && lt (lit 30) frame.airspeed_knots)

  -- The debounce itself, once the open-flight lookup is out of the way.
  unfoldable pub debounce_airborne : SimFrame N → Bool → Env N → Manager N → Manager N
  unfolding is_airborne
  debounce_airborne frame in_slew env m =
      if is_airborne frame in_slew
      then (if leb airborne_debounce_frames (suc m.airborne_streak)
          then start_flight d frame env (record m { airborne_streak = suc m.airborne_streak })
          else record m { airborne_streak = suc m.airborne_streak })
      else record m { airborne_streak = 0 }

  -- What the first look for an open flight leads to; `m` has the look noted.
  unfoldable pub resume_or_debounce :
      Option (Flight N) → SimFrame N → Bool → Env N → Manager N → Manager N
  unfolding debounce_airborne resume_flight
  resume_or_debounce (some row) frame in_slew env m = resume_flight d row frame env m
  resume_or_debounce none frame in_slew env m = debounce_airborne frame in_slew env m

  unfoldable pub check_airborne_debounce : SimFrame N → Bool → Env N → Manager N → Manager N
  unfolding resume_or_debounce
  check_airborne_debounce frame in_slew env m =
      if m.open_flight_checked_at_boot
      then debounce_airborne frame in_slew env m
      else resume_or_debounce (get_open_flight env.text_lt m.db) frame in_slew env
          (record m { open_flight_checked_at_boot = true })

  -- The rest of the IDLE case, after the debounce.
  unfoldable pub count_parked : SimFrame N → Env N → Manager N → Manager N
  count_parked frame env m =
      if is_idle m.state
      then (let streak = next_parked_streak d m.ground_streak frame in
          if has_parked_debounce streak
          then enter_ground d frame env (record m { ground_streak = streak })
          else record m { ground_streak = streak })
      else m

  unfoldable pub idle_frame : SimFrame N → Bool → Env N → Manager N → Manager N
  unfolding check_airborne_debounce count_parked
  idle_frame frame in_slew env m =
      count_parked frame env (check_airborne_debounce frame in_slew env m)

  unfoldable pub left_anchor : SimFrame N → Option (Anchor N) → Bool
  left_anchor frame none = false
  left_anchor frame (some a) = has_left_anchor d a.lat a.lon frame.lat frame.lon

  -- The off-blocks memo: the first frame at taxi speed.
  unfoldable pub note_off_blocks : SimFrame N → Env N → Manager N → Manager N
  note_off_blocks frame env m =
      if is_none m.out_blocks_at && (frame.on_ground && le (lit 3) frame.ground_speed_knots)
      then record m { out_blocks_at = some (now_iso env) }
      else m

  unfoldable pub ground_frame : SimFrame N → Bool → Env N → Manager N → Manager N
  unfolding left_anchor note_off_blocks check_airborne_debounce
  ground_frame frame in_slew env m =
      if in_slew
      then close_ground_session_and_return_to_idle slew env m
      else (if left_anchor frame m.ground_anchor
          then close_ground_session_and_return_to_idle superseded env m
          else check_airborne_debounce frame in_slew env (note_off_blocks frame env m))

  unfoldable pub count_landed : SimFrame N → Env N → Manager N → Manager N
  count_landed frame env m =
      if frame.on_ground && lt frame.ground_speed_knots (lit 5)
      then (if leb landed_debounce_frames (suc m.landed_streak)
          then end_flight d frame env (record m { landed_streak = suc m.landed_streak })
          else record m { landed_streak = suc m.landed_streak })
      else record m { landed_streak = 0 }

  unfoldable pub touch_down : SimFrame N → Env N → Manager N → Manager N
  touch_down frame env m =
      if frame.on_ground && not m.on_event_filed then file_touchdown_on d frame env m else m

  unfoldable pub flying_frame : SimFrame N → Bool → Env N → Manager N → Manager N
  unfolding count_landed touch_down
  flying_frame frame in_slew env m =
      if in_slew || m.is_paused
      then record m { interrupted = true }
      else count_landed frame env (touch_down frame env (record_point d frame env m))

  -- `simRunning === 0`: the sim says that it is not running.
  unfoldable pub stopped_in : FlightState → SimFrame N → Env N → Manager N → Manager N
  unfolding end_flight close_ground_session_and_return_to_idle
  stopped_in flying frame env m = end_flight d frame env m
  stopped_in ground frame env m = close_ground_session_and_return_to_idle sim_exit env m
  stopped_in _ frame env m = m

  -- `switch (this.state)`
  unfoldable pub frame_in : FlightState → SimFrame N → Bool → Env N → Manager N → Manager N
  unfolding idle_frame ground_frame flying_frame
  frame_in idle frame in_slew env m = idle_frame frame in_slew env m
  frame_in ground frame in_slew env m = ground_frame frame in_slew env m
  frame_in flying frame in_slew env m = flying_frame frame in_slew env m
  frame_in ended frame in_slew env m = m

  unfoldable pub on_frame : SimFrame N → Env N → Manager N → Manager N
  unfolding stopped_in frame_in
  on_frame frame env m =
      let seen = record m { app = set_app_frame frame m.app } in
      if d.eq frame.sim_running (d.lit 0)
      then stopped_in m.state frame env seen
      else frame_in m.state frame (d.eq frame.sim_running (d.lit 3)) env seen

  -- `if (frame) this.endFlight(frame)`
  unfoldable pub end_at_last_frame : Option (SimFrame N) → Env N → Manager N → Manager N
  unfolding end_flight
  end_at_last_frame none env m = m
  end_at_last_frame (some frame) env m = end_flight d frame env m

  -- onCrash() and onSimDisconnect(), which differ in the reason alone.
  unfoldable pub lost_in : FlightState → EndReason → Env N → Manager N → Manager N
  unfolding end_at_last_frame close_auto_ground_session_and_return_to_idle
  lost_in flying reason env m = end_at_last_frame m.app.last_frame env m
  lost_in ground reason env m = close_auto_ground_session_and_return_to_idle reason env m
  lost_in _ reason env m = m

  unfoldable pub lost : EndReason → Env N → Manager N → Manager N
  unfolding lost_in
  lost reason env m = lost_in m.state reason env m

  unfoldable pub on_crash : Env N → Manager N → Manager N
  unfolding lost
  on_crash = lost crash

  unfoldable pub on_sim_disconnect : Env N → Manager N → Manager N
  unfolding lost
  on_sim_disconnect = lost sim_exit

module _ {N : Type 0} where
  unfoldable pub set_paused : Bool → ℕ → Manager N → Manager N
  set_paused paused flags m = record m {
    interrupted = if paused then true else m.interrupted;
    is_paused = paused;
    app = record (m.app) { paused = paused; pause_flags = if paused then flags else 0 };
  }
