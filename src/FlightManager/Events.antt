-- ===== src/FlightManager/Events.antt =====
-- Every event handler of the flight recorder (src/flightManager.ts) leaves it sound: state, current
-- flight and what the API shows agree, over a database that is as it should be.
use msfslogger.Base.{
  suc, Bool, true, false, Option, none, some, ◌≡◌, refl, ◌∙◌, inl, inr, Bool-cases, if◌then◌else◌,
  leb, ◌||◌, not, ◌&&◌, sym, ap, subst, false≢true,
}
use msfslogger.Base.Double.{Double}
use msfslogger.Db.{Flight, EndReason, sim_exit, slew, superseded}
use msfslogger.Db.Flights.{get_open_flight}
use msfslogger.GroundState.{SimFrame, next_parked_streak, has_parked_debounce}
use msfslogger.FlightManager.State.{
  FlightState, idle, ground, flying, ended, Manager, Env, set_app_frame,
}
use msfslogger.FlightManager.Ground.{enter_ground}
use msfslogger.FlightManager.Recording.{record_point}
use msfslogger.FlightManager.Flight.{file_touchdown_on}
use msfslogger.FlightManager.Frame.{
  is_airborne, debounce_airborne, check_airborne_debounce, count_parked, idle_frame, left_anchor,
  note_off_blocks, ground_frame, count_landed, touch_down, flying_frame, on_frame, lost, is_idle,
  airborne_debounce_frames, landed_debounce_frames,
}
use msfslogger.FlightManager.Coherence.{
  Sound, Sound-Keeps, FlightState-cases, record_point-Keeps, file_touchdown_on-Keeps,
}
use msfslogger.FlightManager.Coherence.{Sound-if}
use msfslogger.FlightManager.Frame.{
  resume_or_debounce, stopped_in, frame_in, end_at_last_frame, lost_in,
}
use msfslogger.FlightManager.Transitions.{
  no_flight, close_ground-Sound, close_auto-Sound, enter_ground-Sound, start_flight-Sound,
  end_flight-Sound, resume_flight-Sound,
}

module _ {N : Type 0} (d : Double N) where
  debounce-Sound :
      (frame : SimFrame N) (slewing : Bool) (env : Env N) (m : Manager N)
      → Sound m
      → Sound (debounce_airborne d frame slewing env m)
  unfolding debounce_airborne
  debounce-Sound frame slewing env m s =
      let counted = record m { airborne_streak = suc m.airborne_streak } in
      Sound-if (is_airborne d frame slewing) _ _
        (Sound-if (leb airborne_debounce_frames (suc m.airborne_streak)) _ _
          (start_flight-Sound d frame env counted (s.1)) s)
        s

  resume_or_debounce-Sound :
      (row : Option (Flight N)) (frame : SimFrame N) (slewing : Bool) (env : Env N) (m : Manager N)
      → Sound m
      → Sound (resume_or_debounce d row frame slewing env m)
  unfolding resume_or_debounce
  resume_or_debounce-Sound (some row) frame slewing env m s =
      resume_flight-Sound d row frame env m (s.1)
  resume_or_debounce-Sound none frame slewing env m s = debounce-Sound frame slewing env m s

  check_debounce-Sound :
      (frame : SimFrame N) (slewing : Bool) (env : Env N) (m : Manager N)
      → Sound m
      → Sound (check_airborne_debounce d frame slewing env m)
  unfolding check_airborne_debounce
  check_debounce-Sound frame slewing env m s =
      let noted = record m { open_flight_checked_at_boot = true } in
      Sound-if m.open_flight_checked_at_boot _ _ (debounce-Sound frame slewing env m s)
        (resume_or_debounce-Sound (get_open_flight env.text_lt m.db) frame slewing env noted s)

  idle_no_flight : (m : Manager N) → is_idle m.state ≡ true → Sound m → m.current_flight_id ≡ none
  idle_no_flight m e s = elim (FlightState-cases m.state) [
    | inl st ↦ no_flight m idle st refl s
    | inr (inl st) ↦ no_flight m ground st refl s
    | inr (inr (inl st)) ↦ absurd (false≢true (sym (ap is_idle st) ∙ e))
    | inr (inr (inr st)) ↦ no_flight m ended st refl s
  ]

  not_idle :
      (frame : SimFrame N) (env : Env N) (m : Manager N)
      → is_idle m.state ≡ false
      → count_parked d frame env m ≡ m
  unfolding count_parked
  not_idle frame env m e = simp (e, count_parked)

  at_idle :
      (frame : SimFrame N) (env : Env N) (m : Manager N)
      → is_idle m.state ≡ true
      → count_parked d frame env m ≡ (
          if has_parked_debounce (next_parked_streak d m.ground_streak frame)
          then enter_ground d frame env
              (record m { ground_streak = next_parked_streak d m.ground_streak frame })
          else record m { ground_streak = next_parked_streak d m.ground_streak frame })
  unfolding count_parked
  at_idle frame env m e = simp (e, count_parked)

  count_parked-Sound :
      (frame : SimFrame N) (env : Env N) (m : Manager N)
      → Sound m
      → Sound (count_parked d frame env m)
  count_parked-Sound frame env m s = elim (Bool-cases (is_idle m.state)) [
    | inr e ↦ subst Sound (sym (not_idle frame env m e)) s
    | inl e ↦ subst Sound (sym (at_idle frame env m e)) (
        Sound-if (has_parked_debounce (next_parked_streak d m.ground_streak frame)) _ _
          (enter_ground-Sound d frame env
            (record m { ground_streak = next_parked_streak d m.ground_streak frame })
            (idle_no_flight m e s) s)
          s)
  ]

  idle_frame-Sound :
      (frame : SimFrame N) (slewing : Bool) (env : Env N) (m : Manager N)
      → Sound m
      → Sound (idle_frame d frame slewing env m)
  unfolding idle_frame
  idle_frame-Sound frame slewing env m s =
      count_parked-Sound frame env (check_airborne_debounce d frame slewing env m)
        (check_debounce-Sound frame slewing env m s)

  note_off_blocks-Sound :
      (frame : SimFrame N) (env : Env N) (m : Manager N)
      → Sound m
      → Sound (note_off_blocks d frame env m)
  unfolding note_off_blocks
  note_off_blocks-Sound frame env m s = Sound-if _ _ _ s s

  ground_frame-Sound :
      (frame : SimFrame N) (slewing : Bool) (env : Env N) (m : Manager N)
      → m.current_flight_id ≡ none
      → Sound m
      → Sound (ground_frame d frame slewing env m)
  unfolding ground_frame
  ground_frame-Sound frame slewing env m e s =
      Sound-if slewing _ _ (close_ground-Sound slew env m e s) (
        Sound-if (left_anchor d frame m.ground_anchor) _ _ (close_ground-Sound superseded env m e s)
          (check_debounce-Sound frame slewing env (note_off_blocks d frame env m)
            (note_off_blocks-Sound frame env m s)))

  count_landed-Sound :
      (frame : SimFrame N) (env : Env N) (m : Manager N)
      → Sound m
      → Sound (count_landed d frame env m)
  unfolding count_landed
  count_landed-Sound frame env m s =
      let counted = record m { landed_streak = suc m.landed_streak } in
      Sound-if _ _ _
        (Sound-if (leb landed_debounce_frames (suc m.landed_streak)) _ _
          (end_flight-Sound d frame env counted s) s)
        s

  touch_down-Sound :
      (frame : SimFrame N) (env : Env N) (m : Manager N)
      → Sound m
      → Sound (touch_down d frame env m)
  unfolding touch_down
  touch_down-Sound frame env m s =
      Sound-if (frame.on_ground && not m.on_event_filed) _ _
        (Sound-Keeps m (file_touchdown_on d frame env m) (file_touchdown_on-Keeps d frame env m) s)
        s

  flying_frame-Sound :
      (frame : SimFrame N) (slewing : Bool) (env : Env N) (m : Manager N)
      → Sound m
      → Sound (flying_frame d frame slewing env m)
  unfolding flying_frame
  flying_frame-Sound frame slewing env m s =
      let recorded = record_point d frame env m in
      Sound-if (slewing || m.is_paused) _ _ s (
        count_landed-Sound frame env (touch_down d frame env recorded) (
          touch_down-Sound frame env recorded
            (Sound-Keeps m recorded (record_point-Keeps d frame env m) s)))

  frame_in-Sound :
      (st : FlightState) (frame : SimFrame N) (slewing : Bool) (env : Env N) (m : Manager N)
      → m.state ≡ st
      → Sound m
      → Sound (frame_in d st frame slewing env m)
  unfolding frame_in
  frame_in-Sound idle frame slewing env m e s = idle_frame-Sound frame slewing env m s
  frame_in-Sound ground frame slewing env m e s =
      ground_frame-Sound frame slewing env m (no_flight m ground e refl s) s
  frame_in-Sound flying frame slewing env m e s = flying_frame-Sound frame slewing env m s
  frame_in-Sound ended frame slewing env m e s = s

  stopped_in-Sound :
      (st : FlightState) (frame : SimFrame N) (env : Env N) (m : Manager N)
      → m.state ≡ st
      → Sound m
      → Sound (stopped_in d st frame env m)
  unfolding stopped_in
  stopped_in-Sound idle frame env m e s = s
  stopped_in-Sound ground frame env m e s =
      close_ground-Sound sim_exit env m (no_flight m ground e refl s) s
  stopped_in-Sound flying frame env m e s = end_flight-Sound d frame env m s
  stopped_in-Sound ended frame env m e s = s

  -- Whatever telemetry frame comes in, in whatever state: state, current flight and what the API
  -- shows agree afterwards if they did before, a flight is current exactly while FLYING, and the
  -- links and sessions of the database are as they should be.
  pub on_frame-Sound :
      (frame : SimFrame N) (env : Env N) (m : Manager N) → Sound m → Sound (on_frame d frame env m)
  unfolding on_frame
  on_frame-Sound frame env m s =
      let seen = record m { app = set_app_frame frame m.app } in
      Sound-if (d.eq frame.sim_running (d.lit 0)) _ _
        (stopped_in-Sound m.state frame env seen refl s)
        (frame_in-Sound m.state frame (d.eq frame.sim_running (d.lit 3)) env seen refl s)

  end_at_last-Sound :
      (last : Option (SimFrame N)) (env : Env N) (m : Manager N)
      → Sound m
      → Sound (end_at_last_frame d last env m)
  unfolding end_at_last_frame
  end_at_last-Sound none env m s = s
  end_at_last-Sound (some frame) env m s = end_flight-Sound d frame env m s

  lost_in-Sound :
      (st : FlightState) (r : EndReason) (env : Env N) (m : Manager N)
      → m.state ≡ st
      → Sound m
      → Sound (lost_in d st r env m)
  unfolding lost_in
  lost_in-Sound idle r env m e s = s
  lost_in-Sound ground r env m e s = close_auto-Sound r env m (no_flight m ground e refl s) s
  lost_in-Sound flying r env m e s = end_at_last-Sound m.app.last_frame env m s
  lost_in-Sound ended r env m e s = s

  -- The same of a crash and of an agent that went away, for whichever reason is recorded.
  pub lost-Sound : (r : EndReason) (env : Env N) (m : Manager N) → Sound m → Sound (lost d r env m)
  unfolding lost
  lost-Sound r env m s = lost_in-Sound m.state r env m refl s
