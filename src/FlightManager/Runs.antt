-- ===== src/FlightManager/Runs.antt =====
-- Sequences of events (src/flightManager.ts): what the server calls, in any order, and the two
-- writes of the routes that the recorder is told about.
use msfslogger.Base.{ℕ, Bool}
use msfslogger.Base.Double.{Double}
use msfslogger.Db.{EndReason}
use msfslogger.GroundState.{SimFrame}
use msfslogger.FlightManager.State.{Manager, Env, notify_scope_change}
use msfslogger.FlightManager.Legs.{refresh_planned_leg_for_flight}
use msfslogger.FlightManager.Frame.{on_frame, lost, set_paused}
use msfslogger.FlightManager.Coherence.{Sound}
use msfslogger.FlightManager.Events.{on_frame-Sound, lost-Sound}

-- One call of the recorder.
pub data Event {N : Type 0} (d : Double N) : Manager N → Manager N → Type 0 where
  telemetry :
      (frame : SimFrame N) (env : Env N) (m : Manager N) → Event d m (on_frame d frame env m)
  agent_lost : (r : EndReason) (env : Env N) (m : Manager N) → Event d m (lost d r env m)
  pause_set : (p : Bool) (flags : ℕ) (m : Manager N) → Event d m (set_paused p flags m)
  leg_refreshed : (i : ℕ) (m : Manager N) → Event d m (refresh_planned_leg_for_flight d i m)

-- Any number of them, one after the other.
pub data Run {N : Type 0} (d : Double N) : Manager N → Manager N → Type 0 where
  stay : (m : Manager N) → Run d m m
  then_event : (a b c : Manager N) → Run d a b → Event d b c → Run d a c

module _ {N : Type 0} (d : Double N) where
  set_paused-Sound : (p : Bool) (flags : ℕ) (m : Manager N) → Sound m → Sound (set_paused p flags m)
  unfolding set_paused
  set_paused-Sound p flags m s = s

  refresh-Sound : (i : ℕ) (m : Manager N) → Sound m → Sound (refresh_planned_leg_for_flight d i m)
  unfolding refresh_planned_leg_for_flight notify_scope_change
  refresh-Sound i m s = s

  Event-Sound : (a b : Manager N) → Event d a b → Sound a → Sound b
  Event-Sound a b (telemetry frame env m) s = on_frame-Sound d frame env m s
  Event-Sound a b (agent_lost r env m) s = lost-Sound d r env m s
  Event-Sound a b (pause_set p flags m) s = set_paused-Sound p flags m s
  Event-Sound a b (leg_refreshed i m) s = refresh-Sound i m s

  -- After any sequence of telemetry frames, pauses, losses of the agent and refreshes of the
  -- planned leg, a recorder that was sound is sound: a flight is current exactly while FLYING, the
  -- API shows it, no leg is linked to two flights, and at most one ground session is open.
  pub Run-Sound : (a b : Manager N) → Run d a b → Sound a → Sound b
  Run-Sound a b (stay m) s = s
  Run-Sound a b (then_event x y z r e) s = Event-Sound y z e (Run-Sound x y r s)
