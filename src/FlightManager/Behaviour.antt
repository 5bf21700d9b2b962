-- ===== src/FlightManager/Behaviour.antt =====
-- How the flight recorder behaves on a frame (src/flightManager.ts): touchdown, and gaps in
-- the recorded time.
use msfslogger.Base.{
  ℕ, Bool, true, false, ◌≡◌, refl, ◌∙◌, inl, inr, Option-cases, Bool-cases, ltb, ◌||◌, ap,
}
use msfslogger.Base.Double.{Double}
use msfslogger.GroundState.{SimFrame}
use msfslogger.FlightManager.State.{Manager, Env}
use msfslogger.FlightManager.Recording.{count_gap, add_point}
use msfslogger.FlightManager.Flight.{file_oooi, file_touchdown_on}
use msfslogger.FlightManager.Frame.{touch_down, flying_frame}
use msfslogger.FlightManager.Coherence.{touchdown_of_none, touchdown_of_some}

module _ {N : Type 0} (d : Double N) where
  -- Filing the touchdown sets the flag, whether or not a flight is current.
  touchdown_flag :
      (frame : SimFrame N) (env : Env N) (m : Manager N)
      → (file_touchdown_on d frame env m).on_event_filed ≡ true
  touchdown_flag frame env m = elim (Option-cases m.current_flight_id) [
    | inl e ↦ rw (touchdown_of_none d frame env m e) refl
    | inr (i, e) ↦ rw (touchdown_of_some d i frame env m e) (unfold file_oooi in refl)
  ]

  touch_down_done :
      (frame : SimFrame N) (env : Env N) (m : Manager N)
      → m.on_event_filed ≡ true
      → touch_down d frame env m ≡ m
  unfolding touch_down
  touch_down_done frame env m e = elim (Bool-cases frame.on_ground) [
    | inl g ↦ simp (e, g)
    | inr g ↦ simp (e, g)
  ]

  touch_down_first :
      (frame : SimFrame N) (env : Env N) (m : Manager N)
      → frame.on_ground ≡ true
      → m.on_event_filed ≡ false
      → touch_down d frame env m ≡ file_touchdown_on d frame env m
  unfolding touch_down
  touch_down_first frame env m g e = simp (e, g)

  -- After the touchdown step of a frame on the ground, the touchdown step of any further frame
  -- changes nothing.
  pub touch_down_once :
      (f g : SimFrame N) (e e' : Env N) (m : Manager N)
      → f.on_ground ≡ true
      → touch_down d g e' (touch_down d f e m) ≡ touch_down d f e m
  touch_down_once f g e e' m on = touch_down_done g e' (touch_down d f e m) flag
    where
      flag : (touch_down d f e m).on_event_filed ≡ true
      flag = elim (Bool-cases m.on_event_filed) [
        | inl t ↦ ap (λ x. x.on_event_filed) (touch_down_done f e m t) ∙ t
        | inr u ↦ ap (λ x. x.on_event_filed) (touch_down_first f e m on u) ∙ touchdown_flag f e m
      ]

  flying_frame_interrupted :
      (frame : SimFrame N) (slewing : Bool) (env : Env N) (m : Manager N)
      → (slewing || m.is_paused) ≡ true
      → flying_frame d frame slewing env m ≡ record m { interrupted = true }
  unfolding flying_frame
  flying_frame_interrupted frame slewing env m e = simp e

  active_same :
      (i : ℕ) (next : SimFrame N) (env : Env N) (m : Manager N)
      → (add_point d i next env (record m { interrupted = true })).active_ms ≡ m.active_ms
  unfolding add_point count_gap
  active_same i next env m = elim (Bool-cases (ltb 0 m.point_count)) [
    | inl e ↦ simp e
    | inr e ↦ simp e
  ]

  -- A frame that comes in while the flight is paused or slewed leaves the database as it was, and
  -- a point that is added next adds no counted time.
  pub interrupted_not_counted :
      (i : ℕ) (frame next : SimFrame N) (slewing : Bool) (env env' : Env N) (m : Manager N)
      → (slewing || m.is_paused) ≡ true
      → ((flying_frame d frame slewing env m).db ≡ m.db)
        × ((add_point d i next env' (flying_frame d frame slewing env m)).active_ms ≡ m.active_ms)
  interrupted_not_counted i frame next slewing env env' m e =
      rw (flying_frame_interrupted frame slewing env m e) (refl, active_same i next env' m)
