-- ===== src/FlightManager/Takeoff.antt =====
-- When a flight starts out of IDLE (src/flightManager.ts): the debounce of the takeoff.
use msfslogger.Base.{
  suc, ◌≤◌, Bool, true, false, ◌≡◌, refl, ◌∙◌, inl, inr, ◌⊎◌, Bool-cases, if◌then◌else◌, leb, arith,
  none, sym, ap, false≢true, ◌↔◌,
}
use msfslogger.Base.Double.{Double}
use msfslogger.Db.{Db, GroundSession, Result, ok, thrown}
use msfslogger.Db.GroundSessions.{SessionError}
use msfslogger.GroundState.{SimFrame, next_parked_streak, has_parked_debounce}
use msfslogger.FlightManager.State.{idle, flying, Manager, Env, notify_scope_change, set_app_frame}
use msfslogger.FlightManager.Ground.{enter_ground, entered, enter_with}
use msfslogger.FlightManager.Flight.{
  file_oooi, start_flight, open_flight, begin_flying, file_departure,
}
use msfslogger.FlightManager.Frame.{
  is_airborne, debounce_airborne, check_airborne_debounce, count_parked, idle_frame, is_idle,
  airborne_debounce_frames, on_frame, frame_in,
}
use msfslogger.FlightManager.Coherence.{is_flying, write_point-Keeps}

module _ {N : Type 0} where
  enter_result-state :
      (r : Result SessionError (GroundSession N × Db N)) (frame : SimFrame N) (m : Manager N)
      → is_flying m.state ≡ false
      → is_flying (enter_with r frame m).state ≡ false
  unfolding enter_with entered notify_scope_change
  enter_result-state (ok (s, db')) frame m e = refl
  enter_result-state (thrown x) frame m e = e

module _ {N : Type 0} where
  with-streak :
      (r : Result SessionError (GroundSession N × Db N)) (frame : SimFrame N) (m : Manager N)
      → ((enter_with r frame m).airborne_streak ≡ m.airborne_streak)
        × ((enter_with r frame m).open_flight_checked_at_boot ≡ m.open_flight_checked_at_boot)
  unfolding enter_with entered notify_scope_change
  with-streak (ok (s, db')) frame m = (refl, refl)
  with-streak (thrown x) frame m = (refl, refl)

module _ {N : Type 0} (d : Double N) where
  grounded_if :
      (b : Bool) (x y : Manager N)
      → is_flying x.state ≡ false
      → is_flying y.state ≡ false
      → is_flying (if b then x else y).state ≡ false
  grounded_if true x y p q = p
  grounded_if false x y p q = q

  count_parked-state :
      (frame : SimFrame N) (env : Env N) (m : Manager N)
      → is_flying m.state ≡ false
      → is_flying (count_parked d frame env m).state ≡ false
  unfolding count_parked enter_ground
  count_parked-state frame env m e =
      grounded_if (is_idle m.state) _ _
        (grounded_if (has_parked_debounce (next_parked_streak d m.ground_streak frame)) _ _
          (enter_result-state _ frame
            (record m { ground_streak = next_parked_streak d m.ground_streak frame }) e)
          e)
        e

  checked :
      (frame : SimFrame N) (slewing : Bool) (env : Env N) (m : Manager N)
      → m.open_flight_checked_at_boot ≡ true
      → check_airborne_debounce d frame slewing env m ≡ debounce_airborne d frame slewing env m
  unfolding check_airborne_debounce
  checked frame slewing env m c = simp c

  idle_frame_checked :
      (frame : SimFrame N) (slewing : Bool) (env : Env N) (m : Manager N)
      → m.open_flight_checked_at_boot ≡ true
      → idle_frame d frame slewing env m
        ≡ count_parked d frame env (debounce_airborne d frame slewing env m)
  unfolding idle_frame
  idle_frame_checked frame slewing env m c =
      ap (count_parked d frame env) (checked frame slewing env m c)

  debounce_short :
      (frame : SimFrame N) (slewing : Bool) (env : Env N) (m : Manager N)
      → (is_airborne d frame slewing ≡ false)
        ⊎ (leb airborne_debounce_frames (suc m.airborne_streak) ≡ false)
      → is_flying m.state ≡ false
      → is_flying (debounce_airborne d frame slewing env m).state ≡ false
  unfolding debounce_airborne
  debounce_short frame slewing env m (inl e) g = simp (e, g)
  debounce_short frame slewing env m (inr e) g = elim (Bool-cases (is_airborne d frame slewing)) [
    | inl a ↦ simp (a, e, g)
    | inr a ↦ simp (a, g)
  ]

  -- What a parked frame leaves alone.
  parked-streak :
      (frame : SimFrame N) (env : Env N) (m : Manager N)
      → ((count_parked d frame env m).airborne_streak ≡ m.airborne_streak)
        × ((count_parked d frame env m).open_flight_checked_at_boot ≡ m.open_flight_checked_at_boot)
  unfolding count_parked enter_ground
  parked-streak frame env m = elim (Bool-cases (is_idle m.state)) [
    | inr other ↦ rw other (refl, refl)
    | inl idling ↦
        elim (Bool-cases (has_parked_debounce (next_parked_streak d m.ground_streak frame))) [
          | inl long ↦
              rw (idling, long)
                (with-streak _ frame
                  (record m { ground_streak = next_parked_streak d m.ground_streak frame }))
          | inr short ↦ rw (idling, short) (refl, refl)
        ]
  ]

  parked_flying :
      (frame : SimFrame N) (env : Env N) (m : Manager N)
      → m.state ≡ flying
      → count_parked d frame env m ≡ m
  unfolding count_parked
  parked_flying frame env m e = rw e refl

  start_flight-state :
      (frame : SimFrame N) (env : Env N) (m : Manager N)
      → (start_flight d frame env m).state ≡ flying
  unfolding start_flight begin_flying file_departure file_oooi notify_scope_change
  start_flight-state frame env m =
      let (i, opened) = open_flight d frame env m in
      (write_point-Keeps d frame env
        (record (file_departure d i m frame env (begin_flying d i frame env opened)) {
          out_blocks_at = none;
        })).0

  -- A frame of a running sim in IDLE is a step of the debounce and a step of the parked streak.
  on_idle :
      (frame : SimFrame N) (env : Env N) (m : Manager N)
      → m.state ≡ idle
      → m.open_flight_checked_at_boot ≡ true
      → d.eq frame.sim_running (d.lit 0) ≡ false
      → on_frame d frame env m
        ≡ count_parked d frame env (
            debounce_airborne d frame
              (d.eq frame.sim_running (d.lit 3))
              env
              (record m { app = set_app_frame frame m.app }))
  unfolding on_frame frame_in
  on_idle frame env m e c r =
      let seen = record m { app = set_app_frame frame m.app } in
      let slewing = d.eq frame.sim_running (d.lit 3) in
      rw r (
        ap (λ st. frame_in d st frame slewing env seen) e
        ∙ idle_frame_checked frame slewing env seen c)

  -- The third airborne frame in a row starts a flight.
  started :
      (frame : SimFrame N) (env : Env N) (m : Manager N)
      → m.state ≡ idle
      → m.open_flight_checked_at_boot ≡ true
      → d.eq frame.sim_running (d.lit 0) ≡ false
      → is_airborne d frame (d.eq frame.sim_running (d.lit 3)) ≡ true
      → leb airborne_debounce_frames (suc m.airborne_streak) ≡ true
      → is_flying (on_frame d frame env m).state ≡ true
  unfolding debounce_airborne
  started frame env m e c r high enough =
      let due = record m {
        app = set_app_frame frame m.app;
        airborne_streak = suc m.airborne_streak;
      } in
      rw
        (
          on_idle frame env m e c r,
          high,
          enough,
          parked_flying frame env (start_flight d frame env due) (start_flight-state frame env due),
        )
        (ap is_flying (start_flight-state frame env due))

  -- What such a frame does to the streak, if the recorder stays IDLE.
  idle_step :
      (frame : SimFrame N) (env : Env N) (m : Manager N)
      → m.state ≡ idle
      → m.open_flight_checked_at_boot ≡ true
      → d.eq frame.sim_running (d.lit 0) ≡ false
      → (on_frame d frame env m).state ≡ idle
      → ((on_frame d frame env m).airborne_streak ≡ (
          if is_airborne d frame (d.eq frame.sim_running (d.lit 3))
          then suc m.airborne_streak
          else 0))
        × ((on_frame d frame env m).open_flight_checked_at_boot ≡ true)
  unfolding debounce_airborne
  idle_step frame env m e c r stays =
      elim (Bool-cases (is_airborne d frame (d.eq frame.sim_running (d.lit 3)))) [
        | inr low ↦
            rw (on_idle frame env m e c r, low)
              ((parked-streak frame env _).0, (parked-streak frame env _).1 ∙ c)
        | inl high ↦ elim (Bool-cases (leb airborne_debounce_frames (suc m.airborne_streak))) [
          | inr few ↦
              rw (on_idle frame env m e c r, high, few)
                ((parked-streak frame env _).0, (parked-streak frame env _).1 ∙ c)
          | inl enough ↦
              absurd
                (false≢true (sym (ap is_flying stays) ∙ (started frame env m e c r high enough)))
        ]
      ]

  starts_of_flying :
      (frame : SimFrame N) (env : Env N) (m : Manager N)
      → m.state ≡ idle
      → m.open_flight_checked_at_boot ≡ true
      → d.eq frame.sim_running (d.lit 0) ≡ false
      → is_flying (on_frame d frame env m).state ≡ true
      → (is_airborne d frame (d.eq frame.sim_running (d.lit 3)) ≡ true) × (2 ≤ m.airborne_streak)
  starts_of_flying frame env m e c r f =
      elim (Bool-cases (is_airborne d frame (d.eq frame.sim_running (d.lit 3)))) [
        | inr a ↦ absurd (false≢true (grounded (inl a)))
        | inl a ↦ elim (Bool-cases (leb airborne_debounce_frames (suc m.airborne_streak))) [
          | inr few ↦ absurd (false≢true (grounded (inr few)))
          | inl enough ↦ (a, grind arith)
        ]
      ]
    where
      grounded :
          (is_airborne d frame (d.eq frame.sim_running (d.lit 3)) ≡ false)
            ⊎ (leb airborne_debounce_frames (suc m.airborne_streak) ≡ false)
          → false ≡ true
      grounded short =
          sym (
            count_parked-state frame env
              (debounce_airborne d frame (d.eq frame.sim_running (d.lit 3)) env
                (record m { app = set_app_frame frame m.app }))
              (debounce_short frame (d.eq frame.sim_running (d.lit 3)) env
                (record m { app = set_app_frame frame m.app }) short (ap is_flying e)))
          ∙ (sym (ap (λ x. is_flying x.state) (on_idle frame env m e c r)) ∙ f)

  -- Three frames of a running sim that find the recorder in IDLE, once the lookup of an open flight
  -- is done: the third starts a flight exactly when all three are airborne, so that any frame that
  -- is not starts the count anew.
  pub takeoff_debounced :
      (f g h : SimFrame N) (e1 e2 e3 : Env N) (m : Manager N)
      → m.state ≡ idle
      → m.open_flight_checked_at_boot ≡ true
      → d.eq f.sim_running (d.lit 0) ≡ false
      → d.eq g.sim_running (d.lit 0) ≡ false
      → d.eq h.sim_running (d.lit 0) ≡ false
      → (on_frame d f e1 m).state ≡ idle
      → (on_frame d g e2 (on_frame d f e1 m)).state ≡ idle
      → (is_flying (on_frame d h e3 (on_frame d g e2 (on_frame d f e1 m))).state ≡ true) ↔ (
          (is_airborne d f (d.eq f.sim_running (d.lit 3)) ≡ true)
          × (is_airborne d g (d.eq g.sim_running (d.lit 3)) ≡ true)
          × (is_airborne d h (d.eq h.sim_running (d.lit 3)) ≡ true))
  takeoff_debounced f g h e1 e2 e3 m i c rf rg rh i1 i2 =
      let (s1, c1) = idle_step f e1 m i c rf i1 in
      let (s2, c2) = idle_step g e2 (on_frame d f e1 m) i1 c1 rg i2 in
      (
        λ k.
            let (a, long) =
              starts_of_flying h e3 (on_frame d g e2 (on_frame d f e1 m)) i2 c2 rh k in
            (ground arith, ground arith, a),
        λ k. started h e3 (on_frame d g e2 (on_frame d f e1 m)) i2 c2 rh k.2 (ground arith),
      )
