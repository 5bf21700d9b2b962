-- ===== src/Ingest/Soundness.antt =====
-- What the handlers of src/ingest.ts keep: the recorder sound, and the traffic channel apart
-- from it.
use msfslogger.Base.{
  ℕ, Bool, true, false, Option, none, some, ◌≡◌, refl, subst, sym, inl, inr, if◌then◌else◌,
  Bool-cases, String, str_eq, ◌>>=◌, ◌&&◌, not,
}
use msfslogger.Base.Double.{Double}
use msfslogger.Base.Number.{Number}
use msfslogger.Base.Int.{sub_ℕ, ltb_ℤ, pos}
use msfslogger.Base.Json.{Json, Fields, as_text, as_number, get_field}
use msfslogger.GroundState.{SimFrame}
use msfslogger.Db.{sim_exit, crash}
use msfslogger.FlightManager.State.{Manager, Env}
use msfslogger.FlightManager.Frame.{on_crash, on_sim_disconnect, set_paused}
use msfslogger.FlightManager.Coherence.{Sound}
use msfslogger.FlightManager.Events.{on_frame-Sound, lost-Sound}
use msfslogger.Traffic.{
  TrafficBatchResult, accepted, not_object, no_array, too_many, invalid_at, build_traffic_objects,
}
use msfslogger.Ingest.{
  Ingest, IngestConfig, Answer, frame_fields, frame_of, set_connected, mark_connected, notify,
  with_manager, check_auth, mark_disconnected, check_stale, take_frame, post_frame, pause_event,
  simple_event, answer_event, typed_event, take_event, post_event, take_traffic, post_traffic,
  stale_timeout_ms,
}

-- One call of the router: a request, with whatever header and body, or the timer.
pub data Call {N : Type 0} (d : Double N) (number : Number N) (sha256 : String → String)
    (cfg : IngestConfig) : Ingest N → Ingest N → Type 0 where
  frame_posted :
      (header : Option String) (body : Json N) (env : Env N) (s : Ingest N)
      → Call d number sha256 cfg s (post_frame d number sha256 cfg header body env s).1
  event_posted :
      (header : Option String) (fields : Fields N) (env : Env N) (s : Ingest N)
      → Call d number sha256 cfg s (post_event d number sha256 cfg header fields env s).1
  traffic_posted :
      (header : Option String) (body : Json N) (env : Env N) (s : Ingest N)
      → Call d number sha256 cfg s (post_traffic d number sha256 cfg header body env s).1
  timer_fired :
      (env : Env N) (s : Ingest N) → Call d number sha256 cfg s (check_stale d number env s)

pub data Calls {N : Type 0} (d : Double N) (number : Number N) (sha256 : String → String)
    (cfg : IngestConfig) : Ingest N → Ingest N → Type 0 where
  no_calls : (s : Ingest N) → Calls d number sha256 cfg s s
  then_call :
      (a b c : Ingest N)
      → Calls d number sha256 cfg a b
      → Call d number sha256 cfg b c
      → Calls d number sha256 cfg a c

module _ {N : Type 0} where
  abbrev pub SoundIngest : Ingest N → Type 0
  SoundIngest s = Sound s.manager

  SoundIngest-if :
      (b : Bool) (s t : Ingest N) → SoundIngest s → SoundIngest t → SoundIngest (if b then s else t)
  SoundIngest-if true s t p q = p
  SoundIngest-if false s t p q = q

  SoundIngest-if_answer :
      (b : Bool) (s t : Answer × Ingest N)
      → SoundIngest s.1
      → SoundIngest t.1
      → SoundIngest (if b then s else t).1
  SoundIngest-if_answer true s t p q = p
  SoundIngest-if_answer false s t p q = q

  connected-Sound : (b : Bool) (m : Manager N) → Sound m → Sound (set_connected b m)
  unfolding set_connected
  connected-Sound b m s = s

  paused-Sound : (p : Bool) (flags : ℕ) (m : Manager N) → Sound m → Sound (set_paused p flags m)
  unfolding set_paused
  paused-Sound p flags m s = s

  up-Sound : (now : ℕ) (s : Ingest N) → SoundIngest s → SoundIngest (mark_connected now s)
  unfolding mark_connected
  up-Sound now s h = connected-Sound true s.manager h

module _ {N : Type 0} (d : Double N) (number : Number N) where
  down-Sound :
      (env : Env N) (s : Ingest N) → SoundIngest s → SoundIngest (mark_disconnected d number env s)
  unfolding mark_disconnected on_sim_disconnect
  down-Sound env s h =
      SoundIngest-if s.manager.app.connected
        (with_manager (on_sim_disconnect d env (set_connected false s.manager)) s) s
        (lost-Sound d sim_exit env (set_connected false s.manager)
          (connected-Sound false s.manager h))
        h

  stale-Sound :
      (env : Env N) (s : Ingest N) → SoundIngest s → SoundIngest (check_stale d number env s)
  unfolding check_stale notify
  stale-Sound env s h =
      SoundIngest-if
        (s.manager.app.connected && ltb_ℤ (pos stale_timeout_ms) (sub_ℕ env.now_ms s.last_frame_at))
        (notify (mark_disconnected d number env s)) s (down-Sound env s h) h

  frame-Sound :
      (frame : Option (SimFrame N)) (env : Env N) (s : Ingest N)
      → SoundIngest s
      → SoundIngest (take_frame d number frame env s).1
  unfolding take_frame notify
  frame-Sound none env s h = h
  frame-Sound (some frame) env s h =
      on_frame-Sound d frame env (mark_connected env.now_ms s).manager (up-Sound env.now_ms s h)

  pause-Sound :
      (flags : Option N) (env : Env N) (s : Ingest N)
      → SoundIngest s
      → SoundIngest (pause_event d number flags env s).1
  unfolding pause_event notify
  pause-Sound none env s h = h
  pause-Sound (some flags) env s h =
      SoundIngest-if_answer (number.is_finite flags) _ _
        (paused-Sound (not (d.eq flags (d.lit 0))) (number.whole flags)
          (mark_connected env.now_ms s).manager (up-Sound env.now_ms s h))
        h

  abbrev SoundIfSome : Option (Ingest N) → Type 0
  SoundIfSome none = Unit
  SoundIfSome (some t) = SoundIngest t

  SoundIfSome-if :
      (b : Bool) (r t : Option (Ingest N))
      → SoundIfSome r
      → SoundIfSome t
      → SoundIfSome (if b then r else t)
  SoundIfSome-if true r t p q = p
  SoundIfSome-if false r t p q = q

  answer-Sound :
      (r : Option (Ingest N)) (s : Ingest N)
      → SoundIfSome r
      → SoundIngest s
      → SoundIngest (answer_event r s).1
  unfolding answer_event notify
  answer-Sound none s p h = h
  answer-Sound (some t) s p h = p

  simple-SoundIfSome :
      (type : String) (env : Env N) (s : Ingest N)
      → SoundIngest s
      → SoundIfSome (simple_event d number type env s)
  unfolding simple_event on_crash
  simple-SoundIfSome type env s h =
      SoundIfSome-if (str_eq type "connected") _ _ (up-Sound env.now_ms s h) (
        SoundIfSome-if (str_eq type "disconnected") _ _ (down-Sound env s h) (
          SoundIfSome-if (str_eq type "paused") _ _ (paused-Sound true 1 s.manager h) (
            SoundIfSome-if (str_eq type "unpaused") _ _ (paused-Sound false 0 s.manager h) (
              SoundIfSome-if (str_eq type "crashed") _ none (lost-Sound d crash env s.manager h)
                tt))))

  typed-Sound :
      (type : Option String) (fields : Fields N) (env : Env N) (s : Ingest N)
      → SoundIngest s
      → SoundIngest (typed_event d number type fields env s).1
  unfolding typed_event
  typed-Sound none fields env s h = h
  typed-Sound (some type) fields env s h =
      SoundIngest-if_answer (str_eq type "pause") _ _
        (pause-Sound (as_number (get_field "flags" fields)) env s h)
        (answer-Sound (simple_event d number type env s) s (simple-SoundIfSome type env s h) h)

  event-Sound :
      (fields : Fields N) (env : Env N) (s : Ingest N)
      → SoundIngest s
      → SoundIngest (take_event d number fields env s).1
  unfolding take_event
  event-Sound fields env s h = typed-Sound (as_text (get_field "type" fields)) fields env s h

  traffic-manager :
      (r : TrafficBatchResult N) (env : Env N) (s : Ingest N)
      → (take_traffic d number r env s).1.manager ≡ s.manager
  unfolding take_traffic
  traffic-manager (accepted xs) env s = refl
  traffic-manager not_object env s = refl
  traffic-manager no_array env s = refl
  traffic-manager too_many env s = refl
  traffic-manager (invalid_at i) env s = refl

  -- A traffic batch, accepted or not, leaves the recorder and its database alone.
  pub traffic_apart :
      (sha256 : String → String) (cfg : IngestConfig) (header : Option String) (body : Json N)
      (env : Env N) (s : Ingest N)
      → (post_traffic d number sha256 cfg header body env s).1.manager ≡ s.manager
  unfolding post_traffic
  traffic_apart sha256 cfg header body env s = elim (Bool-cases (check_auth sha256 cfg header)) [
    | inr a ↦ rw a refl
    | inl a ↦ elim (Bool-cases cfg.traffic_enabled) [
      | inr t ↦ rw (a, t) refl
      | inl t ↦ rw (a, t) (traffic-manager (build_traffic_objects d number body) env s)
    ]
  ]

  Call-Sound :
      (sha256 : String → String) (cfg : IngestConfig) (a b : Ingest N)
      → Call d number sha256 cfg a b
      → SoundIngest a
      → SoundIngest b
  unfolding post_frame post_event
  Call-Sound sha256 cfg a b (frame_posted header body env s) h =
      SoundIngest-if_answer (check_auth sha256 cfg header) _ _
        (frame-Sound (frame_fields body >>= frame_of number) env s h) h
  Call-Sound sha256 cfg a b (event_posted header fields env s) h =
      SoundIngest-if_answer (check_auth sha256 cfg header) _ _ (event-Sound fields env s h) h
  Call-Sound sha256 cfg a b (traffic_posted header body env s) h =
      subst Sound (sym (traffic_apart sha256 cfg header body env s)) h
  Call-Sound sha256 cfg a b (timer_fired env s) h = stale-Sound env s h

  -- After any sequence of requests of the agent, with whatever headers and bodies, and of the
  -- timer, a recorder that was sound is sound.
  pub Calls-Sound :
      (sha256 : String → String) (cfg : IngestConfig) (a b : Ingest N)
      → Calls d number sha256 cfg a b
      → SoundIngest a
      → SoundIngest b
  Calls-Sound sha256 cfg a b (no_calls s) h = h
  Calls-Sound sha256 cfg a b (then_call x y z cs c) h =
      Call-Sound sha256 cfg y z c (Calls-Sound sha256 cfg x y cs h)
