-- ===== src/Ingest/Refusals.antt =====
-- A refused request changes nothing (src/ingest.ts).
use msfslogger.Base.{
  Bool, true, false, Option, none, some, ◌≡◌, ◌⊎◌, refl, inl, inr, if◌then◌else◌, String, str_eq,
  ◌>>=◌,
}
use msfslogger.Base.Double.{Double}
use msfslogger.Base.Number.{Number}
use msfslogger.Base.Json.{Json, Fields, as_text, as_number, get_field}
use msfslogger.GroundState.{SimFrame}
use msfslogger.FlightManager.State.{Env}
use msfslogger.Traffic.{
  TrafficBatchResult, accepted, not_object, no_array, too_many, invalid_at, build_traffic_objects,
}
use msfslogger.Ingest.{
  Ingest, IngestConfig, Answer, no_content, frame_fields, frame_of, check_auth, take_frame,
  post_frame, pause_event, simple_event, answer_event, typed_event, take_event, post_event,
  take_traffic, post_traffic,
}

module _ {N : Type 0} where
  -- The answer is 204, or nothing was changed.
  abbrev pub Unchanged : Ingest N → Answer × Ingest N → Type 0
  Unchanged s r = (r.0 ≡ no_content) ⊎ (r.1 ≡ s)

  Unchanged-if :
      (s : Ingest N) (b : Bool) (r t : Answer × Ingest N)
      → Unchanged s r
      → Unchanged s t
      → Unchanged s (if b then r else t)
  Unchanged-if s true r t p q = p
  Unchanged-if s false r t p q = q

  done-Unchanged : (s t : Ingest N) → Unchanged s (no_content, t)
  done-Unchanged s t = inl refl

  answer-Unchanged : (r : Option (Ingest N)) (s : Ingest N) → Unchanged s (answer_event r s)
  unfolding answer_event
  answer-Unchanged none s = inr refl
  answer-Unchanged (some t) s = inl refl

module _ {N : Type 0} (d : Double N) (number : Number N) where
  frame-Unchanged :
      (frame : Option (SimFrame N)) (env : Env N) (s : Ingest N)
      → Unchanged s (take_frame d number frame env s)
  unfolding take_frame
  frame-Unchanged none env s = inr refl
  frame-Unchanged (some frame) env s = inl refl

  pause-Unchanged :
      (flags : Option N) (env : Env N) (s : Ingest N)
      → Unchanged s (pause_event d number flags env s)
  unfolding pause_event
  pause-Unchanged none env s = inr refl
  pause-Unchanged (some flags) env s =
      Unchanged-if s (number.is_finite flags) _ _ (done-Unchanged s _) (inr refl)

  typed-Unchanged :
      (type : Option String) (fields : Fields N) (env : Env N) (s : Ingest N)
      → Unchanged s (typed_event d number type fields env s)
  unfolding typed_event
  typed-Unchanged none fields env s = inr refl
  typed-Unchanged (some type) fields env s =
      Unchanged-if s (str_eq type "pause") _ _
        (pause-Unchanged (as_number (get_field "flags" fields)) env s)
        (answer-Unchanged (simple_event d number type env s) s)

  traffic-Unchanged :
      (r : TrafficBatchResult N) (env : Env N) (s : Ingest N)
      → Unchanged s (take_traffic d number r env s)
  unfolding take_traffic
  traffic-Unchanged (accepted xs) env s = inl refl
  traffic-Unchanged not_object env s = inr refl
  traffic-Unchanged no_array env s = inr refl
  traffic-Unchanged too_many env s = inr refl
  traffic-Unchanged (invalid_at i) env s = inr refl

  -- A frame, an event or a batch that is answered by anything but 204 changes nothing: neither
  -- the recorder, nor the traffic, nor the connection; nor is anyone notified.
  pub refused_changes_nothing :
      (sha256 : String → String) (cfg : IngestConfig) (header : Option String) (body : Json N)
      (fields : Fields N) (env : Env N) (s : Ingest N)
      → Unchanged s (post_frame d number sha256 cfg header body env s)
        × Unchanged s (post_event d number sha256 cfg header fields env s)
        × Unchanged s (post_traffic d number sha256 cfg header body env s)
  unfolding post_frame post_event take_event post_traffic
  refused_changes_nothing sha256 cfg header body fields env s = (
    Unchanged-if s (check_auth sha256 cfg header) _ _
        (frame-Unchanged (frame_fields body >>= frame_of number) env s) (inr refl),
    Unchanged-if s (check_auth sha256 cfg header) _ _
        (typed-Unchanged (as_text (get_field "type" fields)) fields env s) (inr refl),
    Unchanged-if s (check_auth sha256 cfg header) _ _
        (Unchanged-if s cfg.traffic_enabled _ _
          (traffic-Unchanged (build_traffic_objects d number body) env s) (done-Unchanged s _))
        (inr refl),
  )
