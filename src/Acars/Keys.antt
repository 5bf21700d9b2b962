-- ===== src/Acars/Keys.antt =====
-- The keys of OOOI events and position reports (src/acars.ts), and what they keep from being filed
-- twice (src/db/acarsMessages.ts).
use Prim.Native.String.{◌++◌}
use text.Mathlib.TextEquality.{eq_iff}
use text.Mathlib.TextLemmas.{cons-append, nil-append, append_cancel_left, append-eq-nil_iff}
use msfslogger.Base.{
  ℕ, false, false≢true, some, ◌≡◌, ◌≢◌, ◌↔◌, refl, sym, ap, ◌∙◌, inl, inr, Bool-cases, String,
  str_eq, if◌then◌else◌,
}
use msfslogger.Base.Double.{Double}
use msfslogger.Base.Number.{Number}
use msfslogger.Base.Text.{decimal, scan, scan-decimal}
use msfslogger.Db.{Db}
use msfslogger.Db.AcarsMessages.{file_acars_message_once}
use msfslogger.Db.AcarsMessages.Dedup.{file_key_again}
use msfslogger.FlightManager.State.{
  OooiEvent, out_event, off_event, on_event, in_event, OooiEventInput,
}
use msfslogger.Acars.{
  Dates, event_text, oooi_dedup_key, position_report_dedup_key, build_oooi_message,
}

-- The number and the rest of a text that starts with a decimal and a colon.
scan_colon : (n : ℕ) (t : String) → scan 10 0 (decimal n ++ (":" ++ t)) ≡ (n, ":" ++ t)
unfolding scan
scan_colon n t = scan-decimal n (":" ++ t) ∙ rw (cons-append, nil-append) refl

split_colon :
    (n m : ℕ) (s t : String) → decimal n ++ (":" ++ s) ≡ decimal m ++ (":" ++ t) → (n ≡ m) × (s ≡ t)
split_colon n m s t h =
    let both : (n, ":" ++ s) ≡ (m, ":" ++ t) =
      sym (scan_colon n s) ∙ ap (scan 10 0) h ∙ scan_colon m t in
    (ap (λ p. p.0) both, append_cancel_left ":" s t (ap (λ p. p.1) both))

abbrev event_of : String → OooiEvent
event_of s =
    if str_eq s "OUT"
    then out_event
    else (if str_eq s "OFF" then off_event else (if str_eq s "ON" then on_event else in_event))

event_of_text : (e : OooiEvent) → event_of (event_text e) ≡ e
event_of_text out_event = refl
event_of_text off_event = refl
event_of_text on_event = refl
event_of_text in_event = refl

event_text-injective : (e f : OooiEvent) → event_text e ≡ event_text f → e ≡ f
event_text-injective e f h = sym (event_of_text e) ∙ ap event_of h ∙ event_of_text f

prefixed_ne : (prefix rest : String) → prefix ≢ "" → str_eq (prefix ++ rest) "" ≡ false
prefixed_ne prefix rest n = elim (Bool-cases (str_eq (prefix ++ rest) "")) [
  | inr e ↦ e
  | inl e ↦ absurd (n (append-eq-nil_iff.0 ((eq_iff (prefix ++ rest) "").0 e)).0)
]

-- Two OOOI events have one key exactly when they are the same event of the same flight.
pub oooi_key_iff :
    (i j : ℕ) (e f : OooiEvent) → (oooi_dedup_key i e ≡ oooi_dedup_key j f) ↔ ((i ≡ j) × (e ≡ f))
unfolding oooi_dedup_key
oooi_key_iff i j e f = (
  λ h.
      let (same, texts) =
        split_colon i j (event_text e) (event_text f) (append_cancel_left "oooi:flight:" _ _ h) in
      (same, event_text-injective e f texts),
  λ (same, event). rw (same, event) refl,
)

-- And two position reports exactly when they are for one window of one flight.
pub position_report_key_iff :
    (i j v w : ℕ)
    → (position_report_dedup_key i v ≡ position_report_dedup_key j w) ↔ ((i ≡ j) × (v ≡ w))
unfolding position_report_dedup_key
position_report_key_iff i j v w = (
  λ h.
      let (same, texts) =
        split_colon i j (decimal v) (decimal w)
          (append_cancel_left "position-report:flight:" _ _ h) in
      (same, same_decimal v w texts),
  λ (same, window). rw (same, window) refl,
)
  where
    same_decimal : (v w : ℕ) → decimal v ≡ decimal w → v ≡ w
    same_decimal v w h = (split_colon v w "" "" (ap (λ s. s ++ (":" ++ "")) h)).0

module _ {N : Type 0} (d : Double N) (number : Number N) (dates : Dates N) where
  -- Once an OOOI event of a flight is filed, no later report of the same event of the same flight
  -- is, whatever time, airport or stand it gives.
  pub oooi_filed_once :
      (first second : OooiEventInput) (now later : String) (db : Db N)
      → first.flight_id ≡ second.flight_id
      → first.event ≡ second.event
      → file_acars_message_once
          (build_oooi_message d number dates second)
          later
          (file_acars_message_once (build_oooi_message d number dates first) now db).1
        ≡ (false, (file_acars_message_once (build_oooi_message d number dates first) now db).1)
  oooi_filed_once first second now later db f e =
      file_key_again (build_oooi_message d number dates first)
        (build_oooi_message d number dates second) (oooi_dedup_key first.flight_id first.event) now
        later db (unfold build_oooi_message in refl) (unfold build_oooi_message in refl)
        (unfold build_oooi_message in refl)
        (unfold build_oooi_message in
          ap some (
            (oooi_key_iff second.flight_id first.flight_id second.event first.event).1
              (sym f, sym e)))
        (unfold oooi_dedup_key in
          prefixed_ne "oooi:flight:" _ (λ h. false≢true ((eq_iff "oooi:flight:" "").1 h)))
