-- ===== src/Acars.antt =====
-- The rules of ACARS messages (src/acars.ts): keys, checks of bodies, formatters, and the messages
-- of a flight's OOOI events and position reports. Case and white space of texts are JavaScript's,
-- and dates too: they are parameters.
pub mod Keys
pub mod Dispatch
pub mod Payload
pub mod Loadsheet
pub mod Clearance
pub mod Squawk
use Prim.Native.String.{◌++◌}
use msfslogger.Base.{
  ℕ, suc, ◌+◌, ◌*◌, ◌/◌, ◌%◌, Bool, true, false, Option, none, some, List, [], ◌∷◌, map, ◌==◌, ◌&&◌,
  ◌||◌, not, if◌then◌else◌, is_none, or_else, String, str_eq, ltb, leb, first_where,
}
use msfslogger.Base.Double.{Double}
use msfslogger.Base.Number.{Number}
use msfslogger.Base.Text.{decimal, pad_start, pad_end, join, text_length, slice_to}
use msfslogger.Base.Json.{Json, Fields, end, field, null, bool, num, text, obj}
use msfslogger.Db.{AcarsDirection, uplink, downlink}
use msfslogger.Db.AcarsMessages.{CreateAcarsMessage}
use msfslogger.FlightManager.State.{
  OooiEvent, out_event, off_event, on_event, in_event, OooiEventInput, PositionReportInput,
}

-- `s.toUpperCase()`, `s.toLowerCase()`, `s.trim()`, `s.replace(/\s+/g, ' ')`
pub record Texts : Type 0 where
  pub to_upper : String → String
  pub to_lower : String → String
  pub trim : String → String
  pub collapse : String → String

-- `Date.parse(iso)`, none for NaN; `JSON.stringify`; and the instant some seconds after another,
-- `new Date(Date.parse(at) + sec * 1000).toISOString()`.
pub record Dates (N : Type 0) : Type 0 where
  pub parse_date : String → Option ℕ
  pub later_iso : String → N → String
  pub stringify : Json N → String

pub record CannedAcarsMessage : Type 0 where
  pub id : String
  pub label : String
  pub body : String
  pub category : String
  pub direction : AcarsDirection

abbrev pub canned : String → String → CannedAcarsMessage
canned id label = record {
  id = id;
  label = label;
  body = label;
  category = "freetext";
  direction = downlink;
}

abbrev pub canned_messages : List CannedAcarsMessage
canned_messages =
    canned "wx-request" "WX REQUEST"
    ∷ canned "gate-request" "GATE REQUEST"
    ∷ canned "request-pushback" "REQUEST PUSHBACK"
    ∷ []

abbrev pub max_acars_body_length : ℕ
max_acars_body_length = 4096

pub data AcarsBodyResult : Type 0 where
  good_body : String → AcarsBodyResult
  invalid_body body_too_long : AcarsBodyResult

abbrev pub canned_is : String → CannedAcarsMessage → Bool
canned_is id m = str_eq m.id id

-- `none` stands for a value that is no text.
unfoldable pub find_canned_message : Option String → Option CannedAcarsMessage
find_canned_message none = none
find_canned_message (some id) =
    if str_eq id "" then none else first_where (canned_is id) canned_messages

unfoldable pub normalise_canned_body : Texts → String → String
normalise_canned_body js raw = js.to_upper (js.collapse (js.trim raw))

abbrev pub has_body : Texts → String → CannedAcarsMessage → Bool
unfolding normalise_canned_body
has_body js normalised m = str_eq (normalise_canned_body js m.body) normalised

unfoldable pub find_canned_message_by_body : Texts → Option String → Option CannedAcarsMessage
unfolding normalise_canned_body has_body
find_canned_message_by_body js none = none
find_canned_message_by_body js (some body) =
    let normalised = normalise_canned_body js body in
    if str_eq normalised "" then none else first_where (has_body js normalised) canned_messages

unfoldable pub validate_acars_body : Texts → Option String → AcarsBodyResult
unfolding text_length
validate_acars_body js none = invalid_body
validate_acars_body js (some raw) =
    if ltb max_acars_body_length (text_length raw)
    then body_too_long
    else (if str_eq (js.trim raw) "" then invalid_body else good_body (js.trim raw))

-- The keys of a leg's messages: 'dispatch:leg:5' and so on.
abbrev pub leg_key : String → ℕ → String
leg_key prefix leg = prefix ++ decimal leg

unfoldable pub dispatch_dedup_key : ℕ → String
dispatch_dedup_key leg = leg_key "dispatch:leg:" leg

unfoldable pub loadsheet_request_dedup_key : ℕ → String
loadsheet_request_dedup_key leg = leg_key "loadsheet-req:leg:" leg

unfoldable pub loadsheet_reply_dedup_key : ℕ → String
loadsheet_reply_dedup_key leg = leg_key "loadsheet:leg:" leg

unfoldable pub clearance_request_dedup_key : ℕ → String
clearance_request_dedup_key leg = leg_key "clearance-req:leg:" leg

unfoldable pub clearance_dedup_key : ℕ → String
clearance_dedup_key leg = leg_key "clearance:leg:" leg

abbrev pub event_text : OooiEvent → String
event_text out_event = "OUT"
event_text off_event = "OFF"
event_text on_event = "ON"
event_text in_event = "IN"

-- 'oooi:flight:12:OUT'
unfoldable pub oooi_dedup_key : ℕ → OooiEvent → String
oooi_dedup_key flight event = "oooi:flight:" ++ (decimal flight ++ (":" ++ event_text event))

-- 'position-report:flight:12:3'
unfoldable pub position_report_dedup_key : ℕ → ℕ → String
position_report_dedup_key flight window =
    "position-report:flight:" ++ (decimal flight ++ (":" ++ decimal window))

unfoldable pub oooi_estimated_reason : OooiEvent → String
oooi_estimated_reason out_event = "NO GROUND SESSION, TIME TAKEN AT TAKEOFF"
oooi_estimated_reason on_event = "NO TOUCHDOWN DETECTED, TIME TAKEN AT FLIGHT END"
oooi_estimated_reason off_event = "TIME APPROXIMATE"
oooi_estimated_reason in_event = "TIME APPROXIMATE"

-- `String(n).padStart(2, '0')`
abbrev pub two_digits : ℕ → String
two_digits n = pad_start 2 "0" (decimal n)

abbrev pub hhmmz_of : Option ℕ → String
hhmmz_of none = "----Z"
hhmmz_of (some ms) = two_digits (ms / 3600000 % 24) ++ (two_digits (ms / 60000 % 60) ++ "Z")

module _ {N : Type 0} (d : Double N) (number : Number N) (dates : Dates N) where
  open d use {lit, add, sub, mul, div, rem, lt, le, round}
  open number use {is_finite, floor, abs, to_text, to_fixed}
  open dates use {parse_date, later_iso, stringify}

  unfoldable pub hhmmz : String → String
  hhmmz iso = hhmmz_of (parse_date iso)

  unfoldable pub hhmm : Option N → String
  hhmm none = "----"
  hhmm (some sec) =
      if not (is_finite sec) || lt sec (lit 0)
      then "----"
      else pad_start 2 "0" (to_text (floor (div sec (lit 3600))))
        ++ pad_start 2 "0" (to_text (floor (div (rem sec (lit 3600)) (lit 60))))

  unfoldable pub level_text : Option N → String
  level_text none = "UNKNOWN"
  level_text (some ft) =
      let r = round ft in
      if le (lit 18000) r
      then "FL" ++ pad_start 3 "0" (to_text (round (div r (lit 100))))
      else to_text r ++ "FT"

  unfoldable pub qty : Option N → String
  qty none = "----"
  qty (some v) = to_text (round v)

  -- ` STAND A3`, or nothing
  abbrev pub clause : String → Option String → String
  clause word none = ""
  clause word (some s) = word ++ s

  unfoldable pub build_oooi_body : OooiEventInput → String
  unfolding hhmmz oooi_estimated_reason
  build_oooi_body input =
      let first =
        event_text input.event
        ++ (" " ++ (or_else input.airport_icao "----" ++ (" " ++ hhmmz input.at))) in
      let second =
        "ACFT "
        ++ (or_else input.aircraft "UNKNOWN"
            ++ (clause " STAND " input.stand ++ clause " DEST " input.destination_ident)) in
      let third =
        event_text input.event ++ (" TIME ESTIMATED - " ++ oooi_estimated_reason input.event) in
      join "\n" (if input.estimated then first ∷ second ∷ third ∷ [] else first ∷ second ∷ [])

  -- A text, a count or a number that may be null.
  abbrev pub text_or_null : Option String → Json N
  text_or_null none = null
  text_or_null (some s) = text s

  abbrev pub count_or_null : Option ℕ → Json N
  count_or_null none = null
  count_or_null (some n) = num (lit n)

  abbrev pub number_or_null : Option N → Json N
  number_or_null none = null
  number_or_null (some x) = num x

  unfoldable pub build_oooi_payload : OooiEventInput → Json N
  build_oooi_payload input = obj (
      field "v" (num (lit 1)) (
        field "event" (text (event_text input.event)) (
          field "at" (text input.at) (
            field "airport_icao" (text_or_null input.airport_icao) (
              field "stand" (text_or_null input.stand) (
                field "estimated" (bool input.estimated)
                  (field "planned_leg_id" (count_or_null input.planned_leg_id) end)))))))

  unfoldable pub build_oooi_message : OooiEventInput → CreateAcarsMessage
  unfolding build_oooi_body build_oooi_payload oooi_dedup_key
  build_oooi_message input = record {
    flight_id = some input.flight_id;
    planned_leg_id = none;
    direction = downlink;
    category = "oooi";
    label = some (event_text input.event);
    body = build_oooi_body input;
    payload_json = some (stringify (build_oooi_payload input));
    correlation_id = none;
    dedup_key = some (oooi_dedup_key input.flight_id input.event);
    sent_at = some input.at;
  }

  -- One coordinate: hemisphere, whole degrees and minutes with one decimal, 60 of them carried.
  unfoldable pub lat_lon_part : N → ℕ → String → String → String
  lat_lon_part v digits pos neg =
      let hemi = if le (lit 0) v then pos else neg in
      let deg = floor (abs v) in
      let min = div (round (mul (sub (abs v) deg) (lit 600))) (lit 10) in
      let carried = le (lit 60) min in
      hemi
      ++ (pad_start digits "0" (to_text (if carried then add deg (lit 1) else deg))
          ++ pad_start 4 "0" (to_fixed 1 (if carried then lit 0 else min)))

  unfoldable pub format_lat_lon : N → N → String
  unfolding lat_lon_part
  format_lat_lon lat lon = lat_lon_part lat 2 "N" "S" ++ (" " ++ lat_lon_part lon 3 "E" "W")

  unfoldable pub estimate_enroute_sec : N → N → Option N
  estimate_enroute_sec remaining_nm gs =
      if not (is_finite remaining_nm) || lt remaining_nm (lit 0)
      then none
      else (if not (is_finite gs) || lt gs (lit 30)
          then none
          else some (round (mul (div remaining_nm gs) (lit 3600))))

  -- The instant of arrival, where a time to go is known.
  abbrev pub eta_of : String → Option N → Option String
  eta_of at none = none
  eta_of at (some sec) = some (later_iso at sec)

  abbrev pub eta_text : Option String → String
  unfolding hhmmz
  eta_text none = "----Z"
  eta_text (some iso) = hhmmz iso

  unfoldable pub build_position_report_body : PositionReportInput N → String
  unfolding estimate_enroute_sec format_lat_lon hhmmz level_text hhmm eta_text
  build_position_report_body input =
      let ete = estimate_enroute_sec input.remaining_distance_nm input.ground_speed_knots in
      join "\n" (
        "POSITION REPORT"
        ∷ (format_lat_lon input.lat input.lon ++ (" " ++ hhmmz input.at))
        ∷ (level_text (some input.altitude_ft)
            ++ (" GS "
                ++ (to_text (round input.ground_speed_knots)
                    ++ (" HDG " ++ pad_start 3 "0" (to_text (round input.heading_deg))))))
        ∷ ("NEXT "
            ++ (input.next_waypoint_ident
                ++ (" DEST "
                    ++ (input.destination_ident
                        ++ (" " ++ (to_fixed 1 input.remaining_distance_nm ++ " NM"))))))
        ∷ ("ETE " ++ (hhmm ete ++ (" ETA " ++ eta_text (eta_of input.at ete))))
        ∷ [])

  unfoldable pub build_position_report_payload : PositionReportInput N → Json N
  unfolding estimate_enroute_sec
  build_position_report_payload input =
      let ete = estimate_enroute_sec input.remaining_distance_nm input.ground_speed_knots in
      obj (
        field "v" (num (lit 1)) (
          field "at" (text input.at) (
            field "window" (num (lit input.window_index)) (
              field "lat" (num input.lat) (
                field "lon" (num input.lon) (
                  field "altitude_ft" (num input.altitude_ft) (
                    field "groundspeed_kts" (num input.ground_speed_knots) (
                      field "heading_deg" (num input.heading_deg) (
                        field "next_waypoint" (text input.next_waypoint_ident) (
                          field "destination" (text input.destination_ident) (
                            field "remaining_nm" (num input.remaining_distance_nm) (
                              field "ete_sec" (number_or_null ete) (
                                field "eta" (text_or_null (eta_of input.at ete)) (
                                  field "planned_leg_id" (num (lit input.planned_leg_id))
                                    end))))))))))))))

  unfoldable pub build_position_report_message : PositionReportInput N → CreateAcarsMessage
  unfolding build_position_report_body build_position_report_payload position_report_dedup_key
  build_position_report_message input = record {
    flight_id = some input.flight_id;
    planned_leg_id = none;
    direction = downlink;
    category = "position-report";
    label = some "POS REPORT";
    body = build_position_report_body input;
    payload_json = some (stringify (build_position_report_payload input));
    correlation_id = none;
    dedup_key = some (position_report_dedup_key input.flight_id input.window_index);
    sent_at = some input.at;
  }

  -- Minutes to milliseconds; `raw` is the variable after String() and trim(), `parsed` what
  -- Number() makes of it.
  unfoldable pub parse_position_report_interval_ms : String → N → N
  parse_position_report_interval_ms raw parsed =
      if str_eq raw "" || not (is_finite parsed)
      then lit 600000
      else (if d.eq parsed (lit 0)
          then lit 0
          else (if lt parsed (lit 0)
              then lit 600000
              else (if lt parsed (div (lit 1) (lit 2))
                  then lit 30000
                  else round (mul parsed (lit 60000)))))
