-- ===== src/Acars/Dispatch.antt =====
-- The dispatch record of a planned leg (src/acars.ts): what is stored as JSON at the import of a
-- flight plan, and what is read back of it.
pub mod Build
use msfslogger.Base.{
  Bool, false, Option, none, some, List, [], ◌∷◌, if◌then◌else◌, ◌>>=◌, String, str_eq,
}
use msfslogger.Base.Double.{Double}
use msfslogger.Base.Json.{
  Json, Items, nil, cons, Fields, end, field, null, num, text, arr, obj, get_field, as_object,
  as_number, as_text,
}

pub record DispatchOfp : Type 0 where
  pub request_id : Option String
  pub sequence_id : Option String
  pub time_generated : Option String

pub record DispatchFuel (N : Type 0) : Type 0 where
  pub ramp : Option N
  pub takeoff : Option N
  pub landing : Option N
  pub taxi : Option N
  pub enroute_burn : Option N
  pub contingency : Option N
  pub reserve : Option N
  pub alternate_burn : Option N

pub record DispatchWeights (N : Type 0) : Type 0 where
  pub oew : Option N
  pub payload : Option N
  pub est_zfw : Option N
  pub max_zfw : Option N
  pub est_tow : Option N
  pub est_ldw : Option N
  pub pax_count : Option N
  pub cargo : Option N

pub record DispatchPayload (N : Type 0) : Type 0 where
  pub ofp : DispatchOfp
  pub flight_number : Option String
  pub aircraft_type : Option String
  pub aircraft_reg : Option String
  pub origin : Option String
  pub destination : Option String
  pub alternates : List String
  pub route : Option String
  pub cruise_alt_ft : Option N
  pub units : Option String
  pub ete_sec : Option N
  pub block_time_sec : Option N
  pub fuel : DispatchFuel N
  pub weights : DispatchWeights N

module _ {N : Type 0} where
  abbrev pub text_json : Option String → Json N
  text_json none = null
  text_json (some s) = text s

  abbrev pub number_json : Option N → Json N
  number_json none = null
  number_json (some x) = num x

  abbrev pub texts_json : List String → Items N
  texts_json [] = nil
  texts_json (s ∷ ss) = cons (text s) (texts_json ss)

  abbrev pub ofp_json : DispatchOfp → Json N
  ofp_json p = obj (
      field "request_id" (text_json p.request_id) (
        field "sequence_id" (text_json p.sequence_id)
          (field "time_generated" (text_json p.time_generated) end)))

  abbrev pub fuel_json : DispatchFuel N → Json N
  fuel_json p = obj (
      field "ramp" (number_json p.ramp) (
        field "takeoff" (number_json p.takeoff) (
          field "landing" (number_json p.landing) (
            field "taxi" (number_json p.taxi) (
              field "enroute_burn" (number_json p.enroute_burn) (
                field "contingency" (number_json p.contingency) (
                  field "reserve" (number_json p.reserve)
                    (field "alternate_burn" (number_json p.alternate_burn) end))))))))

  abbrev pub weights_json : DispatchWeights N → Json N
  weights_json p = obj (
      field "oew" (number_json p.oew) (
        field "payload" (number_json p.payload) (
          field "est_zfw" (number_json p.est_zfw) (
            field "max_zfw" (number_json p.max_zfw) (
              field "est_tow" (number_json p.est_tow) (
                field "est_ldw" (number_json p.est_ldw) (
                  field "pax_count" (number_json p.pax_count)
                    (field "cargo" (number_json p.cargo) end))))))))

  -- `typeof v === 'number' ? v : null`, and the same of texts.
  abbrev pub num_or_null : String → Fields N → Option N
  num_or_null key fields = as_number (get_field key fields)

  abbrev pub str_or_null : String → Fields N → Option String
  str_or_null key fields = as_text (get_field key fields)

  -- The object under a key; anything else counts as one without fields.
  abbrev pub object_fields : Option (Json N) → Fields N
  object_fields (some (obj fields)) = fields
  object_fields _ = end

  -- The texts of an array; anything else counts as empty.
  abbrev pub texts_in : Items N → List String
  texts_in nil = []
  texts_in (cons (text s) rest) = s ∷ texts_in rest
  texts_in (cons _ rest) = texts_in rest

  abbrev pub texts_of : Option (Json N) → List String
  texts_of (some (arr items)) = texts_in items
  texts_of _ = []

  unfoldable pub ofp_of : Fields N → DispatchOfp
  ofp_of f = record {
    request_id = str_or_null "request_id" f;
    sequence_id = str_or_null "sequence_id" f;
    time_generated = str_or_null "time_generated" f;
  }

  unfoldable pub fuel_of : Fields N → DispatchFuel N
  fuel_of f = record {
    ramp = num_or_null "ramp" f;
    takeoff = num_or_null "takeoff" f;
    landing = num_or_null "landing" f;
    taxi = num_or_null "taxi" f;
    enroute_burn = num_or_null "enroute_burn" f;
    contingency = num_or_null "contingency" f;
    reserve = num_or_null "reserve" f;
    alternate_burn = num_or_null "alternate_burn" f;
  }

  unfoldable pub weights_of : Fields N → DispatchWeights N
  weights_of f = record {
    oew = num_or_null "oew" f;
    payload = num_or_null "payload" f;
    est_zfw = num_or_null "est_zfw" f;
    max_zfw = num_or_null "max_zfw" f;
    est_tow = num_or_null "est_tow" f;
    est_ldw = num_or_null "est_ldw" f;
    pax_count = num_or_null "pax_count" f;
    cargo = num_or_null "cargo" f;
  }

  unfoldable pub payload_of : Fields N → DispatchPayload N
  unfolding ofp_of fuel_of weights_of
  payload_of p = record {
    ofp = ofp_of (object_fields (get_field "ofp" p));
    flight_number = str_or_null "flight_number" p;
    aircraft_type = str_or_null "aircraft_type" p;
    aircraft_reg = str_or_null "aircraft_reg" p;
    origin = str_or_null "origin" p;
    destination = str_or_null "destination" p;
    alternates = texts_of (get_field "alternates" p);
    route = str_or_null "route" p;
    cruise_alt_ft = num_or_null "cruise_alt_ft" p;
    units = str_or_null "units" p;
    ete_sec = num_or_null "ete_sec" p;
    block_time_sec = num_or_null "block_time_sec" p;
    fuel = fuel_of (object_fields (get_field "fuel" p));
    weights = weights_of (object_fields (get_field "weights" p));
  }

module _ {N : Type 0} (d : Double N) where
  -- What is stored: schema version 1, from SimBrief.
  abbrev pub dispatch_fields : DispatchPayload N → Fields N
  dispatch_fields p =
      (field "v" (num (d.lit 1)) (
        field "source" (text "simbrief") (
          field "ofp" (ofp_json p.ofp) (
            field "flight_number" (text_json p.flight_number) (
              field "aircraft_type" (text_json p.aircraft_type) (
                field "aircraft_reg" (text_json p.aircraft_reg) (
                  field "origin" (text_json p.origin) (
                    field "destination" (text_json p.destination) (
                      field "alternates" (arr (texts_json p.alternates)) (
                        field "route" (text_json p.route) (
                          field "cruise_alt_ft" (number_json p.cruise_alt_ft) (
                            field "units" (text_json p.units) (
                              field "ete_sec" (number_json p.ete_sec) (
                                field "block_time_sec" (number_json p.block_time_sec) (
                                  field "fuel" (fuel_json p.fuel)
                                    (field "weights" (weights_json p.weights) end))))))))))))))))

  unfoldable pub dispatch_json : DispatchPayload N → Json N
  dispatch_json p = obj (dispatch_fields p)

  abbrev pub is_number : Option N → N → Bool
  is_number none y = false
  is_number (some x) y = d.eq x y

  abbrev pub is_text : Option String → String → Bool
  is_text none t = false
  is_text (some s) t = str_eq s t

  -- `p.v !== 1 || p.source !== 'simbrief'` is no usable record.
  abbrev pub known_payload : Fields N → Option (DispatchPayload N)
  unfolding payload_of
  known_payload p =
      if is_number (num_or_null "v" p) (d.lit 1)
      then (if is_text (str_or_null "source" p) "simbrief" then some (payload_of p) else none)
      else none

  -- `parse` is JSON.parse, none when it throws.
  unfoldable pub parse_dispatch_payload :
      (String → Option (Json N)) → Option String → Option (DispatchPayload N)
  unfolding known_payload
  parse_dispatch_payload parse none = none
  parse_dispatch_payload parse (some raw) =
      if str_eq raw "" then none else (parse raw >>= as_object) >>= known_payload
