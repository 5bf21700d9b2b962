-- ===== src/Acars/Payload.antt =====
-- The dispatch record is read back as it was stored (src/acars.ts).
use msfslogger.Base.{true, false, Option, none, some, List, [], ◌∷◌, ◌≡◌, refl, ap, String, str_eq}
use msfslogger.Base.Double.{Double}
use msfslogger.Base.Json.{Json, as_text, as_number}
use msfslogger.Acars.Dispatch.{
  DispatchOfp, DispatchFuel, DispatchWeights, DispatchPayload, text_json, number_json, texts_json,
  texts_in, ofp_json, fuel_json, weights_json, object_fields, ofp_of, fuel_of, weights_of,
  dispatch_fields, dispatch_json, payload_of, parse_dispatch_payload,
}

module _ (N : Type 0) where
  text_back : (o : Option String) → as_text {N = N} (some (text_json o)) ≡ o
  text_back none = refl
  text_back (some s) = refl

  number_back : (o : Option N) → as_number (some (number_json o)) ≡ o
  number_back none = refl
  number_back (some x) = refl

  texts_back : (ss : List String) → texts_in {N = N} (texts_json ss) ≡ ss
  texts_back [] = refl
  texts_back (s ∷ ss) = ap (λ ts. s ∷ ts) (texts_back ss)

  ofp_back : (p : DispatchOfp) → ofp_of (object_fields {N = N} (some (ofp_json p))) ≡ p
  unfolding ofp_of
  ofp_back p = rw (text_back p.request_id, text_back p.sequence_id, text_back p.time_generated) refl

  fuel_back : (p : DispatchFuel N) → fuel_of (object_fields (some (fuel_json p))) ≡ p
  unfolding fuel_of
  fuel_back p =
      rw
        (
          number_back p.ramp,
          number_back p.takeoff,
          number_back p.landing,
          number_back p.taxi,
          number_back p.enroute_burn,
          number_back p.contingency,
          number_back p.reserve,
          number_back p.alternate_burn,
        )
        refl

  weights_back : (p : DispatchWeights N) → weights_of (object_fields (some (weights_json p))) ≡ p
  unfolding weights_of
  weights_back p =
      rw
        (
          number_back p.oew,
          number_back p.payload,
          number_back p.est_zfw,
          number_back p.max_zfw,
          number_back p.est_tow,
          number_back p.est_ldw,
          number_back p.pax_count,
          number_back p.cargo,
        )
        refl

module _ {N : Type 0} (d : Double N) where
  payload_back : (p : DispatchPayload N) → payload_of (dispatch_fields d p) ≡ p
  unfolding payload_of
  payload_back p =
      rw
        (
          text_back N p.flight_number,
          text_back N p.aircraft_type,
          text_back N p.aircraft_reg,
          text_back N p.origin,
          text_back N p.destination,
          texts_back N p.alternates,
          text_back N p.route,
          number_back N p.cruise_alt_ft,
          text_back N p.units,
          number_back N p.ete_sec,
          number_back N p.block_time_sec,
          ofp_back N p.ofp,
          fuel_back N p.fuel,
          weights_back N p.weights,
        )
        refl

module _ {N : Type 0} (d : Double N) (stringify : Json N → String)
    (parse : String → Option (Json N)) where
  -- A dispatch record that was stored is read back as it was, if JSON.parse reads the text that
  -- JSON.stringify writes of it, which is not empty, and 1 is equal to itself.
  pub parse-stringify :
      (p : DispatchPayload N)
      → parse (stringify (dispatch_json d p)) ≡ some (dispatch_json d p)
      → str_eq (stringify (dispatch_json d p)) "" ≡ false
      → d.eq (d.lit 1) (d.lit 1) ≡ true
      → parse_dispatch_payload d parse (some (stringify (dispatch_json d p))) ≡ some p
  unfolding parse_dispatch_payload dispatch_json
  parse-stringify p reads nonempty one = rw (nonempty, reads, one) (ap some (payload_back d p))
