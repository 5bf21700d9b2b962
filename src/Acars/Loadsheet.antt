-- ===== src/Acars/Loadsheet.antt =====
-- The load sheet of a dispatch record, and the bodies of the dispatch release and the load sheet
-- (src/acars.ts).
use Prim.Native.String.{◌++◌}
use msfslogger.Base.{
  ℕ, ◌-◌, Option, none, some, List, [], ◌∷◌, ◌⊎◌, ◌≢◌, inl, inr, arith, if◌then◌else◌, or_else,
  String, str_eq, ◌||◌, leb,
}
use msfslogger.Base.Double.{Double}
use msfslogger.Base.Number.{Number}
use msfslogger.Base.Text.{pad_start, pad_end, join, text_length, slice_to}
use msfslogger.Acars.{Texts, Dates, hhmm, level_text, qty}
use msfslogger.Acars.Dispatch.{DispatchPayload}

pub data FigureSource : Type 0 where
  simbrief derived unavailable : FigureSource

pub record LoadsheetFigures (N : Type 0) : Type 0 where
  pub units : Option String
  pub block_fuel : Option N
  pub taxi_fuel : Option N
  pub takeoff_fuel : Option N
  pub trip_fuel : Option N
  pub payload : Option N
  pub payload_source : FigureSource
  pub zero_fuel_weight : Option N
  pub zfw_source : FigureSource
  pub max_zero_fuel_weight : Option N
  pub dry_operating_weight : Option N
  pub takeoff_weight : Option N
  pub landing_weight : Option N
  pub pax_count : Option N
  pub cargo : Option N

abbrev pub max_route_body_chars : ℕ
max_route_body_chars = 900

-- 'kgs', 'kg', 'lbs' or 'lb', in any case
unfoldable pub unit_text : Texts → Option String → String
unit_text js units =
    let u = js.to_lower (or_else units "") in
    if str_eq u "kgs" || str_eq u "kg"
    then "KG"
    else (if str_eq u "lbs" || str_eq u "lb" then "LB" else "UNITS UNKNOWN")

unfoldable pub clamp_route : Option String → String
unfolding text_length slice_to
clamp_route none = "NIL"
clamp_route (some route) =
    if leb (text_length route) max_route_body_chars
    then route
    else slice_to (max_route_body_chars - 3) route ++ "..."

-- The fixed-field grid.
unfoldable pub grid_field : String → String → String
unfolding pad_start pad_end
grid_field label value = pad_end 14 " " label ++ pad_start 6 " " value

-- ` ${s}`, of the idents of the alternates.
abbrev pub alternates_text : List String → String
unfolding join
alternates_text [] = "NONE"
alternates_text (s ∷ ss) = join " " (s ∷ ss)

module _ {N : Type 0} where
  -- A figure, or what two others give when both are known.
  abbrev pub or_both : Option N → (N → N → N) → Option N → Option N → Option N
  or_both (some x) f a b = some x
  or_both none f (some a) (some b) = some (f a b)
  or_both none f _ _ = none

  abbrev pub source_of : Option N → Option N → FigureSource
  source_of (some given) result = simbrief
  source_of none (some x) = derived
  source_of none none = unavailable

module _ {N : Type 0} (d : Double N) where
  open d use {add, sub}

  unfoldable pub build_loadsheet_figures : DispatchPayload N → LoadsheetFigures N
  build_loadsheet_figures p =
      let f = p.fuel in
      let w = p.weights in
      let payload = or_both w.payload sub w.est_zfw w.oew in
      let zfw = or_both w.est_zfw add w.oew payload in
      record {
        units = p.units;
        block_fuel = or_both f.ramp add f.takeoff f.taxi;
        taxi_fuel = f.taxi;
        takeoff_fuel = f.takeoff;
        trip_fuel = f.enroute_burn;
        payload = payload;
        payload_source = source_of w.payload payload;
        zero_fuel_weight = zfw;
        zfw_source = source_of w.est_zfw zfw;
        max_zero_fuel_weight = w.max_zfw;
        dry_operating_weight = w.oew;
        takeoff_weight = w.est_tow;
        landing_weight = w.est_ldw;
        pax_count = w.pax_count;
        cargo = w.cargo;
      }

module _ {N : Type 0} (d : Double N) (number : Number N) (dates : Dates N) (js : Texts) where
  abbrev figure : String → Option N → String
  unfolding grid_field qty
  figure label value = grid_field label (qty d number dates value)

  unfoldable pub build_dispatch_release_body : DispatchPayload N → String → String
  unfolding unit_text clamp_route alternates_text level_text hhmm qty join
  build_dispatch_release_body p issued_at =
      let q = qty d number dates in
      join "\n" (
        "DISPATCH RELEASE"
        ∷ ("FLT " ++ or_else p.flight_number "UNKNOWN")
        ∷ (or_else p.origin "????"
            ++ (" "
                ++ (or_else p.destination "????" ++ (" ALTN " ++ alternates_text p.alternates))))
        ∷ ("ACFT "
            ++ (or_else p.aircraft_type "UNKNOWN" ++ (" " ++ or_else p.aircraft_reg "NOREG")))
        ∷ ("CRZ " ++ level_text d number dates p.cruise_alt_ft)
        ∷ ("ETE " ++ hhmm d number dates p.ete_sec)
        ∷ ("FUEL "
            ++ (unit_text js p.units
                ++ (" BLOCK "
                    ++ (q p.fuel.ramp
                        ++ (" TRIP "
                            ++ (q p.fuel.enroute_burn
                                ++ (" RESV "
                                    ++ (q p.fuel.reserve
                                        ++ (" ALTN "
                                            ++ (q p.fuel.alternate_burn
                                                ++ (" CONT "
                                                    ++ (q p.fuel.contingency
                                                        ++ (" TAXI " ++ q p.fuel.taxi)))))))))))))
        ∷ ("RTE " ++ clamp_route p.route)
        ∷ ("OFP " ++ (or_else p.ofp.request_id "UNKNOWN" ++ (" ISSUED " ++ issued_at)))
        ∷ "SIMULATED DISPATCH RELEASE - NOT FOR REAL WORLD USE"
        ∷ [])

  -- ` FLT ${p.flight_number}`, unless it is missing or empty.
  abbrev flight_clause : Option String → String
  flight_clause none = ""
  flight_clause (some s) = if str_eq s "" then "" else " FLT " ++ s

  unfoldable pub build_loadsheet_request_body : DispatchPayload N → String
  build_loadsheet_request_body p =
      "REQUEST LOADSHEET\n"
      ++ (or_else p.origin "????"
          ++ (" " ++ (or_else p.destination "????" ++ flight_clause p.flight_number)))

  abbrev zfw_line : LoadsheetFigures N → String
  unfolding figure qty
  zfw_line sheet = elim sheet.max_zero_fuel_weight [
    | none ↦ figure "ZERO FUEL WT" sheet.zero_fuel_weight
    | some m ↦
        figure "ZERO FUEL WT" sheet.zero_fuel_weight ++ (" MAX " ++ qty d number dates (some m))
  ]

  unfoldable pub build_loadsheet_reply_body :
      DispatchPayload N → LoadsheetFigures N → String → String
  unfolding zfw_line figure unit_text join
  build_loadsheet_reply_body p sheet issued_at = join "\n" (
      "LOADSHEET"
      ∷ ("FLT "
          ++ (or_else p.flight_number "UNKNOWN"
              ++ (" " ++ (or_else p.origin "????" ++ (" " ++ or_else p.destination "????")))))
      ∷ ("ACFT " ++ (or_else p.aircraft_type "UNKNOWN" ++ (" " ++ or_else p.aircraft_reg "NOREG")))
      ∷ ("UNITS " ++ unit_text js sheet.units)
      ∷ figure "BLOCK FUEL" sheet.block_fuel
      ∷ figure "TAXI FUEL" sheet.taxi_fuel
      ∷ figure "TAKEOFF FUEL" sheet.takeoff_fuel
      ∷ figure "TRIP FUEL" sheet.trip_fuel
      ∷ figure "PAX" sheet.pax_count
      ∷ figure "CARGO" sheet.cargo
      ∷ figure "PAYLOAD" sheet.payload
      ∷ figure "DRY OPER WT" sheet.dry_operating_weight
      ∷ zfw_line sheet
      ∷ figure "TAKEOFF WT" sheet.takeoff_weight
      ∷ figure "LANDING WT" sheet.landing_weight
      ∷ ("ISSUED " ++ issued_at)
      ∷ "ESTIMATED FIGURES - SIMULATION ONLY - NOT FOR ACTUAL LOADING"
      ∷ [])

module _ {N : Type 0} where
  never_both :
      (payload zfw oew : Option N) (f g : N → N → N)
      → (source_of payload (or_both payload f zfw oew) ≢ derived)
        ⊎ (source_of zfw (or_both zfw g oew (or_both payload f zfw oew)) ≢ derived)
  never_both (some x) zfw oew f g = inl (λ h. ground arith)
  never_both none (some z) oew f g = inr (λ h. ground arith)
  never_both none none oew f g = inl (λ h. ground arith)

-- The payload and the zero-fuel weight are never both derived, so that neither is computed from
-- the other's fallback.
pub one_derived :
    {N : Type 0} (d : Double N) (p : DispatchPayload N)
    → ((build_loadsheet_figures d p).payload_source ≢ derived)
      ⊎ ((build_loadsheet_figures d p).zfw_source ≢ derived)
unfolding build_loadsheet_figures
one_derived d p = never_both p.weights.payload p.weights.est_zfw p.weights.oew d.sub d.add
