-- ===== src/Acars/Dispatch/Build.antt =====
-- The dispatch record that is stored for an imported flight plan (src/acars.ts), out of what the
-- parser of src/simbrief.ts gives.
use msfslogger.Base.{Option, some, List, String, map}
use msfslogger.Acars.Dispatch.{DispatchPayload}

pub record SimbriefDispatchFigures (N : Type 0) : Type 0 where
  pub units : Option String
  pub aircraft_reg : Option String
  pub plan_ramp : Option N
  pub plan_takeoff : Option N
  pub plan_landing : Option N
  pub taxi : Option N
  pub enroute_burn : Option N
  pub contingency : Option N
  pub reserve : Option N
  pub alternate_burn : Option N
  pub est_time_enroute_sec : Option N
  pub est_block_sec : Option N
  pub oew : Option N
  pub payload : Option N
  pub est_zfw : Option N
  pub max_zfw : Option N
  pub est_tow : Option N
  pub est_ldw : Option N
  pub pax_count : Option N
  pub cargo : Option N

pub record SimbriefOfp : Type 0 where
  pub request_id : Option String
  pub sequence_id : Option String
  pub time_generated : Option String
  pub flight_number : Option String
  pub route_string : Option String

-- An endpoint or an alternate; its name and position are not read here.
pub record SimbriefPlace : Type 0 where
  pub ident : String

-- The parts of the parsed plan that the record takes.
pub record ParsedSimbriefPlan (N : Type 0) : Type 0 where
  pub departure : SimbriefPlace
  pub destination : SimbriefPlace
  pub alternates : List SimbriefPlace
  pub aircraft_type : Option String
  pub cruise_alt_ft : Option N
  pub ofp : SimbriefOfp
  pub dispatch : SimbriefDispatchFigures N

module _ {N : Type 0} where
  unfoldable pub build_dispatch_payload : ParsedSimbriefPlan N → DispatchPayload N
  build_dispatch_payload plan = record {
    ofp = record {
      request_id = plan.ofp.request_id;
      sequence_id = plan.ofp.sequence_id;
      time_generated = plan.ofp.time_generated;
    };
    flight_number = plan.ofp.flight_number;
    aircraft_type = plan.aircraft_type;
    aircraft_reg = plan.dispatch.aircraft_reg;
    origin = some plan.departure.ident;
    destination = some plan.destination.ident;
    alternates = map (λ a. a.ident) plan.alternates;
    route = plan.ofp.route_string;
    cruise_alt_ft = plan.cruise_alt_ft;
    units = plan.dispatch.units;
    ete_sec = plan.dispatch.est_time_enroute_sec;
    block_time_sec = plan.dispatch.est_block_sec;
    fuel = record {
      ramp = plan.dispatch.plan_ramp;
      takeoff = plan.dispatch.plan_takeoff;
      landing = plan.dispatch.plan_landing;
      taxi = plan.dispatch.taxi;
      enroute_burn = plan.dispatch.enroute_burn;
      contingency = plan.dispatch.contingency;
      reserve = plan.dispatch.reserve;
      alternate_burn = plan.dispatch.alternate_burn;
    };
    weights = record {
      oew = plan.dispatch.oew;
      payload = plan.dispatch.payload;
      est_zfw = plan.dispatch.est_zfw;
      max_zfw = plan.dispatch.max_zfw;
      est_tow = plan.dispatch.est_tow;
      est_ldw = plan.dispatch.est_ldw;
      pax_count = plan.dispatch.pax_count;
      cargo = plan.dispatch.cargo;
    };
  }
