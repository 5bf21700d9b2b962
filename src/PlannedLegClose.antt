-- ===== src/PlannedLegClose.antt =====
-- The gate of a hand close-out (src/plannedLegClose.ts): who may close a leg by hand, and how far
-- off plan they landed. The texts of the refusals are left out.
pub mod Written
use msfslogger.Base.{ℕ, Bool, true, false, Option, none, some, if◌then◌else◌, is_none, not, ◌&&◌}
use msfslogger.Base.Double.{Double}
use msfslogger.Geo.{haversine_nm}
use msfslogger.Db.{Flight, PlannedLeg, LegStatus, planned, flown, diverted, skipped}
use msfslogger.Db.PlannedLegs.Status.{HandOutcome, hand_planned, hand_flown, is_manual}

pub data HandCloseRefusal : Type 0 where
  not_linked link_not_manual flight_not_ended leg_not_planned leg_not_flown : HandCloseRefusal

pub data HandCloseDecision (N : Type 0) : Type 0 where
  allowed : ℕ → HandOutcome → Option N → HandCloseDecision N
  refused : HandCloseRefusal → HandCloseDecision N

abbrev pub is_planned : LegStatus → Bool
is_planned planned = true
is_planned _ = false

abbrev pub is_flown : LegStatus → Bool
is_flown flown = true
is_flown _ = false

-- The obstacle that the leg's status is to the request.
abbrev pub status_refusal : HandOutcome → LegStatus → Option HandCloseRefusal
status_refusal hand_flown st = if is_planned st then none else some leg_not_planned
status_refusal hand_planned st = if is_flown st then none else some leg_not_flown

module _ {N : Type 0} (d : Double N) where
  open d use {lit, mul, div, round}

  unfoldable pub deviation_between : Option N → Option N → N → N → Option N
  unfolding haversine_nm
  deviation_between none _ lat lon = none
  deviation_between (some a) none lat lon = none
  deviation_between (some a) (some b) lat lon =
      some (div (round (mul (haversine_nm d a b lat lon) (lit 10))) (lit 10))

  unfoldable pub hand_close_deviation_nm : Flight N → PlannedLeg N → Option N
  unfolding deviation_between
  hand_close_deviation_nm flight leg =
      deviation_between flight.arrival_lat flight.arrival_lon leg.plan.destination.lat
        leg.plan.destination.lon

  -- The deviation that an allowed request records: a leg that is reopened has none.
  abbrev pub recorded_deviation : HandOutcome → Flight N → PlannedLeg N → Option N
  unfolding hand_close_deviation_nm
  recorded_deviation hand_planned flight leg = none
  recorded_deviation hand_flown flight leg = hand_close_deviation_nm flight leg

  -- The refusals in their order, once there is a leg.
  unfoldable pub decide_for : HandOutcome → Flight N → PlannedLeg N → HandCloseDecision N
  unfolding hand_close_deviation_nm
  decide_for requested flight leg =
      if is_manual flight.planned_leg_link_source
      then (if is_none flight.end_time
          then refused flight_not_ended
          else (elim (status_refusal requested leg.status) [
            | some r ↦ refused r
            | none ↦ allowed leg.id requested (recorded_deviation requested flight leg)
          ]))
      else refused link_not_manual

  unfoldable pub decide_hand_close :
      HandOutcome → Flight N → Option (PlannedLeg N) → HandCloseDecision N
  unfolding decide_for
  decide_hand_close requested flight none = refused not_linked
  decide_hand_close requested flight (some leg) =
      if is_none flight.planned_leg_id then refused not_linked else decide_for requested flight leg
