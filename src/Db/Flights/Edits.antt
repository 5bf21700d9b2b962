-- ===== src/Db/Flights/Edits.antt =====
-- Flights as the pages edit and read them (src/db/flights.ts).
use msfslogger.Base.{
  ℕ, Bool, Option, none, some, List, String, is_some, ◌||◌, ltb, if◌then◌else◌, false, first_where,
  count_where,
}
use msfslogger.Base.Sorting.{sort_by}
use msfslogger.Db.{Flight, FlightPoint, Db}
use msfslogger.Db.PlannedLegs.{flight_is, write_flight}
use msfslogger.Db.Flights.{get_flight_track_points}

-- FlightEditPayload: a key that is absent is `none`, one that is null is `some none`.
pub record FlightEditPayload : Type 0 where
  pub aircraft : Option (Option String)
  pub notes : Option (Option String)

pub record FlightWithPoints (N : Type 0) : Type 0 where
  pub flight : Flight N
  pub points : List (FlightPoint N)

module _ {N : Type 0} where
  unfoldable pub edited_flight : FlightEditPayload → Flight N → Flight N
  edited_flight p f = record f {
    aircraft = elim p.aircraft [ none ↦ f.aircraft | some s ↦ s ];
    notes = elim p.notes [ none ↦ f.notes | some s ↦ s ];
  }

  unfoldable pub update_flight : ℕ → FlightEditPayload → Db N → Db N × Bool
  unfolding edited_flight write_flight
  update_flight i payload db =
      if is_some payload.aircraft || is_some payload.notes
      then (write_flight i (edited_flight payload) db, ltb 0 (count_where (flight_is i) db.flights))
      else (db, false)

  unfoldable pub named_plan : Option String → Flight N → Flight N
  named_plan name f = record f { flight_plan_name = name }

  unfoldable pub set_flight_plan_name : ℕ → String → Db N → Db N
  unfolding write_flight named_plan
  set_flight_plan_name i name db = write_flight i (named_plan (some name)) db

  unfoldable pub clear_flight_plan_name : ℕ → Db N → Db N
  unfolding write_flight named_plan
  clear_flight_plan_name i db = write_flight i (named_plan none) db

  -- start_time DESC
  unfoldable pub get_flights : (String → String → Bool) → Db N → List (Flight N)
  get_flights text_lt db = sort_by (λ f g. text_lt g.start_time f.start_time) db.flights

  unfoldable pub get_flight_by_id :
      (String → String → Bool) → ℕ → Db N → Option (FlightWithPoints N)
  get_flight_by_id text_lt i db = elim (first_where (flight_is i) db.flights) [
    | none ↦ none
    | some flight ↦ some (record { flight = flight; points = get_flight_track_points text_lt i db })
  ]
