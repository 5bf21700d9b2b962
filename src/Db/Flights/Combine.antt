-- ===== src/Db/Flights/Combine.antt =====
-- Two flights that are one (combineFlights() of src/db/flights.ts).
pub mod Points
pub mod Track
use msfslogger.Base.{
  truthy, or_try, ℕ, zero, suc, ◌+◌, Bool, Option, none, some, List, [], ◌∷◌, ◌++◌, if◌then◌else◌,
  String, first_where, length, ◌>>=◌, true, false,
}
use msfslogger.Base.Text.{join}
use msfslogger.Base.Double.{Double}
use msfslogger.Geo.{haversine_nm, bearing_deg}
use msfslogger.Db.{Flight, FlightPoint, Db}
use msfslogger.Db.PlannedLegs.{flight_is, clear_planned_leg_link}
use msfslogger.Db.Flights.{get_flight_track_points, insert_point, delete_flight_row}
use msfslogger.Db.Flights.Edits.{set_flight_plan_name}

-- `new Date(s).getTime()`, `new Date(t).toISOString()`, `none` where that throws a RangeError, the
-- same for the current instant, and the order of texts.
pub record Dates (N : Type 0) : Type 0 where
  pub time_of : String → N
  pub iso : N → Option String
  pub now : String
  pub text_lt : String → String → Bool

unfoldable pub parts_of : Option String → List String
parts_of s = elim (truthy s) [ none ↦ [] | some t ↦ t ∷ [] ]

unfoldable pub combined_notes : Option String → Option String → Option String
unfolding parts_of
combined_notes a b = elim (parts_of a ++ parts_of b) [
  | [] ↦ none
  | s ∷ ss ↦ some (join "\n---\n" (s ∷ ss))
]

unfoldable pub last_element {ℓ} : {A : Type ℓ} → List A → Option A
last_element [] = none
last_element (x ∷ []) = some x
last_element (x ∷ y ∷ ys) = last_element (y ∷ ys)

unfoldable pub head_of {ℓ} : {A : Type ℓ} → List A → Option A
head_of [] = none
head_of (x ∷ xs) = some x

abbrev pub filler_count : ℕ
filler_count = 8

module _ {N : Type 0} where
  unfoldable pub insert_points : ℕ → List (FlightPoint N) → Db N → Db N
  unfolding insert_point
  insert_points i [] db = db
  insert_points i (p ∷ ps) db = insert_points i ps (insert_point (record p { flight_id = i }) db)

  unfoldable pub insert_combined : Flight N → Db N → Db N
  insert_combined row db = record db {
    flights = db.flights ++ row ∷ [];
    next_flight_id = suc db.next_flight_id;
  }

module _ {N : Type 0} (d : Double N) (dates : Dates N) where
  open d use {lit, add, sub, mul, div, lt, le, round}

  own_duration_sec : Flight N → N
  own_duration_sec f = elim f.duration_sec [
    | some s ↦ s
    | none ↦ elim (truthy f.end_time) [
      | none ↦ lit 0
      | some e ↦
          d.max (lit 0)
            (round (div (sub (dates.time_of e) (dates.time_of f.start_time)) (lit 1000)))
    ]
  ]

  -- The instant of the `i`-th filler.
  unfoldable pub instant : FlightPoint N → FlightPoint N → ℕ → N
  instant p1 p2 i =
      let t1 = dates.time_of p1.ts in
      let t2 = dates.time_of p2.ts in
      let t_step = if lt t1 t2 then sub t2 t1 else lit 1000 in
      add t1 (mul (div (lit i) (lit (filler_count + 1))) t_step)

  unfoldable pub filler : FlightPoint N → FlightPoint N → ℕ → Option (FlightPoint N)
  unfolding instant
  filler p1 p2 i =
      let t = div (lit i) (lit (filler_count + 1)) in
      let between = λ (a b : N). add a (mul t (sub b a)) in
      dates.iso (instant p1 p2 i) >>= (λ ts. some (record {
        id = 0;
        flight_id = 0;
        ts = ts;
        lat = between p1.lat p2.lat;
        lon = between p1.lon p2.lon;
        altitude_ft = between p1.altitude_ft p2.altitude_ft;
        airspeed_kts = lit 0;
        ground_speed_kts = lit 0;
        heading_deg = bearing_deg d p1.lat p1.lon p2.lat p2.lon;
        vertical_speed_fpm = lit 0;
        on_ground = false;
      }))

  -- The fillers from the `i`-th, `n` of them.
  unfoldable pub fillers_from :
      FlightPoint N → FlightPoint N → ℕ → ℕ → Option (List (FlightPoint N))
  unfolding filler
  fillers_from p1 p2 i zero = some []
  fillers_from p1 p2 i (suc n) =
      filler p1 p2 i >>= (λ p. fillers_from p1 p2 (suc i) n >>= (λ ps. some (p ∷ ps)))

  unfoldable pub fillers :
      List (FlightPoint N) → List (FlightPoint N) → Option (List (FlightPoint N))
  unfolding fillers_from last_element head_of
  fillers first_pts second_pts = elim (last_element first_pts) [
    | none ↦ some []
    | some p1 ↦ elim (head_of second_pts) [
      | none ↦ some []
      | some p2 ↦ fillers_from p1 p2 1 filler_count
    ]
  ]

  gap_dist_nm : List (FlightPoint N) → List (FlightPoint N) → N
  gap_dist_nm first_pts second_pts = elim (last_element first_pts) [
    | none ↦ lit 0
    | some p1 ↦ elim (head_of second_pts) [
      | none ↦ lit 0
      | some p2 ↦ haversine_nm d p1.lat p1.lon p2.lat p2.lon
    ]
  ]

  abbrev or_zero : Option N → N
  or_zero none = lit 0
  or_zero (some x) = x

  effective_end_time : Flight N → Flight N → List (FlightPoint N) → String
  effective_end_time first second second_pts = elim second.end_time [
    | some e ↦ e
    | none ↦ elim (last_element second_pts) [
      | some p ↦ p.ts
      | none ↦ elim first.end_time [ some e ↦ e | none ↦ dates.now ]
    ]
  ]

  unfoldable pub combined_row :
      ℕ → Flight N → Flight N → List (FlightPoint N) → List (FlightPoint N) → ℕ → Flight N
  unfolding own_duration_sec gap_dist_nm effective_end_time combined_notes
  combined_row i first second first_pts second_pts points = record {
    id = i;
    aircraft = or_try first.aircraft second.aircraft;
    departure_lat = first.departure_lat;
    departure_lon = first.departure_lon;
    arrival_lat = second.arrival_lat;
    arrival_lon = second.arrival_lon;
    start_time = first.start_time;
    end_time = some (effective_end_time first second second_pts);
    duration_sec = some (add (own_duration_sec first) (own_duration_sec second));
    distance_nm = some (
        div
          (round (
            mul
              (add (add (or_zero first.distance_nm) (gap_dist_nm first_pts second_pts))
                (or_zero second.distance_nm))
              (lit 10)))
          (lit 10));
    max_altitude_ft =
        some (round (d.max (or_zero first.max_altitude_ft) (or_zero second.max_altitude_ft)));
    max_airspeed_kts =
        some (round (d.max (or_zero first.max_airspeed_kts) (or_zero second.max_airspeed_kts)));
    point_count = some points;
    notes = combined_notes first.notes second.notes;
    trip_id = none;
    departure_icao = none;
    departure_name = none;
    arrival_icao = none;
    arrival_name = none;
    flight_plan_name = none;
    planned_leg_id = none;
    planned_leg_link_source = none;
    planned_leg_prev_trip_id = none;
  }

  -- The attached plan of the earlier flight, or of the later one.
  unfoldable pub carry_plan : ℕ → Flight N → Flight N → Db N → Db N
  carry_plan i first second db =
      elim (or_try (truthy first.flight_plan_name) (truthy second.flight_plan_name)) [
        | none ↦ db
        | some name ↦ set_flight_plan_name i name db
      ]

  -- The writes, once the points to insert are known.
  unfoldable pub write_combined :
      Flight N → Flight N → List (FlightPoint N) → Flight N → Db N → Db N
  unfolding insert_points insert_combined carry_plan
  write_combined first second points row db =
      let inserted = insert_points row.id points (insert_combined row db) in
      let carried = carry_plan row.id first second inserted in
      let cleared = clear_planned_leg_link second.id (clear_planned_leg_link first.id carried) in
      delete_flight_row second.id (delete_flight_row first.id cleared)

  unfoldable pub combine_in_order : Flight N → Flight N → Db N → Option (Db N × Option ℕ)
  unfolding combined_row fillers write_combined
  combine_in_order first second db =
      let first_pts = get_flight_track_points dates.text_lt first.id db in
      let second_pts = get_flight_track_points dates.text_lt second.id db in
      fillers first_pts second_pts >>= (λ filler_pts.
        let points = first_pts ++ (filler_pts ++ second_pts) in
        let count = length first_pts + length filler_pts + length second_pts in
        let row = combined_row db.next_flight_id first second first_pts second_pts count in
        some (write_combined first second points row db, some db.next_flight_id))

  -- `none` is a throw, which rolls the transaction back.
  unfoldable pub combine_flights : ℕ → ℕ → Db N → Option (Db N × Option ℕ)
  unfolding combine_in_order
  combine_flights id_a id_b db = elim (first_where (flight_is id_a) db.flights) [
    | none ↦ some (db, none)
    | some a ↦ elim (first_where (flight_is id_b) db.flights) [
      | none ↦ some (db, none)
      | some b ↦
          if le (dates.time_of a.start_time) (dates.time_of b.start_time)
          then combine_in_order a b db
          else combine_in_order b a db
    ]
  ]
