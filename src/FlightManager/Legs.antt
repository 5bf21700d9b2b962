-- ===== src/FlightManager/Legs.antt =====
-- The live-status caches and the two uses of the matcher (src/flightManager.ts).
use msfslogger.Base.{
  ℕ, ◌==◌, Bool, Option, none, some, List, [], ◌∷◌, map, String, if◌then◌else◌, first_where,
  where_rows, or_else, ltb,
}
use msfslogger.Base.Double.{Double}
use msfslogger.Geo.{haversine_nm, cross_track_nm}
use msfslogger.Db.{Db, PlannedLeg, PlannedWaypoint, GroundSession, auto, Result, ok, thrown}
use msfslogger.Base.Sorting.{sort_by}
use msfslogger.Db.PlannedLegs.{
  LegError, leg_is, get_flight_planned_leg_id, link_flight_to_planned_leg,
}
use msfslogger.Db.PlannedLegs.Crud.{waypoint_of}
use msfslogger.Db.PlannedLegs.Candidates.{
  get_active_trip_id, get_planned_leg_candidates_for_active_trip,
}
use msfslogger.Db.Trips.{get_trip_name}
use msfslogger.LegMatcher.{LegMatchInput, match_planned_leg}
use msfslogger.LegMatcher.Decision.{is_matched}
use msfslogger.GroundState.{SimFrame}
use msfslogger.FlightManager.State.{
  Manager, RoutePoint, PlannedLegCache, GroundSessionLiveStatus, notify_scope_change,
}

pub record PlannedLegLiveStatus (N : Type 0) : Type 0 where
  pub planned_leg_id : ℕ
  pub trip_id : Option ℕ
  pub trip_name : Option String
  pub destination_ident : String
  pub next_waypoint_ident : String
  pub remaining_distance_nm : N

-- One segment of the route: its ends, and what remains from its far end.
pub record Segment (N : Type 0) : Type 0 where
  pub near_end : RoutePoint N
  pub far_end : RoutePoint N
  pub remaining : N

pub record GroundMatch : Type 0 where
  pub planned_leg_id : Option ℕ
  pub parking_position : Option String

module _ {N : Type 0} where
  unfoldable pub get_leg : ℕ → Db N → Option (PlannedLeg N)
  get_leg l db = first_where (leg_is l) db.planned_legs

  waypoint_before : PlannedWaypoint N → PlannedWaypoint N → Bool
  waypoint_before v w = ltb v.seq w.seq

  route_point : PlannedWaypoint N → RoutePoint N
  route_point w = record { ident = w.ident; lat = w.lat; lon = w.lon }

  -- The waypoints of a leg, ORDER BY seq ASC.
  unfoldable pub route_of : ℕ → Db N → List (RoutePoint N)
  unfolding waypoint_before route_point
  route_of l db =
      map route_point (sort_by waypoint_before (where_rows (waypoint_of l) db.planned_waypoints))

  unfoldable pub build_ground_session_cache : GroundSession N → Db N → GroundSessionLiveStatus
  unfolding get_leg
  build_ground_session_cache s db =
      let leg : Option (PlannedLeg N) = elim s.planned_leg_id [
        | none ↦ none
        | some l ↦ get_leg l db
      ] in
      let trip : Option ℕ = elim leg [ none ↦ none | some l ↦ l.trip_id ] in
      record {
        ground_session_id = s.id;
        source = s.source;
        airport_icao = s.airport_icao;
        airport_name = s.airport_name;
        parking_position = s.parking_position;
        parking_position_source = s.parking_position_source;
        planned_leg_id = s.planned_leg_id;
        planned_leg_link_source = s.planned_leg_link_source;
        trip_id = trip;
        trip_name = elim trip [ none ↦ none | some t ↦ get_trip_name t db ];
        departure_ident = elim leg [ none ↦ none | some l ↦ some l.plan.departure.ident ];
        destination_ident = elim leg [ none ↦ none | some l ↦ some l.plan.destination.ident ];
        started_at = s.started_at;
      }

module _ {N : Type 0} (d : Double N) where
  open d use {lit, add, mul, div, round, lt, infinity}

  head_or_zero : List N → N
  head_or_zero [] = lit 0
  head_or_zero (x ∷ xs) = x

  -- `remainingFromNm[i]`: along the chain from waypoint i to the destination.
  unfoldable pub remaining_chain : List (RoutePoint N) → List N
  unfolding head_or_zero haversine_nm
  remaining_chain [] = []
  remaining_chain (w ∷ []) = lit 0 ∷ []
  remaining_chain (w ∷ v ∷ ws) =
      let rest = remaining_chain (v ∷ ws) in
      add (head_or_zero rest) (haversine_nm d w.lat w.lon v.lat v.lon) ∷ rest

  unfoldable pub build_planned_leg_cache : ℕ → PlannedLeg N → Db N → PlannedLegCache N
  unfolding route_of remaining_chain
  build_planned_leg_cache flight_id leg db = record {
    flight_id = flight_id;
    planned_leg_id = leg.id;
    trip_id = leg.trip_id;
    trip_name = elim leg.trip_id [ none ↦ none | some t ↦ some (or_else (get_trip_name t db) "") ];
    destination_ident = leg.plan.destination.ident;
    waypoints = route_of leg.id db;
    remaining_from_nm = remaining_chain (route_of leg.id db);
  }

  segments : List (RoutePoint N) → List N → List (Segment N)
  segments (w ∷ v ∷ ws) (r ∷ q ∷ rs) =
      record { near_end = w; far_end = v; remaining = q } ∷ segments (v ∷ ws) (q ∷ rs)
  segments _ _ = []

  segment_distance : N → N → Segment N → N
  segment_distance lat lon s =
      cross_track_nm d lat lon s.near_end.lat s.near_end.lon s.far_end.lat s.far_end.lon

  -- The loop over the segments, with `bestSegment` and `bestCrossTrackNm`.
  best_segment : N → N → Segment N → N → List (Segment N) → Segment N
  unfolding segment_distance
  best_segment lat lon best best_nm [] = best
  best_segment lat lon best best_nm (s ∷ ss) =
      best_segment lat lon (if lt (segment_distance lat lon s) best_nm then s else best)
        (if lt (segment_distance lat lon s) best_nm then segment_distance lat lon s else best_nm) ss

  -- `none` is the TypeError of a route that has no second waypoint.
  status_on : PlannedLegCache N → N → N → List (Segment N) → Option (PlannedLegLiveStatus N)
  unfolding best_segment haversine_nm
  status_on cache lat lon [] = none
  status_on cache lat lon (s ∷ ss) =
      let best = best_segment lat lon s infinity (s ∷ ss) in
      let remaining =
        add (haversine_nm d lat lon best.far_end.lat best.far_end.lon) best.remaining in
      some (record {
        planned_leg_id = cache.planned_leg_id;
        trip_id = cache.trip_id;
        trip_name = cache.trip_name;
        destination_ident = cache.destination_ident;
        next_waypoint_ident = best.far_end.ident;
        remaining_distance_nm = div (round (mul remaining (lit 10))) (lit 10);
      })

  unfoldable pub get_planned_leg_status :
      N → N → PlannedLegCache N → Option (PlannedLegLiveStatus N)
  unfolding segments status_on
  get_planned_leg_status lat lon cache =
      status_on cache lat lon (segments cache.waypoints cache.remaining_from_nm)

  unfoldable pub refresh_cache : ℕ → Db N → Option (PlannedLegCache N)
  unfolding build_planned_leg_cache get_leg
  refresh_cache flight_id db = elim (get_flight_planned_leg_id flight_id db) [
    | none ↦ none
    | some l ↦ elim (get_leg l db) [
      | none ↦ none
      | some leg ↦ some (build_planned_leg_cache flight_id leg db)
    ]
  ]

  -- The cache after refreshPlannedLegForFlight(): unless the flight is the current one, as it was.
  unfoldable pub refreshed_cache : ℕ → Manager N → Option (PlannedLegCache N)
  unfolding refresh_cache
  refreshed_cache flight_id m = elim m.current_flight_id [
    | none ↦ m.planned_leg_cache
    | some i ↦ if i == flight_id then refresh_cache flight_id m.db else m.planned_leg_cache
  ]

  unfoldable pub refresh_planned_leg_for_flight : ℕ → Manager N → Manager N
  unfolding refreshed_cache notify_scope_change
  refresh_planned_leg_for_flight flight_id m =
      notify_scope_change (record m { planned_leg_cache = refreshed_cache flight_id m })

  -- What both callers hand to the matcher.
  unfoldable pub takeoff_input : SimFrame N → String → Db N → LegMatchInput N
  takeoff_input frame start_time db = record {
    lat = frame.lat;
    lon = frame.lon;
    start_time = start_time;
    aircraft = some frame.aircraft;
    active_trip_id = get_active_trip_id db;
    flight_already_linked_to = none;
    candidates = get_planned_leg_candidates_for_active_trip db;
    radius_nm = none;
  }

  -- The leg of a `MATCHED` result.
  unfoldable pub matched_leg : SimFrame N → String → Db N → Option ℕ
  unfolding takeoff_input match_planned_leg
  matched_leg frame start_time db =
      let result = match_planned_leg d (takeoff_input frame start_time db) in
      if is_matched result.reason then result.planned_leg_id else none

  unfoldable pub match_ground_planned_leg : SimFrame N → String → Db N → GroundMatch
  unfolding matched_leg get_leg
  match_ground_planned_leg frame start_time db = elim (matched_leg frame start_time db) [
    | none ↦ record { planned_leg_id = none; parking_position = none }
    | some l ↦ record {
      planned_leg_id = some l;
      parking_position = elim (get_leg l db) [
        | none ↦ none
        | some leg ↦ leg.plan.departure_start.start
      ];
    }
  ]

  -- What is done with the result of the link write: the cache if the leg was found before it.
  unfoldable pub cache_linked : ℕ → ℕ → Result LegError (Db N) → Manager N → Manager N
  unfolding build_planned_leg_cache get_leg
  cache_linked flight_id l (thrown e) m = m
  cache_linked flight_id l (ok db') m = elim (get_leg l m.db) [
    | none ↦ record m { db = db' }
    | some leg ↦ record m {
      db = db';
      planned_leg_cache = some (build_planned_leg_cache flight_id leg db');
    }
  ]

  -- The link write of autoLinkPlannedLeg(), whose throw is caught.
  unfoldable pub auto_link : ℕ → ℕ → Manager N → Manager N
  unfolding cache_linked
  auto_link flight_id l m =
      cache_linked flight_id l (link_flight_to_planned_leg flight_id l auto m.db) m

  unfoldable pub auto_link_planned_leg : ℕ → SimFrame N → String → Manager N → Manager N
  unfolding matched_leg auto_link
  auto_link_planned_leg flight_id frame start_time m = elim (matched_leg frame start_time m.db) [
    | none ↦ m
    | some l ↦ auto_link flight_id l m
  ]
