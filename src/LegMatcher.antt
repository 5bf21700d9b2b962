-- ===== src/LegMatcher.antt =====
-- The planned-leg auto-matcher (src/legMatcher.ts): a takeoff position and the legs of the active
-- trip in, a leg or a refusal with its reason out.
pub mod Decision
pub mod Nearest
use msfslogger.Base.{
  ℕ, suc, Bool, true, false, Option, none, some, List, [], ◌∷◌, map, ◌==◌, leb, is_none, is_some,
  or_else, if◌then◌else◌, String, where_rows,
}
use msfslogger.Base.Double.{Double}
use msfslogger.Geo.{haversine_nm}
use msfslogger.Db.{LegStatus, planned, flown, diverted, skipped}

pub data LegMatchReason : Type 0 where
  matched no_active_trip no_planned_legs no_leg_in_radius ambiguous leg_already_flown :
      LegMatchReason
  leg_already_linked leg_skipped snippet_no_departure_airport flight_already_linked : LegMatchReason

pub record LegMatchCandidate (N : Type 0) : Type 0 where
  pub planned_leg_id : ℕ
  pub trip_id : ℕ
  pub seq : ℕ
  pub departure_ident : Option String
  pub departure_is_airport : Bool
  pub departure_lat : N
  pub departure_lon : N
  pub status : LegStatus
  pub linked_flight_id : Option ℕ
  pub aircraft_type : Option String

pub record LegMatchInput (N : Type 0) : Type 0 where
  pub lat : N
  pub lon : N
  pub start_time : String
  pub aircraft : Option String
  pub active_trip_id : Option ℕ
  pub flight_already_linked_to : Option ℕ
  pub candidates : List (LegMatchCandidate N)
  pub radius_nm : Option N

pub record LegMatchResult (N : Type 0) : Type 0 where
  pub planned_leg_id : Option ℕ
  pub trip_id : Option ℕ
  pub reason : LegMatchReason
  pub distance_nm : Option N
  pub nearby_leg_ids : List ℕ

-- A candidate paired with its distance from the takeoff position.
pub record Scored (N : Type 0) : Type 0 where
  pub candidate : LegMatchCandidate N
  pub distance_nm : N

-- `ids.sort((a, b) => a - b)`: the ids in ascending order.
insert_id : ℕ → List ℕ → List ℕ
insert_id a [] = a ∷ []
insert_id a (b ∷ bs) = let rest = insert_id a bs in if leb a b then a ∷ b ∷ bs else b ∷ rest

unfoldable pub sort_ids : List ℕ → List ℕ
unfolding insert_id
sort_ids [] = []
sort_ids (a ∷ as') = insert_id a (sort_ids as')

abbrev pub is_landed : LegStatus → Bool
is_landed flown = true
is_landed diverted = true
is_landed planned = false
is_landed skipped = false

abbrev pub is_skipped : LegStatus → Bool
is_skipped skipped = true
is_skipped _ = false

module _ {N : Type 0} where
  -- The obstacle that a leg presents, in the order of precedence.
  unfoldable pub refusal_for : LegMatchCandidate N → Option LegMatchReason
  refusal_for c =
      if is_landed c.status
      then some leg_already_flown
      else (if is_skipped c.status
          then some leg_skipped
          else (if is_some c.linked_flight_id
              then some leg_already_linked
              else (if c.departure_is_airport then none else some snippet_no_departure_airport)))

  abbrev pub is_eligible : Scored N → Bool
  is_eligible s = is_none (refusal_for s.candidate)

  abbrev pub id_of : Scored N → ℕ
  id_of s = s.candidate.planned_leg_id

  unfoldable pub ids_ascending : List (Scored N) → List ℕ
  unfolding sort_ids
  ids_ascending scored = sort_ids (map id_of scored)

  -- A refusal with nothing to report but its reason.
  unfoldable pub refusal : LegMatchReason → LegMatchResult N
  refusal reason = record {
    planned_leg_id = none;
    trip_id = none;
    reason = reason;
    distance_nm = none;
    nearby_leg_ids = [];
  }

  abbrev pub in_trip : ℕ → LegMatchCandidate N → Bool
  in_trip trip c = c.trip_id == trip

module _ {N : Type 0} (d : Double N) where
  open d use {lit, lt, le}

  -- 10
  abbrev pub departure_radius_nm : N
  departure_radius_nm = lit 10

  -- 10
  abbrev pub arrival_radius_nm : N
  arrival_radius_nm = lit 10

  -- The loop of nearest(): a strict `<` keeps the earlier of two at one distance.
  unfoldable pub nearest_from : Scored N → List (Scored N) → Scored N
  nearest_from best [] = best
  nearest_from best (s ∷ rest) =
      nearest_from (if lt s.distance_nm best.distance_nm then s else best) rest

  unfoldable pub score : LegMatchInput N → LegMatchCandidate N → Scored N
  unfolding haversine_nm
  score input c = record {
    candidate = c;
    distance_nm = haversine_nm d input.lat input.lon c.departure_lat c.departure_lon;
  }

  abbrev pub within : N → Scored N → Bool
  within radius s = le s.distance_nm radius

  -- Steps 5 to 7, on the legs within the radius; `first` is `near[0]`.
  unfoldable pub choose : Scored N → List (Scored N) → List (Scored N) → LegMatchResult N
  unfolding nearest_from refusal_for ids_ascending
  choose first near [] =
      let blocker = nearest_from first near in
      record {
        planned_leg_id = none;
        trip_id = none;
        reason = or_else (refusal_for blocker.candidate) matched;
        distance_nm = some blocker.distance_nm;
        nearby_leg_ids = ids_ascending near;
      }
  choose first near (winner ∷ []) = record {
    planned_leg_id = some winner.candidate.planned_leg_id;
    trip_id = some winner.candidate.trip_id;
    reason = matched;
    distance_nm = some winner.distance_nm;
    nearby_leg_ids = ids_ascending near;
  }
  choose first near (e ∷ f ∷ more) = record {
    planned_leg_id = none;
    trip_id = none;
    reason = ambiguous;
    distance_nm = some (nearest_from e (e ∷ f ∷ more)).distance_nm;
    nearby_leg_ids = ids_ascending (e ∷ f ∷ more);
  }

  -- Step 4 on, on the scored pool; `first` is `scored[0]`.
  unfoldable pub by_radius : N → Scored N → List (Scored N) → LegMatchResult N
  unfolding nearest_from choose refusal
  by_radius radius first scored = elim (where_rows (within radius) scored) [
    | [] ↦ record (refusal no_leg_in_radius) {
      distance_nm = some (nearest_from first scored).distance_nm;
    }
    | n ∷ near ↦ choose n (n ∷ near) (where_rows is_eligible (n ∷ near))
  ]

  unfoldable pub match_pool : LegMatchInput N → List (LegMatchCandidate N) → LegMatchResult N
  unfolding by_radius score refusal
  match_pool input [] = refusal no_planned_legs
  match_pool input (c ∷ cs) =
      by_radius (or_else input.radius_nm departure_radius_nm) (score input c)
        (map (score input) (c ∷ cs))

  unfoldable pub match_planned_leg : LegMatchInput N → LegMatchResult N
  unfolding match_pool refusal
  match_planned_leg input = elim input.flight_already_linked_to [
    | some _ ↦ refusal flight_already_linked
    | none ↦ elim input.active_trip_id [
      | none ↦ refusal no_active_trip
      | some trip ↦ match_pool input (where_rows (in_trip trip) input.candidates)
    ]
  ]
