-- ===== src/Traffic.antt =====
-- The AI-traffic store (src/trafficStore.ts) and the batches that the ingest route hands it
-- (src/ingest.ts). `now` is the instant of Date.now() in milliseconds.
pub mod Retention
pub mod Batches
use msfslogger.Base.{
  ℕ, suc, Bool, true, false, Option, none, some, List, [], ◌∷◌, ◌++◌, map, ◌==◌, ltb, leb, ◌&&◌,
  ◌||◌, not, if◌then◌else◌, String, length, take, is_none,
}
use msfslogger.Base.Int.{sub_ℕ, ltb_ℤ, pos}
use msfslogger.Base.Double.{Double}
use msfslogger.Base.Number.{Number}
use msfslogger.Base.Json.{Json, Fields, as_object, as_array, as_number, get_field, bool}
use msfslogger.Base.MapSet.{map_set}
use msfslogger.Base.Sorting.{sort_by}

pub record TrafficObject (N : Type 0) : Type 0 where
  pub id : ℕ
  pub lat : N
  pub lon : N
  pub altitude_ft : N
  pub heading_deg : N
  pub on_ground : Bool

-- The fields of TrafficStore.
pub record TrafficStore (N : Type 0) : Type 0 where
  pub objects : List (TrafficObject N)
  pub received_at : ℕ

-- An object with its distance from the own aircraft.
pub record Measured (N : Type 0) : Type 0 where
  pub o : TrafficObject N
  pub d : N

-- What buildTrafficObjects() says: the objects, or the first reason against the batch.
pub data TrafficBatchResult (N : Type 0) : Type 0 where
  accepted : List (TrafficObject N) → TrafficBatchResult N
  not_object no_array : TrafficBatchResult N
  too_many : TrafficBatchResult N
  invalid_at : ℕ → TrafficBatchResult N

abbrev pub max_retained_objects : ℕ
max_retained_objects = 100

abbrev pub traffic_stale_ms : ℕ
traffic_stale_ms = 10000

abbrev pub max_batch_objects : ℕ
max_batch_objects = 200

module _ {N : Type 0} where
  abbrev pub empty_store : TrafficStore N
  empty_store = record { objects = []; received_at = 0 }

  unfoldable pub replace : List (TrafficObject N) → ℕ → TrafficStore N → TrafficStore N
  replace objects now store = record { objects = objects; received_at = now }

  -- `objects.length > 0 && now - receivedAt > TRAFFIC_STALE_MS`
  abbrev pub is_stale : ℕ → TrafficStore N → Bool
  is_stale now store =
      ltb 0 (length store.objects) && ltb_ℤ (pos traffic_stale_ms) (sub_ℕ now store.received_at)

  -- What a read answers, with what it leaves in the store.
  unfoldable pub read : ℕ → TrafficStore N → List (TrafficObject N) × TrafficStore N
  read now store =
      if is_stale now store then ([], record store { objects = [] }) else (store.objects, store)

  abbrev pub object_of : Measured N → TrafficObject N
  object_of m = m.o

  abbrev pub has_id : ℕ → TrafficObject N → Bool
  has_id i x = x.id == i

  -- The loop over the elements: `byId.set(normalized.id, normalized)`.
  unfoldable pub set_all : List (TrafficObject N) → List (TrafficObject N) → List (TrafficObject N)
  set_all by_id [] = by_id
  set_all by_id (x ∷ xs) = set_all (map_set (has_id x.id) x by_id) xs

module _ {N : Type 0} (d : Double N) (number : Number N) where
  open d use {lit, add, sub, mul, div, rem, pow, lt, le, eq, pi, sin, cos, sqrt, min, round}
  open number use {is_finite, is_integer, whole, asin, negate}

  unfoldable pub round_coord : N → N
  round_coord x = div (round (mul x (lit 1000000))) (lit 1000000)

  unfoldable pub round_alt : N → N
  round_alt x = round x

  unfoldable pub norm_heading : N → N
  norm_heading h =
      div (rem (add (rem (round (mul h (lit 10))) (lit 3600)) (lit 3600)) (lit 3600)) (lit 10)

  abbrev pub rad : N → N
  rad x = div (mul x pi) (lit 180)

  unfoldable pub distance_m : N → N → N → N → N
  distance_m a_lat a_lon b_lat b_lon =
      let d_lat = rad (sub b_lat a_lat) in
      let d_lon = rad (sub b_lon a_lon) in
      let h =
        add (pow (sin (div d_lat (lit 2))) (lit 2))
          (mul (mul (cos (rad a_lat)) (cos (rad b_lat))) (pow (sin (div d_lon (lit 2))) (lit 2))) in
      mul (mul (lit 2) (lit 6371000)) (asin (min (lit 1) (sqrt h)))

  unfoldable pub measure : N × N → TrafficObject N → Measured N
  unfolding distance_m
  measure (lat, lon) o = record { o = o; d = distance_m lat lon o.lat o.lon }

  -- `a.d - b.d || a.o.id - b.o.id` is below zero: a difference of zero, or NaN, is no difference.
  unfoldable pub comes_before : Measured N → Measured N → Bool
  comes_before a b =
      let diff = sub a.d b.d in
      if eq diff (lit 0) || not (eq diff diff) then ltb a.o.id b.o.id else lt diff (lit 0)

  -- The retention cap; `last_frame` is the own position.
  unfoldable pub apply_retention_cap :
      List (TrafficObject N) → Option (N × N) → List (TrafficObject N)
  unfolding measure comes_before sort_by
  apply_retention_cap objects last_frame =
      if leb (length objects) max_retained_objects then objects else (elim last_frame [
        | none ↦ take max_retained_objects objects
        | some own ↦
            map object_of
              (take max_retained_objects (sort_by comes_before (map (measure own) objects)))
      ])

  -- `Number.isFinite(x) && x >= -limit && x <= limit`
  abbrev pub within_degrees : ℕ → N → Bool
  within_degrees limit x = is_finite x && (le (negate (lit limit)) x && le x (lit limit))

  abbrev pub is_id : N → Bool
  is_id x = is_integer x && le (lit 0) x

  -- `onGround === undefined || typeof onGround === 'boolean'`, and then `onGround === true`.
  abbrev pub ground_flag : Option (Json N) → Option Bool
  ground_flag none = some false
  ground_flag (some (bool b)) = some b
  ground_flag _ = none

  abbrev pub when : Bool → TrafficObject N → Option (TrafficObject N)
  when true a = some a
  when false a = none

  -- The checked fields, with the stored shape that is built from them.
  abbrev pub normalize_fields :
      Option N → Option N → Option N → Option N → Option N → Option Bool → Option (TrafficObject N)
  unfolding round_coord round_alt norm_heading
  normalize_fields (some i) (some lat) (some lon) (some alt) (some hdg) (some on_ground) =
      when
        (is_id i
          && (within_degrees 90 lat
              && (within_degrees 180 lon && (is_finite alt && is_finite hdg))))
        (record {
          id = whole i;
          lat = round_coord lat;
          lon = round_coord lon;
          altitude_ft = round_alt alt;
          heading_deg = norm_heading hdg;
          on_ground = on_ground;
        })
  normalize_fields _ _ _ _ _ _ = none

  -- isValidTrafficElement() and normalizeTrafficElement() of one element.
  unfoldable pub traffic_element : Json N → Option (TrafficObject N)
  traffic_element json = elim (as_object json) [
    | none ↦ none
    | some t ↦
        normalize_fields (as_number (get_field "id" t)) (as_number (get_field "lat" t))
          (as_number (get_field "lon" t)) (as_number (get_field "altitudeFt" t))
          (as_number (get_field "headingDeg" t)) (ground_flag (get_field "onGround" t))
  ]

  -- The loop over the elements, from index `i`: all of them normalised, or the first invalid index.
  unfoldable pub check_elements : ℕ → List (TrafficObject N) → List (Json N) → TrafficBatchResult N
  unfolding traffic_element set_all
  check_elements i done [] = accepted (set_all [] done)
  check_elements i done (json ∷ rest) = elim (traffic_element json) [
    | none ↦ invalid_at i
    | some x ↦ check_elements (suc i) (done ++ x ∷ []) rest
  ]

  unfoldable pub build_traffic_objects : Json N → TrafficBatchResult N
  unfolding check_elements
  build_traffic_objects body = elim (as_object body) [
    | none ↦ not_object
    | some fields ↦ elim (as_array (get_field "objects" fields)) [
      | none ↦ no_array
      | some objects ↦
          if ltb max_batch_objects (length objects) then too_many else check_elements 0 [] objects
    ]
  ]
