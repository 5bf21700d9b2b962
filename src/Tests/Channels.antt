-- ===== src/Tests/Channels.antt =====
-- The theorems about traffic, the agent's requests, the event hub and message keys, at concrete
-- inputs.
use mathlib.Core.List.{Perm}
use msfslogger.Base.{
  ℕ, zero, suc, ◌+◌, ◌*◌, ◌<◌, ◌≤◌, Bool, true, false, none, some, List, [], ◌∷◌, ◌++◌, ◌≡◌, ◌↔◌,
  refl, arith, All, length, if◌then◌else◌, ltb, count_where, first_where, ◌==◌,
}
use msfslogger.Base.Int.{ℤ, pos, pos_part, neg_part, sub_ℕ, ltb_ℤ, leb_ℤ}
use msfslogger.Base.Double.{Double}
use msfslogger.Base.Number.{Number}
use msfslogger.Base.MapSet.{map_set}
use msfslogger.Base.Json.{Json, nil, cons, Fields, end, field, num, arr, obj}
use msfslogger.Db.{auto}
use msfslogger.FlightManager.State.{idle}
use msfslogger.Traffic.{
  TrafficObject, TrafficStore, accepted, empty_store, replace, read, has_id, apply_retention_cap,
  max_retained_objects, max_batch_objects, traffic_stale_ms, build_traffic_objects, set_all,
  check_elements, traffic_element, round_coord, round_alt, norm_heading,
}
use msfslogger.Traffic.Retention.{Kept, Farther, cap_keeps_nearest, History, read_shows_last_batch}
use msfslogger.Traffic.Batches.{last_seen, AreValid, accepted_batch}
use msfslogger.Ingest.{Ingest, IngestConfig, post_frame, post_event, post_traffic, check_stale}
use msfslogger.Ingest.Soundness.{SoundIngest, Call, Calls, Calls-Sound}
use msfslogger.Ingest.Refusals.{Unchanged, refused_changes_nothing}
use msfslogger.Tests.Fixtures.{whole, env, recorder}
use msfslogger.Tests.Database.{logbook-DbInv}

-- Signed whole numbers: exact differences, and an order.
abbrev minus : ℤ → ℤ → ℤ
minus a b = sub_ℕ (pos_part a + neg_part b) (neg_part a + pos_part b)

abbrev same : ℤ → ℤ → Bool
same a b = (pos_part a + neg_part b) == (pos_part b + neg_part a)

abbrev signed : Double ℤ
signed = record {
  lit = pos;
  add = λ a b. sub_ℕ (pos_part a + pos_part b) (neg_part a + neg_part b);
  sub = minus;
  mul = λ a b. pos (pos_part a * pos_part b);
  div = λ a b. a;
  rem = λ a b. a;
  pow = λ a b. a;
  lt = ltb_ℤ;
  le = leb_ℤ;
  eq = same;
  infinity = pos 1000000;
  pi = pos 3;
  sin = λ a. a;
  cos = λ a. pos 1;
  atan2 = λ a b. a;
  sqrt = λ a. a;
  min = λ a b. if ltb_ℤ a b then a else b;
  max = λ a b. if ltb_ℤ a b then b else a;
  round = λ a. a;
  of_ms = λ z. z;
}

abbrev plain : {N : Type 0} → N → (N → ℕ) → Number N
plain zero_n to_nat = record {
  is_finite = λ x. true;
  is_integer = λ x. true;
  whole = to_nat;
  floor = λ x. x;
  abs = λ x. x;
  asin = λ x. x;
  negate = λ x. zero_n;
  to_text = λ x. "0";
  to_fixed = λ digits x. "0.0";
}

abbrev object : ℕ → TrafficObject ℤ
object i = record {
  id = i;
  lat = pos i;
  lon = pos 0;
  altitude_ft = pos 0;
  heading_deg = pos 0;
  on_ground = false;
}

abbrev crowd : ℕ → List (TrafficObject ℤ)
crowd zero = []
crowd (suc n) = object n ∷ crowd n

sub_lt : (a b : ℤ) → ltb_ℤ (minus a b) (pos 0) ≡ ltb_ℤ a b
sub_lt a b = ground arith

sub_eq : (a b : ℤ) → same (minus a b) (pos 0) ≡ same a b
sub_eq a b = ground arith

same_refl : (a : ℤ) → same a a ≡ true
same_refl a = ground arith

same_iff : (a b : ℤ) → (same a b ≡ true) ↔ ((ltb_ℤ a b ≡ false) × (ltb_ℤ b a ≡ false))
same_iff a b = ground arith

lt_asym : (a b : ℤ) → ltb_ℤ a b ≡ true → ltb_ℤ b a ≡ false
lt_asym a b h = ground arith

lt_neg_trans : (a b c : ℤ) → ltb_ℤ c b ≡ false → ltb_ℤ b a ≡ false → ltb_ℤ c a ≡ false
lt_neg_trans a b c h k = ground arith

crowded : max_retained_objects < length (crowd 101)
crowded = omega arith

cap_keeps_nearest_example :
    (dropped : List (TrafficObject ℤ)) × Perm
      (apply_retention_cap signed (plain (pos 0) pos_part) (crowd 101) (some (pos 0, pos 0))
        ++ dropped)
      (crowd 101)
    × (length
          (apply_retention_cap signed (plain (pos 0) pos_part) (crowd 101) (some (pos 0, pos 0)))
        ≡ max_retained_objects)
    × All
        (λ k. All (λ z. Farther signed (plain (pos 0) pos_part) (pos 0, pos 0) k z) dropped)
        (apply_retention_cap signed (plain (pos 0) pos_part) (crowd 101) (some (pos 0, pos 0)))
cap_keeps_nearest_example =
    cap_keeps_nearest signed (plain (pos 0) pos_part) sub_lt sub_eq same_refl same_iff lt_asym
      lt_neg_trans (pos 0, pos 0) (crowd 101) crowded

abbrev pub numbers : Number ℕ
numbers = plain 0 (λ n. n)

abbrev plane : ℕ → ℕ → TrafficObject ℕ
plane i lat = record {
  id = i;
  lat = lat;
  lon = 7;
  altitude_ft = 0;
  heading_deg = 0;
  on_ground = false;
}

-- Two batches, the second of one object.
abbrev after_batches : TrafficStore ℕ
after_batches =
    replace (apply_retention_cap whole numbers (plane 4 46 ∷ []) none) 6000
      (replace (apply_retention_cap whole numbers (plane 5 46 ∷ []) none) 1000 empty_store)

read_shows_last_batch_example :
    ((read 9000 after_batches).0 ≡ (
      if ltb (6000 + traffic_stale_ms) 9000
      then []
      else apply_retention_cap whole numbers (plane 4 46 ∷ []) none))
    × Kept (plane 4 46 ∷ []) (apply_retention_cap whole numbers (plane 4 46 ∷ []) none)
    × (length (apply_retention_cap whole numbers (plane 4 46 ∷ []) none) ≤ max_retained_objects)
read_shows_last_batch_example =
    read_shows_last_batch whole numbers (plane 4 46 ∷ []) none 6000 6000 9000 after_batches
      (omega arith)
      (History.replaced _ _ _ none _ _ 6000 _ (omega arith)
        (History.replaced _ _ _ none _ _ 1000 _ (omega arith) History.started))

abbrev element : ℕ → ℕ → Json ℕ
element i lat = obj (
    field "id" (num i) (
      field "lat" (num lat)
        (field "lon" (num 7) (field "altitudeFt" (num 0) (field "headingDeg" (num 0) end)))))

abbrev batch : Fields ℕ
batch = field "objects" (arr (cons (element 4 46) (cons (element 4 47) nil))) end

abbrev stored_plane : TrafficObject ℕ
stored_plane = record {
  id = 4;
  lat = 47;
  lon = 7;
  altitude_ft = 0;
  heading_deg = 0;
  on_ground = false;
}

batch_taken : build_traffic_objects whole numbers (obj batch) ≡ accepted (stored_plane ∷ [])
unfolding build_traffic_objects check_elements traffic_element set_all map_set round_coord round_alt
    norm_heading
batch_taken = refl

-- One id twice: the second element counts.
accepted_batch_example :
    (xs : List (TrafficObject ℕ)) × AreValid whole numbers (element 4 46 ∷ element 4 47 ∷ []) xs
    × (length (element 4 46 ∷ element 4 47 ∷ []) ≤ max_batch_objects)
    × ((i : ℕ) → count_where (has_id i) (stored_plane ∷ []) ≤ 1)
    × ((i : ℕ) → first_where (has_id i) (stored_plane ∷ []) ≡ last_seen i none xs)
accepted_batch_example =
    accepted_batch whole numbers batch (element 4 46 ∷ element 4 47 ∷ []) (stored_plane ∷ []) refl
      batch_taken

abbrev agent : Ingest ℕ
agent = record {
  manager = recorder idle auto 2;
  traffic = empty_store;
  last_frame_at = 0;
  traffic_disabled_logged = false;
  status_changes = 0;
}

abbrev cfg : IngestConfig
cfg = record { token = some "k"; traffic_enabled = true }

abbrev crash_report : Fields ℕ
crash_report = field "type" (Json.text "crashed") end

-- A batch with the token, a crash without it, and the timer.
Calls-Sound_example : SoundIngest (
    check_stale whole numbers env
      (post_event whole numbers
        (λ s. s)
        cfg
        none
        crash_report
        env
        (post_traffic whole numbers (λ s. s) cfg (some "k") (obj batch) env agent).1).1)
Calls-Sound_example =
    Calls-Sound whole numbers (λ s. s) cfg agent _
      (Calls.then_call _ _ _
        (Calls.then_call _ _ _
          (Calls.then_call _ _ _ (Calls.no_calls agent)
            (Call.traffic_posted (some "k") (obj batch) env agent))
          (Call.event_posted none crash_report env
            (post_traffic whole numbers (λ s. s) cfg (some "k") (obj batch) env agent).1))
        (Call.timer_fired env
          (post_event whole numbers (λ s. s) cfg none crash_report env
            (post_traffic whole numbers (λ s. s) cfg (some "k") (obj batch) env agent).1).1))
      ((refl, refl, refl), logbook-DbInv auto)

refused_changes_nothing_example :
    Unchanged agent (post_frame whole numbers (λ s. s) cfg (some "x") (obj batch) env agent)
    × Unchanged agent (post_event whole numbers (λ s. s) cfg (some "x") crash_report env agent)
    × Unchanged agent (post_traffic whole numbers (λ s. s) cfg (some "x") (obj batch) env agent)
refused_changes_nothing_example =
    refused_changes_nothing whole numbers (λ s. s) cfg (some "x") (obj batch) crash_report env agent
