-- ===== src/Db/Flights/Combine/Track.antt =====
-- Combining two flights (combineFlights() of src/db/flights.ts) loses no point of their tracks.
use msfslogger.Base.{
  ℕ, ◌+◌, ◌<◌, some, List, ◌++◌, ◌==◌, if◌then◌else◌, ◌≡◌, length, none, Option, ◌≤◌, map, ◌⊎◌,
  ◌||◌,
}
use msfslogger.Base.Double.{Double}
use msfslogger.Db.{Flight, FlightPoint, Db}
use msfslogger.Db.Flights.{get_flight_track_points}
use msfslogger.Db.Flights.Combine.{Dates, instant, fillers, last_element, head_of, filler_count}
use msfslogger.Db.Flights.Combine.Points.{sample, samples}

-- How many points fill the gap between two tracks of that many points.
abbrev pub bridge : ℕ → ℕ → ℕ
bridge m n = if m == 0 || n == 0 then 0 else filler_count

module _ {N : Type 0} (d : Double N) (dates : Dates N) where
  -- The instant of a filler, from the `i`-th up to `top`, cannot be written.
  abbrev pub Unwritable : FlightPoint N → FlightPoint N → ℕ → ℕ → Type 0
  Unwritable p1 p2 i top =
      (k : ℕ) × (i ≤ k) × (k < top) × (dates.iso (instant d dates p1 p2 k) ≡ none)

  -- Between the last point of the one track and the first of the other.
  abbrev pub GapUnwritable : List (FlightPoint N) → List (FlightPoint N) → Type 0
  GapUnwritable xs ys =
      (p1 : FlightPoint N) × (p2 : FlightPoint N) × (last_element xs ≡ some p1)
      × (head_of ys ≡ some p2)
      × Unwritable p1 p2 1 (1 + filler_count)

  abbrev pub track : ℕ → Db N → List (FlightPoint N)
  track i db = get_flight_track_points dates.text_lt i db

  -- What a call leads to: a throw that leaves nothing behind, for the one reason that the instant
  -- of a filler cannot be written; or a new flight that has the samples of `first`, the fillers of
  -- the gap and the samples of `second`, and no other.
  abbrev pub IsCombined : Flight N → Flight N → Db N → Option (Db N × Option ℕ) → Type 0
  IsCombined first second db result =
      ((result ≡ none) × GapUnwritable (track first.id db) (track second.id db))
      ⊎ ((db' : Db N) × (ps : List (FlightPoint N)) × (result ≡ some (db', some db.next_flight_id))
          × (fillers d dates (track first.id db) (track second.id db) ≡ some ps)
          × (length ps ≡ bridge (length (track first.id db)) (length (track second.id db)))
          × (samples db.next_flight_id db'
              ≡ map sample (track first.id db ++ (ps ++ track second.id db))))
