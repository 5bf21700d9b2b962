-- ===== src/Tests/Combining.antt =====
-- Two flights of the example logbook that are combined.
use msfslogger.Base.{ℕ, some, [], ◌∷◌, false}
use msfslogger.Db.{Db, FlightPoint, auto}
use msfslogger.Db.Flights.Combine.{Dates}
use msfslogger.Tests.Fixtures.{logbook}

abbrev dates : Dates ℕ
dates = record {
  time_of = λ s. 0;
  iso = λ t. some "2026-01-05";
  now = "2026-01-05";
  text_lt = λ s t. false;
}

abbrev point : ℕ → ℕ → FlightPoint ℕ
point i flight_id = record {
  id = i;
  flight_id = flight_id;
  ts = "2026-01-04";
  lat = 46;
  lon = 7;
  altitude_ft = 1700;
  airspeed_kts = 90;
  ground_speed_kts = 90;
  heading_deg = 140;
  vertical_speed_fpm = 0;
  on_ground = false;
}

-- Flight 1 has one point and flight 2 has two.
abbrev tracks : Db ℕ
tracks = record (logbook auto) {
  flight_points = point 1 1 ∷ point 2 2 ∷ point 3 2 ∷ [];
  next_point_id = 4;
}
