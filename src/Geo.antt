-- ===== src/Geo.antt =====
-- Shared geometry (src/geo.ts, and its private copies in src/flightManager.ts): great-circle
-- distance and bearing, the wrapped longitude difference, and the distance to a route segment.
use msfslogger.Base.{if◌then◌else◌}
use msfslogger.Base.Double.{Double}

module _ {N : Type 0} (d : Double N) where
  open d use {lit, add, sub, mul, div, rem, pow, eq, min, max, pi, sin, cos, atan2, sqrt}

  -- 3440.065
  earth_radius_nm : N
  earth_radius_nm = div (lit 3440065) (lit 1000)

  -- `(x * Math.PI) / 180`
  to_rad : N → N
  to_rad x = div (mul x pi) (lit 180)

  unfoldable pub haversine_nm : N → N → N → N → N
  unfolding to_rad earth_radius_nm
  haversine_nm lat1 lon1 lat2 lon2 =
      let d_lat = to_rad (sub lat2 lat1) in
      let d_lon = to_rad (sub lon2 lon1) in
      let a = add (pow (sin (div d_lat (lit 2))) (lit 2)) (
        mul (mul (cos (to_rad lat1)) (cos (to_rad lat2)))
          (pow (sin (div d_lon (lit 2))) (lit 2))) in
      mul (mul earth_radius_nm (lit 2)) (atan2 (sqrt a) (sqrt (sub (lit 1) a)))

  unfoldable pub bearing_deg : N → N → N → N → N
  unfolding to_rad
  bearing_deg lat1 lon1 lat2 lon2 =
      let d_lon = to_rad (sub lon2 lon1) in
      let la1 = to_rad lat1 in
      let la2 = to_rad lat2 in
      let y = mul (sin d_lon) (cos la2) in
      let x = sub (mul (cos la1) (sin la2)) (mul (mul (sin la1) (cos la2)) (cos d_lon)) in
      rem (add (div (mul (atan2 y x) (lit 180)) pi) (lit 360)) (lit 360)

  -- Signed longitude difference, wrapped.
  unfoldable pub lon_delta_deg : N → N → N
  lon_delta_deg from to =
      sub (rem (add (rem (sub to from) (lit 360)) (lit 540)) (lit 360)) (lit 180)

  unfoldable pub cross_track_nm : N → N → N → N → N → N → N
  unfolding lon_delta_deg
  cross_track_nm lat lon a_lat a_lon b_lat b_lon =
      let cos_lat = cos (div (mul (div (add a_lat b_lat) (lit 2)) pi) (lit 180)) in
      let bx = mul (lon_delta_deg a_lon b_lon) cos_lat in
      let by = sub b_lat a_lat in
      let px = mul (lon_delta_deg a_lon lon) cos_lat in
      let py = sub lat a_lat in
      let ab_len_sq = add (mul bx bx) (mul by by) in
      let t =
        if eq ab_len_sq (lit 0)
        then lit 0
        else max (lit 0) (min (lit 1) (div (add (mul px bx) (mul py by)) ab_len_sq)) in
      let dx = sub px (mul t bx) in
      let dy = sub py (mul t by) in mul (sqrt (add (mul dx dx) (mul dy dy))) (lit 60)
