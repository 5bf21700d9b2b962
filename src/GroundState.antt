-- ===== src/GroundState.antt =====
-- Ground-state decision helpers (src/groundState.ts), over the telemetry frame of src/types.ts.
use msfslogger.Base.{
  ℕ, ◌+◌, Bool, false, not, Option, none, some, leb, if◌then◌else◌, String, ◌&&◌, ◌||◌,
}
use msfslogger.Base.Double.{Double}
use msfslogger.Geo.{haversine_nm}

-- A telemetry frame.
pub record SimFrame (N : Type 0) : Type 0 where
  pub lat : N
  pub lon : N
  pub altitude_ft : N
  pub airspeed_knots : N
  pub ground_speed_knots : N
  pub heading_deg : N
  pub vertical_speed_fpm : N
  pub on_ground : Bool
  pub sim_running : N
  pub aircraft : String
  pub parking_brake : Option Bool
  pub engine_count : Option N
  pub engines_running : Option N

abbrev pub ground_debounce_frames : ℕ
ground_debounce_frames = 5

-- `x === true`
abbrev pub is_set : Option Bool → Bool
is_set none = false
is_set (some b) = b

unfoldable pub has_parked_debounce : ℕ → Bool
has_parked_debounce streak = leb ground_debounce_frames streak

module _ {N : Type 0} (d : Double N) where
  open d use {lit, lt, eq}

  -- `x !== undefined && x === 0`
  abbrev pub is_zero : Option N → Bool
  is_zero none = false
  is_zero (some x) = eq x (lit 0)

  unfoldable pub is_parked_frame : SimFrame N → Bool
  is_parked_frame frame =
      not (eq frame.sim_running (lit 0))
      && (not (eq frame.sim_running (lit 3))
          && (frame.on_ground
              && (lt frame.ground_speed_knots (lit 1)
                  && (is_zero frame.engines_running || is_set frame.parking_brake))))

  unfoldable pub next_parked_streak : ℕ → SimFrame N → ℕ
  unfolding is_parked_frame
  next_parked_streak streak frame = if is_parked_frame frame then streak + 1 else 0

  unfoldable pub has_left_anchor : N → N → N → N → Bool
  unfolding haversine_nm
  has_left_anchor anchor_lat anchor_lon lat lon =
      lt (lit 10) (haversine_nm d anchor_lat anchor_lon lat lon)
