-- ===== src/Acars/Clearance.antt =====
-- Pre-departure clearances (src/acars.ts): the squawk, the initial altitude and the body.
use Prim.Native.String.{◌++◌}
use msfslogger.Base.{
  ℕ, zero, suc, ◌+◌, ◌*◌, ◌%◌, Bool, Option, none, some, [], ◌∷◌, if◌then◌else◌, or_else, String,
  str_eq, ◌||◌,
}
use msfslogger.Base.Double.{Double}
use msfslogger.Base.Number.{Number}
use msfslogger.Base.Text.{digits_in, pad_start, join}
use msfslogger.Acars.{Dates, level_text}
use msfslogger.Acars.Dispatch.{DispatchPayload}
use msfslogger.Acars.Loadsheet.{clamp_route}

pub record ClearanceDetails (N : Type 0) : Type 0 where
  pub departure_icao : Option String
  pub destination_icao : Option String
  pub route : Option String
  pub initial_altitude_ft : N
  pub squawk : String

-- `n.toString(8).padStart(4, '0')`
unfoldable pub octal_code : ℕ → String
unfolding digits_in pad_start
octal_code n = pad_start 4 "0" (digits_in 8 (suc n) n)

-- 0000, 7500, 7600, 7700
abbrev pub is_reserved : String → Bool
is_reserved s = str_eq s "0000" || (str_eq s "7500" || (str_eq s "7600" || str_eq s "7700"))

-- The loop that leaves reserved codes behind; none when it has run out of rounds.
unfoldable pub free_code : ℕ → ℕ → Option ℕ
unfolding octal_code
free_code zero n = none
free_code (suc rounds) n =
    let next = free_code rounds ((n + 1) % 4096) in
    if is_reserved (octal_code n) then next else some n

abbrev pub code_text : Option ℕ → Option String
unfolding octal_code
code_text none = none
code_text (some n) = some (octal_code n)

-- Two rounds: no two reserved codes are neighbours. `to_double` is the double nearest to a whole
-- number, itself whole: the product is rounded once it is above 2 ^ 53.
unfoldable pub squawk_for_leg : (ℕ → ℕ) → ℕ → Option String
unfolding free_code code_text
squawk_for_leg to_double leg = code_text (free_code 2 (to_double (leg * 2654435761) % 4096))

module _ {N : Type 0} (d : Double N) where
  open d use {lit, min}

  unfoldable pub derive_initial_altitude_ft : Option N → N
  derive_initial_altitude_ft none = lit 5000
  derive_initial_altitude_ft (some cruise) = min (lit 5000) cruise

  unfoldable pub build_clearance_details :
      (ℕ → ℕ) → DispatchPayload N → ℕ → Option (ClearanceDetails N)
  unfolding squawk_for_leg clamp_route derive_initial_altitude_ft
  build_clearance_details to_double p leg = elim (squawk_for_leg to_double leg) [
    | none ↦ none
    | some squawk ↦ some (record {
      departure_icao = p.origin;
      destination_icao = p.destination;
      route = some (clamp_route p.route);
      initial_altitude_ft = derive_initial_altitude_ft p.cruise_alt_ft;
      squawk = squawk;
    })
  ]

module _ {N : Type 0} (d : Double N) (number : Number N) (dates : Dates N) where
  unfoldable pub build_clearance_body : ClearanceDetails N → String
  unfolding level_text join
  build_clearance_body c = join "\n" (
      "PDC"
      ∷ (or_else c.departure_icao "????" ++ (" TO " ++ or_else c.destination_icao "????"))
      ∷ ("CLEARED VIA " ++ or_else c.route "NIL")
      ∷ ("CLIMB AND MAINTAIN " ++ level_text d number dates (some c.initial_altitude_ft))
      ∷ ("SQUAWK " ++ c.squawk)
      ∷ "SIMULATED CLEARANCE - NOT FOR REAL WORLD USE"
      ∷ [])
