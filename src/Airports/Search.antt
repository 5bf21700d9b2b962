-- ===== src/Airports/Search.antt =====
-- The airport that findNearestAirport() (src/airports.ts) returns is one of the list, within the
-- distance allowed, and none is strictly nearer.
use mathlib.Core.List.{Mem, mem-cons_self, mem-cons_of_mem}
use mathlib.Core.Option.{some-injective}
use msfslogger.Base.{
  Bool, true, false, Option, none, some, List, [], ◌∷◌, ◌≡◌, refl, ◌∙◌, sym, subst, inl, inr, ◌⊎◌,
  arith, if◌then◌else◌, All, Bool-cases,
}
use msfslogger.Base.Double.{Double}
use msfslogger.Airports.{
  Airport, AirportRef, distance_to, search_from, within_max, find_nearest_within,
}

module _ {N : Type 0} (d : Double N) where
  -- The distance kept is the distance of the airport kept.
  abbrev Tied : N → N → Option (Airport N) → N → Type 0
  Tied lat lon none x = Unit
  Tied lat lon (some a) x = x ≡ distance_to d lat lon a

  Tied-if :
      (b : Bool) (lat lon : N) (a : Airport N) (best : Option (Airport N)) (x : N)
      → Tied lat lon best x
      → Tied lat lon (if b then some a else best) (if b then distance_to d lat lon a else x)
  Tied-if true lat lon a best x t = refl
  Tied-if false lat lon a best x t = t

  search_from-Tied :
      (lat lon : N) (best : Option (Airport N)) (x : N) (aps : List (Airport N))
      → Tied lat lon best x
      → Tied lat lon (search_from d lat lon best x aps).0 (search_from d lat lon best x aps).1
  unfolding search_from
  search_from-Tied lat lon best x [] t = t
  search_from-Tied lat lon best x (a ∷ aps) t =
      search_from-Tied lat lon (if d.lt (distance_to d lat lon a) x then some a else best)
        (if d.lt (distance_to d lat lon a) x then distance_to d lat lon a else x) aps
        (Tied-if (d.lt (distance_to d lat lon a) x) lat lon a best x t)

  -- The airport kept is the first best or one of the list.
  abbrev From : Option (Airport N) → List (Airport N) → Option (Airport N) → Type 0
  From best aps none = Unit
  From best aps (some a) = (best ≡ some a) ⊎ Mem a aps

  From-cons :
      (best : Option (Airport N)) (b : Airport N) (aps : List (Airport N)) (r : Option (Airport N))
      → From best aps r
      → From best (b ∷ aps) r
  From-cons best b aps none f = tt
  From-cons best b aps (some a) (inl e) = inl e
  From-cons best b aps (some a) (inr h) = inr (mem-cons_of_mem b h)

  From-head :
      (best : Option (Airport N)) (b : Airport N) (aps : List (Airport N)) (r : Option (Airport N))
      → From (some b) aps r
      → From best (b ∷ aps) r
  From-head best b aps none f = tt
  From-head best b aps (some a) (inl e) =
      inr (subst (λ x. Mem x (b ∷ aps)) (some-injective b a e) mem-cons_self)
  From-head best b aps (some a) (inr h) = inr (mem-cons_of_mem b h)

  From-if :
      (t : Bool) (best : Option (Airport N)) (b : Airport N) (aps : List (Airport N))
      (r : Option (Airport N))
      → From (if t then some b else best) aps r
      → From best (b ∷ aps) r
  From-if true best b aps r f = From-head best b aps r f
  From-if false best b aps r f = From-cons best b aps r f

  search_from-From :
      (lat lon : N) (best : Option (Airport N)) (x : N) (aps : List (Airport N))
      → From best aps (search_from d lat lon best x aps).0
  unfolding search_from
  search_from-From lat lon none x [] = tt
  search_from-From lat lon (some b) x [] = inl refl
  search_from-From lat lon best x (a ∷ aps) =
      From-if (d.lt (distance_to d lat lon a) x) best a aps _ (
        search_from-From lat lon (if d.lt (distance_to d lat lon a) x then some a else best)
          (if d.lt (distance_to d lat lon a) x then distance_to d lat lon a else x) aps)

module _ {N : Type 0} (d : Double N)
    (lt_trans : (x y z : N) → d.lt x y ≡ true → d.lt y z ≡ true → d.lt x z ≡ true) where
  search_from-keeps :
      (lat lon y : N) (best : Option (Airport N)) (x : N) (aps : List (Airport N))
      → d.lt y x ≡ false
      → d.lt y (search_from d lat lon best x aps).1 ≡ false
  unfolding search_from
  search_from-keeps lat lon y best x [] h = h
  search_from-keeps lat lon y best x (a ∷ aps) h =
      search_from-keeps lat lon y (if d.lt (distance_to d lat lon a) x then some a else best)
        (if d.lt (distance_to d lat lon a) x then distance_to d lat lon a else x) aps
        (ground (arith, lt_trans y (distance_to d lat lon a) x))

  search_from-least :
      ((x : N) → d.lt x x ≡ false)
      → (lat lon : N) (best : Option (Airport N)) (x : N) (aps : List (Airport N))
      → All (λ a. d.lt (distance_to d lat lon a) (search_from d lat lon best x aps).1 ≡ false) aps
  unfolding search_from
  search_from-least irrefl lat lon best x [] = tt
  search_from-least irrefl lat lon best x (a ∷ aps) = (
    search_from-keeps lat lon (distance_to d lat lon a)
        (if d.lt (distance_to d lat lon a) x then some a else best)
        (if d.lt (distance_to d lat lon a) x then distance_to d lat lon a else x) aps
        (ground (arith, irrefl (distance_to d lat lon a))),
    search_from-least irrefl lat lon (if d.lt (distance_to d lat lon a) x then some a else best)
        (if d.lt (distance_to d lat lon a) x then distance_to d lat lon a else x) aps,
  )

  -- What the search keeps, read as the answer.
  answered :
      (lat lon max_nm : N) (aps : List (Airport N)) (r : Option (Airport N)) (x : N)
      (ref : AirportRef)
      → Tied d lat lon r x
      → From d none aps r
      → All (λ b. d.lt (distance_to d lat lon b) x ≡ false) aps
      → within_max d max_nm r x ≡ some ref
      → (a : Airport N) × Mem a aps
        × (ref ≡ record { icao = a.icao; name = a.name })
        × (d.le (distance_to d lat lon a) max_nm ≡ true)
        × All (λ b. d.lt (distance_to d lat lon b) (distance_to d lat lon a) ≡ false) aps
  unfolding within_max
  answered lat lon max_nm aps none x ref t f l e = absurd (ground arith)
  answered lat lon max_nm aps (some a) x ref t (inl n) l e = absurd (ground arith)
  answered lat lon max_nm aps (some a) x ref t (inr h) l e = elim (Bool-cases (d.le x max_nm)) [
    | inr far ↦ absurd (ground arith)
    | inl near ↦ (a, h, some-injective _ _ (sym e ∙ rw near refl), rw (← t) near, rw (← t) l)
  ]

  -- An answer is an airport of the list, at most the given distance away, and no airport of the list
  -- is strictly nearer, if `<` is transitive and no number is below itself.
  pub find_nearest_least :
      ((x : N) → d.lt x x ≡ false)
      → (aps : List (Airport N)) (lat lon max_nm : N) (ref : AirportRef)
      → find_nearest_within d aps lat lon max_nm ≡ some ref
      → (a : Airport N) × Mem a aps
        × (ref ≡ record { icao = a.icao; name = a.name })
        × (d.le (distance_to d lat lon a) max_nm ≡ true)
        × All (λ b. d.lt (distance_to d lat lon b) (distance_to d lat lon a) ≡ false) aps
  unfolding find_nearest_within
  find_nearest_least irrefl aps lat lon max_nm ref e =
      answered lat lon max_nm aps _ _ ref (search_from-Tied d lat lon none d.infinity aps tt)
        (search_from-From d lat lon none d.infinity aps)
        (search_from-least irrefl lat lon none d.infinity aps) e
