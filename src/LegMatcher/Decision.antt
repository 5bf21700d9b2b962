-- ===== src/LegMatcher/Decision.antt =====
-- What matchPlannedLeg() (src/legMatcher.ts) decides, against a direct description: the legs that
-- can be used, and the one leg if there is just one.
use msfslogger.Base.{
  ℕ, Bool, true, false, Option, none, some, List, [], ◌∷◌, map, ◌≡◌, refl, inl, inr, ◌∙◌, arith,
  is_none, is_some, or_else, if◌then◌else◌, where_rows, ◌&&◌, All, Option-cases, Bool-cases, ap,
}
use msfslogger.Base.Double.{Double}
use msfslogger.Geo.{haversine_nm}
use msfslogger.LegMatcher.{
  LegMatchReason, matched, LegMatchCandidate, LegMatchInput, Scored, refusal_for, is_eligible,
  refusal, in_trip, departure_radius_nm, nearest_from, score, within, choose, by_radius, match_pool,
  match_planned_leg,
}

-- The id of the only leg of a list, if it has just one.
abbrev pub only_leg : {N : Type 0} → List (LegMatchCandidate N) → Option ℕ
only_leg [] = none
only_leg (c ∷ []) = some c.planned_leg_id
only_leg (c ∷ e ∷ more) = none

module _ {N : Type 0} (d : Double N) where
  open d use {le}

  -- A leg of the trip whose departure is in reach of the takeoff and that nothing speaks against.
  pub usable : LegMatchInput N → ℕ → LegMatchCandidate N → Bool
  usable input trip c =
      in_trip trip c
      && (le (haversine_nm d input.lat input.lon c.departure_lat c.departure_lon)
            (or_else input.radius_nm (departure_radius_nm d))
          && is_none (refusal_for c))

  -- The legs that the steps of the code leave are the usable ones, in their order.
  usable_legs :
      (input : LegMatchInput N) (trip : ℕ) (cs : List (LegMatchCandidate N))
      → map
          (λ s. s.candidate)
          (where_rows is_eligible (
            where_rows
              (within d (or_else input.radius_nm (departure_radius_nm d)))
              (map (score d input) (where_rows (in_trip trip) cs))))
        ≡ where_rows (usable input trip) cs
  unfolding where_rows usable score
  usable_legs input trip [] = refl
  usable_legs input trip (c ∷ cs) = ground (arith, usable_legs input trip cs)

  choose-leg :
      (first : Scored N) (near es : List (Scored N))
      → (choose d first near es).planned_leg_id ≡ only_leg (map (λ s. s.candidate) es)
  unfolding choose
  choose-leg first near [] = refl
  choose-leg first near (e ∷ []) = refl
  choose-leg first near (e ∷ f ∷ more) = refl

  by_radius-leg :
      (radius : N) (first : Scored N) (scored : List (Scored N))
      → (by_radius d radius first scored).planned_leg_id
        ≡ only_leg
            (map (λ s. s.candidate) (where_rows is_eligible (where_rows (within d radius) scored)))
  unfolding by_radius
  by_radius-leg radius first scored = go (where_rows (within d radius) scored) refl
    where
      go :
          (near : List (Scored N))
          → where_rows (within d radius) scored ≡ near
          → (by_radius d radius first scored).planned_leg_id
            ≡ only_leg (
                map
                  (λ s. s.candidate)
                  (where_rows is_eligible (where_rows (within d radius) scored)))
      go [] e = rw (e, by_radius) (unfold refusal where_rows in refl)
      go (n ∷ near) e =
          rw (e, by_radius) (choose-leg n (n ∷ near) (where_rows is_eligible (n ∷ near)))

  match_pool-leg :
      (input : LegMatchInput N) (pool : List (LegMatchCandidate N))
      → (match_pool d input pool).planned_leg_id
        ≡ only_leg (
            map
              (λ s. s.candidate)
              (where_rows is_eligible (
                where_rows
                  (within d (or_else input.radius_nm (departure_radius_nm d)))
                  (map (score d input) pool))))
  unfolding match_pool
  match_pool-leg input [] = unfold refusal where_rows in refl
  match_pool-leg input (c ∷ cs) = by_radius-leg _ (score d input c) (map (score d input) (c ∷ cs))

  -- The leg that the decision should be.
  pub expected_leg : LegMatchInput N → Option ℕ
  unfolding usable
  expected_leg input = elim input.flight_already_linked_to [
    | some _ ↦ none
    | none ↦ elim input.active_trip_id [
      | none ↦ none
      | some trip ↦ only_leg (where_rows (usable input trip) input.candidates)
    ]
  ]

  -- A leg is chosen exactly when the flight has no link, a trip is active and just one leg of it
  -- is usable, and then it is that leg; two or more usable legs are never guessed between.
  pub match-expected_leg :
      (input : LegMatchInput N) → (match_planned_leg d input).planned_leg_id ≡ expected_leg input
  unfolding match_planned_leg expected_leg
  match-expected_leg input = elim (Option-cases input.flight_already_linked_to) [
    | inr (f, e) ↦ rw e (unfold refusal in refl)
    | inl free ↦ elim (Option-cases input.active_trip_id) [
      | inl off ↦ rw (free, off) (unfold refusal in refl)
      | inr (trip, on) ↦
          rw (free, on)
            (match_pool-leg input (where_rows (in_trip trip) input.candidates)
              ∙ ap only_leg (usable_legs input trip input.candidates))
    ]
  ]

abbrev pub is_matched : LegMatchReason → Bool
is_matched matched = true
is_matched _ = false

module _ {N : Type 0} where
  refusal_for_lem :
      (c : LegMatchCandidate N)
      → is_none (refusal_for c) ≡ false
      → is_matched (or_else (refusal_for c) matched) ≡ false
  unfolding refusal_for
  refusal_for_lem c h = ground arith

  none_eligible :
      (near : List (Scored N))
      → where_rows is_eligible near ≡ []
      → All (λ s. is_eligible s ≡ false) near
  unfolding where_rows
  none_eligible [] e = tt
  none_eligible (s ∷ near) e = elim (Bool-cases (is_eligible s)) [
    | inl t ↦ absurd (ground arith)
    | inr t ↦ (t, none_eligible near (rw t at e))
  ]

module _ {N : Type 0} (d : Double N) where
  pub nearest_from-All :
      (P : Scored N → Type 0) (best : Scored N) (xs : List (Scored N))
      → P best
      → All P xs
      → P (nearest_from d best xs)
  unfolding nearest_from
  nearest_from-All P best [] p a = p
  nearest_from-All P best (s ∷ rest) p a =
      nearest_from-All P (if d.lt s.distance_nm best.distance_nm then s else best) rest
        (elim (Bool-cases (d.lt s.distance_nm best.distance_nm)) [
          | inl e ↦ rw e a.0
          | inr e ↦ rw e p
        ])
        a.1

  choose-reason :
      (n : Scored N) (near : List (Scored N)) (es : List (Scored N))
      → where_rows is_eligible (n ∷ near) ≡ es
      → is_matched (choose d n (n ∷ near) es).reason
        ≡ is_some (choose d n (n ∷ near) es).planned_leg_id
  unfolding choose
  choose-reason n near [] e = refusal_for_lem (nearest_from d n (n ∷ near)).candidate (
      nearest_from-All (λ s. is_eligible s ≡ false) n (n ∷ near) (none_eligible (n ∷ near) e).0
        (none_eligible (n ∷ near) e))
  choose-reason n near (w ∷ []) e = refl
  choose-reason n near (w ∷ v ∷ more) e = refl

  by_radius-reason :
      (radius : N) (first : Scored N) (scored : List (Scored N))
      → is_matched (by_radius d radius first scored).reason
        ≡ is_some (by_radius d radius first scored).planned_leg_id
  unfolding by_radius
  by_radius-reason radius first scored = go (where_rows (within d radius) scored) refl
    where
      go :
          (near : List (Scored N))
          → where_rows (within d radius) scored ≡ near
          → is_matched (by_radius d radius first scored).reason
            ≡ is_some (by_radius d radius first scored).planned_leg_id
      go [] e = rw (e, by_radius) (unfold refusal in refl)
      go (n ∷ near) e =
          rw (e, by_radius) (choose-reason n near (where_rows is_eligible (n ∷ near)) refl)

  match_pool-reason :
      (input : LegMatchInput N) (pool : List (LegMatchCandidate N))
      → is_matched (match_pool d input pool).reason
        ≡ is_some (match_pool d input pool).planned_leg_id
  unfolding match_pool
  match_pool-reason input [] = unfold refusal in refl
  match_pool-reason input (c ∷ cs) =
      by_radius-reason _ (score d input c) (map (score d input) (c ∷ cs))

  -- The reason is `MATCHED` exactly when a leg is returned: no refusal goes by that name, and the
  -- cast in step 5 never meets a leg with no obstacle.
  pub match-reason :
      (input : LegMatchInput N)
      → is_matched (match_planned_leg d input).reason
        ≡ is_some (match_planned_leg d input).planned_leg_id
  unfolding match_planned_leg
  match-reason input = elim (Option-cases input.flight_already_linked_to) [
    | inr (f, e) ↦ rw e (unfold refusal in refl)
    | inl free ↦ elim (Option-cases input.active_trip_id) [
      | inl off ↦ rw (free, off) (unfold refusal in refl)
      | inr (trip, on) ↦
          rw (free, on) (match_pool-reason input (where_rows (in_trip trip) input.candidates))
    ]
  ]
