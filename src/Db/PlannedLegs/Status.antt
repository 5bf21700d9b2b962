-- ===== src/Db/PlannedLegs/Status.antt =====
-- The status of a leg (src/db/plannedLegs.ts): a PATCH may not touch a linked leg, touchdown writes
-- the outcome, and a hand close-out is re-checked inside its transaction.
use msfslogger.Base.{
  ℕ, Bool, true, false, Option, none, some, ◌≡◌, refl, inl, inr, arith, ltb, first_where,
  update_where, count_where, Option-cases, Bool-cases, String, ap, ◌⊎◌, is_none, if◌then◌else◌, ◌∙◌,
}
use msfslogger.Base.Table.{first_where-update, first_where_holds}
use msfslogger.Base.Unique.{count_where-pos_of_first}
use msfslogger.Db.{
  Flight, PlannedLeg, Db, LinkSource, manual, LegStatus, planned, flown, diverted, skipped, Result,
  ok, thrown, OnOk,
}
use msfslogger.Db.PlannedLegs.{leg_is, links_to, LegError, has_linked_flight}
use msfslogger.Db.PlannedLegs.Invariant.{LinkInv, legs-LinkInv}

-- What setPlannedLegStatus() may be asked for.
pub data RequestedStatus : Type 0 where
  as_planned as_skipped : RequestedStatus

abbrev pub status_of : RequestedStatus → LegStatus
status_of as_planned = planned
status_of as_skipped = skipped

-- What recordPlannedLegArrival() may be told.
pub data ArrivalOutcome : Type 0 where
  arrived_flown arrived_diverted : ArrivalOutcome

abbrev pub outcome_status : ArrivalOutcome → LegStatus
outcome_status arrived_flown = flown
outcome_status arrived_diverted = diverted

-- What a hand close-out may write.
pub data HandOutcome : Type 0 where
  hand_planned hand_flown : HandOutcome

abbrev pub hand_status : HandOutcome → LegStatus
hand_status hand_planned = planned
hand_status hand_flown = flown

-- Why a hand close-out stopped qualifying.
pub data HandConflict : Type 0 where
  no_linked_flight not_linked_by_hand not_ended : HandConflict

abbrev pub is_manual : Option LinkSource → Bool
is_manual (some manual) = true
is_manual _ = false

is_manual_lem : (s : Option LinkSource) → is_manual s ≡ true → s ≡ some manual
is_manual_lem s h = ground arith

end_of : (o : Option String) → is_none o ≡ false → (t : String) × (o ≡ some t)
end_of o h = ground arith

module _ {N : Type 0} where
  -- UPDATE planned_legs SET status = ?, arrival_deviation_nm = ? WHERE id = ?
  unfoldable pub set_outcome : LegStatus → Option N → PlannedLeg N → PlannedLeg N
  set_outcome status deviation l = record l { status = status; arrival_deviation_nm = deviation }

  unfoldable pub write_outcome : ℕ → LegStatus → Option N → Db N → Db N × Bool
  unfolding set_outcome
  write_outcome leg_id status deviation db = (
    record db {
      planned_legs = update_where (leg_is leg_id) (set_outcome status deviation) db.planned_legs;
    },
    ltb 0 (count_where (leg_is leg_id) db.planned_legs),
  )

  unfoldable pub set_planned_leg_status : ℕ → RequestedStatus → Db N → Result LegError (Db N × Bool)
  unfolding write_outcome
  set_planned_leg_status leg_id status db = elim (first_where (leg_is leg_id) db.planned_legs) [
    | none ↦ ok (db, false)
    | some _ ↦ elim (first_where (links_to leg_id) db.flights) [
      | some f ↦ thrown (has_linked_flight leg_id f.id)
      | none ↦ ok (write_outcome leg_id (status_of status) none db)
    ]
  ]

  unfoldable pub record_planned_leg_arrival : ℕ → ArrivalOutcome → N → Db N → Db N
  unfolding write_outcome
  record_planned_leg_arrival leg_id status deviation db =
      (write_outcome leg_id (outcome_status status) (some deviation) db).0

  unfoldable pub set_planned_leg_hand_outcome :
      ℕ → HandOutcome → Option N → Db N → Result HandConflict (Db N × Bool)
  unfolding write_outcome
  set_planned_leg_hand_outcome leg_id status deviation db =
      elim (first_where (leg_is leg_id) db.planned_legs) [
        | none ↦ ok (db, false)
        | some _ ↦ elim (first_where (links_to leg_id) db.flights) [
          | none ↦ thrown no_linked_flight
          | some f ↦
              if is_manual f.planned_leg_link_source
              then (if is_none f.end_time
                  then thrown not_ended
                  else ok (write_outcome leg_id (hand_status status) deviation db))
              else thrown not_linked_by_hand
        ]
      ]

  write_outcome-LinkInv :
      (l : ℕ) (st : LegStatus) (d : Option N) (db : Db N)
      → LinkInv db
      → LinkInv (write_outcome l st d db).0
  unfolding write_outcome
  write_outcome-LinkInv l st d db =
      legs-LinkInv (leg_is l) (set_outcome st d) db (λ x. refl) (λ x. refl)

  -- The write on a leg that exists: that leg's two columns are the given ones and the caller is
  -- told so.
  pub write_outcome_row :
      (l : ℕ) (st : LegStatus) (d : Option N) (db : Db N) (leg : PlannedLeg N)
      → first_where (leg_is l) db.planned_legs ≡ some leg
      → (first_where (leg_is l) (write_outcome l st d db).0.planned_legs
          ≡ some (record leg { status = st; arrival_deviation_nm = d }))
        × ((write_outcome l st d db).1 ≡ true)
  unfolding write_outcome
  write_outcome_row l st d db leg e =
      let t = first_where_holds (leg_is l) db.planned_legs leg e in
      (
        first_where-update (leg_is l) (leg_is l) (set_outcome st d) (λ x _. refl) db.planned_legs
              leg e
            ∙ rw t,
        ground (arith, count_where-pos_of_first (leg_is l) (leg_is l) db.planned_legs leg e t),
      )

  ok_written :
      (l : ℕ) (st : LegStatus) (d : Option N) (db : Db N) (leg : PlannedLeg N)
      → first_where (leg_is l) db.planned_legs ≡ some leg
      → ◌≡◌ {A = Result LegError (Db N × Bool)}
          (ok (write_outcome l st d db))
          (ok ((write_outcome l st d db).0, true))
  ok_written l st d db leg e =
      ap (λ b. ok ((write_outcome l st d db).0, b)) (write_outcome_row l st d db leg e).1

  -- A status change is refused, naming the flight, as long as any flight is linked to the leg; on
  -- an unlinked leg it sets the status and drops the deviation; a leg that is not there gives
  -- `false` and no change.
  pub set_planned_leg_status_cases :
      (l : ℕ) (st : RequestedStatus) (db : Db N)
      → ((first_where (leg_is l) db.planned_legs ≡ none)
          × (set_planned_leg_status l st db ≡ ok (db, false)))
        ⊎ ((leg : PlannedLeg N) × (first_where (leg_is l) db.planned_legs ≡ some leg)
            × (((f : Flight N) × (first_where (links_to l) db.flights ≡ some f)
                  × (set_planned_leg_status l st db ≡ thrown (has_linked_flight l f.id)))
                ⊎ ((first_where (links_to l) db.flights ≡ none)
                    × ((db' : Db N) × (set_planned_leg_status l st db ≡ ok (db', true))
                        × (db'.flights ≡ db.flights)
                        × (first_where (leg_is l) db'.planned_legs
                            ≡ some (record leg {
                              status = status_of st;
                              arrival_deviation_nm = none;
                            }))))))
  unfolding set_planned_leg_status
  set_planned_leg_status_cases l st db =
      elim (Option-cases (first_where (leg_is l) db.planned_legs)) [
        | inl e ↦ inl (e, rw (e, set_planned_leg_status))
        | inr (leg, e) ↦ inr (
          leg,
          e,
          elim (Option-cases (first_where (links_to l) db.flights)) [
            | inr (f, linked) ↦ inl (f, linked, rw (e, set_planned_leg_status, linked) refl)
            | inl free ↦ inr (
              free,
              (
                (write_outcome l (status_of st) none db).0,
                rw (e, set_planned_leg_status, free) (ok_written l (status_of st) none db leg e),
                unfold write_outcome in refl,
                (write_outcome_row l (status_of st) none db leg e).0,
              ),
            )
          ],
        )
      ]

  -- A status change that returns keeps the bookkeeping of links.
  pub set_planned_leg_status-LinkInv :
      (l : ℕ) (st : RequestedStatus) (db : Db N)
      → LinkInv db
      → OnOk (λ r. LinkInv r.0) (set_planned_leg_status l st db)
  unfolding set_planned_leg_status
  set_planned_leg_status-LinkInv l st db inv =
      elim (Option-cases (first_where (leg_is l) db.planned_legs)) [
        | inl e ↦ rw (e, set_planned_leg_status) inv
        | inr (leg, e) ↦ elim (Option-cases (first_where (links_to l) db.flights)) [
          | inr (f, linked) ↦ rw (e, set_planned_leg_status, linked) tt
          | inl free ↦
              rw (e, set_planned_leg_status, free)
                (write_outcome-LinkInv l (status_of st) none db inv)
        ]
      ]

  pub record_planned_leg_arrival-LinkInv :
      (l : ℕ) (st : ArrivalOutcome) (d : N) (db : Db N)
      → LinkInv db
      → LinkInv (record_planned_leg_arrival l st d db)
  unfolding record_planned_leg_arrival
  record_planned_leg_arrival-LinkInv l st d db =
      write_outcome-LinkInv l (outcome_status st) (some d) db

  -- A hand close-out that writes found the leg, a flight linked to it by hand that has ended, and
  -- it wrote the requested status and deviation to that leg and nothing to any flight.
  pub hand_outcome_writes :
      (l : ℕ) (st : HandOutcome) (d : Option N) (db : Db N)
      → OnOk
          (λ r.
            (r ≡ (db, false))
            ⊎ ((leg : PlannedLeg N) × (f : Flight N) × (end : String) × (first_where
                    (links_to l)
                    db.flights
                  ≡ some f)
                × (f.planned_leg_link_source ≡ some manual)
                × (f.end_time ≡ some end)
                × (r.1 ≡ true)
                × (r.0.flights ≡ db.flights)
                × (first_where (leg_is l) r.0.planned_legs
                    ≡ some (record leg { status = hand_status st; arrival_deviation_nm = d }))))
          (set_planned_leg_hand_outcome l st d db)
  unfolding set_planned_leg_hand_outcome
  hand_outcome_writes l st d db = elim (Option-cases (first_where (leg_is l) db.planned_legs)) [
    | inl e ↦ rw (e, set_planned_leg_hand_outcome) (inl refl)
    | inr (leg, e) ↦ elim (Option-cases (first_where (links_to l) db.flights)) [
      | inl free ↦ rw (e, set_planned_leg_hand_outcome, free) tt
      | inr (f, linked) ↦ elim (Bool-cases (is_manual f.planned_leg_link_source)) [
        | inr auto_link ↦ rw (e, set_planned_leg_hand_outcome, linked, auto_link) tt
        | inl by_hand ↦ elim (Bool-cases (is_none f.end_time)) [
          | inl flying ↦ rw (e, set_planned_leg_hand_outcome, linked, by_hand, flying) tt
          | inr ended ↦
              rw (e, set_planned_leg_hand_outcome, linked, by_hand, ended)
                (inr (
                  leg,
                  f,
                  (end_of f.end_time ended).0,
                  refl,
                  is_manual_lem f.planned_leg_link_source by_hand,
                  (end_of f.end_time ended).1,
                  (write_outcome_row l (hand_status st) d db leg e).1,
                  unfold write_outcome in refl,
                  (write_outcome_row l (hand_status st) d db leg e).0,
                ))
        ]
      ]
    ]
  ]
