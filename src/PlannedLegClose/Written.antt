-- ===== src/PlannedLegClose/Written.antt =====
-- What the gate allows, the writer writes: decideHandClose() (src/plannedLegClose.ts) and
-- setPlannedLegHandOutcome() (src/db/plannedLegs.ts) agree on who may close a leg by hand.
use msfslogger.Base.{
  ℕ, true, false, Option, some, ◌≡◌, inl, inr, first_where, Option-cases, Bool-cases, is_none, ap,
}
use msfslogger.Base.Double.{Double}
use msfslogger.Db.{Flight, PlannedLeg, Db, ok}
use msfslogger.Db.PlannedLegs.{leg_is, links_to}
use msfslogger.Db.PlannedLegs.Status.{
  HandOutcome, hand_status, is_manual, write_outcome, write_outcome_row,
  set_planned_leg_hand_outcome,
}
use msfslogger.PlannedLegClose.{
  HandCloseDecision, allowed, refused, status_refusal, recorded_deviation, decide_for,
  decide_hand_close,
}

-- What holds of an allowed close-out.
abbrev pub OnAllowed :
    {N : Type 0} → (ℕ → HandOutcome → Option N → Type 0) → HandCloseDecision N → Type 0
OnAllowed P (allowed l st x) = P l st x
OnAllowed P (refused r) = Unit

module _ {N : Type 0} where
  -- The writer on a leg whose flight is linked by hand and has ended.
  writes :
      (l : ℕ) (st : HandOutcome) (x : Option N) (db : Db N) (leg : PlannedLeg N) (f : Flight N)
      → first_where (leg_is l) db.planned_legs ≡ some leg
      → first_where (links_to l) db.flights ≡ some f
      → is_manual f.planned_leg_link_source ≡ true
      → is_none f.end_time ≡ false
      → set_planned_leg_hand_outcome l st x db
        ≡ ok ((write_outcome l (hand_status st) x db).0, true)
  unfolding set_planned_leg_hand_outcome
  writes l st x db leg f found linked by_hand done =
      rw (found, set_planned_leg_hand_outcome, linked, by_hand, done)
        (ap (λ b. ok ((write_outcome l (hand_status st) x db).0, b))
          (write_outcome_row l (hand_status st) x db leg found).1)

module _ {N : Type 0} (d : Double N) where
  -- For a leg of the database and the flight that is linked to it: whatever the gate allows, the
  -- writer does not refuse; it says that it wrote, and the leg then has the requested status and the
  -- deviation that the gate measured.
  pub allowed_is_written :
      (requested : HandOutcome) (f : Flight N) (leg : PlannedLeg N) (db : Db N)
      → first_where (leg_is leg.id) db.planned_legs ≡ some leg
      → first_where (links_to leg.id) db.flights ≡ some f
      → OnAllowed
          (λ l st x.
            (db' : Db N) × (set_planned_leg_hand_outcome l st x db ≡ ok (db', true))
            × (first_where (leg_is leg.id) db'.planned_legs
                ≡ some (record leg { status = hand_status requested; arrival_deviation_nm = x })))
          (decide_hand_close d requested f (some leg))
  unfolding decide_hand_close decide_for
  allowed_is_written requested f leg db found linked =
      elim (Bool-cases (is_none f.planned_leg_id)) [
        | inl e ↦ rw e tt
        | inr e ↦ elim (Bool-cases (is_manual f.planned_leg_link_source)) [
          | inr automatic ↦ rw (e, automatic) tt
          | inl by_hand ↦ elim (Bool-cases (is_none f.end_time)) [
            | inl airborne ↦ rw (e, by_hand, airborne) tt
            | inr done ↦ elim (Option-cases (status_refusal requested leg.status)) [
              | inr (r, s) ↦ rw (e, by_hand, done, s) tt
              | inl s ↦
                  rw (e, by_hand, done, s)
                    (
                      (write_outcome leg.id (hand_status requested)
                          (recorded_deviation d requested f leg) db).0,
                      writes leg.id requested (recorded_deviation d requested f leg) db leg f found
                          linked by_hand done,
                      (write_outcome_row leg.id (hand_status requested)
                          (recorded_deviation d requested f leg) db leg found).0,
                    )
            ]
          ]
        ]
      ]
