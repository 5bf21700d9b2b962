-- ===== src/Db/GroundSessions/Precedence.antt =====
-- What an operator's request leaves (insertManualGroundSession(), src/db/groundSessions.ts): one
-- open session, at the airport that was asked for, whatever was open before.
use text.Mathlib.TextEquality.{eq_iff}
use msfslogger.Base.{
  ℕ, Bool, true, Option, none, some, ◌≡◌, refl, inl, inr, arith, ap, first_where, Option-cases,
  Bool-cases, String, ◌&&◌, ==-refl, ◌∙◌,
}
use msfslogger.Base.Table.{first_where-update, count_where_of_first-none, first_where-none_of_count}
use msfslogger.Base.Unique.{first_where_unique, first_where-append_fresh}
use msfslogger.Db.PlannedLegs.{leg_is}
use msfslogger.Db.{GroundSession, PlannedLeg, EndReason, Db, manual, Result, ok, thrown}
use msfslogger.Db.GroundSessions.{
  SessionError, leg_exists, CreateManualGroundSession, session_open, session_is,
  get_ground_session_row, new_row, append_session, write_session, parked_row,
  close_open_ground_session, update_open_ground_session_parking,
}
use msfslogger.Db.GroundSessions.Manual.{
  is_auto, at_airport, replacement_reason, fresh_input, fresh_insert, leg_row,
  set_open_ground_session_planned_leg, refine_parking, refine_leg, refine, with_open,
  insert_manual_ground_session,
}
use msfslogger.Db.GroundSessions.Invariant.{
  SessionInv, append-SessionInv, write-SessionInv, insert_of_none, close-SessionInv,
  close-none_open,
}

-- The request was answered: session `s` is the open one, at airport `icao`, and all is well.
pub record Serves {N : Type 0} (icao : String) (s : GroundSession N) (db : Db N) : Type 0 where
  pub inv : SessionInv db
  pub is_open : first_where session_open db.ground_sessions ≡ some s
  pub at : s.airport_icao ≡ some icao

-- The call returned, and what it returned serves the request.
abbrev pub Served :
    {N : Type 0} → String → Result SessionError (GroundSession N × Bool × Db N) → Type 0
Served icao (ok (s, created, db)) = Serves icao s db
Served icao (thrown e) = ⊥

at_airport_lem : (a : Option String) (icao : String) → at_airport a icao ≡ true → a ≡ some icao
at_airport_lem a icao h = elim (Option-cases a) [
  | inl e ↦ absurd (ground (arith, e, h))
  | inr (b, e) ↦ e ∙ ap some ((eq_iff b icao).0 (rw e at h))
]

module _ {N : Type 0} where
  -- Writing the open session with something that keeps its id and keeps it open.
  write_open :
      (s : GroundSession N) (f : GroundSession N → GroundSession N) (db : Db N)
      → ((x : GroundSession N) → (f x).id ≡ x.id)
      → ((x : GroundSession N) → session_open (f x) ≡ session_open x)
      → SessionInv db
      → first_where session_open db.ground_sessions ≡ some s
      → (get_ground_session_row s.id (write_session s.id f db) ≡ some (f s))
        × (first_where session_open (write_session s.id f db).ground_sessions ≡ some (f s))
  unfolding get_ground_session_row write_session
  write_open s f db same keeps inv e = (
    first_where-update (session_is s.id) (session_is s.id) f (λ x _. ground (arith, same x))
          db.ground_sessions s
          (first_where_unique session_open (session_is s.id) db.ground_sessions s (inv.ids s.id) e
            (==-refl s.id))
        ∙ rw (==-refl s.id),
    first_where-update session_open (session_is s.id) f (λ x _. keeps x) db.ground_sessions s e
        ∙ rw (==-refl s.id),
  )

  -- A request that names a leg names one that exists.
  abbrev pub NamesLeg : CreateManualGroundSession → Db N → Type 0
  NamesLeg input db =
      (l : ℕ)
      → input.planned_leg_id ≡ some l
      → (leg : PlannedLeg N) × (first_where (leg_is l) db.planned_legs ≡ some leg)

  named_exists :
      (input : CreateManualGroundSession) (db : Db N)
      → NamesLeg input db
      → leg_exists input.planned_leg_id db ≡ true
  named_exists input db h = elim (Option-cases input.planned_leg_id) [
    | inl e ↦ unfold leg_exists in rw e refl
    | inr (l, e) ↦ unfold leg_exists in rw (e, (h l e).1) refl
  ]

  parking-legs :
      (position : Option String) (now : String) (db : Db N)
      → (update_open_ground_session_parking position manual now db).1.planned_legs ≡ db.planned_legs
  unfolding update_open_ground_session_parking write_session
  parking-legs position now db = elim (Option-cases (first_where session_open db.ground_sessions)) [
    | inl free ↦ rw (free, update_open_ground_session_parking) refl
    | inr (s, e) ↦ rw (e, update_open_ground_session_parking) refl
  ]

  refine_parking-legs :
      (input : CreateManualGroundSession) (now : String) (s : GroundSession N) (db : Db N)
      → (refine_parking input now s db).1.planned_legs ≡ db.planned_legs
  unfolding refine_parking
  refine_parking-legs input now s db = elim (Bool-cases input.parking_position_given) [
    | inr no_stand ↦ rw no_stand refl
    | inl given ↦ rw given (parking-legs input.parking_position now db)
  ]

  close-legs :
      (r : EndReason) (now : String) (db : Db N)
      → (close_open_ground_session r none now db).1.planned_legs ≡ db.planned_legs
  unfolding close_open_ground_session write_session
  close-legs r now db = elim (Option-cases (first_where session_open db.ground_sessions)) [
    | inl free ↦ rw (free, close_open_ground_session) refl
    | inr (s, e) ↦ rw (e, close_open_ground_session) refl
  ]

  fresh-Served :
      (input : CreateManualGroundSession) (now : String) (db : Db N)
      → SessionInv db
      → NamesLeg input db
      → first_where session_open db.ground_sessions ≡ none
      → Served input.airport_icao (fresh_insert input now db)
  unfolding fresh_insert
  fresh-Served input now db inv named free =
      rw
        (
          insert_of_none (fresh_input input) now db inv free
              (unfold fresh_input in named_exists input db named),
          fresh_insert,
        )
        (record {
          inv =
              append-SessionInv (new_row db.next_session_id (fresh_input input) now) db
                (unfold new_row in refl)
                (count_where_of_first-none session_open db.ground_sessions free) inv;
          is_open =
              unfold append_session in
              first_where-append_fresh session_open db.ground_sessions
                (new_row db.next_session_id (fresh_input input) now)
                (count_where_of_first-none session_open db.ground_sessions free)
                (unfold new_row in refl);
          at = unfold new_row fresh_input in refl;
        })

  replaced-Served :
      (input : CreateManualGroundSession) (now : String) (s : GroundSession N) (db : Db N)
      → SessionInv db
      → NamesLeg input db
      → Served input.airport_icao (
          fresh_insert input now
            (close_open_ground_session (replacement_reason s.source) none now db).1)
  replaced-Served input now s db inv named =
      fresh-Served input now _ (close-SessionInv (replacement_reason s.source) none now db inv)
        (λ l e. rw (close-legs (replacement_reason s.source) now db) (named l e))
        (first_where-none_of_count session_open _
          (close-none_open (replacement_reason s.source) none now db inv))

  refine_leg-Served :
      (input : CreateManualGroundSession) (now : String) (s : GroundSession N) (db : Db N)
      → Serves input.airport_icao s db
      → NamesLeg input db
      → Served input.airport_icao (refine_leg input now s db)
  unfolding refine_leg
  refine_leg-Served input now s db h named = elim (Bool-cases input.planned_leg_id_given) [
    | inr no_leg ↦ rw no_leg h
    | inl given ↦ elim (Option-cases input.planned_leg_id) [
      | inl null ↦ rw (given, null) h
      | inr (l, e) ↦
          let (found, opened) =
            write_open s (leg_row l manual now) db (λ x. unfold leg_row in refl)
              (λ x. unfold leg_row in refl) h.inv h.is_open in
          let known = rw e at (named_exists input db named) in
          rw (given, e, set_open_ground_session_planned_leg, known, found)
            (record {
              inv =
                  write-SessionInv s.id (leg_row l manual now) db (λ x. unfold leg_row in refl)
                    (λ x t. unfold leg_row in t) h.inv;
              is_open = opened;
              at = unfold leg_row in h.at;
            })
    ]
  ]

  refine_parking-Serves :
      (input : CreateManualGroundSession) (now : String) (s : GroundSession N) (db : Db N)
      → Serves input.airport_icao s db
      → Serves input.airport_icao
          (refine_parking input now s db).0
          (refine_parking input now s db).1
  unfolding refine_parking
  refine_parking-Serves input now s db h = elim (Bool-cases input.parking_position_given) [
    | inr no_stand ↦ rw no_stand h
    | inl given ↦
        let (found, opened) =
          write_open s (parked_row input.parking_position manual now) db
            (λ x. unfold parked_row in refl) (λ x. unfold parked_row in refl) h.inv h.is_open in
        rw (given, update_open_ground_session_parking, h.is_open, found)
          (record {
            inv =
                write-SessionInv s.id (parked_row input.parking_position manual now) db
                  (λ x. unfold parked_row in refl) (λ x t. unfold parked_row in t) h.inv;
            is_open = opened;
            at = unfold parked_row in h.at;
          })
  ]

  -- With at most one session open and session ids unique and fresh, an operator's request that
  -- names no leg, or one that exists, succeeds: afterwards the same holds, and the session
  -- returned is the open one and is at the airport asked for, whether an open session was refined,
  -- replaced or not there.
  pub insert_manual-Served :
      (input : CreateManualGroundSession) (now : String) (db : Db N)
      → SessionInv db
      → NamesLeg input db
      → Served input.airport_icao (insert_manual_ground_session input now db)
  unfolding insert_manual_ground_session with_open refine
  insert_manual-Served input now db inv named =
      elim (Option-cases (first_where session_open db.ground_sessions)) [
        | inl free ↦
            rw (free, insert_manual_ground_session) (fresh-Served input now db inv named free)
        | inr (s, e) ↦
            elim (Bool-cases (is_auto s.source && at_airport s.airport_icao input.airport_icao)) [
              | inr other ↦
                  rw (e, insert_manual_ground_session, other)
                    (replaced-Served input now s db inv named)
              | inl same ↦
                  rw (e, insert_manual_ground_session, same)
                    (refine_leg-Served input now _ _
                      (refine_parking-Serves input now s db (record {
                        inv = inv;
                        is_open = e;
                        at = at_airport_lem s.airport_icao input.airport_icao (ground arith);
                      }))
                      (λ l k. rw (refine_parking-legs input now s db) (named l k)))
            ]
      ]
