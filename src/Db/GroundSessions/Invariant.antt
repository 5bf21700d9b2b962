-- ===== src/Db/GroundSessions/Invariant.antt =====
-- At most one ground session is open (src/db/groundSessions.ts), whatever is called in whatever
-- order.
use msfslogger.Base.{
  ℕ, suc, ◌≤◌, ◌<◌, true, false, or_try, Option, none, some, List, [], ◌∷◌, ◌≡◌, refl, inl, inr,
  arith, first_where, count_where, Option-cases, Bool-cases, All, String, ==-refl,
}
use msfslogger.Base.Table.{
  count_where-update_le, count_where-update_eq, count_where-append, count_where_of_first-none,
  All-update, All-append, All-imp,
}
use msfslogger.Base.Unique.{count_where-update_lt, first_where-append_fresh}
use msfslogger.Db.{GroundSession, Db, LinkSource, EndReason, ok, thrown, OnOk}
use msfslogger.Db.GroundSessions.{
  already_open, foreign_key, leg_exists, CreateGroundSession, session_open, session_is, new_row,
  append_session, insert_ground_session, write_session, ended_row, close_open_ground_session,
  parked_row, update_open_ground_session_parking, has_gaps, filled_row,
  fill_open_ground_session_gaps,
}
use msfslogger.Db.GroundSessions.Manual.{leg_row, set_open_ground_session_planned_leg}

pub record SessionInv {N : Type 0} (db : Db N) : Type 0 where
  pub one_open : count_where session_open db.ground_sessions ≤ 1
  pub ids : (i : ℕ) → count_where (session_is i) db.ground_sessions ≤ 1
  pub below : All (λ s. s.id < db.next_session_id) db.ground_sessions

module _ {N : Type 0} where
  none-below :
      (n : ℕ) (xs : List (GroundSession N))
      → All (λ s. s.id < n) xs
      → count_where (session_is n) xs ≡ 0
  unfolding count_where
  none-below n [] a = refl
  none-below n (x ∷ xs) a = ground (arith, a.0, none-below n xs a.1)

  -- No row has the id that the next insert is given.
  pub fresh-id :
      (db : Db N)
      → SessionInv db
      → count_where (session_is db.next_session_id) db.ground_sessions ≡ 0
  fresh-id db inv = none-below db.next_session_id db.ground_sessions inv.below

  -- Appending the one row that a table with none open may take.
  pub append-SessionInv :
      (s : GroundSession N) (db : Db N)
      → s.id ≡ db.next_session_id
      → count_where session_open db.ground_sessions ≡ 0
      → SessionInv db
      → SessionInv (append_session s db)
  unfolding append_session count_where
  append-SessionInv s db e free inv = record {
    one_open = ground (arith, count_where-append session_open db.ground_sessions (s ∷ []));
    ids = λ i. ground (
      arith,
      e,
      inv.ids i,
      fresh-id db inv,
      count_where-append (session_is i) db.ground_sessions (s ∷ []),
    );
    below =
        All-append (λ x. x.id < suc db.next_session_id) db.ground_sessions (s ∷ [])
          (All-imp (λ x. x.id < db.next_session_id) (λ x. x.id < suc db.next_session_id)
            (λ x h. omega arith) db.ground_sessions inv.below)
          (omega arith, tt);
  }

  -- Writing a session with something that does not open it.
  pub write-SessionInv :
      (i : ℕ) (f : GroundSession N → GroundSession N) (db : Db N)
      → ((x : GroundSession N) → (f x).id ≡ x.id)
      → ((x : GroundSession N) → session_open (f x) ≡ true → session_open x ≡ true)
      → SessionInv db
      → SessionInv (write_session i f db)
  unfolding write_session
  write-SessionInv i f db same keeps inv = record {
    one_open = omega (
      arith,
      inv.one_open,
      count_where-update_le session_open (session_is i) f (λ x _. keeps x) db.ground_sessions,
    );
    ids = λ j. omega (
      arith,
      inv.ids j,
      count_where-update_eq (session_is j) (session_is i) f (λ x _. ground (arith, same x))
          db.ground_sessions,
    );
    below =
        All-update (λ s. s.id < db.next_session_id) (session_is i) f
          (λ x _ h. ground (arith, same x, h)) db.ground_sessions inv.below;
  }

  -- With none open an insert appends its row and returns it, if the leg that it names exists.
  pub insert_of_none :
      (input : CreateGroundSession N) (now : String) (db : Db N)
      → SessionInv db
      → first_where session_open db.ground_sessions ≡ none
      → leg_exists input.planned_leg_id db ≡ true
      → insert_ground_session input now db
        ≡ ok (
          new_row db.next_session_id input now,
          append_session (new_row db.next_session_id input now) db,
        )
  unfolding insert_ground_session
  insert_of_none input now db inv free known =
      rw
        (
          free,
          insert_ground_session,
          known,
          first_where-append_fresh (session_is db.next_session_id) db.ground_sessions
              (new_row db.next_session_id input now) (fresh-id db inv) (==-refl db.next_session_id),
        )
        refl

  pub insert_of_unknown :
      (input : CreateGroundSession N) (now : String) (db : Db N)
      → first_where session_open db.ground_sessions ≡ none
      → leg_exists input.planned_leg_id db ≡ false
      → insert_ground_session input now db ≡ thrown foreign_key
  unfolding insert_ground_session
  insert_of_unknown input now db free unknown = rw (free, insert_ground_session, unknown) refl

  pub insert_of_open :
      (input : CreateGroundSession N) (now : String) (db : Db N) (s : GroundSession N)
      → first_where session_open db.ground_sessions ≡ some s
      → insert_ground_session input now db ≡ thrown already_open
  unfolding insert_ground_session
  insert_of_open input now db s e = rw (e, insert_ground_session)

  pub insert-SessionInv :
      (input : CreateGroundSession N) (now : String) (db : Db N)
      → SessionInv db
      → OnOk (λ r. SessionInv r.1) (insert_ground_session input now db)
  insert-SessionInv input now db inv =
      elim (Option-cases (first_where session_open db.ground_sessions)) [
        | inr (s, e) ↦ rw (insert_of_open input now db s e) tt
        | inl free ↦ elim (Bool-cases (leg_exists input.planned_leg_id db)) [
          | inr unknown ↦ rw (insert_of_unknown input now db free unknown) tt
          | inl known ↦ rw (insert_of_none input now db inv free known) (
              append-SessionInv (new_row db.next_session_id input now) db (unfold new_row in refl)
                (count_where_of_first-none session_open db.ground_sessions free) inv)
        ]
      ]

  pub close-SessionInv :
      (r : EndReason) (f : Option ℕ) (now : String) (db : Db N)
      → SessionInv db
      → SessionInv (close_open_ground_session r f now db).1
  unfolding close_open_ground_session
  close-SessionInv r f now db inv =
      elim (Option-cases (first_where session_open db.ground_sessions)) [
        | inl free ↦ rw (free, close_open_ground_session) inv
        | inr (s, e) ↦
            rw (e, close_open_ground_session)
              (write-SessionInv s.id (ended_row r f now) db (λ x. unfold ended_row in refl)
                (λ x h. absurd (unfold ended_row in ground arith)) inv)
      ]

  -- After a close nothing is open.
  pub close-none_open :
      (r : EndReason) (f : Option ℕ) (now : String) (db : Db N)
      → SessionInv db
      → count_where session_open (close_open_ground_session r f now db).1.ground_sessions ≡ 0
  unfolding close_open_ground_session
  close-none_open r f now db inv =
      elim (Option-cases (first_where session_open db.ground_sessions)) [
        | inl free ↦
            rw (free, close_open_ground_session)
              (count_where_of_first-none session_open db.ground_sessions free)
        | inr (s, e) ↦
            rw (e, close_open_ground_session)
              (omega (
                arith,
                inv.one_open,
                count_where-update_lt session_open (session_is s.id) (ended_row r f now)
                    db.ground_sessions s (λ x h. unfold ended_row in refl) e (==-refl s.id),
              ))
      ]

  pub parking-SessionInv :
      (p : Option String) (src : LinkSource) (now : String) (db : Db N)
      → SessionInv db
      → SessionInv (update_open_ground_session_parking p src now db).1
  unfolding update_open_ground_session_parking
  parking-SessionInv p src now db inv =
      elim (Option-cases (first_where session_open db.ground_sessions)) [
        | inl free ↦ rw (free, update_open_ground_session_parking) inv
        | inr (s, e) ↦
            rw (e, update_open_ground_session_parking)
              (write-SessionInv s.id (parked_row p src now) db (λ x. unfold parked_row in refl)
                (λ x h. unfold parked_row in h) inv)
      ]

  pub fill-SessionInv :
      (patch : CreateGroundSession N) (now : String) (db : Db N)
      → SessionInv db
      → OnOk (λ r. SessionInv r.1) (fill_open_ground_session_gaps patch now db)
  unfolding fill_open_ground_session_gaps
  fill-SessionInv patch now db inv =
      elim (Option-cases (first_where session_open db.ground_sessions)) [
        | inl free ↦ rw (free, fill_open_ground_session_gaps) inv
        | inr (s, e) ↦ elim (Bool-cases (has_gaps patch s)) [
          | inr full ↦ rw (e, fill_open_ground_session_gaps, full) inv
          | inl gaps ↦
              elim (Bool-cases (leg_exists (or_try s.planned_leg_id patch.planned_leg_id) db)) [
                | inr unknown ↦ rw (e, fill_open_ground_session_gaps, gaps, unknown) tt
                | inl known ↦
                    rw (e, fill_open_ground_session_gaps, gaps, known)
                      (write-SessionInv s.id (filled_row patch now) db
                        (λ x. unfold filled_row in refl) (λ x h. unfold filled_row in h) inv)
              ]
        ]
      ]

  leg-SessionInv :
      (i l : ℕ) (src : LinkSource) (now : String) (db : Db N)
      → SessionInv db
      → OnOk (λ r. SessionInv r.1) (set_open_ground_session_planned_leg i l src now db)
  unfolding set_open_ground_session_planned_leg
  leg-SessionInv i l src now db inv = ground (
    arith,
    write-SessionInv i (leg_row l src now) db (λ x. unfold leg_row in refl)
        (λ x h. unfold leg_row in h) inv,
  )
