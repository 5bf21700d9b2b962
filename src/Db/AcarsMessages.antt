-- ===== src/Db/AcarsMessages.antt =====
-- The ACARS thread (src/db/acarsMessages.ts) and the filing that never throws
-- (src/acarsEvents.ts). `now` is the instant of a missing `sent_at`.
pub mod Dedup
use msfslogger.Base.{
  ℕ, suc, Bool, true, false, Option, none, some, [], ◌∷◌, ◌++◌, is_none, or_else, holds, ◌||◌,
  if◌then◌else◌, String, str_eq, first_where, ◌&&◌,
}
use msfslogger.Db.{AcarsMessage, AcarsDirection, Db, Result, ok, thrown}
use msfslogger.Db.PlannedLegs.{get_flight_planned_leg_id}
use msfslogger.Db.PlannedLegs.Crud.{message_is}

pub record CreateAcarsMessage : Type 0 where
  pub flight_id : Option ℕ
  pub planned_leg_id : Option ℕ
  pub direction : AcarsDirection
  pub category : String
  pub label : Option String
  pub body : String
  pub payload_json : Option String
  pub correlation_id : Option ℕ
  pub dedup_key : Option String
  pub sent_at : Option String

pub data AcarsError : Type 0 where
  no_scope no_dedup_key vanished : AcarsError

-- `dedup_key = ?`
abbrev pub has_key : String → AcarsMessage → Bool
has_key key m = elim m.dedup_key [ none ↦ false | some k ↦ str_eq k key ]

unfoldable pub message_row : ℕ → CreateAcarsMessage → String → AcarsMessage
message_row i msg now = record {
  id = i;
  flight_id = msg.flight_id;
  planned_leg_id = msg.planned_leg_id;
  direction = msg.direction;
  category = msg.category;
  label = msg.label;
  body = msg.body;
  payload_json = msg.payload_json;
  correlation_id = msg.correlation_id;
  dedup_key = msg.dedup_key;
  sent_at = or_else msg.sent_at now;
  read_at = none;
}

abbrev pub has_no_scope : CreateAcarsMessage → Bool
has_no_scope msg = is_none msg.flight_id && is_none msg.planned_leg_id

module _ {N : Type 0} where
  unfoldable pub append_message : AcarsMessage → Db N → Db N
  append_message m db = record db {
    acars_messages = db.acars_messages ++ m ∷ [];
    next_message_id = suc db.next_message_id;
  }

  unfoldable pub get_acars_message_by_id : ℕ → Db N → Option AcarsMessage
  get_acars_message_by_id i db = first_where (message_is i) db.acars_messages

  unfoldable pub find_acars_message_by_dedup_key : String → Db N → Option AcarsMessage
  find_acars_message_by_dedup_key key db =
      if str_eq key "" then none else first_where (has_key key) db.acars_messages

  -- INSERT ... ON CONFLICT(dedup_key) DO NOTHING, and whether a row was written.
  unfoldable pub insert_unless_known : String → CreateAcarsMessage → String → Db N → Db N × Bool
  unfolding append_message message_row
  insert_unless_known key msg now db = elim (first_where (has_key key) db.acars_messages) [
    | some _ ↦ (db, false)
    | none ↦ (append_message (message_row db.next_message_id msg now) db, true)
  ]

  unfoldable pub read_back : String → Db N → Bool → Result AcarsError (AcarsMessage × Bool × Db N)
  unfolding find_acars_message_by_dedup_key
  read_back key db created = elim (find_acars_message_by_dedup_key key db) [
    | none ↦ thrown vanished
    | some m ↦ ok (m, created, db)
  ]

  -- Insert, or return the row that is stored under the key.
  unfoldable pub insert_acars_message_once :
      CreateAcarsMessage → String → Db N → Result AcarsError (AcarsMessage × Bool × Db N)
  unfolding insert_unless_known read_back
  insert_acars_message_once msg now db =
      if has_no_scope msg then thrown no_scope else (elim msg.dedup_key [
        | none ↦ thrown no_dedup_key
        | some key ↦
            if str_eq key ""
            then thrown no_dedup_key
            else (let (db', created) = insert_unless_known key msg now db in
                read_back key db' created)
      ])

  -- What is left of a throw: nothing, since the transaction is rolled back.
  unfoldable pub filed : Result AcarsError (AcarsMessage × Bool × Db N) → Db N → Bool × Db N
  filed (ok (m, created, db')) db = (created, db')
  filed (thrown e) db = (false, db)

  -- Files a message, and swallows what was thrown.
  unfoldable pub file_acars_message_once : CreateAcarsMessage → String → Db N → Bool × Db N
  unfolding insert_acars_message_once filed
  file_acars_message_once msg now db = filed (insert_acars_message_once msg now db) db

  -- The rows of a flight's thread: its own, and those of the leg that it is linked to.
  unfoldable pub in_flight_thread : ℕ → Db N → AcarsMessage → Bool
  unfolding get_flight_planned_leg_id
  in_flight_thread i db m = holds i m.flight_id || (elim (get_flight_planned_leg_id i db) [
    | none ↦ false
    | some l ↦ holds l m.planned_leg_id
  ])
