-- ===== src/Db/AcarsMessages/Dedup.antt =====
-- A message is stored once for each key, however often it is filed (src/db/acarsMessages.ts,
-- src/acarsEvents.ts).
use text.Mathlib.TextEquality.{eq_iff}
use msfslogger.Base.{
  ap, Bool, true, false, none, some, ◌≡◌, refl, ◌∙◌, inl, inr, String, str_eq, first_where,
  Option-cases, Bool-cases,
}
use msfslogger.Base.Table.{count_where_of_first-none}
use msfslogger.Base.Unique.{first_where-append_fresh}
use msfslogger.Db.{AcarsMessage, Db}
use msfslogger.Db.AcarsMessages.{
  CreateAcarsMessage, has_key, message_row, has_no_scope, append_message, insert_unless_known,
  find_acars_message_by_dedup_key, read_back, insert_acars_message_once, filed,
  file_acars_message_once,
}

module _ {N : Type 0} where
  found_known :
      (key : String) (db : Db N) (m : AcarsMessage)
      → str_eq key "" ≡ false
      → first_where (has_key key) db.acars_messages ≡ some m
      → find_acars_message_by_dedup_key key db ≡ some m
  unfolding find_acars_message_by_dedup_key
  found_known key db m k e = rw k e

  read_back_known :
      (key : String) (old db : Db N) (m : AcarsMessage) (created : Bool)
      → str_eq key "" ≡ false
      → first_where (has_key key) db.acars_messages ≡ some m
      → filed (read_back key db created) old ≡ (created, db)
  unfolding read_back filed
  read_back_known key old db m created k e = rw (found_known key db m k e, read_back) refl

  -- What filing does with a message that has a scope and a key.
  file_keyed :
      (msg : CreateAcarsMessage) (key now : String) (db : Db N)
      → has_no_scope msg ≡ false
      → msg.dedup_key ≡ some key
      → str_eq key "" ≡ false
      → file_acars_message_once msg now db
        ≡ filed
            (read_back key
              (insert_unless_known key msg now db).0
              (insert_unless_known key msg now db).1)
            db
  unfolding file_acars_message_once insert_acars_message_once
  file_keyed msg key now db s d k = simp (s, insert_acars_message_once, d, k)

  file_known :
      (msg : CreateAcarsMessage) (key now : String) (db : Db N) (m : AcarsMessage)
      → has_no_scope msg ≡ false
      → msg.dedup_key ≡ some key
      → str_eq key "" ≡ false
      → first_where (has_key key) db.acars_messages ≡ some m
      → file_acars_message_once msg now db ≡ (false, db)
  unfolding insert_unless_known
  file_known msg key now db m s d k e =
      file_keyed msg key now db s d k
      ∙ rw (e, insert_unless_known) (read_back_known key db db m false k e)

  file_refused :
      (msg : CreateAcarsMessage) (now : String) (db : Db N)
      → has_no_scope msg ≡ true
      → file_acars_message_once msg now db ≡ (false, db)
  unfolding file_acars_message_once insert_acars_message_once filed
  file_refused msg now db s = rw (s, insert_acars_message_once) refl

  file_keyless :
      (msg : CreateAcarsMessage) (now : String) (db : Db N)
      → has_no_scope msg ≡ false
      → msg.dedup_key ≡ none
      → file_acars_message_once msg now db ≡ (false, db)
  unfolding file_acars_message_once insert_acars_message_once filed
  file_keyless msg now db s d = rw (s, insert_acars_message_once, d) refl

  file_empty_key :
      (msg : CreateAcarsMessage) (key now : String) (db : Db N)
      → has_no_scope msg ≡ false
      → msg.dedup_key ≡ some key
      → str_eq key "" ≡ true
      → file_acars_message_once msg now db ≡ (false, db)
  unfolding file_acars_message_once insert_acars_message_once filed
  file_empty_key msg key now db s d k = rw (s, insert_acars_message_once, d, k) refl

  -- The row that a new message leaves is found under its key.
  stored :
      (msg : CreateAcarsMessage) (key now : String) (db : Db N)
      → msg.dedup_key ≡ some key
      → first_where (has_key key) db.acars_messages ≡ none
      → first_where
          (has_key key)
          (append_message (message_row db.next_message_id msg now) db).acars_messages
        ≡ some (message_row db.next_message_id msg now)
  unfolding append_message
  stored msg key now db d new =
      first_where-append_fresh (has_key key) db.acars_messages
        (message_row db.next_message_id msg now)
        (count_where_of_first-none (has_key key) db.acars_messages new) own_key
    where
      own_key : has_key key (message_row db.next_message_id msg now) ≡ true
      own_key = unfold message_row in rw d ((eq_iff key key).1 refl)

  file_new :
      (msg : CreateAcarsMessage) (key now : String) (db : Db N)
      → has_no_scope msg ≡ false
      → msg.dedup_key ≡ some key
      → str_eq key "" ≡ false
      → first_where (has_key key) db.acars_messages ≡ none
      → file_acars_message_once msg now db
        ≡ (true, append_message (message_row db.next_message_id msg now) db)
  unfolding insert_unless_known
  file_new msg key now db s d k new =
      file_keyed msg key now db s d k
      ∙ rw (new, insert_unless_known)
          (read_back_known key db (append_message (message_row db.next_message_id msg now) db)
            (message_row db.next_message_id msg now) true k (stored msg key now db d new))

  -- Filing under a key that was filed before writes nothing, whatever else the message says.
  pub file_key_again :
      (msg other : CreateAcarsMessage) (key now later : String) (db : Db N)
      → has_no_scope msg ≡ false
      → msg.dedup_key ≡ some key
      → has_no_scope other ≡ false
      → other.dedup_key ≡ some key
      → str_eq key "" ≡ false
      → file_acars_message_once other later (file_acars_message_once msg now db).1
        ≡ (false, (file_acars_message_once msg now db).1)
  file_key_again msg other key now later db s d t e k =
      elim (Option-cases (first_where (has_key key) db.acars_messages)) [
        | inr (m, found) ↦
            rw (file_known msg key now db m s d k found)
              (file_known other key later db m t e k found)
        | inl new ↦
            rw (file_new msg key now db s d k new)
              (file_known other key later _ _ t e k (stored msg key now db d new))
      ]

  -- Filing a message a second time, at whatever instant, writes nothing and says so; refused
  -- messages included.
  pub file_twice :
      (msg : CreateAcarsMessage) (now later : String) (db : Db N)
      → file_acars_message_once msg later (file_acars_message_once msg now db).1
        ≡ (false, (file_acars_message_once msg now db).1)
  file_twice msg now later db = elim (Bool-cases (has_no_scope msg)) [
    | inl s ↦ file_refused msg later _ s
    | inr s ↦ elim (Option-cases msg.dedup_key) [
      | inl d ↦ file_keyless msg later _ s d
      | inr (key, d) ↦ elim (Bool-cases (str_eq key "")) [
        | inl k ↦ file_empty_key msg key later _ s d k
        | inr k ↦ elim (Option-cases (first_where (has_key key) db.acars_messages)) [
          | inr (m, e) ↦
              rw (file_known msg key now db m s d k e) (file_known msg key later db m s d k e)
          | inl new ↦
              rw (file_new msg key now db s d k new)
                (file_known msg key later _ _ s d k (stored msg key now db d new))
        ]
      ]
    ]
  ]

  -- Filing leaves the flights alone.
  pub file-flights :
      (msg : CreateAcarsMessage) (now : String) (db : Db N)
      → (file_acars_message_once msg now db).1.flights ≡ db.flights
  file-flights msg now db = elim (Bool-cases (has_no_scope msg)) [
    | inl s ↦ ap (λ r. r.1.flights) (file_refused msg now db s)
    | inr s ↦ elim (Option-cases msg.dedup_key) [
      | inl d ↦ ap (λ r. r.1.flights) (file_keyless msg now db s d)
      | inr (key, d) ↦ elim (Bool-cases (str_eq key "")) [
        | inl k ↦ ap (λ r. r.1.flights) (file_empty_key msg key now db s d k)
        | inr k ↦ elim (Option-cases (first_where (has_key key) db.acars_messages)) [
          | inr (m, e) ↦ ap (λ r. r.1.flights) (file_known msg key now db m s d k e)
          | inl new ↦
              ap (λ r. r.1.flights) (file_new msg key now db s d k new)
              ∙ unfold append_message in refl
        ]
      ]
    ]
  ]
