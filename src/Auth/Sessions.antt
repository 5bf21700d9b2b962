-- ===== src/Auth/Sessions.antt =====
-- The session store (src/auth/sessionStore.ts) over the table of src/db/settings.ts. Sessions are
-- of a type S that JSON writes and reads; a database error is not modelled.
use text.Mathlib.TextEquality.{eq_iff}
use msfslogger.Base.{
  ℕ, ◌+◌, Option, none, some, ◌≡◌, refl, inl, inr, if◌then◌else◌, String, leb, delete_where,
  Bool-cases,
}
use msfslogger.Base.Table.{first_where-none_of_count, count_where-deleted}
use msfslogger.Base.MapSet.{first_where-map_set_same}
use msfslogger.Settings.{
  SettingsDb, SessionRow, session_is, session_get, session_set, session_destroy,
}

module _ {S : Type 0} (parse : String → Option S) (stringify : S → String)
    (expires : S → Option ℕ) where
  -- What is parsed of a row that has not expired; a text that does not parse is no session.
  unfoldable pub live_session : ℕ → String → Option SessionRow → SettingsDb → Option S × SettingsDb
  unfolding session_destroy
  live_session now sid none db = (none, db)
  live_session now sid (some row) db =
      if leb row.expires_at now
      then (none, session_destroy sid db)
      else (parse row.session_data, db)

  unfoldable pub get : ℕ → String → SettingsDb → Option S × SettingsDb
  unfolding live_session session_get
  get now sid db = live_session now sid (session_get sid db) db

  -- The expiry of the cookie, where it has a valid one, or `maxAgeMs` from now.
  unfoldable pub expiry_for : ℕ → ℕ → S → ℕ
  expiry_for max_age_ms now s = elim (expires s) [ none ↦ now + max_age_ms | some t ↦ t ]

  unfoldable pub set : ℕ → ℕ → String → S → SettingsDb → SettingsDb
  unfolding session_set expiry_for
  set max_age_ms now sid s db = session_set sid (stringify s) (expiry_for max_age_ms now s) db

  unfoldable pub destroy : String → SettingsDb → SettingsDb
  unfolding session_destroy
  destroy sid db = session_destroy sid db

  unfoldable pub touch : ℕ → ℕ → String → S → SettingsDb → SettingsDb
  unfolding set
  touch max_age_ms now sid s db = set max_age_ms now sid s db

  abbrev row_of : ℕ → ℕ → String → S → SessionRow
  row_of max_age_ms now sid s = record {
    sid = sid;
    session_data = stringify s;
    expires_at = expiry_for max_age_ms now s;
  }

  found_after_set :
      (max_age_ms now : ℕ) (sid : String) (s : S) (db : SettingsDb)
      → session_get sid (set max_age_ms now sid s db) ≡ some (row_of max_age_ms now sid s)
  unfolding session_get set session_set
  found_after_set max_age_ms now sid s db =
      first_where-map_set_same (session_is sid) (session_is sid) (row_of max_age_ms now sid s)
        ((eq_iff sid sid).1 refl) (λ x. refl) db.auth_session

  live_or_gone :
      (now : ℕ) (sid : String) (row : SessionRow) (db : SettingsDb)
      → live_session now sid (some row) db ≡ (
          if leb row.expires_at now
          then (none, session_destroy sid db)
          else (parse row.session_data, db))
  unfolding live_session
  live_or_gone now sid row db = refl

  get_destroyed : (sid : String) (db : SettingsDb) → session_get sid (session_destroy sid db) ≡ none
  unfolding session_get session_destroy
  get_destroyed sid db =
      first_where-none_of_count (session_is sid) (delete_where (session_is sid) db.auth_session)
        (count_where-deleted (session_is sid) db.auth_session)

  -- A session that was set is got back until it expires, and from then on it is no session and
  -- its row is gone; if JSON reads what it writes.
  pub get-set :
      ((s : S) → parse (stringify s) ≡ some s)
      → (max_age_ms now later : ℕ) (sid : String) (s : S) (db : SettingsDb)
      → ((get later sid (set max_age_ms now sid s db)).0
          ≡ (if leb (expiry_for max_age_ms now s) later then none else some s))
        × (session_get sid (get later sid (set max_age_ms now sid s db)).1 ≡ (
            if leb (expiry_for max_age_ms now s) later
            then none
            else session_get sid (set max_age_ms now sid s db)))
  unfolding get
  get-set reads max_age_ms now later sid s db =
      elim (Bool-cases (leb (expiry_for max_age_ms now s) later)) [
        | inl e ↦
            rw
              (
                found_after_set max_age_ms now sid s db,
                live_or_gone later sid (row_of max_age_ms now sid s) (set max_age_ms now sid s db),
                e,
              )
              (refl, get_destroyed sid (set max_age_ms now sid s db))
        | inr e ↦
            rw
              (
                found_after_set max_age_ms now sid s db,
                live_or_gone later sid (row_of max_age_ms now sid s) (set max_age_ms now sid s db),
                e,
              )
              (reads s, found_after_set max_age_ms now sid s db)
      ]
