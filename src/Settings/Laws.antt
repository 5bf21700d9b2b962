-- ===== src/Settings/Laws.antt =====
-- What is read back of the settings and the secrets (src/db/settings.ts).
use text.Mathlib.TextEquality.{eq_iff}
use msfslogger.Base.{
  true, false, Option, none, some, List, [], ◌∷◌, ◌++◌, ◌≡◌, refl, ap, inl, inr, arith,
  if◌then◌else◌, String, str_eq, first_where, delete_where, Bool-cases, Option-cases,
}
use msfslogger.Base.Table.{
  first_where-none_of_count, count_where-deleted, count_where_of_first-none,
}
use msfslogger.Base.Unique.{first_where-delete_ne, first_where-append_fresh}
use msfslogger.Base.MapSet.{first_where-map_set_same, first_where-map_set_other}
use msfslogger.Settings.{
  SettingRow, SecretRow, SettingsDb, setting_is, secret_is, setting_value, get_setting, set_setting,
  get_or_create_app_secret, get_app_secret,
}

-- What a setting is after it was set: an empty value is no value.
abbrev pub kept_value : Option String → Option String
kept_value none = none
kept_value (some v) = if str_eq v "" then none else some v

other_setting :
    (name other : String)
    → str_eq other name ≡ false
    → (x : SettingRow) → setting_is other x ≡ true
    → setting_is name x ≡ false
other_setting name other o x e =
    ground (arith, o, e, eq_iff other name, eq_iff x.name other, eq_iff x.name name)

other_setting_back :
    (name other : String)
    → str_eq other name ≡ false
    → (x : SettingRow) → setting_is name x ≡ true
    → setting_is other x ≡ false
other_setting_back name other o x e =
    ground (arith, o, e, eq_iff other name, eq_iff x.name other, eq_iff x.name name)

deleted_found :
    (name : String) (xs : List SettingRow)
    → first_where (setting_is name) (delete_where (setting_is name) xs) ≡ none
deleted_found name xs =
    first_where-none_of_count (setting_is name) (delete_where (setting_is name) xs)
      (count_where-deleted (setting_is name) xs)

set_found :
    (name now : String) (value : Option String) (db : SettingsDb)
    → get_setting name (set_setting name value now db) ≡ kept_value value
unfolding get_setting set_setting
set_found name now none db = rw (deleted_found name db.app_setting) refl
set_found name now (some v) db = elim (Bool-cases (str_eq v "")) [
  | inl e ↦ rw (e, deleted_found name db.app_setting) refl
  | inr e ↦ rw e (
      ap setting_value (
        first_where-map_set_same (setting_is name) (setting_is name)
          (record { name = name; value = v; updated_at = now }) ((eq_iff name name).1 refl)
          (λ x. refl) db.app_setting))
]

set_other :
    (name other now : String) (value : Option String) (db : SettingsDb)
    → str_eq other name ≡ false
    → get_setting other (set_setting name value now db) ≡ get_setting other db
unfolding get_setting set_setting
set_other name other now none db o = ap setting_value (
    first_where-delete_ne (setting_is other) (setting_is name) (other_setting name other o)
      db.app_setting)
set_other name other now (some v) db o = elim (Bool-cases (str_eq v "")) [
  | inl e ↦ rw e (
      ap setting_value (
        first_where-delete_ne (setting_is other) (setting_is name) (other_setting name other o)
          db.app_setting))
  | inr e ↦ rw e (
      ap setting_value (
        first_where-map_set_other (setting_is other) (setting_is name)
          (record { name = name; value = v; updated_at = now })
          (ground (arith, o, eq_iff other name, eq_iff name other))
          (other_setting_back name other o) db.app_setting))
]

-- A setting reads as it was set, where a missing or empty value clears it, and every other setting
-- reads as before.
pub get-set_setting :
    (name other now : String) (value : Option String) (db : SettingsDb)
    → get_setting other (set_setting name value now db)
      ≡ (if str_eq other name then kept_value value else get_setting other db)
get-set_setting name other now value db = elim (Bool-cases (str_eq other name)) [
  | inl e ↦ rw ((eq_iff other name).0 e, (eq_iff name name).1 refl) (set_found name now value db)
  | inr e ↦ rw e (set_other name other now value db e)
]

abbrev secret_row : String → String → String → SecretRow
secret_row name value now = record { name = name; value = value; created_at = now }

abbrev with_secret : SecretRow → SettingsDb → SettingsDb
with_secret r db = record db { app_secret = db.app_secret ++ r ∷ [] }

secret_known :
    (name generated now : String) (db : SettingsDb) (r : SecretRow)
    → first_where (secret_is name) db.app_secret ≡ some r
    → get_or_create_app_secret name generated now db ≡ (r.value, db)
unfolding get_or_create_app_secret
secret_known name generated now db r e = simp (e, get_or_create_app_secret)

secret_new :
    (name generated now : String) (db : SettingsDb)
    → first_where (secret_is name) db.app_secret ≡ none
    → get_or_create_app_secret name generated now db
      ≡ (generated, with_secret (secret_row name generated now) db)
unfolding get_or_create_app_secret
secret_new name generated now db e = simp (e, get_or_create_app_secret)

secret_found :
    (name generated now : String) (db : SettingsDb)
    → first_where (secret_is name) db.app_secret ≡ none
    → first_where (secret_is name) (with_secret (secret_row name generated now) db).app_secret
      ≡ some (secret_row name generated now)
secret_found name generated now db e =
    first_where-append_fresh (secret_is name) db.app_secret (secret_row name generated now)
      (count_where_of_first-none (secret_is name) db.app_secret e) ((eq_iff name name).1 refl)

-- However often a secret is asked for, and whatever is generated, the answer is the first one,
-- which is the one stored.
pub secret_stays :
    (name generated later_generated now later : String) (db : SettingsDb)
    → (get_or_create_app_secret name later_generated later
          (get_or_create_app_secret name generated now db).1
        ≡ get_or_create_app_secret name generated now db)
      × (get_app_secret name (get_or_create_app_secret name generated now db).1
          ≡ some (get_or_create_app_secret name generated now db).0)
secret_stays name generated later_generated now later db =
    elim (Option-cases (first_where (secret_is name) db.app_secret)) [
      | inr (r, e) ↦
          rw (secret_known name generated now db r e)
            (secret_known name later_generated later db r e, unfold get_app_secret in rw e refl)
      | inl e ↦
          let stored = secret_found name generated now db e in
          rw (secret_new name generated now db e) (
            secret_known name later_generated later (with_secret (secret_row name generated now) db)
                (secret_row name generated now) stored,
            unfold get_app_secret in rw stored refl,
          )
    ]
