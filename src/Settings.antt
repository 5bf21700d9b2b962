-- ===== src/Settings.antt =====
-- The tables of the operator, the sessions, the secrets and the settings (src/db/settings.ts);
-- `now` is the text of new Date().
pub mod Laws
use msfslogger.Base.{
  ℕ, suc, Bool, true, false, Option, none, some, List, [], ◌∷◌, ◌++◌, if◌then◌else◌, String, str_eq,
  leb, first_where, delete_where, count_where,
}
use msfslogger.Base.MapSet.{map_set}

pub record AuthUserRow : Type 0 where
  pub username : String
  pub password_hash : String
  pub created_at : String
  pub updated_at : String

pub record SecretRow : Type 0 where
  pub name : String
  pub value : String
  pub created_at : String

pub record SettingRow : Type 0 where
  pub name : String
  pub value : String
  pub updated_at : String

pub record SessionRow : Type 0 where
  pub sid : String
  pub session_data : String
  pub expires_at : ℕ

-- The row of auth_user is the one with id 1, or is not there.
pub record SettingsDb : Type 0 where
  pub auth_user : Option AuthUserRow
  pub app_secret : List SecretRow
  pub app_setting : List SettingRow
  pub auth_session : List SessionRow

abbrev pub secret_is : String → SecretRow → Bool
secret_is name r = str_eq r.name name

abbrev pub setting_is : String → SettingRow → Bool
setting_is name r = str_eq r.name name

abbrev pub session_is : String → SessionRow → Bool
session_is sid r = str_eq r.sid sid

-- `expires_at <= now`
abbrev pub has_expired : ℕ → SessionRow → Bool
has_expired now r = leb r.expires_at now

unfoldable pub get_auth_user : SettingsDb → Option AuthUserRow
get_auth_user db = db.auth_user

abbrev pub upserted_user : String → String → String → Option AuthUserRow → AuthUserRow
upserted_user username hash now none = record {
  username = username;
  password_hash = hash;
  created_at = now;
  updated_at = now;
}
upserted_user username hash now (some row) = record row {
  username = username;
  password_hash = hash;
  updated_at = now;
}

unfoldable pub set_auth_user : String → String → String → SettingsDb → SettingsDb
set_auth_user username hash now db = record db {
  auth_user = some (upserted_user username hash now db.auth_user);
}

abbrev pub secret_value : Option SecretRow → Option String
secret_value none = none
secret_value (some r) = some r.value

unfoldable pub get_app_secret : String → SettingsDb → Option String
get_app_secret name db = secret_value (first_where (secret_is name) db.app_secret)

-- The stored secret, or the generated one, which is then stored.
unfoldable pub get_or_create_app_secret :
    String → String → String → SettingsDb → String × SettingsDb
get_or_create_app_secret name generated now db = elim (first_where (secret_is name) db.app_secret) [
  | some r ↦ (r.value, db)
  | none ↦ (
    generated,
    record db {
      app_secret =
          db.app_secret ++ record { name = name; value = generated; created_at = now } ∷ [];
    },
  )
]

abbrev pub setting_value : Option SettingRow → Option String
setting_value none = none
setting_value (some r) = some r.value

unfoldable pub get_setting : String → SettingsDb → Option String
get_setting name db = setting_value (first_where (setting_is name) db.app_setting)

abbrev pub delete_setting : String → SettingsDb → SettingsDb
delete_setting name db = record db { app_setting = delete_where (setting_is name) db.app_setting }

abbrev pub upsert_setting : String → String → String → SettingsDb → SettingsDb
upsert_setting name value now db = record db {
  app_setting =
      map_set (setting_is name) (record { name = name; value = value; updated_at = now })
        db.app_setting;
}

unfoldable pub set_setting : String → Option String → String → SettingsDb → SettingsDb
set_setting name none now db = delete_setting name db
set_setting name (some value) now db =
    if str_eq value "" then delete_setting name db else upsert_setting name value now db

unfoldable pub session_get : String → SettingsDb → Option SessionRow
session_get sid db = first_where (session_is sid) db.auth_session

unfoldable pub session_set : String → String → ℕ → SettingsDb → SettingsDb
session_set sid session_data expires_at db = record db {
  auth_session =
      map_set (session_is sid)
        (record { sid = sid; session_data = session_data; expires_at = expires_at })
        db.auth_session;
}

unfoldable pub session_destroy : String → SettingsDb → SettingsDb
session_destroy sid db = record db { auth_session = delete_where (session_is sid) db.auth_session }

-- With the number of rows that went.
unfoldable pub session_sweep : ℕ → SettingsDb → ℕ × SettingsDb
session_sweep now db = (
  count_where (has_expired now) db.auth_session,
  record db { auth_session = delete_where (has_expired now) db.auth_session },
)
