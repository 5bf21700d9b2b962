-- ===== src/Auth/Login.antt =====
-- The throttle of failed logins (LoginThrottle of src/auth/middleware.ts) and the login route
-- (src/auth/routes.ts). Instants are in milliseconds; a time that has passed is compared without
-- a subtraction, so that a clock set back is served as the source serves it.
use msfslogger.Base.{
  ℕ, suc, ◌+◌, ◌-◌, ◌/◌, Bool, false, Option, none, some, List, ◌&&◌, if◌then◌else◌, String, str_eq,
  leb, ltb, length, first_where, delete_where,
}
use msfslogger.Base.MapSet.{map_set}
use msfslogger.Settings.{AuthUserRow}

-- 15 * 60 * 1000
abbrev pub window_ms : ℕ
window_ms = 900000

abbrev pub max_failures : ℕ
max_failures = 10

abbrev pub max_entries : ℕ
max_entries = 1000

pub record ThrottleEntry : Type 0 where
  pub ip : String
  pub count : ℕ
  pub window_start : ℕ

abbrev pub of_ip : String → ThrottleEntry → Bool
of_ip ip e = str_eq e.ip ip

-- `now - entry.windowStart >= WINDOW_MS`
abbrev pub has_elapsed : ℕ → ThrottleEntry → Bool
has_elapsed now e = leb (e.window_start + window_ms) now

-- The Map of entries, by address.
abbrev pub LoginThrottle : Type 0
LoginThrottle = List ThrottleEntry

-- Once there are more than 1000 entries, those whose window is over go.
unfoldable pub sweep : ℕ → LoginThrottle → LoginThrottle
sweep now entries =
    if ltb max_entries (length entries) then delete_where (has_elapsed now) entries else entries

-- Math.ceil((WINDOW_MS - (now - entry.windowStart)) / 1000), where the window is not over.
unfoldable pub wait_sec : ℕ → ThrottleEntry → ℕ
wait_sec now e = (e.window_start + window_ms - now + 999) / 1000

unfoldable pub check_entry :
    String → ℕ → Option ThrottleEntry → LoginThrottle → Option ℕ × LoginThrottle
unfolding wait_sec
check_entry ip now none entries = (none, entries)
check_entry ip now (some e) entries =
    if has_elapsed now e
    then (none, delete_where (of_ip ip) entries)
    else (if leb max_failures e.count then (some (wait_sec now e), entries) else (none, entries))

-- The seconds that the caller must wait, if any.
unfoldable pub check : String → ℕ → LoginThrottle → Option ℕ × LoginThrottle
unfolding sweep check_entry
check ip now entries =
    let swept = sweep now entries in check_entry ip now (first_where (of_ip ip) swept) swept

unfoldable pub failed_entry : String → ℕ → Option ThrottleEntry → ThrottleEntry
failed_entry ip now none = record { ip = ip; count = 1; window_start = now }
failed_entry ip now (some e) =
    if has_elapsed now e
    then record { ip = ip; count = 1; window_start = now }
    else record { ip = ip; count = suc e.count; window_start = e.window_start }

unfoldable pub record_failure : String → ℕ → LoginThrottle → LoginThrottle
unfolding failed_entry
record_failure ip now entries =
    map_set (of_ip ip) (failed_entry ip now (first_where (of_ip ip) entries)) entries

unfoldable pub record_success : String → LoginThrottle → LoginThrottle
record_success ip entries = delete_where (of_ip ip) entries

-- The credentials of a body that has both, the name trimmed; `now` is the instant of the check,
-- `failed_at` that of a failure.
pub record Login : Type 0 where
  pub credentials : Option (String × String)
  pub ip : String
  pub now : ℕ
  pub failed_at : ℕ

-- The answers of POST /login, once the session could be stored.
pub data LoginAnswer : Type 0 where
  bad_request : LoginAnswer
  too_many : ℕ → LoginAnswer
  wrong : LoginAnswer
  logged_in : String → LoginAnswer

-- Whether the row of the operator is the one named, with this password; the hash of no one is
-- verified for the time that it takes, and its answer is not used.
unfoldable pub is_operator : (String → String → Bool) → Option AuthUserRow → String → String → Bool
is_operator verify none username password = false
is_operator verify (some row) username password =
    str_eq row.username username && verify password row.password_hash

unfoldable pub verified :
    (String → String → Bool)
    → Option AuthUserRow
    → Login
    → String × String
    → LoginThrottle
    → LoginAnswer × LoginThrottle
unfolding is_operator record_failure record_success
verified verify user login (username, password) entries =
    if is_operator verify user username password
    then (logged_in username, record_success login.ip entries)
    else (wrong, record_failure login.ip login.failed_at entries)

unfoldable pub throttled :
    (String → String → Bool)
    → Option AuthUserRow
    → Login
    → String × String
    → Option ℕ × LoginThrottle
    → LoginAnswer × LoginThrottle
unfolding verified
throttled verify user login c (some wait, entries) = (too_many wait, entries)
throttled verify user login c (none, entries) = verified verify user login c entries

unfoldable pub login :
    (String → String → Bool)
    → Option AuthUserRow
    → Login
    → LoginThrottle
    → LoginAnswer × LoginThrottle
unfolding throttled check
login verify user l entries = elim l.credentials [
  | none ↦ (bad_request, entries)
  | some c ↦ throttled verify user l c (check l.ip l.now entries)
]
