-- ===== src/Tests/Access.antt =====
-- The theorems about the gates, the login throttle, sessions and settings, at concrete inputs.
use msfslogger.Base.{
  ℕ, zero, suc, first_where, ◌+◌, ◌<◌, ◌≤◌, true, Option, none, some, List, [], ◌∷◌, ◌≡◌, ◌↔◌, ◌⊎◌,
  refl, arith, String, All, if◌then◌else◌, leb, str_eq, is_some, is_none, false,
}
use msfslogger.Db.{ok}
use msfslogger.Auth.{Request}
use msfslogger.Auth.IngestScope.{ingest_scope_of}
use msfslogger.Auth.McpScope.{McpTool, reads, writes, assert_tool_routes_are_scoped, tool_error}
use msfslogger.Auth.Middleware.{passed, same_origin, require_auth, require_same_origin}
use msfslogger.Auth.Access.{HasToken, passes_iff, crosses_iff, IsHarmless, IsScoped, tools_IsScoped}
use msfslogger.Auth.Login.{LoginThrottle, record_failure, check, Login, too_many, login}
use msfslogger.Auth.Lockout.{Attempts, ten_failures_lock}
use msfslogger.Auth.Sessions.{get, set, expiry_for, get-set}
use msfslogger.Settings.{SettingsDb, session_get, get_setting, set_setting}
use msfslogger.Settings.Laws.{kept_value, get-set_setting}

abbrev request : String → String → Option String → Request
request method path origin = record {
  method = method;
  path = path;
  session_user = none;
  ingest_token = some "k";
  authorization = none;
  origin = origin;
  host = "logger:3000";
  protocol = "http";
  session_cookie = some "c";
}

passes_iff_example :
    (require_auth
        (request "GET" "/api/flights/12/acars-messages" none)
        (ingest_scope_of (λ s. s) (some "k") (request "GET" "/api/flights/12/acars-messages" none))
      ≡ passed)
    ↔ ((is_some (request "GET" "/api/flights/12/acars-messages" none).session_user ≡ true)
        ⊎ HasToken (λ s. s) (some "k") (request "GET" "/api/flights/12/acars-messages" none))
passes_iff_example =
    passes_iff (λ s. s) (some "k") (request "GET" "/api/flights/12/acars-messages" none)

-- A post from another site with the ingest token, to a route that the token does not reach.
crosses_iff_example :
    (require_same_origin
        (request "POST" "/api/trips" (some "http://evil"))
        (ingest_scope_of (λ s. s) (some "k") (request "POST" "/api/trips" (some "http://evil")))
      ≡ same_origin)
    ↔ (IsHarmless (request "POST" "/api/trips" (some "http://evil"))
        ⊎ ((is_none (request "POST" "/api/trips" (some "http://evil")).session_cookie ≡ true)
            × (is_some (request "POST" "/api/trips" (some "http://evil")).session_user ≡ false)
            × HasToken (λ s. s) (some "k") (request "POST" "/api/trips" (some "http://evil"))))
crosses_iff_example =
    crosses_iff (λ s. s) (some "k") (request "POST" "/api/trips" (some "http://evil"))

abbrev tools : List McpTool
tools =
    record { name = "list_flights"; route = some "flights-list"; kind = reads }
    ∷ record { name = "create_trip"; route = some "trip-create"; kind = writes }
    ∷ record { name = "get_weather"; route = none; kind = reads }
    ∷ []

tools_pass : assert_tool_routes_are_scoped tools ≡ ok tt
unfolding assert_tool_routes_are_scoped tool_error first_where
tools_pass = refl

tools_IsScoped_example : All IsScoped tools
tools_IsScoped_example = tools_IsScoped tools tools_pass

-- The throttle after so many failures more of one address, with a check before each.
abbrev failures : ℕ → LoginThrottle
failures zero = record_failure "10.0.0.7" 1000 []
failures (suc n) = record_failure "10.0.0.7" (2000 + n) (check "10.0.0.7" (2000 + n) (failures n)).1

failures-Attempts : (n : ℕ) → n < 100 → Attempts "10.0.0.7" 1000 (suc n) (failures n)
unfolding first_where
failures-Attempts zero h = Attempts.first_failed [] refl
failures-Attempts (suc n) h =
    Attempts.failed_again (suc n) (2000 + n) (check "10.0.0.7" (2000 + n) (failures n)).1
      (omega arith)
      (Attempts.was_checked (suc n) (2000 + n) "10.0.0.7" (failures n) (omega arith)
        (failures-Attempts n (omega arith)))

abbrev attempt : Login
attempt = record {
  credentials = some ("pilot", "right");
  ip = "10.0.0.7";
  now = 5000;
  failed_at = 5000;
}

ten_failures_lock_example :
    (wait : ℕ) × ((login (λ p h. true) none attempt (failures 9)).0 ≡ too_many wait)
    × (1 ≤ wait)
    × (wait ≤ 900)
ten_failures_lock_example =
    ten_failures_lock (λ p h. true) none attempt ("pilot", "right") 1000 (failures 9)
      (failures-Attempts 9 (omega arith)) refl (omega arith) (omega arith)

abbrev settings : SettingsDb
settings = record { auth_user = none; app_secret = []; app_setting = []; auth_session = [] }

get-set_example :
    ((get some
        (λ s. s)
        (λ s. none)
        50
        "s1"
        (set some (λ s. s) (λ s. none) 100 7 "s1" "{}" settings)).0
      ≡ (if leb (expiry_for some (λ s. s) (λ s. none) 100 7 "{}") 50 then none else some "{}"))
    × (session_get "s1"
          (get some
            (λ s. s)
            (λ s. none)
            50
            "s1"
            (set some (λ s. s) (λ s. none) 100 7 "s1" "{}" settings)).1
        ≡ (if leb (expiry_for some (λ s. s) (λ s. none) 100 7 "{}") 50
            then none
            else session_get "s1" (set some (λ s. s) (λ s. none) 100 7 "s1" "{}" settings)))
get-set_example = get-set some (λ s. s) (λ s. none) (λ s. refl) 100 7 50 "s1" "{}" settings

get-set_setting_example :
    get_setting "b" (set_setting "a" (some "1") "2026-01-01" settings)
    ≡ (if str_eq "b" "a" then kept_value (some "1") else get_setting "b" settings)
get-set_setting_example = get-set_setting "a" "b" "2026-01-01" (some "1") settings
