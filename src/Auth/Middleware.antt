-- ===== src/Auth/Middleware.antt =====
-- The gates of every /api route (src/auth/middleware.ts).
use msfslogger.Base.{
  truthy, Bool, true, false, Option, none, some, ◌&&◌, ◌||◌, not, if◌then◌else◌, String, str_eq,
  is_some, is_none,
}
use Prim.Native.String.{◌++◌}
use text.Mathlib.Text.{starts_with}
use msfslogger.Auth.{Request}
use msfslogger.Auth.IngestScope.{IngestScopeResult, valid, invalid, absent}

-- next(), or the 401 that requireAuth() answers with: whether the X-Ingest-Token-Scope header is
-- set, and whether the body names the token.
pub data AuthAnswer : Type 0 where
  passed : AuthAnswer
  refused : (scope_header token_named : Bool) → AuthAnswer

-- next(), or the 403 of requireSameOrigin().
pub data OriginAnswer : Type 0 where
  same_origin cross_origin : OriginAnswer

abbrev pub answer_of_scope : Option IngestScopeResult → AuthAnswer
answer_of_scope (some valid) = passed
answer_of_scope (some invalid) = refused true true
answer_of_scope (some absent) = refused true false
answer_of_scope none = refused false false

unfoldable pub require_auth : Request → Option IngestScopeResult → AuthAnswer
require_auth req scope = if is_some req.session_user then passed else answer_of_scope scope

abbrev pub is_safe_method : String → Bool
is_safe_method m = str_eq m "GET" || (str_eq m "HEAD" || str_eq m "OPTIONS")

abbrev pub is_valid_scope : Option IngestScopeResult → Bool
is_valid_scope (some valid) = true
is_valid_scope _ = false

abbrev pub expected_origin : Request → String
expected_origin req = req.protocol ++ ("://" ++ req.host)

abbrev pub origin_answer : Request → Option String → OriginAnswer
origin_answer req none = same_origin
origin_answer req (some origin) =
    if str_eq origin (expected_origin req) then same_origin else cross_origin

unfoldable pub require_same_origin : Request → Option IngestScopeResult → OriginAnswer
require_same_origin req scope =
    if is_safe_method req.method
    then same_origin
    else (if not (starts_with req.path "/api/")
        then same_origin
        else (if starts_with req.path "/api/ingest/"
            then same_origin
            else (if is_valid_scope scope && is_none req.session_cookie
                then same_origin
                else origin_answer req (truthy req.origin))))
