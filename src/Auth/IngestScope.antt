-- ===== src/Auth/IngestScope.antt =====
-- The routes that an ingest token reaches, and the gate that marks requests (src/auth/ingestScope.ts).
use msfslogger.Base.{
  truthy, Bool, false, Option, none, some, List, [], ◌∷◌, ◌&&◌, ◌||◌, not, if◌then◌else◌, String,
  str_eq, is_some,
}
use text.Mathlib.Text.{starts_with}
use msfslogger.Auth.{Request, Segment, fixed, param, pattern_fits, token_digest, token_matches}

pub data IngestScopeResult : Type 0 where
  valid invalid absent : IngestScopeResult

pub record ScopedRoute : Type 0 where
  pub method : String
  pub pattern : List Segment
  pub name : String

abbrev pub route : String → List Segment → String → ScopedRoute
route method pattern name = record { method = method; pattern = pattern; name = name }

abbrev pub ingest_scoped_routes : List ScopedRoute
ingest_scoped_routes =
    route "GET" (fixed "status" ∷ []) "status"
    ∷ route "GET" (fixed "acars" ∷ fixed "canned-messages" ∷ []) "acars-canned-messages"
    ∷ route "GET" (fixed "flights" ∷ param ∷ fixed "acars-messages" ∷ []) "flight-acars-read"
    ∷ route "POST" (fixed "flights" ∷ param ∷ fixed "acars-messages" ∷ []) "flight-acars-post"
    ∷ route "POST" (fixed "flights" ∷ param ∷ fixed "acars-messages" ∷ fixed "wx" ∷ [])
        "flight-acars-wx"
    ∷ route "GET" (fixed "planned-legs" ∷ param ∷ fixed "acars-messages" ∷ [])
        "planned-leg-acars-read"
    ∷ route "POST" (fixed "planned-legs" ∷ param ∷ fixed "acars-messages" ∷ [])
        "planned-leg-acars-post"
    ∷ route "POST" (fixed "planned-legs" ∷ param ∷ fixed "acars-messages" ∷ fixed "wx" ∷ [])
        "planned-leg-acars-wx"
    ∷ route "POST" (fixed "planned-legs" ∷ param ∷ fixed "acars-messages" ∷ fixed "loadsheet" ∷ [])
        "planned-leg-acars-loadsheet"
    ∷ route "POST" (fixed "planned-legs" ∷ param ∷ fixed "acars-messages" ∷ fixed "clearance" ∷ [])
        "planned-leg-acars-clearance"
    ∷ route "GET" (fixed "ground-sessions" ∷ fixed "current" ∷ []) "ground-session-current"
    ∷ route "GET" (fixed "settings" ∷ fixed "simbrief" ∷ []) "settings-simbrief-read"
    ∷ route "POST" (fixed "planned-legs" ∷ fixed "simbrief" ∷ []) "planned-leg-simbrief-import"
    ∷ route "GET" (fixed "settings" ∷ fixed "sayintentions" ∷ []) "settings-sayintentions-read"
    ∷ route "GET" (fixed "flights" ∷ param ∷ fixed "sayintentions" ∷ fixed "link" ∷ [])
        "flight-sayintentions-link-read"
    ∷ route "POST" (fixed "flights" ∷ param ∷ fixed "sayintentions" ∷ fixed "link" ∷ [])
        "flight-sayintentions-link"
    ∷ route "DELETE" (fixed "flights" ∷ param ∷ fixed "sayintentions" ∷ fixed "link" ∷ [])
        "flight-sayintentions-unlink"
    ∷ route "POST" (fixed "flights" ∷ param ∷ fixed "sayintentions" ∷ fixed "import" ∷ [])
        "flight-sayintentions-import"
    ∷ route "POST" (fixed "planned-legs" ∷ param ∷ fixed "sayintentions" ∷ fixed "clearance" ∷ [])
        "planned-leg-sayintentions-push"
    ∷ route "GET" (fixed "events" ∷ []) "events"
    ∷ []

-- `routes.some(route => route.method === method && route.pattern.test(path))`
abbrev pub some_route : String → String → List ScopedRoute → Bool
some_route method path [] = false
some_route method path (r ∷ rs) =
    (str_eq r.method method && pattern_fits r.pattern path) || some_route method path rs

unfoldable pub is_ingest_scoped_route : String → String → Bool
unfolding pattern_fits
is_ingest_scoped_route method path = some_route method path ingest_scoped_routes

-- How a header that may be missing compares with the digest.
unfoldable pub scope_of_header : (String → String) → Option String → String → IngestScopeResult
unfolding token_matches
scope_of_header sha256 header digest = elim (truthy header) [
  | none ↦ absent
  | some h ↦ if token_matches sha256 header digest then valid else invalid
]

-- What the gate marks a request with, from the configured token; none is no mark.
unfoldable pub ingest_scope_of :
    (String → String) → Option String → Request → Option IngestScopeResult
unfolding token_digest is_ingest_scoped_route scope_of_header
ingest_scope_of sha256 token req = elim (token_digest sha256 token) [
  | none ↦ none
  | some digest ↦
      if not (starts_with req.path "/api/")
      then none
      else (if is_some req.session_user
          then none
          else (if is_ingest_scoped_route req.method req.path
              then some (scope_of_header sha256 req.ingest_token digest)
              else none))
]
