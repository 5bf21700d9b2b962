-- ===== src/Auth/McpScope.antt =====
-- The routes of the MCP tools, the check of the tools at start-up, and the gate of the endpoint
-- (src/auth/mcpScope.ts).
use Prim.Native.Char.{Char, code}
use Prim.Native.String.{String}
use msfslogger.Base.{
  truthy, ℕ, Bool, true, false, Option, none, some, List, [], ◌∷◌, ◌==◌, ◌&&◌, ◌||◌, ◌+◌,
  if◌then◌else◌, str_eq, leb, first_where,
}
use msfslogger.Db.{Result, ok, thrown}
use msfslogger.Auth.{Segment, fixed, param, pattern_fits, token_digest, token_matches}

pub data AccessKind : Type 0 where
  reads writes : AccessKind

abbrev pub same_kind : AccessKind → AccessKind → Bool
same_kind reads reads = true
same_kind writes writes = true
same_kind _ _ = false

pub record McpScopedRoute : Type 0 where
  pub method : String
  pub pattern : List Segment
  pub name : String
  pub kind : AccessKind

pub record McpTool : Type 0 where
  pub name : String
  pub route : Option String
  pub kind : AccessKind

pub data ToolError : Type 0 where
  no_route unknown_route : String → ToolError
  wrong_kind : String → AccessKind → ToolError

abbrev pub mcp_route : String → List Segment → String → AccessKind → McpScopedRoute
mcp_route method pattern name kind = record {
  method = method;
  pattern = pattern;
  name = name;
  kind = kind;
}

abbrev pub mcp_scoped_routes : List McpScopedRoute
mcp_scoped_routes =
    mcp_route "GET" (fixed "flights" ∷ []) "flights-list" reads
    ∷ mcp_route "GET" (fixed "flights" ∷ fixed "search" ∷ []) "flights-search" reads
    ∷ mcp_route "GET" (fixed "flights" ∷ fixed "stats" ∷ []) "flights-stats" reads
    ∷ mcp_route "GET" (fixed "flights" ∷ param ∷ []) "flight-read" reads
    ∷ mcp_route "GET" (fixed "flights" ∷ param ∷ fixed "acars-messages" ∷ []) "flight-acars-read"
        reads
    ∷ mcp_route "GET" (fixed "trips" ∷ []) "trips-list" reads
    ∷ mcp_route "GET" (fixed "trips" ∷ param ∷ []) "trip-read" reads
    ∷ mcp_route "GET" (fixed "trips" ∷ param ∷ fixed "journey" ∷ []) "trip-journey" reads
    ∷ mcp_route "GET" (fixed "trips" ∷ param ∷ fixed "planned-legs" ∷ []) "trip-planned-legs" reads
    ∷ mcp_route "GET" (fixed "planned-legs" ∷ []) "planned-legs-list" reads
    ∷ mcp_route "GET" (fixed "planned-legs" ∷ param ∷ []) "planned-leg-read" reads
    ∷ mcp_route "GET" (fixed "planned-legs" ∷ param ∷ fixed "acars-messages" ∷ [])
        "planned-leg-acars-read" reads
    ∷ mcp_route "GET" (fixed "acars" ∷ fixed "canned-messages" ∷ []) "acars-canned-messages" reads
    ∷ mcp_route "GET" (fixed "status" ∷ []) "status" reads
    ∷ mcp_route "GET" (fixed "ground-sessions" ∷ fixed "current" ∷ []) "ground-session-current"
        reads
    ∷ mcp_route "PATCH" (fixed "flights" ∷ param ∷ []) "flight-edit-notes" writes
    ∷ mcp_route "POST" (fixed "trips" ∷ []) "trip-create" writes
    ∷ mcp_route "POST" (fixed "trips" ∷ param ∷ fixed "flights" ∷ []) "trip-assign-flight" writes
    ∷ mcp_route "POST" (fixed "planned-legs" ∷ fixed "simbrief" ∷ []) "planned-leg-simbrief-import"
        writes
    ∷ []

abbrev pub some_mcp_route : String → String → List McpScopedRoute → Bool
some_mcp_route method path [] = false
some_mcp_route method path (r ∷ rs) =
    (str_eq r.method method && pattern_fits r.pattern path) || some_mcp_route method path rs

unfoldable pub is_mcp_scoped_route : String → String → Bool
unfolding pattern_fits
is_mcp_scoped_route method path = some_mcp_route method path mcp_scoped_routes

abbrev pub routeless_tools : List String
routeless_tools = "get_weather" ∷ []

-- `names.includes(name)`
abbrev pub includes : List String → String → Bool
includes [] s = false
includes (t ∷ ts) s = str_eq t s || includes ts s

abbrev pub named : String → McpScopedRoute → Bool
named name r = str_eq r.name name

-- What is thrown for one tool, if anything.
unfoldable pub tool_error : McpTool → Option ToolError
tool_error tool = elim tool.route [
  | none ↦ if includes routeless_tools tool.name then none else some (no_route tool.name)
  | some name ↦ elim (first_where (named name) mcp_scoped_routes) [
    | none ↦ some (unknown_route name)
    | some r ↦ if same_kind r.kind tool.kind then none else some (wrong_kind name tool.kind)
  ]
]

unfoldable pub assert_tool_routes_are_scoped : List McpTool → Result {0, 0} ToolError Unit
unfolding tool_error
assert_tool_routes_are_scoped [] = ok tt
assert_tool_routes_are_scoped (tool ∷ rest) = elim (tool_error tool) [
  | some e ↦ thrown e
  | none ↦ assert_tool_routes_are_scoped rest
]

-- `/i` on a letter: A to Z as a to z.
abbrev pub fold_case : ℕ → ℕ
fold_case c = if leb b'A' c && leb c b'Z' then c + 32 else c

-- `\s` on the characters that a header can hold.
abbrev pub is_space : Char → Bool
is_space c = (code c == 32) || ((code c == 9) || (code c == 160))

-- The rest of a text after a prefix that is compared without case.
abbrev pub strip_prefix : String → String → Option String
strip_prefix String.[] s = some s
strip_prefix (String.◌∷◌ p ps) String.[] = none
strip_prefix (String.◌∷◌ p ps) (String.◌∷◌ c cs) =
    let rest = strip_prefix ps cs in if fold_case (code c) == fold_case (code p) then rest else none

-- `\s+(.+)` at the start, after the first space: the group is what follows all spaces, or else the
-- last of them, which `\s+` gives back.
abbrev pub after_spaces : String → Option String
after_spaces String.[] = none
after_spaces (String.◌∷◌ c String.[]) = some (String.◌∷◌ c String.[])
after_spaces (String.◌∷◌ c (String.◌∷◌ e s)) =
    let rest = after_spaces (String.◌∷◌ e s) in
    if is_space c then rest else some (String.◌∷◌ c (String.◌∷◌ e s))

abbrev pub after_first_space : String → Option String
after_first_space String.[] = none
after_first_space (String.◌∷◌ c s) = if is_space c then after_spaces s else none

abbrev pub bearer_of : String → Option String
bearer_of header = elim (strip_prefix "Bearer" header) [
  | none ↦ none
  | some s ↦ after_first_space s
]

unfoldable pub bearer_token : Option String → Option String
bearer_token header = elim (truthy header) [ none ↦ none | some h ↦ bearer_of h ]

-- Whether the gate lets a request through; it reads the Authorization header alone.
unfoldable pub mcp_token_gate : (String → String) → Option String → Option String → Bool
unfolding token_digest token_matches bearer_token
mcp_token_gate sha256 token authorization = elim (token_digest sha256 token) [
  | none ↦ false
  | some digest ↦ token_matches sha256 (bearer_token authorization) digest
]
