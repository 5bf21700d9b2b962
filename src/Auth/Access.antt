-- ===== src/Auth/Access.antt =====
-- The gates together (src/auth/ingestScope.ts, src/auth/mcpScope.ts, src/auth/middleware.ts): who
-- passes, and with what.
use text.Mathlib.Text.{starts_with}
use text.Mathlib.TextEquality.{eq_iff}
use msfslogger.Base.{
  truthy, Bool, true, false, false≢true, Option, none, some, List, [], ◌∷◌, ◌≡◌, refl, sym, ◌≢◌,
  ◌∙◌, ◌↔◌, ◌⊎◌, inl, inr, arith, if◌then◌else◌, Bool-cases, Option-cases, String, str_eq, is_some,
  is_none, All, ◌&&◌, first_where,
}
use msfslogger.Base.Table.{All-first_where}
use msfslogger.Db.{ok, thrown}
use msfslogger.Auth.{Request, token_digest, token_matches}
use msfslogger.Auth.IngestScope.{
  IngestScopeResult, valid, is_ingest_scoped_route, scope_of_header, ingest_scope_of,
}
use msfslogger.Auth.McpScope.{
  ToolError, AccessKind, reads, writes, same_kind, McpScopedRoute, McpTool, mcp_scoped_routes,
  named, tool_error, assert_tool_routes_are_scoped, includes, routeless_tools,
}
use msfslogger.Auth.Middleware.{
  passed, refused, same_origin, answer_of_scope, require_auth, require_same_origin, is_safe_method,
  is_valid_scope, expected_origin,
}

-- The digest of a configured token is presented, on a listed route below /api/.
abbrev pub HasToken : (String → String) → Option String → Request → Type 0
HasToken sha256 token req =
    (digest : String) × (token_digest sha256 token ≡ some digest)
    × (token_matches sha256 req.ingest_token digest ≡ true)
    × (is_ingest_scoped_route req.method req.path ≡ true)
    × (starts_with req.path "/api/" ≡ true)

module _ (sha256 : String → String) where
  scope-valid :
      (header : Option String) (digest : String)
      → answer_of_scope (some (scope_of_header sha256 header digest)) ≡ passed
      → token_matches sha256 header digest ≡ true
  unfolding scope_of_header
  scope-valid header digest h = elim (Option-cases (truthy header)) [
    | inl e ↦ absurd (ground (arith, e))
    | inr (s, e) ↦ elim (Bool-cases (token_matches sha256 header digest)) [
      | inl t ↦ t
      | inr f ↦ absurd (ground (arith, e, f))
    ]
  ]

  scope_of_match :
      (header : Option String) (digest : String)
      → token_matches sha256 header digest ≡ true
      → scope_of_header sha256 header digest ≡ valid
  unfolding scope_of_header token_matches
  scope_of_match header digest t = elim (Option-cases (truthy header)) [
    | inl e ↦ absurd (false≢true (rw e at t))
    | inr (s, e) ↦ rw (scope_of_header, e, t) refl
  ]

  -- Without a session, what passes has the token.
  token_of_passed :
      (token : Option String) (req : Request)
      → is_some req.session_user ≡ false
      → answer_of_scope (ingest_scope_of sha256 token req) ≡ passed
      → HasToken sha256 token req
  unfolding ingest_scope_of
  token_of_passed token req s h = elim (Option-cases (token_digest sha256 token)) [
    | inl e ↦ absurd (refused_ne (rw (ingest_scope_of, e) at h))
    | inr (digest, e) ↦ elim (Bool-cases (starts_with req.path "/api/")) [
      | inr p ↦ absurd (refused_ne (rw (ingest_scope_of, e, p) at h))
      | inl p ↦ elim (Bool-cases (is_ingest_scoped_route req.method req.path)) [
        | inr l ↦ absurd (refused_ne (rw (ingest_scope_of, e, p, s, l) at h))
        | inl l ↦ (
          digest,
          e,
          scope-valid req.ingest_token digest (rw (ingest_scope_of, e, p, s, l) at h),
          l,
          p,
        )
      ]
    ]
  ]
    where
      refused_ne : refused false false ≢ passed
      refused_ne h = ground arith

  passed_of_token :
      (token : Option String) (req : Request)
      → is_some req.session_user ≡ false
      → HasToken sha256 token req
      → answer_of_scope (ingest_scope_of sha256 token req) ≡ passed
  unfolding ingest_scope_of
  passed_of_token token req s (digest, e, t, l, p) =
      rw (ingest_scope_of, e, p, s, l, scope_of_match req.ingest_token digest t) refl

  -- A request passes the gate of /api exactly when it has a session, or its ingest token has the
  -- digest of the configured one and its method and path are on the list of the token's routes.
  pub passes_iff :
      (token : Option String) (req : Request)
      → (require_auth req (ingest_scope_of sha256 token req) ≡ passed)
        ↔ ((is_some req.session_user ≡ true) ⊎ HasToken sha256 token req)
  unfolding require_auth
  passes_iff token req = elim (Bool-cases (is_some req.session_user)) [
    | inl s ↦ (λ h. inl s, λ h. rw s refl)
    | inr s ↦ (
      λ h. inr (token_of_passed token req s (rw s at h)),
      λ h. rw s (elim h [
        | inl t ↦ absurd (false≢true (sym s ∙ t))
        | inr has ↦ passed_of_token token req s has
      ]),
    )
  ]

-- A safe method, a path outside /api/, a route of the agent, or a request that no browser sent from
-- elsewhere: it names no origin, or the server's own.
abbrev pub IsHarmless : Request → Type 0
IsHarmless req =
    (is_safe_method req.method ≡ true)
    ⊎ ((starts_with req.path "/api/" ≡ false)
        ⊎ ((starts_with req.path "/api/ingest/" ≡ true)
            ⊎ ((truthy req.origin ≡ none) ⊎ (truthy req.origin ≡ some (expected_origin req)))))

module _ (sha256 : String → String) where
  mark_valid :
      (token : Option String) (req : Request)
      → is_valid_scope (ingest_scope_of sha256 token req) ≡ true
      → (is_some req.session_user ≡ false) × HasToken sha256 token req
  unfolding ingest_scope_of
  mark_valid token req v = elim (Bool-cases (is_some req.session_user)) [
    | inl s ↦ absurd (false≢true (sym (with_user s) ∙ v))
    | inr s ↦
        (s, token_of_passed sha256 token req s (passed_of (ingest_scope_of sha256 token req) v))
  ]
    where
      passed_of :
          (scope : Option IngestScopeResult)
          → is_valid_scope scope ≡ true
          → answer_of_scope scope ≡ passed
      passed_of scope h = ground (arith, h)

      with_user :
          is_some req.session_user ≡ true
          → is_valid_scope (ingest_scope_of sha256 token req) ≡ false
      with_user s = elim (Option-cases (token_digest sha256 token)) [
        | inl e ↦ rw (ingest_scope_of, e) refl
        | inr (digest, e) ↦ elim (Bool-cases (starts_with req.path "/api/")) [
          | inr p ↦ rw (ingest_scope_of, e, p) refl
          | inl p ↦ rw (ingest_scope_of, e, p, s) refl
        ]
      ]

  valid_mark :
      (token : Option String) (req : Request)
      → is_some req.session_user ≡ false
      → HasToken sha256 token req
      → is_valid_scope (ingest_scope_of sha256 token req) ≡ true
  unfolding ingest_scope_of
  valid_mark token req s (digest, e, t, l, p) =
      rw (ingest_scope_of, e, p, s, l, scope_of_match sha256 req.ingest_token digest t) refl

  origin_iff :
      (req : Request) (scope : Option IngestScopeResult)
      → (require_same_origin req scope ≡ same_origin)
        ↔ (IsHarmless req ⊎ ((is_valid_scope scope ≡ true) × (is_none req.session_cookie ≡ true)))
  unfolding require_same_origin
  origin_iff req scope = elim (Option-cases (truthy req.origin)) [
    | inl e ↦ rw e (ground arith)
    | inr (origin, e) ↦ rw e (ground (arith, eq_iff origin (expected_origin req)))
  ]

  -- With the mark of the token gate, the origin gate lets a request through exactly when it is
  -- harmless, or comes without a session and without a session cookie and presents the ingest token
  -- on one of the token's routes. A cookie alone never carries a change that another site asks for.
  pub crosses_iff :
      (token : Option String) (req : Request)
      → (require_same_origin req (ingest_scope_of sha256 token req) ≡ same_origin) ↔ (
          IsHarmless req
          ⊎ ((is_none req.session_cookie ≡ true)
              × (is_some req.session_user ≡ false)
              × HasToken sha256 token req))
  crosses_iff token req =
      let (to, from) = origin_iff req (ingest_scope_of sha256 token req) in
      (
        λ h. elim (to h) [
          | inl harmless ↦ inl harmless
          | inr (v, c) ↦ let (s, has) = mark_valid token req v in inr (c, s, has)
        ],
        λ h. from (elim h [
          | inl harmless ↦ inl harmless
          | inr (c, s, has) ↦ inr (valid_mark token req s has, c)
        ]),
      )

-- What a tool's declaration must say: no route, and a name that may have none; or the name of a
-- listed route of the tool's kind, and GET where the tool says that it only reads.
abbrev pub IsScoped : McpTool → Type 0
IsScoped tool =
    ((tool.route ≡ none) × (includes routeless_tools tool.name ≡ true))
    ⊎ ((name : String) × (r : McpScopedRoute) × (tool.route ≡ some name)
        × (first_where (named name) mcp_scoped_routes ≡ some r)
        × (r.kind ≡ tool.kind)
        × ((tool.kind ≡ writes) ⊎ (r.method ≡ "GET")))

same_kind_eq : (a b : AccessKind) → same_kind a b ≡ true → a ≡ b
same_kind_eq reads reads h = refl
same_kind_eq writes writes h = refl
same_kind_eq reads writes h = absurd (false≢true h)
same_kind_eq writes reads h = absurd (false≢true h)

abbrev reads_with_get : McpScopedRoute → Bool
reads_with_get r = if same_kind r.kind reads then str_eq r.method "GET" else true

all_hold : (McpScopedRoute → Bool) → List McpScopedRoute → Bool
all_hold p [] = true
all_hold p (r ∷ rs) = p r && all_hold p rs

All-of_all_hold :
    (p : McpScopedRoute → Bool) (rs : List McpScopedRoute)
    → all_hold p rs ≡ true
    → All (λ r. p r ≡ true) rs
unfolding all_hold
All-of_all_hold p [] h = tt
All-of_all_hold p (r ∷ rs) h = (ground (arith, h), All-of_all_hold p rs (ground (arith, h)))

listed_reads : All (λ r. reads_with_get r ≡ true) mcp_scoped_routes
unfolding all_hold
listed_reads = All-of_all_hold reads_with_get mcp_scoped_routes refl

get_of_reads :
    (r : McpScopedRoute) (k : AccessKind)
    → reads_with_get r ≡ true
    → r.kind ≡ k
    → (k ≡ writes) ⊎ (r.method ≡ "GET")
get_of_reads r reads h k = inr ((eq_iff r.method "GET").0 (rw k at h))
get_of_reads r writes h k = inl refl

tool_error-none : (tool : McpTool) → tool_error tool ≡ none → IsScoped tool
unfolding tool_error
tool_error-none tool h = elim (Option-cases tool.route) [
  | inl e ↦ elim (Bool-cases (includes routeless_tools tool.name)) [
    | inl t ↦ inl (e, t)
    | inr t ↦ absurd (some_ne (rw (tool_error, e, t) at h))
  ]
  | inr (name, e) ↦ elim (Option-cases (first_where (named name) mcp_scoped_routes)) [
    | inl f ↦ absurd (some_ne (rw (tool_error, e, f) at h))
    | inr (r, f) ↦ elim (Bool-cases (same_kind r.kind tool.kind)) [
      | inr k ↦ absurd (some_ne (rw (tool_error, e, f, k) at h))
      | inl k ↦ inr (
        name,
        r,
        e,
        f,
        same_kind_eq r.kind tool.kind k,
        get_of_reads r tool.kind
            (All-first_where (λ z. reads_with_get z ≡ true) (named name) mcp_scoped_routes r
              listed_reads f)
            (same_kind_eq r.kind tool.kind k),
      )
    ]
  ]
]
  where
    some_ne : {e : ToolError} → some e ≢ none
    some_ne h = ground arith

-- When the check at start-up passes, every tool is one that needs no route, or names a listed
-- route of its own kind, which is a GET if the tool only reads.
pub tools_IsScoped :
    (tools : List McpTool) → assert_tool_routes_are_scoped tools ≡ ok tt → All IsScoped tools
unfolding assert_tool_routes_are_scoped
tools_IsScoped [] h = tt
tools_IsScoped (tool ∷ rest) h = elim (Option-cases (tool_error tool)) [
  | inr (e, t) ↦
      let threw : thrown e ≡ ok tt = rw (assert_tool_routes_are_scoped, t) at h in
      absurd (ground arith)
  | inl t ↦
      (tool_error-none tool t, tools_IsScoped rest (rw (assert_tool_routes_are_scoped, t) at h))
]
