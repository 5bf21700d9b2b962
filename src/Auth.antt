-- ===== src/Auth.antt =====
-- Who may call what (src/auth): requests as the gates see them, the digests of tokens, and path
-- patterns. Hashing is the crypto library's; `sha256` is a parameter.
pub mod IngestScope
pub mod McpScope
pub mod Middleware
pub mod Access
pub mod Login
pub mod Lockout
pub mod Sessions
use Prim.Native.Char.{Char, code}
use Prim.Native.String.{String}
use Prim.Native.String
use msfslogger.Base.{
  Bool, true, false, Option, none, some, List, [], ◌∷◌, ◌==◌, ◌&&◌, not, if◌then◌else◌, str_eq,
  truthy,
}

-- What a gate reads of a request; an absent header is none.
pub record Request : Type 0 where
  pub method : String
  pub path : String
  -- the user of the session that the cookie names
  pub session_user : Option String
  pub ingest_token : Option String
  pub authorization : Option String
  pub origin : Option String
  pub host : String
  pub protocol : String
  -- the value of the session cookie
  pub session_cookie : Option String

-- ingestTokenDigest() and mcpTokenDigest(), which are the same function.
abbrev pub digest_of : (String → String) → Option String → Option String
digest_of sha256 none = none
digest_of sha256 (some s) = some (sha256 s)

unfoldable pub token_digest : (String → String) → Option String → Option String
token_digest sha256 token = digest_of sha256 (truthy token)

-- ingestTokenMatches() and mcpTokenMatches(), which are the same function.
abbrev pub matches_digest : (String → String) → Option String → String → Bool
matches_digest sha256 none digest = false
matches_digest sha256 (some s) digest = str_eq (sha256 s) digest

unfoldable pub token_matches : (String → String) → Option String → String → Bool
token_matches sha256 header digest = matches_digest sha256 (truthy header) digest

abbrev push : Char → List String → List String
push c [] = String.◌∷◌ c String.[] ∷ []
push c (s ∷ rest) = String.◌∷◌ c s ∷ rest

-- `path.split('/')`
abbrev pub split_slash : String → List String
split_slash String.[] = "" ∷ []
split_slash (String.◌∷◌ c s) =
    let rest = split_slash s in if code c == b'/' then "" ∷ rest else push c rest

-- One piece of a pattern: a fixed text, or `[^/]+`.
pub data Segment : Type 0 where
  fixed : String → Segment
  param : Segment

abbrev pub segment_fits : Segment → String → Bool
segment_fits (fixed t) s = str_eq t s
segment_fits param s = not (str_eq s "")

abbrev pub segments_fit : List Segment → List String → Bool
segments_fit [] [] = true
segments_fit (p ∷ ps) (s ∷ ss) = segment_fits p s && segments_fit ps ss
segments_fit _ _ = false

-- `/^\/api\/...$/.test(path)`: a leading slash, `api`, and the pieces.
unfoldable pub pattern_fits : List Segment → String → Bool
pattern_fits pattern path = segments_fit (fixed "" ∷ fixed "api" ∷ pattern) (split_slash path)
