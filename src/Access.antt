-- ===== src/Access.antt =====
-- internal/domain/access.go and internal/web/authz.go: roles, token scopes, and the gates in front
-- of the handlers. A middleware answers whether the request reaches the next handler.
pub mod Gates
use almanaut.Base.{
  Bool, Option, String, bool_eq, false, if◌then◌else◌, list_eq, nat_eq, none, not, pair_eq, some,
  string_eq, true, ◌&&◌, ◌==◌, ◌||◌,
}

-- Roles and scopes are texts, and any text can stand in the database.
abbrev pub role_admin : String
role_admin = "admin"

abbrev pub role_editor : String
role_editor = "editor"

abbrev pub role_viewer : String
role_viewer = "viewer"

abbrev pub scope_read_only : String
scope_read_only = "read-only"

abbrev pub scope_read_write : String
scope_read_write = "read-write"

abbrev pub scope_agent : String
scope_agent = "agent"

unfoldable pub is_valid_role : String → Bool
is_valid_role r = r == role_admin || r == role_editor || r == role_viewer

unfoldable pub role_can_write : String → Bool
role_can_write r = r == role_admin || r == role_editor

unfoldable pub role_is_admin : String → Bool
role_is_admin r = r == role_admin

unfoldable pub is_valid_scope : String → Bool
is_valid_scope s = s == scope_read_only || s == scope_read_write || s == scope_agent

unfoldable pub scope_can_write : String → Bool
scope_can_write s = s == scope_read_write

-- What the request's context holds: the user's role, and the scope of an API token.
pub record Context : Type 0 where
  pub user : Option String
  pub token_scope : Option String

scope_allows : Option String → Bool
scope_allows none = true
scope_allows (some s) = scope_can_write s

user_writes : Option String → Bool
user_writes none = false
user_writes (some r) = role_can_write r

unfoldable pub effective_can_write : Context → Bool
unfolding scope_allows user_writes role_can_write scope_can_write
effective_can_write ctx =
    if not (user_writes ctx.user)
    then false
    else if not (scope_allows ctx.token_scope)
    then false
    else true

user_is_admin : Option String → Bool
user_is_admin none = false
user_is_admin (some r) = role_is_admin r

unfoldable pub effective_is_admin : Context → Bool
unfolding user_is_admin role_is_admin
effective_is_admin ctx = user_is_admin ctx.user

unfoldable pub is_safe_method : String → Bool
is_safe_method m = m == "GET" || m == "HEAD"

-- A middleware or a handler that refuses answers with a status.
pub data Verdict : Type 0 where
  pass : Context → Verdict
  unauthorized forbidden : Verdict

infixl 5 ◌⊳◌
abbrev pub ◌⊳◌ : Verdict → (Context → Verdict) → Verdict
pass ctx ⊳ next = next ctx
unauthorized ⊳ next = unauthorized
forbidden ⊳ next = forbidden

unfoldable pub require_write : String → Context → Verdict
unfolding is_safe_method effective_can_write
require_write method ctx =
    if not (is_safe_method method) && not (effective_can_write ctx) then forbidden else pass ctx

is_agent : Option String → Bool
is_agent none = false
is_agent (some s) = s == scope_agent

unfoldable pub reject_agent_scope : Context → Verdict
unfolding is_agent
reject_agent_scope ctx = if is_agent ctx.token_scope then forbidden else pass ctx

unfoldable pub require_admin : Context → Verdict
unfolding effective_is_admin
require_admin ctx = if not (effective_is_admin ctx) then forbidden else pass ctx

-- What a request brings: whether it has a bearer token and what the token store says of it (the
-- owner's role and the scope), and the role behind its session cookie. Failures of the stores are
-- left out.
pub record Request : Type 0 where
  pub method : String
  pub has_bearer : Bool
  pub token : Option (String × String)
  pub session : Option String

by_token : Option (String × String) → Verdict
by_token none = unauthorized
by_token (some (role, scope)) = pass (record { user = some role; token_scope = some scope })

by_session : Option String → Verdict
by_session none = unauthorized
by_session (some role) = pass (record { user = some role; token_scope = none })

-- `apiAuth`: a bearer token decides alone, and the cookie serves reads only.
unfoldable pub api_auth : Request → Verdict
unfolding by_token by_session
api_auth r =
    if r.has_bearer
    then by_token r.token
    else if not (r.method == "GET") && not (r.method == "HEAD")
    then unauthorized
    else by_session r.session

-- The middleware of the API group in `server.go`, in order, with `AuthEnabled` set, as `main.go` sets it.
unfoldable pub api_route : Request → Verdict
unfolding api_auth reject_agent_scope require_write
api_route r = api_auth r ⊳ reject_agent_scope ⊳ require_write r.method

-- The tests with which `agentReport` begins.
report_gate : Context → Verdict
report_gate ctx =
    if not (is_agent ctx.token_scope)
    then forbidden
    else if not (user_writes ctx.user)
    then forbidden
    else pass ctx

-- The agent's own group, with `AuthEnabled` set: `apiAuth`, then the handler.
unfoldable pub report_route : Request → Verdict
unfolding api_auth report_gate is_agent user_writes role_can_write
report_route r = api_auth r ⊳ report_gate
