-- ===== src/Access/Gates.antt =====
-- What the gates of internal/web/authz.go and auth.go let through.
use text.Mathlib.TextEquality.{eq_iff}
use almanaut.Base.{
  Bool, Option, Option-cases, String, arith, bool_eq, false, if◌then◌else◌, inl, inr, is_some,
  list_eq, nat_eq, none, not, pair_eq, some, string_eq, true, ◌&&◌, ◌==◌, ◌||◌, ◌≡◌,
}
use almanaut.Access.{
  Request, Verdict, api_route, forbidden, is_safe_method, pass, report_route, role_can_write,
  scope_agent, scope_can_write, scope_read_write, unauthorized,
}

abbrev pub passes : Verdict → Bool
passes (pass ctx) = true
passes unauthorized = false
passes forbidden = false

-- What a known token may do: not the agent's, and then a read, or a write if the owner's role may
-- write and the scope is read-write.
abbrev pub token_serves : String → Option (String × String) → Bool
token_serves method none = false
token_serves method (some (role, scope)) =
    not (scope == scope_agent)
    && (is_safe_method method || (role_can_write role && scope == scope_read_write))

-- The access policy of the API, read off the request alone.
abbrev pub is_served : Request → Bool
is_served r =
    if r.has_bearer
    then token_serves r.method r.token
    else is_safe_method r.method && is_some r.session

-- The API group serves exactly the requests that its policy admits: by a known token whose scope is
-- not the agent's, a read, or a write where both the owner's role and the scope allow it; without a
-- token, a read by a logged-in user.
pub api_route-eq-is_served : (r : Request) → passes (api_route r) ≡ is_served r
unfolding api_route scope_can_write is_safe_method role_can_write
api_route-eq-is_served r = ground arith

-- An agent's token is confined to the report endpoint, and that endpoint to agents' tokens: no
-- request passes both routes, one with an agent's token passes no other route, and one that passes
-- the report endpoint has an agent's token whose owner may write.
pub agent_confined :
    (r : Request)
    → passes (report_route r) ≡ true
    → (r.has_bearer ≡ true)
      × ((role : String) × (r.token ≡ some (role, scope_agent)) × (role_can_write role ≡ true))
      × (passes (api_route r) ≡ false)
unfolding report_route api_route role_can_write
agent_confined r h = elim (Option-cases r.token) [
  | inl absent ↦ absurd (ground arith)
  | inr (t, known) ↦
      let agent : t.1 ≡ scope_agent = ground (arith, eq_iff t.1 scope_agent) in
      (ground arith, (t.0, cc (known, agent), ground arith), ground (arith, eq_iff t.1 scope_agent))
]

-- A token whose owner may not write changes nothing: no request with it passes either route with a
-- method other than GET and HEAD.
pub writers_only :
    (r : Request) (role scope : String)
    → is_safe_method r.method ≡ false
    → r.token ≡ some (role, scope)
    → role_can_write role ≡ false
    → (passes (api_route r) ≡ false) × (passes (report_route r) ≡ false)
unfolding api_route report_route
writers_only r role scope unsafe tok reader = (ground arith, ground arith)
