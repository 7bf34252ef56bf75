-- ===== src/Examples/Access.antt =====
-- Inputs for the theorems on internal/web/authz.go.
use almanaut.Base.{bool_eq, list_eq, nat_eq, none, pair_eq, some, string_eq, true, ◌≡◌}
use almanaut.Access.{Request, api_route, role_admin, scope_agent}
use almanaut.Access.Gates.{api_route-eq-is_served, is_served, passes}

abbrev agent_post : Request
agent_post = record {
  method = "POST";
  has_bearer = true;
  token = some (role_admin, scope_agent);
  session = none;
}

api_route-eq-is_served_example : passes (api_route agent_post) ≡ is_served agent_post
api_route-eq-is_served_example = api_route-eq-is_served agent_post
