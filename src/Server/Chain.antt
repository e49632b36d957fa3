-- ===== src/Server/Chain.antt =====
-- server/server.go: what a request passes on its way to a handler: CORS around the router (Start), the rate
-- limiter, the limit on its body, and the gates of its group (setupRouter). gorilla/mux, which finds the
-- route, and the token bucket's Allow (golang.org/x/time/rate) are parameters.
use llm_server_manager.Base.{Bool, not, String, List, ◌++◌, ℕ, if◌then◌else◌, insert}
use llm_server_manager.Handlers.Access.{
  Auth, Verdict, allowed, missing_key, wrong_key, require_api_key, require_auth, Cors, forbidden,
  preflight, passes, cors,
}
use llm_server_manager.Proxy.Replies.{ApiError, invalid_key, not_found, disabled}
use llm_server_manager.Server.Limits.{Entry, RateLimiter, get_limiter, refuses_length}
use llm_server_manager.Server.Routes.{Group, api, v1, top, Route, router_routes}

pub record Request : Type 0 where
  pub method : String
  pub path : String
  pub remote_addr : String
  pub origin : String
  pub api_key : String
  pub authorization : String
  pub content_length : ℕ

-- What mux finds: a route, the NotFoundHandler of /v1, or neither. Middleware runs only for a route.
pub data Found : Type 0 where
  matched : Route → Found
  unknown_v1 no_route wrong_method : Found

pub data Outcome : Type 0 where
  origin_refused answered_preflight rate_limited entity_too_large unauthorized : Outcome
  mux_not_found mux_method_not_allowed : Outcome
  proxy_error : ApiError → Outcome
  reached : Route → Outcome

-- What the server is set up with: the key, the origins and the proxy setting.
pub record Gates : Type 0 where
  pub auth : Auth
  pub allowed_origins : List String
  pub proxy_enabled : Bool

abbrev pub key_gate : Outcome → Verdict → Outcome → Outcome
key_gate refusal allowed next = next
key_gate refusal missing_key next = refusal
key_gate refusal wrong_key next = refusal

-- The middleware of a group.
unfoldable pub group_gate : Gates → Request → Group → Outcome → Outcome
group_gate g r api next = key_gate unauthorized (require_api_key g.auth r.api_key) next
group_gate g r v1 next =
    if not g.proxy_enabled
    then proxy_error disabled
    else key_gate (proxy_error invalid_key) (require_auth g.auth r.api_key r.authorization) next
group_gate g r top next = next

-- The limit on the body, and the gates behind it.
unfoldable pub body_gate : Gates → Request → Route → Outcome
unfolding group_gate
body_gate g r route =
    if refuses_length r.path r.content_length
    then entity_too_large
    else group_gate g r route.group (reached route)

module _ {Bucket : Type 0} where
  -- What CORS lets happen.
  unfoldable pub behind_cors :
      Cors → RateLimiter Bucket → RateLimiter Bucket × Outcome → RateLimiter Bucket × Outcome
  behind_cors forbidden rl next = (rl, origin_refused)
  behind_cors (preflight o) rl next = (rl, answered_preflight)
  behind_cors (passes o) rl next = next

module _ {Bucket : Type 0} (allow : Bucket → ℕ → Bucket × Bool) (fresh : Bucket) where
  -- limit, before the next handler: the bucket is held by a pointer, so the limiter sees its new state.
  unfoldable pub limit : String → ℕ → RateLimiter Bucket → RateLimiter Bucket × Bool
  unfolding get_limiter
  limit ip now rl =
      let (rl', bucket) = get_limiter fresh ip now rl in
      let (bucket', ok) = allow bucket now in
      let entry : Entry Bucket = record { limiter = bucket'; last_used = now } in
      (record rl' { limiters = insert ip entry rl'.limiters }, ok)

  -- The router.
  unfoldable pub route_request :
      Gates → Request → ℕ → Found → RateLimiter Bucket → RateLimiter Bucket × Outcome
  unfolding limit body_gate
  route_request g r now (matched route) rl =
      let (rl', ok) = limit r.remote_addr now rl in
      (rl', if not ok then rate_limited else body_gate g r route)
  route_request g r now unknown_v1 rl = (rl, proxy_error not_found)
  route_request g r now no_route rl = (rl, mux_not_found)
  route_request g r now wrong_method rl = (rl, mux_method_not_allowed)

  -- The server's handler, with CORS outermost.
  unfoldable pub serve :
      (List Route → String → String → Found)
      → List Route
      → Gates
      → Request
      → ℕ
      → RateLimiter Bucket
      → RateLimiter Bucket × Outcome
  unfolding route_request behind_cors
  serve find ui g r now rl =
      behind_cors (cors g.allowed_origins r.origin r.method) rl
        (route_request g r now (find (router_routes ++ ui) r.method r.path) rl)
