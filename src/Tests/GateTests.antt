-- ===== src/Tests/GateTests.antt =====
-- The gates of server/server.go and handlers/handlers.go, the web UI's routes and the proxy's warnings at
-- concrete inputs.
use llm_server_manager.Base.{
  ◌↔◌, ◌≢◌, any, true, false, ◌≡◌, refl, String, some, List, [], ◌∷◌, ℕ, lookup, strip_prefix?,
  trim_space, Bool, ◌⊎◌, ◌==◌, ◌++◌, if◌then◌else◌, Option, codes, suc, zero, ap, arith, split_from,
  split_at, trim_left, trim_right,
}
use llm_server_manager.Handlers.Access.{
  forbidden, new_auth, is_valid_api_key, passes, cors, require_api_key,
}
use llm_server_manager.Server.Limits.{refuses_length}
use llm_server_manager.Server.Routes.{
  Route, api, v1, router_routes, list_models, list_published, top, web_ui,
}
use llm_server_manager.Server.Chain.{
  Request, Found, matched, no_route, Gates, reached, limit, serve,
}
use llm_server_manager.Server.Gates.{GroupAdmits, serve-reached}
use llm_server_manager.Server.Keys.{reached_has_key}
use llm_server_manager.Handlers.Origins.{
  names, names_one, cors-allowed_origins, allowed_origins, add_origin, add_origins,
}
use llm_server_manager.Proxy.Table.{Collision}
use llm_server_manager.Proxy.Warnings.{
  warn_all, warn_once, collision_text, claim_label, no_warnings,
}
use llm_server_manager.Server.WebUi.{ui_cache_control, ui_routes}
use llm_server_manager.Tests.ServerTests.{limits}

abbrev server_key : String
server_key = "0123456789abcDEF"

abbrev models_route : Route
models_route = record {
  group = api;
  template = "/api/v1/models";
  endpoint = list_models;
  method = "GET";
}

abbrev published_route : Route
published_route = record {
  group = v1;
  template = "/v1/models";
  endpoint = list_published;
  method = "GET";
}

-- Finds two of the routes.
abbrev find : List Route → String → String → Found
find rs method path =
    if path == "/api/v1/models"
    then matched models_route
    else if path == "/v1/models"
    then matched published_route
    else no_route

-- A bucket is the number of its tokens.
abbrev take_token : ℕ → ℕ → ℕ × Bool
take_token zero now = (0, false)
take_token (suc n) now = (n, true)

abbrev request : String → Request
request path = record {
  method = "GET";
  path = path;
  remote_addr = "10.0.0.2";
  origin = "";
  api_key = server_key;
  authorization = "";
  content_length = 0;
}

abbrev gates : Gates
gates = record { auth = new_auth server_key; allowed_origins = []; proxy_enabled = true }

is_reached :
    (serve take_token 20 find [] gates (request "/api/v1/models") 100 limits).1
    ≡ reached models_route
unfolding serve cors lookup refuses_length strip_prefix? require_api_key new_auth
is_reached = refl

serve-reached_example :
    ((serve take_token 20 find [] gates (request "/api/v1/models") 100 limits).1
      ≡ reached models_route)
    ↔ (((o : Option String) × (cors [] "" "GET" ≡ passes o))
        × (find (router_routes ++ []) "GET" "/api/v1/models" ≡ matched models_route)
        × ((limit take_token 20 "10.0.0.2" 100 limits).1 ≡ true)
        × (refuses_length "/api/v1/models" 0 ≡ false)
        × GroupAdmits gates (request "/api/v1/models") api)
serve-reached_example =
    serve-reached take_token 20 gates (request "/api/v1/models") 100 limits find [] models_route

key_is_valid : is_valid_api_key (codes server_key) ≡ true
unfolding is_valid_api_key
key_is_valid = refl

key_given : server_key ≢ ""
key_given e = let z : true ≡ false = ap (λ t. t == server_key) e in ground (arith, z)

reached_has_key_example :
    (api ≡ api → server_key ≡ server_key)
    × (api ≡ v1
        → (server_key ≡ server_key)
          ⊎ ((rest : String) × (strip_prefix? "Bearer " "" ≡ some rest)
              × (trim_space rest ≡ server_key)))
reached_has_key_example =
    reached_has_key take_token 20 find [] server_key [] true (request "/api/v1/models") 100 limits
      models_route key_given key_is_valid is_reached

-- With white space around the commas, an entry that is empty, and one that comes twice.
abbrev origins_text : String
origins_text = "http://a.lan , http://b.lan,,http://a.lan"

origins_read : allowed_origins origins_text ≡ "http://b.lan" ∷ "http://a.lan" ∷ []
unfolding allowed_origins add_origins add_origin split_at split_from trim_space trim_left trim_right
origins_read = refl

-- A value of commas and white space alone allows every origin.
blank_allows_all : allowed_origins " , ," ≡ []
unfolding allowed_origins add_origins add_origin split_at split_from trim_space trim_left trim_right
blank_allows_all = refl

cors-allowed_origins_example :
    (cors (allowed_origins origins_text) "http://c.lan" "GET" ≡ forbidden) ↔ (
      (◌≢◌ {A = String} "http://c.lan" "")
      × (any names_one (split_at b',' origins_text) ≡ true)
      × (any (names "http://c.lan") (split_at b',' origins_text) ≡ false))
cors-allowed_origins_example = cors-allowed_origins origins_text "http://c.lan" "GET"

abbrev collision : Collision
collision = record {
  name = "llama";
  first = record { machine = "local"; is_alias = false };
  second = record { machine = "gpu1"; is_alias = true };
}

abbrev in_quotes : String → String
in_quotes s = s

warned_once :
    (warn_all in_quotes (collision ∷ collision ∷ []) no_warnings).log
    ≡ "proxy: published name llama is claimed as a real model name on machine local and an alias on machine gpu1; first-match wins"
      ∷ []
unfolding warn_all warn_once collision_text claim_label
warned_once = refl

-- Without the flag, and in a build without the UI, nothing is served.
ui_off : (ui_routes false true true ≡ []) × (ui_routes true false true ≡ [])
unfolding ui_routes
ui_off = (refl, refl)

assets_are_cached :
    (ui_cache_control "assets/index-1a2b.js" ≡ "public, max-age=31536000, immutable")
    × (ui_cache_control "index.html" ≡ "no-cache")
unfolding ui_cache_control strip_prefix?
assets_are_cached = (refl, refl)

-- Finds the route that was registered last.
abbrev find_last : List Route → String → String → Found
find_last [] method path = no_route
find_last (r ∷ []) method path = matched r
find_last (r ∷ s ∷ rs) method path = find_last (s ∷ rs) method path

-- A file of the UI is served without a key.
ui_needs_no_key :
    (serve take_token 20 find_last
      (ui_routes true true true)
      gates
      (record (request "/ui/index.html") { api_key = "" })
      100
      limits).1
    ≡ reached (record { group = top; template = "/ui/"; endpoint = web_ui; method = "" })
unfolding serve cors lookup refuses_length strip_prefix? require_api_key new_auth ui_routes
    router_routes
ui_needs_no_key = refl
