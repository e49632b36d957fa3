-- ===== src/Server/Routes.antt =====
-- server/server.go: the routes that setupRouter registers, in order. How gorilla/mux matches a path with
-- a template is not part of it.
use llm_server_manager.Base.{String, List, [], ◌∷◌, ◌++◌}

-- The two subrouters, and what is registered on the router itself (the web UI).
pub data Group : Type 0 where
  api v1 top : Group

-- The handler of a route.
pub data Endpoint : Type 0 where
  list_models start_model stop_model get_running_model get_config save_config : Endpoint
  list_workers worker_list_models worker_system worker_start_model worker_stop_model : Endpoint
  get_fleet get_proxy_status get_system : Endpoint
  list_published handle_generation : Endpoint
  web_ui web_ui_redirect : Endpoint

-- `method` is empty where a route takes every method.
pub record Route : Type 0 where
  pub group : Group
  pub template : String
  pub endpoint : Endpoint
  pub method : String

abbrev route : Group → String → Endpoint → String → Route
route g t e m = record { group = g; template = t; endpoint = e; method = m }

abbrev pub api_routes : List Route
api_routes =
    route api "/api/v1/models" list_models "GET"
    ∷ route api "/api/v1/models/{model}/start" start_model "POST"
    ∷ route api "/api/v1/models/{model}/stop" stop_model "DELETE"
    ∷ route api "/api/v1/models/running" get_running_model "GET"
    ∷ route api "/api/v1/config" get_config "GET"
    ∷ route api "/api/v1/config" save_config "PUT"
    ∷ route api "/api/v1/workers" list_workers "GET"
    ∷ route api "/api/v1/workers/{worker}/models" worker_list_models "GET"
    ∷ route api "/api/v1/workers/{worker}/system" worker_system "GET"
    ∷ route api "/api/v1/workers/{worker}/models/{model}/start" worker_start_model "POST"
    ∷ route api "/api/v1/workers/{worker}/models/{model}/stop" worker_stop_model "DELETE"
    ∷ route api "/api/v1/fleet" get_fleet "GET"
    ∷ route api "/api/v1/proxy" get_proxy_status "GET"
    ∷ route api "/api/v1/system" get_system "GET"
    ∷ []

abbrev pub v1_routes : List Route
v1_routes =
    route v1 "/v1/models" list_published "GET"
    ∷ route v1 "/v1/chat/completions" handle_generation "POST"
    ∷ route v1 "/v1/completions" handle_generation "POST"
    ∷ route v1 "/v1/embeddings" handle_generation "POST"
    ∷ []

-- setupRouter's table.
unfoldable pub router_routes : List Route
router_routes = api_routes ++ v1_routes
