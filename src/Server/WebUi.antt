-- ===== src/Server/WebUi.antt =====
-- server/ui.go: the routes of the web UI, and the header of its files. Whether the program was built with the UI
-- and whether its directory opens are arguments.
use llm_server_manager.Base.{
  String, Bool, not, List, [], ◌∷◌, if◌then◌else◌, is_some, strip_prefix?,
}
use llm_server_manager.Server.Routes.{top, Route, web_ui, web_ui_redirect}

-- uiCacheControl.
unfoldable pub ui_cache_control : String → String
ui_cache_control p =
    if is_some (strip_prefix? "assets/" p)
    then "public, max-age=31536000, immutable"
    else "no-cache"

-- What registerUIRoutes adds to the router: the second template is a prefix of a path.
unfoldable pub ui_routes : Bool → Bool → Bool → List Route
ui_routes serve_ui embedded opens =
    if not serve_ui
    then []
    else if not embedded
    then []
    else if not opens
    then []
    else record { group = top; template = "/ui"; endpoint = web_ui_redirect; method = "" }
      ∷ record { group = top; template = "/ui/"; endpoint = web_ui; method = "" }
      ∷ []
