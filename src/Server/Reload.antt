-- ===== src/Server/Reload.antt =====
-- server/server.go: reloadConfig, over what config.Reload returns.
use llm_server_manager.Base.{◌≡◌, refl, Bool, true, false, String, Option, none, some, ◌≢◌, lookup}
use mathlib.Core.List.{Memᴰ}
use llm_server_manager.Config.{Config}
use llm_server_manager.Manager.State.{Manager, reload_configs}
use llm_server_manager.Fleet.Worker.{Url, Worker}
use llm_server_manager.Fleet.Registry.{Registry, reload}
use llm_server_manager.Fleet.Workers.{Configured, load_iff}
use llm_server_manager.Server.Index.{index_models, index_models-lookup, last_named}

pub record App : Type 0 where
  pub manager : Manager
  pub fleet : Registry
  pub proxy_enabled : Bool

-- `read` is what config.Reload makes of the file, or nothing if that fails. The result says whether
-- the reload succeeded.
unfoldable pub reload_config : (String → Option Url) → Option Config → App → App × Bool
reload_config parse_url none a = (a, false)
reload_config parse_url (some cfg) a = (
  record {
    manager = reload_configs (index_models cfg.models) a.manager;
    fleet = reload parse_url cfg.workers a.fleet;
    proxy_enabled = cfg.proxy;
  },
  true,
)

-- A reload that reads the file replaces the models, the workers and the proxy setting by those of the
-- file, and forgets the cached probes. The running server and the context that cancels it are left
-- alone.
pub reload_config_lem :
    (parse_url : String → Option Url) (cfg : Config) (a : App)
    → let a' = (reload_config parse_url (some cfg) a).0 in
      ((k : String) → k ≢ "" → lookup k a'.manager.configs ≡ last_named k none cfg.models)
      × ((w : Worker) → Memᴰ w a'.fleet.workers → Configured parse_url cfg.workers w)
      × ((w : Worker) → Configured parse_url cfg.workers w → Memᴰ w a'.fleet.workers)
      × ((url : String) → lookup url a'.fleet.cache ≡ none)
      × (a'.proxy_enabled ≡ cfg.proxy)
      × (a'.manager.server ≡ a.manager.server)
      × (a'.manager.cancel_func ≡ a.manager.cancel_func)
unfolding reload_config reload_configs reload lookup
reload_config_lem parse_url cfg a = (
  (index_models-lookup cfg.models).0,
  λ w. (load_iff parse_url cfg.workers w).0,
  λ w. (load_iff parse_url cfg.workers w).1,
  λ url. refl,
  refl,
  refl,
  refl,
)
