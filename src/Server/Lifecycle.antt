-- ===== src/Server/Lifecycle.antt =====
-- server/server.go: New, Validate and Shutdown. manager/manager.go: StopCurrent. The configuration is what
-- config.Load makes of the file; whether llama-server is found, and whether the HTTP server's own
-- Shutdown drained its connections within 30 seconds, are arguments.
use llm_server_manager.Base.{
  ◌≡◌, refl, Bool, true, false, ◌&&◌, not, Option, none, some, List, [], ◌∷◌, String, ℕ, length,
  if◌then◌else◌, arith, is_some,
}
use llm_server_manager.Config.{Config}
use llm_server_manager.Models.{RunningServer}
use llm_server_manager.Manager.State.{
  Manager, new, reload_configs, close_stop_chan, get_current_server,
}
use llm_server_manager.Manager.World.{World, Event, stop, run}
use llm_server_manager.Manager.StopCall.{rest_of_stop}
use llm_server_manager.Fleet.Worker.{Url}
use llm_server_manager.Fleet.Registry.{new_registry, reload}
use llm_server_manager.Server.Index.{index_models}
use llm_server_manager.Server.Reload.{App, reload_config}

-- New.
unfoldable pub new_app : (String → Option Url) → Bool → Option Config → ℕ → Option App
new_app parse_url found none retries = none
new_app parse_url found (some cfg) retries =
    if not found
    then none
    else some (record {
      manager = new (index_models cfg.models) retries;
      fleet = new_registry parse_url cfg.workers;
      proxy_enabled = cfg.proxy;
    })

-- Validate: whether it reports no error.
unfoldable pub validate : Bool → Option Config → Bool
validate found cfg = is_some cfg && found

-- The steps that run while Shutdown does: launchers, calls that are under way, and in `rest` also the
-- steps of its own StopCurrent until that returns. `before` comes between the closing of the stop channel
-- and GetCurrentServer, `gap` between that and StopCurrent.
pub record Meanwhile : Type 0 where
  pub before : List Event
  pub gap : List Event
  pub rest : List Event

-- StopCurrent: its first critical section, and its other steps among those of others.
unfoldable pub stop_current : (String → Bool) → List Event → World → World
stop_current missing rest w = run missing w (stop "" ∷ rest)

-- A server that GetCurrentServer still knows is stopped.
unfoldable pub stop_known :
    (String → Bool) → Meanwhile → World → Manager × Option RunningServer → World
unfolding stop_current
stop_known missing t w (m, none) = record w { manager = m }
stop_known missing t w (m, some s) =
    stop_current missing t.rest (run missing (record w { manager = m }) t.gap)

-- The part of Shutdown behind the HTTP server, which begins by closing the stop channel.
unfoldable pub stop_all : (String → Bool) → Meanwhile → World → World
unfolding stop_known
stop_all missing t w =
    let w' = run missing (record w { manager = close_stop_chan w.manager }) t.before in
    stop_known missing t w' (get_current_server w'.processes w'.manager)

-- Nothing but the steps of StopCurrent runs meanwhile.
abbrev pub undisturbed : World → Meanwhile
undisturbed w = record { before = []; gap = []; rest = rest_of_stop (length w.stoppers) }

-- Shutdown: the new world, and whether it returned without an error. `serving` says that the HTTP
-- server was started, `drained` that its Shutdown succeeded.
unfoldable pub shutdown : (String → Bool) → Bool → Bool → Meanwhile → World → World × Bool
unfolding stop_all
shutdown missing serving drained t w =
    if serving && not drained then (w, false) else (stop_all missing t w, true)

-- The set of models, the workers and the proxy setting that New takes from a configuration are those
-- that a reload of the same configuration takes, and New succeeds exactly if Validate reports no error.
pub new_app-reload :
    (parse_url : String → Option Url) (found : Bool) (read : Option Config) (retries : ℕ) (a : App)
    → (is_some (new_app parse_url found read retries) ≡ validate found read)
      × ((b : App)
          → new_app parse_url found read retries ≡ some b
          → let (a', ok) = reload_config parse_url read a in
            (ok ≡ true)
            × (a'.manager.configs ≡ b.manager.configs)
            × (a'.fleet.workers ≡ b.fleet.workers)
            × (a'.fleet.cache ≡ b.fleet.cache)
            × (a'.proxy_enabled ≡ b.proxy_enabled))
unfolding new_app validate reload_config new_registry new reload reload_configs
new_app-reload parse_url found none retries a = (refl, λ b e. cc)
new_app-reload parse_url found (some cfg) retries a = (ground arith, λ b e. ground arith)
