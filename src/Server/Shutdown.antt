-- ===== src/Server/Shutdown.antt =====
-- server/server.go: what Shutdown does, on every branch.
use llm_server_manager.Base.{◌≡◌, ◌⊎◌, Bool, true, false, ◌&&◌, not, none, some}
use llm_server_manager.Models.{RunningServer}
use llm_server_manager.Manager.State.{
  Manager, close_stop_chan, clear_if_pid_matches, is_running, is_stopping, is_process_alive,
}
use llm_server_manager.Manager.World.{World, returned, cancel}
use llm_server_manager.Manager.StopCall.{killed_too, stopping_at}
use llm_server_manager.Manager.Calls.{marked}

-- The server is there for GetCurrentServer: it is not recorded as running a process that is gone.
abbrev pub known : World → RunningServer → Bool
known w s = not (is_running s.status && not (is_process_alive w.processes s.pid))

abbrev closed : World → World
closed w = record w { manager = close_stop_chan w.manager }

-- What is left when a server was found: the rest of StopModel has run to its end.
abbrev after_stop : World → RunningServer → World
after_stop w s =
    stopping_at (closed w) (clear_if_pid_matches s.pid (marked (closed w).manager s))
      (cancel (closed w).manager.cancel_func w.launchers) (killed_too s.pid w.signalled) returned

-- What Shutdown leaves behind where the HTTP server drained. `none_left` is about a server that was
-- recorded and not already stopping.
pub record Shut (w w' : World) : Type 0 where
  pub watcher_told : w'.manager.stop_closed ≡ true
  pub none_left :
      (s : RunningServer)
      → w.manager.server ≡ some s
      → is_stopping s.status ≡ false
      → w'.manager.server ≡ none
  pub killed :
      (s : RunningServer)
      → w.manager.server ≡ some s
      → is_stopping s.status ≡ false
      → known w s ≡ true
      → (w'.signalled ≡ killed_too s.pid w.signalled)
        × (w'.launchers ≡ cancel w.manager.cancel_func w.launchers)
  pub spared :
      ((s : RunningServer)
        → w.manager.server ≡ some s
        → (is_stopping s.status ≡ true) ⊎ (known w s ≡ false))
      → (w'.signalled ≡ w.signalled) × (w'.launchers ≡ w.launchers)
