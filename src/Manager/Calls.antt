-- ===== src/Manager/Calls.antt =====
-- manager/manager.go: what a call of StopModel does, on every branch.
use llm_server_manager.Base.{
  ◌≡◌, refl, ◌≢◌, ◌⊎◌, inl, inr, Bool, true, false, none, some, ◌∷◌, String, eq_iff, ℕ, ltb, length,
  arith, if◌then◌else◌, Option-cases, Sum-cases,
}
use llm_server_manager.Models.{RunningServer, stopping}
use llm_server_manager.Manager.State.{
  Manager, ManagerError, is_stopping, begin_stop, clear_if_pid_matches,
}
use llm_server_manager.Manager.World.{World, stop, cancel, stop_model, run}
use llm_server_manager.Manager.StopCall.{stop_whole, rest_of_stop}

abbrev pub marked : Manager → RunningServer → Manager
marked m s = record m { server = some (record s { status = stopping }) }

pub begin_stop_taken :
    (m : Manager) (name : String) (s : RunningServer)
    → m.server ≡ some s
    → is_stopping s.status ≡ false
    → (name ≡ "") ⊎ (s.model_config.name ≡ name)
    → begin_stop m name ≡ inr (record m { server = some (record s { status = stopping }) }, s.pid)
unfolding begin_stop
begin_stop_taken m name s e live asked =
    ground (arith, eq_iff name "", eq_iff s.model_config.name name)

pub clear_marked :
    (m : Manager) (s : RunningServer) → (clear_if_pid_matches s.pid (marked m s)).server ≡ none
unfolding clear_if_pid_matches
clear_marked m s = ground arith

clear-configs : (pid : ℕ) (m : Manager) → (clear_if_pid_matches pid m).configs ≡ m.configs
unfolding clear_if_pid_matches
clear-configs pid m = ground arith

-- StopModel on a server that is starting or running, called with that model's name or with none,
-- in a program that has not panicked, and not interrupted: the server's record is gone, the context that the manager held is cancelled,
-- the process group is killed exactly if a PID was registered, and the configurations stay.
pub stop_model_lem :
    (missing : String → Bool) (w : World) (name : String) (s : RunningServer)
    → w.panicked ≡ false
    → w.manager.server ≡ some s
    → is_stopping s.status ≡ false
    → (name ≡ "") ⊎ (s.model_config.name ≡ name)
    → let w' = run missing w (stop name ∷ rest_of_stop (length w.stoppers)) in
      (w'.manager.server ≡ none)
      × (w'.launchers ≡ cancel w.manager.cancel_func w.launchers)
      × (w'.signalled ≡ (if ltb 0 s.pid then s.pid ∷ w.signalled else w.signalled))
      × (w'.manager.configs ≡ w.manager.configs)
stop_model_lem missing w name s alive e live asked =
    rw
      (stop_whole missing w alive name (marked w.manager s) s.pid
        (begin_stop_taken w.manager name s e live asked))
      (clear_marked w.manager s, refl, refl, clear-configs s.pid (marked w.manager s))

begin_stop_refused :
    (m : Manager) (name : String) (m' : Manager) (pid : ℕ)
    → ((s : RunningServer)
        → m.server ≡ some s
        → (is_stopping s.status ≡ true) ⊎ ((name ≢ "") × (s.model_config.name ≢ name)))
    → begin_stop m name ≡ inr (m', pid)
    → ⊥
unfolding begin_stop
begin_stop_refused m name m' pid h q = elim (Option-cases m.server) [
  | inl e ↦ ground arith
  | inr (s, e) ↦ ground (arith, h s e, eq_iff name "", eq_iff s.model_config.name name)
]

-- With no server on record, with one that is already stopping, or with one whose model is not the one
-- named, StopModel is an error and changes nothing.
pub stop_model_refused :
    (name : String) (w : World)
    → ((s : RunningServer)
        → w.manager.server ≡ some s
        → (is_stopping s.status ≡ true) ⊎ ((name ≢ "") × (s.model_config.name ≢ name)))
    → (e : ManagerError) × (stop_model name w ≡ (w, some e))
unfolding stop_model
stop_model_refused name w h = elim (Sum-cases (begin_stop w.manager name)) [
  | inl (e, q) ↦ (e, ground arith)
  | inr ((m, pid), q) ↦ absurd (begin_stop_refused w.manager name m pid h q)
]
