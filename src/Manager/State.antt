-- ===== src/Manager/State.antt =====
-- manager/manager.go: the state of ServerManager and the critical sections of its methods. Each
-- function is what runs under the mutex in one piece. A context is the number of the launcher that
-- it belongs to; the context made by New, which nobody waits for, is `none`.
use llm_server_manager.Base.{
  Bool, true, false, ◌&&◌, ◌||◌, not, Option, none, some, List, String, ◌==◌, if◌then◌else◌, ℕ, ◌⊎◌,
  inl, inr, eqb, any, lookup, length,
}
use llm_server_manager.Models.{
  ModelConfig, ServerStatus, starting, running, stopping, RunningServer,
}
use llm_server_manager.Manager.Validate.{ConfigError, validate_start}

-- The log file and the logger are output only and are left out.
pub record Manager : Type 0 where
  pub configs : List (String × ModelConfig)
  pub server : Option RunningServer
  pub cancel_func : Option ℕ
  pub max_retries : ℕ
  pub stop_closed : Bool

pub data ManagerError : Type 0 where
  already_active : ServerStatus → String → ManagerError
  model_not_found : String → ManagerError
  invalid_config : ConfigError → ManagerError
  none_running : ManagerError
  other_model_running : String → String → ManagerError

-- New, where llama-server was found. A negative number of retries is taken as 0 before.
unfoldable pub new : List (String × ModelConfig) → ℕ → Manager
new configs max_retries = record {
  configs = configs;
  server = none;
  cancel_func = none;
  max_retries = max_retries;
  stop_closed = false;
}

unfoldable pub list_models : Manager → List (String × ModelConfig)
list_models m = m.configs

unfoldable pub model_count : Manager → ℕ
model_count m = length m.configs

abbrev pub is_running : ServerStatus → Bool
is_running running = true
is_running _ = false

abbrev pub is_stopping : ServerStatus → Bool
is_stopping stopping = true
is_stopping _ = false

-- isProcessAlive: the process can be signalled, which holds of one that is not reaped yet.
abbrev pub is_process_alive : List ℕ → ℕ → Bool
is_process_alive processes pid = any (eqb pid) processes

-- GetCurrentServer, over the processes that exist.
unfoldable pub get_current_server : List ℕ → Manager → Manager × Option RunningServer
get_current_server processes m = elim m.server [
  | none ↦ (m, none)
  | some s ↦
      if is_running s.status && not (is_process_alive processes s.pid)
      then (record m { server = none }, none)
      else (m, some s)
]

-- What StartModel decides under the lock: an error, or the configuration to launch.
unfoldable pub admit_start : (String → Bool) → Manager → String → ManagerError ⊎ ModelConfig
admit_start missing m name = elim m.server [
  | some s ↦ inl (already_active s.status s.model_config.name)
  | none ↦ elim (lookup name m.configs) [
    | none ↦ inl (model_not_found name)
    | some c ↦ elim (validate_start missing c) [ some e ↦ inl (invalid_config e) | none ↦ inr c ]
  ]
]

-- The record that StartModel writes, for a launcher with the given context.
unfoldable pub begin_start : Manager → ModelConfig → ℕ → ℕ → Manager
begin_start m c context now = record m {
  cancel_func = some context;
  server =
      some (record {
        model_config = c;
        pid = 0;
        status = starting;
        start_time = now;
        crash_count = 0;
      });
}

-- The first critical section of StopModel: an error, or the manager with its server marked
-- `stopping` and the PID to kill.
unfoldable pub begin_stop : Manager → String → ManagerError ⊎ (Manager × ℕ)
begin_stop m name = elim m.server [
  | none ↦ inl none_running
  | some s ↦
      if is_stopping s.status
      then inl none_running
      else if not (name == "") && not (s.model_config.name == name)
      then inl (other_model_running s.model_config.name name)
      else inr (record m { server = some (record s { status = stopping }) }, s.pid)
]

-- clearServerStateIfPIDMatches.
unfoldable pub clear_if_pid_matches : ℕ → Manager → Manager
clear_if_pid_matches pid m = elim m.server [
  | none ↦ m
  | some s ↦ if eqb s.pid pid then record m { server = none } else m
]

unfoldable pub reload_configs : List (String × ModelConfig) → Manager → Manager
reload_configs configs m = record m { configs = configs }

-- CloseStopChan: the channel is closed once however often this is called.
unfoldable pub close_stop_chan : Manager → Manager
close_stop_chan m = record m { stop_closed = true }

-- The claim of a launcher whose process has started: the server takes its PID if it has none yet or
-- has the PID that this launcher registered before.
unfoldable pub claim : ℕ → ℕ → ℕ → Manager → Option Manager
claim pid registered crashes m = elim m.server [
  | none ↦ none
  | some s ↦
      if eqb s.pid 0 || eqb s.pid registered
      then some (record m {
        server = some (record s { pid = pid; status = running; crash_count = crashes });
      })
      else none
]

-- A launcher whose process crashed marks its server as starting again.
unfoldable pub mark_restarting : ℕ → Manager → Manager
mark_restarting pid m = elim m.server [
  | none ↦ m
  | some s ↦
      if eqb s.pid pid then record m { server = some (record s { status = starting }) } else m
]
