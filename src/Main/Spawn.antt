-- ===== src/Main/Spawn.antt =====
-- main.go: runDaemon and validateConfigPath. manager/manager.go: getLlamaServerPath and CheckLlamaServer. What
-- the operating system answers is an argument, and so is filepath.Join of the program's directory and a name.
use llm_server_manager.Base.{
  ◌≡◌, refl, ◌↔◌, ◌≢◌, String, ◌==◌, Bool, true, not, Option, none, some, List, ℕ, if◌then◌else◌,
  is_some, if_cases, option_cases,
}
use llm_server_manager.Config.{Config}
use llm_server_manager.Server.Lifecycle.{validate}
use llm_server_manager.Main.{daemon_args}

-- getLlamaServerPath. `beside` is the path of a file in the program's directory.
unfoldable pub get_llama_server_path : String → (String → String) → String
get_llama_server_path env beside = if not (env == "") then env else beside "llama-server"

-- CheckLlamaServer: whether it reports no error.
unfoldable pub check_llama_server : (String → Bool) → String → (String → String) → Bool
unfolding get_llama_server_path
check_llama_server missing env beside = not (missing (get_llama_server_path env beside))

pub data PathError : Type 0 where
  no_such_file invalid_configuration : PathError

-- validateConfigPath.
unfoldable pub validate_config_path :
    (String → Bool) → (String → Option Config) → Bool → String → Option PathError
unfolding validate
validate_config_path missing read found path =
    if missing path
    then some no_such_file
    else if not (validate found (read path))
    then some invalid_configuration
    else none

pub data DaemonError : Type 0 where
  no_executable no_dev_null not_started no_pid_file : DaemonError

-- The answers of os.Executable, os.Open, os.StartProcess with the PID, and os.WriteFile.
pub record Spawning : Type 0 where
  pub executable : Option String
  pub dev_null : Bool
  pub start_process : String → List String → Option ℕ
  pub write_pid_file : ℕ → Bool

-- What runDaemon leaves behind: the process that it started, the PID in the file, and its error.
pub record Spawned : Type 0 where
  pub process : Option ℕ
  pub pid_file : Option ℕ
  pub error : Option DaemonError

abbrev pub nothing_started : DaemonError → Spawned
nothing_started e = record { process = none; pid_file = none; error = some e }

abbrev record_pid : Spawning → ℕ → Spawned
record_pid s pid =
    if s.write_pid_file pid
    then record { process = some pid; pid_file = some pid; error = none }
    else record { process = some pid; pid_file = none; error = some no_pid_file }

-- runDaemon, on all arguments.
unfoldable pub run_daemon : Spawning → List String → Spawned
unfolding daemon_args
run_daemon s args = elim s.executable [
  | none ↦ nothing_started no_executable
  | some path ↦
      if not s.dev_null
      then nothing_started no_dev_null
      else elim (s.start_process path (daemon_args args)) [
        | none ↦ nothing_started not_started
        | some pid ↦ record_pid s pid
      ]
]

-- What an error says of the process.
abbrev Reported : Spawned → Type 0
Reported r =
    ((r.error ≡ none) ↔ ((pid : ℕ) × (r.process ≡ some pid) × (r.pid_file ≡ some pid)))
    × (r.error ≢ none → (is_some r.process ≡ true) ↔ (r.error ≡ some no_pid_file))

nothing_started-Reported : (e : DaemonError) → e ≢ no_pid_file → Reported (nothing_started e)
nothing_started-Reported e n = (
  (λ q. cc, λ h. let z = h.1 in cc),
  λ _. (λ q. cc, λ q. absurd (n (let z : e ≡ no_pid_file = cc in z))),
)

record_pid-Reported : (s : Spawning) (pid : ℕ) → Reported (record_pid s pid)
record_pid-Reported s pid =
    if_cases Reported (s.write_pid_file pid)
      (λ _. ((λ _. (pid, refl, refl), λ _. refl), λ n. absurd (n refl)))
      (λ _. ((λ q. cc, λ h. let z = h.2 in cc), λ _. (λ _. refl, λ _. refl)))

-- runDaemon reports no error exactly if a process was started and its PID is in the file. Where it
-- reports one, a process was started exactly if that error is the one of the PID file: the daemon then
-- runs although the start is reported as failed.
pub run_daemon_lem :
    (s : Spawning) (args : List String)
    → let r = run_daemon s args in
      ((r.error ≡ none) ↔ ((pid : ℕ) × (r.process ≡ some pid) × (r.pid_file ≡ some pid)))
      × (r.error ≢ none → (is_some r.process ≡ true) ↔ (r.error ≡ some no_pid_file))
unfolding run_daemon
run_daemon_lem s args =
    option_cases Reported s.executable (λ _. nothing_started-Reported no_executable (λ e. cc))
      λ path _.
        if_cases Reported (not s.dev_null) (λ _. nothing_started-Reported no_dev_null (λ e. cc))
          λ _.
            option_cases Reported (s.start_process path (daemon_args args))
              (λ _. nothing_started-Reported not_started (λ e. cc))
              (λ pid _. record_pid-Reported s pid)
