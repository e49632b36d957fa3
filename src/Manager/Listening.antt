-- ===== src/Manager/Listening.antt =====
-- manager/manager.go and fleet/client.go: llama-server is started on the port that requests are routed
-- to.
use llm_server_manager.Base.{
  ◌≡◌, ap, ◌⊎◌, Bool, false, Option, none, some, List, [], ◌∷◌, ◌++◌, String, ℕ, ◌<◌, ℤ, pos,
  Float64, from_option, arith,
}
use llm_server_manager.Models.{ModelConfig, has_launch_cmd}
use llm_server_manager.Manager.Command.{build_command, optional_args}
use llm_server_manager.Fleet.Port.{routable_port, configured_port}

-- The port of a configuration, where there is one, is positive.
abbrev pub UsablePort : Option ℤ → Type 0
UsablePort o = (o ≡ none) ⊎ ((n : ℕ) × (o ≡ some (pos n)) × (0 < n))

-- The port that the command line names.
abbrev pub asked_port : ModelConfig → ℤ
asked_port c = from_option (pos 8081) c.port

asked_port-routable_port :
    (c : ModelConfig) (p : ℕ)
    → has_launch_cmd c ≡ false
    → UsablePort c.port
    → routable_port c ≡ some p
    → asked_port c ≡ pos p
unfolding routable_port configured_port
asked_port-routable_port c p plain usable e = ground arith

-- A model with no launch command and with no port, or with a positive one, in its configuration is
-- started with the flag --port and the port that RoutablePort reports for it.
pub build_command-routable_port :
    (show_int : ℤ → String) (show_float : Float64 → String) (missing : String → Bool)
    (enable_logging : Bool) (c : ModelConfig) (p : ℕ)
    → has_launch_cmd c ≡ false
    → UsablePort c.port
    → routable_port c ≡ some p
    → (before rest : List String) × (build_command show_int show_float missing enable_logging c
        ≡ before ++ "--port" ∷ show_int (pos p) ∷ rest)
unfolding build_command
build_command-routable_port show_int show_float missing enable_logging c p plain usable e =
    let before : List String =
      "-a"
      ∷ c.name
      ∷ "-m"
      ∷ c.model_path
      ∷ "-t"
      ∷ show_int c.threads
      ∷ "--temp"
      ∷ show_float c.temperature
      ∷ "--no-webui"
      ∷ "--host"
      ∷ "0.0.0.0"
      ∷ [] in
    let rest = optional_args show_int show_float missing enable_logging c in
    (
      before,
      rest,
      ap (λ n. before ++ "--port" ∷ show_int n ∷ rest)
          (asked_port-routable_port c p plain usable e),
    )
