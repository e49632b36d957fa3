-- ===== src/Tests/MainTests.antt =====
-- main.go, and the life of the server in server/server.go, at concrete inputs.
use llm_server_manager.Base.{
  ◌≡◌, refl, All, ◌≢◌, eq_iff, String, Bool, true, false, Option, none, some, List, [], ◌∷◌, ℤ,
  strip_prefix?, arith, is_some,
}
use llm_server_manager.Config.{Config, parse_bool}
use llm_server_manager.Models.{running}
use llm_server_manager.Manager.State.{new}
use llm_server_manager.Manager.World.{World, boot}
use llm_server_manager.Fleet.Registry.{new_registry}
use llm_server_manager.Main.{
  read_argument, read_name, cut_value, is_switch, set_switch, parse_flags, daemon_args, main,
  daemon_started, flag, positional,
}
use llm_server_manager.Main.Daemon.{Unassigned, main-daemon_args, main-same_args}
use llm_server_manager.Server.Reload.{App, reload_config}
use llm_server_manager.Server.Lifecycle.{new_app, validate, new_app-reload}
use llm_server_manager.Tests.Samples.{llama, qwen, two_models, gpu_spec, parse_url}

abbrev no_int : String → Option ℤ
no_int s = none

abbrev all_valid : String → Bool
all_valid path = true

abbrev plain_args : List String
plain_args = "-daemon" ∷ "-config" ∷ "a.json" ∷ []

reads :
    (read_argument "-daemon" ≡ flag "daemon" none)
    × (read_argument "-config" ≡ flag "config" none)
    × (read_argument "a.json" ≡ positional)
unfolding read_argument read_name cut_value strip_prefix?
reads = (refl, refl, refl)

plain : All Unassigned plain_args
plain = (
  λ v e. ground (arith, e, reads),
  (λ v e. ground (arith, e, reads), (λ v e. ground (arith, e, reads), tt)),
)

main-daemon_args_example :
    main no_int all_valid true true true (daemon_args plain_args) ≢ daemon_started []
main-daemon_args_example = main-daemon_args no_int all_valid true true true plain_args [] plain

abbrev assigned_args : List String
assigned_args = "-daemon=true" ∷ []

forks : main no_int all_valid true true true assigned_args ≡ daemon_started assigned_args
unfolding main parse_flags read_argument read_name cut_value strip_prefix? is_switch set_switch
    daemon_args parse_bool
forks = refl

main-same_args_example :
    main no_int all_valid true true true assigned_args ≡ daemon_started assigned_args
main-same_args_example =
    main-same_args no_int all_valid true true true assigned_args assigned_args
      (
        (
          (λ e. ground (arith, eq_iff "-daemon=true" "-daemon")),
          (λ e. ground (arith, eq_iff "-daemon=true" "--daemon")),
        ),
        tt,
      )
      forks

abbrev file : Config
file = record { models = qwen ∷ []; workers = gpu_spec ∷ []; proxy = true }

abbrev app : App
app = record {
  manager = new two_models 6;
  fleet = new_registry parse_url [];
  proxy_enabled = false;
}

new_app-reload_example :
    (is_some (new_app parse_url true (some file) 6) ≡ validate true (some file))
    × ((b : App)
        → new_app parse_url true (some file) 6 ≡ some b
        → let (a', ok) = reload_config parse_url (some file) app in
          (ok ≡ true)
          × (a'.manager.configs ≡ b.manager.configs)
          × (a'.fleet.workers ≡ b.fleet.workers)
          × (a'.fleet.cache ≡ b.fleet.cache)
          × (a'.proxy_enabled ≡ b.proxy_enabled))
new_app-reload_example = new_app-reload parse_url true (some file) 6 app

abbrev serving : World
serving = record (boot (new two_models 6)) {
  manager = record (new two_models 6) {
    server = some (record {
      model_config = llama;
      pid = 41;
      status = running;
      start_time = 7;
      crash_count = 0;
    });
  };
  processes = 41 ∷ [];
}
