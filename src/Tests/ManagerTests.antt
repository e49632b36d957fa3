-- ===== src/Tests/ManagerTests.antt =====
-- manager/manager.go at concrete inputs.
use llm_server_manager.Base.{
  ◌≡◌, refl, inl, inr, true, false, none, some, List, [], ◌∷◌, ◌++◌, ℕ, ◌<◌, eqb, any, All, lookup,
  get_elem?, ltb_float, ℤ, pos, ltb_ℤ, String, Float64, if◌then◌else◌,
}
use llm_server_manager.Models.{ModelConfig, RunningServer, running}
use llm_server_manager.Manager.Validate.{validate_config, validate_start, check_ranges}
use llm_server_manager.Manager.State.{
  new, admit_start, begin_start, begin_stop, ManagerError, clear_if_pid_matches, claim,
  mark_restarting,
}
use llm_server_manager.Manager.Launcher.{
  Launcher, sleeping, new_launcher, after_exit, restart_delay,
}
use llm_server_manager.Manager.World.{
  World, Event, start, stop, launch, proceed, start_returns, wait_returns, boot, run, start_model,
  stop_model, cancel, stopper_step, launcher_step, live_step, step,
}
use llm_server_manager.Manager.Signals.{run-signals_owned}
use llm_server_manager.Manager.Contexts.{run-one_live}
use llm_server_manager.Manager.Retries.{KeepsLimit, run-KeepsLimit}
use llm_server_manager.Manager.StopCall.{Startable, Started, start_model_lem, rest_of_stop}
use llm_server_manager.Manager.Calls.{stop_model_lem}
use llm_server_manager.Manager.Races.{
  start_stop_panics, stale_launcher_claims, stop_at_once, overtaken, first_config,
}
use llm_server_manager.Manager.Command.{build_command}
use llm_server_manager.Manager.Listening.{build_command-routable_port}
use llm_server_manager.Fleet.Port.{routable_port, configured_port}
use llm_server_manager.Tests.Samples.{llama, qwen, two_models, all_there}

-- Start a model, let its process crash once and come to sleep, then stop it.
abbrev one_crash : List Event
one_crash =
    start "llama" 5
    ∷ launch 0 proceed
    ∷ launch 0 proceed
    ∷ launch 0 (start_returns 41)
    ∷ launch 0 proceed
    ∷ launch 0 proceed
    ∷ launch 0 (wait_returns true)
    ∷ launch 0 proceed
    ∷ launch 0 proceed
    ∷ []

abbrev to_running : List Event
to_running =
    start "llama" 5
    ∷ launch 0 proceed
    ∷ launch 0 proceed
    ∷ launch 0 (start_returns 41)
    ∷ launch 0 proceed
    ∷ launch 0 proceed
    ∷ []

abbrev stopped_run : List Event
stopped_run = to_running ++ (stop "llama" ∷ rest_of_stop 0)

abbrev before : World
before = boot (new two_models 6)

machine : Unit {0}
unfolding begin_start begin_stop boot new run step live_step start_model stop_model cancel
    stopper_step launcher_step admit_start clear_if_pid_matches claim mark_restarting new_launcher
    after_exit restart_delay lookup validate_start validate_config check_ranges ltb_float
machine = tt

-- The process that runs is killed, and it is the only signal.
stopped_run_signals : (run all_there before stopped_run).signalled ≡ 41 ∷ []
unfolding machine
stopped_run_signals = refl

run-signals_owned_example :
    let w = run all_there before stopped_run in
    All (λ p. (0 < p) × (any (eqb p) w.started ≡ true)) w.signalled
run-signals_owned_example = run-signals_owned all_there two_models 6 stopped_run

crashed : Launcher
crashed = record {
  config = llama;
  cancelled = false;
  stage = sleeping 1;
  crash_count = 1;
  registered = 41;
  starts = 1;
}

at_crash : get_elem? (run all_there before one_crash).launchers 0 ≡ some crashed
unfolding machine crashed
at_crash = refl

run-KeepsLimit_example : KeepsLimit 6 crashed
run-KeepsLimit_example = run-KeepsLimit all_there two_models 6 one_crash 0 crashed at_crash

run-one_live_example :
    ((run all_there before one_crash).manager.cancel_func ≡ some 0) × (◌≡◌ {A = ℕ} 0 0)
unfolding crashed
run-one_live_example =
    run-one_live all_there two_models 6 one_crash 0 0 crashed crashed at_crash at_crash refl refl

llama_valid : validate_start all_there llama ≡ none
unfolding machine
llama_valid = refl

qwen_valid : validate_start all_there qwen ≡ none
unfolding machine
qwen_valid = refl

llama_listed : lookup "llama" two_models ≡ some llama
unfolding machine
llama_listed = refl

qwen_listed : lookup "qwen" two_models ≡ some qwen
unfolding machine
qwen_listed = refl

start_stop_panics_example : (run all_there before (stop_at_once llama 5)).panicked ≡ true
start_stop_panics_example =
    start_stop_panics all_there two_models llama 6 5 llama_listed llama_valid

stale_launcher_claims_example :
    let w = run all_there before (overtaken llama qwen 41 5) in
    (w.manager.server
      ≡ some (record {
        model_config = qwen;
        pid = 41;
        status = running;
        start_time = 5;
        crash_count = 0;
      }))
    × (w.signalled ≡ [])
    × (first_config w ≡ some llama)
stale_launcher_claims_example =
    stale_launcher_claims all_there two_models llama qwen 6 40 5 llama_listed qwen_listed
      llama_valid qwen_valid

start_model_lem_example :
    ((c : ModelConfig)
      → Startable all_there before.manager "qwen" c
      → ((start_model all_there "qwen" 5 before).1 ≡ none)
        × Started before (start_model all_there "qwen" 5 before).0 c 5)
    × (((c : ModelConfig) → ¬ (Startable all_there before.manager "qwen" c))
        → (e : ManagerError) × (start_model all_there "qwen" 5 before ≡ (before, some e)))
start_model_lem_example = start_model_lem all_there "qwen" 5 before

qwen_is_Startable : Startable all_there before.manager "qwen" qwen
unfolding boot new lookup
qwen_is_Startable = (refl, refl, qwen_valid)

abbrev live_server : RunningServer
live_server = record {
  model_config = llama;
  pid = 41;
  status = running;
  start_time = 5;
  crash_count = 0;
}

-- A server that runs, with nothing else in the world.
abbrev serving : World
serving = record {
  manager = record {
    configs = two_models;
    server = some live_server;
    cancel_func = none;
    max_retries = 6;
    stop_closed = false;
  };
  launchers = [];
  stoppers = [];
  processes = 41 ∷ [];
  started = 41 ∷ [];
  signalled = [];
  panicked = false;
}

stop_model_lem_example :
    let w' = run all_there serving (stop "llama" ∷ rest_of_stop 0) in
    (w'.manager.server ≡ none)
    × (w'.launchers ≡ cancel none [])
    × (w'.signalled ≡ 41 ∷ [])
    × (w'.manager.configs ≡ two_models)
stop_model_lem_example =
    stop_model_lem all_there serving "llama" live_server refl refl refl (inr refl)

-- Formats that tell the default port from every other number.
abbrev show_int : ℤ → String
show_int z = if ltb_ℤ (pos 8080) z then "8081" else "0"

abbrev show_float : Float64 → String
show_float x = "1.000000"

llama_port : routable_port llama ≡ some 8081
unfolding routable_port configured_port
llama_port = refl

build_command-routable_port_example :
    (front rest : List String) × (build_command show_int show_float all_there false llama
      ≡ front ++ "--port" ∷ show_int (pos 8081) ∷ rest)
build_command-routable_port_example =
    build_command-routable_port show_int show_float all_there false llama 8081 refl (inl refl)
      llama_port
