-- ===== src/Manager/Races.antt =====
-- manager/manager.go: two interleavings that the code does not guard against. A launcher takes the
-- mutex for the first time only after StartModel has released it, and it may be behind a StopModel.
use llm_server_manager.Base.{
  ◌≡◌, Bool, true, Option, none, some, List, [], ◌∷◌, ◌++◌, String, eq_refl, ℕ, suc, lookup,
  get_elem?, arith,
}
use mathlib.Core.Option
use llm_server_manager.Models.{ModelConfig, running}
use llm_server_manager.Manager.Validate.{validate_start}
use llm_server_manager.Manager.State.{
  new, admit_start, begin_start, begin_stop, clear_if_pid_matches, claim,
}
use llm_server_manager.Manager.Launcher.{new_launcher}
use llm_server_manager.Manager.World.{
  World, Event, start, stop, launch, proceed, start_returns, boot, cancel, start_model, stop_model,
  stopper_step, launcher_step, live_step, step, run,
}
use llm_server_manager.Manager.StopCall.{rest_of_stop}

abbrev pub stop_at_once : ModelConfig → ℕ → List Event
stop_at_once c now = start c.name now ∷ stop c.name ∷ (rest_of_stop 0 ++ launch 0 proceed ∷ [])

first_start : Unit {0}
unfolding run step live_step start_model stop_model stopper_step launcher_step boot begin_start
    begin_stop clear_if_pid_matches claim cancel new_launcher new admit_start
first_start = tt

-- A configured model that passes the checks is started and stopped before its launcher runs: when the
-- launcher sets the status of the server there is no server any more, and the program ends by a nil
-- dereference.
pub start_stop_panics :
    (missing : String → Bool) (configs : List (String × ModelConfig)) (c : ModelConfig)
    (retries now : ℕ)
    → lookup c.name configs ≡ some c
    → validate_start missing c ≡ none
    → (run missing (boot (new configs retries)) (stop_at_once c now)).panicked ≡ true
unfolding first_start
start_stop_panics missing configs c retries now q v = ground (arith, eq_refl c.name)

-- The configuration that launcher 0 was started with.
abbrev pub first_config : World → Option ModelConfig
first_config w = Option.map (λ l. l.config) (get_elem? w.launchers 0)

-- Start `c`, run its launcher until its process is up and its context was found live, stop it, start
-- `d`, and let the first launcher go on.
abbrev pub overtaken : ModelConfig → ModelConfig → ℕ → ℕ → List Event
overtaken c d pid now =
    start c.name now
    ∷ launch 0 proceed
    ∷ launch 0 proceed
    ∷ launch 0 (start_returns pid)
    ∷ launch 0 proceed
    ∷ stop c.name
    ∷ (rest_of_stop 0 ++ start d.name now ∷ launch 0 proceed ∷ [])

-- Of two configured models that pass the checks, `c` is started and stopped, and then `d` is started.
-- The cancelled launcher of `c` claims the server that was recorded for `d`: the manager then reports
-- `d` as running under the PID of the process that was started for `c`, and no signal was sent.
pub stale_launcher_claims :
    (missing : String → Bool) (configs : List (String × ModelConfig)) (c d : ModelConfig)
    (retries pid now : ℕ)
    → lookup c.name configs ≡ some c
    → lookup d.name configs ≡ some d
    → validate_start missing c ≡ none
    → validate_start missing d ≡ none
    → let w = run missing (boot (new configs retries)) (overtaken c d (suc pid) now) in
      (w.manager.server
        ≡ some (record {
          model_config = d;
          pid = suc pid;
          status = running;
          start_time = now;
          crash_count = 0;
        }))
      × (w.signalled ≡ [])
      × (first_config w ≡ some c)
unfolding first_start
stale_launcher_claims missing configs c d retries pid now qc qd vc vd =
    (ground (arith, eq_refl c.name), ground (arith, eq_refl c.name), ground (arith, eq_refl c.name))
