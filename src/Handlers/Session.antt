-- ===== src/Handlers/Session.antt =====
-- handlers/handlers.go: what a client sees that starts a model, looks and stops it.
use llm_server_manager.Base.{
  ◌≡◌, refl, ◌∙◌, ◌≢◌, inr, eq_iff, Bool, false, none, some, List, ◌∷◌, String, ℕ, lookup, length,
  arith,
}
use llm_server_manager.Models.{ModelConfig, RunningServer, starting}
use llm_server_manager.Manager.Validate.{validate_start}
use llm_server_manager.Manager.State.{
  admit_start, begin_start, get_current_server, is_running, is_stopping,
}
use llm_server_manager.Manager.World.{
  World, start_model, stop_model, stop, run, step, live_step, Event,
}
use llm_server_manager.Manager.StopCall.{rest_of_stop}
use llm_server_manager.Manager.Calls.{stop_model_lem, begin_stop_taken}
use llm_server_manager.Manager.Cases.{launched}
use llm_server_manager.Handlers.Endpoints.{
  ok, current_server, nothing_runs, start_endpoint, answer_start, stop_endpoint, answer_stop,
  running_endpoint,
}

-- The record that StartModel makes.
abbrev pub started_server : ModelConfig → ℕ → RunningServer
started_server c now = record {
  model_config = c;
  pid = 0;
  status = starting;
  start_time = now;
  crash_count = 0;
}

current_starting :
    (w : World) (s : RunningServer)
    → w.manager.server ≡ some s
    → is_running s.status ≡ false
    → current_server w ≡ (w, some s)
unfolding get_current_server
current_starting w s e h = ground arith

running_starting :
    (w : World) (s : RunningServer)
    → w.manager.server ≡ some s
    → is_running s.status ≡ false
    → running_endpoint w ≡ (w, ok (some s))
unfolding running_endpoint get_current_server
running_starting w s e h = ground arith

running_nothing :
    (w : World)
    → w.manager.server ≡ none
    → running_endpoint w ≡ (
      w,
      record { status_code = 200; success = false; failure = some nothing_runs; server = none },
    )
unfolding running_endpoint get_current_server
running_nothing w e = ground arith

stop_run :
    (missing : String → Bool) (name : String) (w : World) (es : List Event)
    → w.panicked ≡ false
    → run missing w (stop name ∷ es) ≡ run missing (stop_model name w).0 es
unfolding run step live_step
stop_run missing name w es alive = ground arith

stop_taken :
    (missing : String → Bool) (name : String) (w : World) (s : RunningServer)
    → w.panicked ≡ false
    → name ≢ ""
    → w.manager.server ≡ some s
    → is_stopping s.status ≡ false
    → s.model_config.name ≡ name
    → stop_endpoint missing name w
      ≡ (run missing w (stop name ∷ rest_of_stop (length w.stoppers)), ok none)
unfolding stop_endpoint answer_stop stop_model
stop_taken missing name w s alive named e live same = ground (
  arith,
  eq_iff name "",
  begin_stop_taken w.manager name s e live (inr same),
  stop_run missing name w (rest_of_stop (length w.stoppers)) alive,
)

module _ (missing : String → Bool) (name : String) (now : ℕ) (w : World) (c : ModelConfig)
    (alive : w.panicked ≡ false) (free : w.manager.server ≡ none)
    (found : lookup name w.manager.configs ≡ some c) (own : c.name ≡ name)
    (valid : validate_start missing c ≡ none) (named : name ≢ "") where
  start_taken :
      start_endpoint missing name now w ≡ (launched w c now, ok (some (started_server c now)))
  unfolding start_endpoint answer_start start_model admit_start begin_start get_current_server
  start_taken = ground (arith, eq_iff name "")

  launched_server : (launched w c now).manager.server ≡ some (started_server c now)
  unfolding begin_start
  launched_server = refl

  launched-configs : (launched w c now).manager.configs ≡ w.manager.configs
  unfolding begin_start
  launched-configs = refl

  -- The world once the model was stopped again.
  abbrev stopped : World
  stopped = run missing (launched w c now) (stop name ∷ rest_of_stop (length w.stoppers))

  stopped-facts :
      (stopped.manager.server ≡ none)
      × (stopped.signalled ≡ w.signalled)
      × (stopped.manager.configs ≡ w.manager.configs)
  stopped-facts =
      let h =
        stop_model_lem missing (launched w c now) name (started_server c now) alive launched_server
          refl (inr own) in
      (h.0, h.2, h.3 ∙ launched-configs)

  -- In a program that has not panicked and with no server on record, StartModel for a configured, valid
  -- model answers 200 with that model as starting, GetRunningModel then answers the same, StopModel
  -- for it 200, and GetRunningModel then that nothing runs. No process is killed, and the configurations
  -- are as before. No launcher runs in between.
  pub session_lem :
      let (w1, r1) = start_endpoint missing name now w in
      let (w2, r2) = running_endpoint w1 in
      let (w3, r3) = stop_endpoint missing name w2 in
      let (w4, r4) = running_endpoint w3 in
      (r1 ≡ ok (some (started_server c now)))
      × (r2 ≡ r1)
      × (r3 ≡ ok none)
      × (r4.success ≡ false)
      × (w4.manager.server ≡ none)
      × (w4.signalled ≡ w.signalled)
      × (w4.manager.configs ≡ w.manager.configs)
  session_lem = rw (start_taken) (
      rw (running_starting (launched w c now) (started_server c now) launched_server refl) (
        rw
          (stop_taken missing name (launched w c now) (started_server c now) alive named
            launched_server refl own)
          (rw (running_nothing stopped stopped-facts.0)
            (refl, refl, refl, refl, stopped-facts.0, stopped-facts.1, stopped-facts.2))))
