-- ===== src/Handlers/Endpoints.antt =====
-- handlers/handlers.go: StartModel, StopModel and GetRunningModel, over the manager's world. A call of an
-- endpoint runs without interruption.
use llm_server_manager.Base.{
  Bool, true, false, Option, none, some, String, ◌==◌, ℕ, if◌then◌else◌, length,
}
use llm_server_manager.Models.{RunningServer}
use llm_server_manager.Manager.State.{ManagerError, get_current_server}
use llm_server_manager.Manager.World.{World, start_model, stop_model, run}
use llm_server_manager.Manager.StopCall.{rest_of_stop}

pub data Reason : Type 0 where
  name_required nothing_runs : Reason
  manager_error : ManagerError → Reason

-- The status code and the envelope: `failure` is the message of one that reports no success.
pub record Response : Type 0 where
  pub status_code : ℕ
  pub success : Bool
  pub failure : Option Reason
  pub server : Option RunningServer

abbrev bad_request : Reason → Response
bad_request r = record { status_code = 400; success = false; failure = some r; server = none }

abbrev pub ok : Option RunningServer → Response
ok s = record { status_code = 200; success = true; failure = none; server = s }

-- GetCurrentServer, on the world.
abbrev pub current_server : World → World × Option RunningServer
current_server w =
    let (m, current) = get_current_server w.processes w.manager in
    (record w { manager = m }, current)

unfoldable pub answer_start : World × Option ManagerError → World × Response
answer_start (w, some e) = (w, bad_request (manager_error e))
answer_start (w, none) = ((current_server w).0, ok (current_server w).1)

-- StartModel.
unfoldable pub start_endpoint : (String → Bool) → String → ℕ → World → World × Response
unfolding answer_start
start_endpoint missing name now w =
    if name == ""
    then (w, bad_request name_required)
    else answer_start (start_model missing name now w)

unfoldable pub answer_stop : (String → Bool) → ℕ → World × Option ManagerError → World × Response
answer_stop missing k (w, some e) = (w, bad_request (manager_error e))
answer_stop missing k (w, none) = (run missing w (rest_of_stop k), ok none)

-- StopModel.
unfoldable pub stop_endpoint : (String → Bool) → String → World → World × Response
unfolding answer_stop
stop_endpoint missing name w =
    if name == ""
    then (w, bad_request name_required)
    else answer_stop missing (length w.stoppers) (stop_model name w)

-- GetRunningModel.
unfoldable pub running_endpoint : World → World × Response
running_endpoint w =
    let (w', current) = current_server w in
    (
      w',
      elim current [
        | none ↦ record {
          status_code = 200;
          success = false;
          failure = some nothing_runs;
          server = none;
        }
        | some s ↦ ok (some s)
      ],
    )
