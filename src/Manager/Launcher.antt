-- ===== src/Manager/Launcher.antt =====
-- manager/manager.go: launchServer, the goroutine that StartModel starts, as a machine whose `Stage`
-- names the place between two critical sections. A stage carries what the local variables hold there.
use llm_server_manager.Base.{Bool, false, ◌&&◌, if◌then◌else◌, ℕ, ◌+◌, ltb, leb}
use llm_server_manager.Models.{ModelConfig}

pub data Stage : Type 0 where
  -- before the status is set
  entered : Stage
  -- at the head of the loop
  looping : Stage
  -- the command is built, before cmd.Start
  spawning : Stage
  -- cmd.Start returned a PID
  spawned : ℕ → Stage
  -- the context was still live after the start, before the claim
  claiming : ℕ → Stage
  -- in cmd.Wait
  waiting : ℕ → Stage
  -- cmd.Wait returned, with an error or not
  exited : ℕ → Bool → Stage
  -- a restart was decided, before the status is set
  restarting : ℕ → Stage
  -- in time.Sleep, for so many seconds
  sleeping : ℕ → Stage
  -- before the last clearServerStateIfPIDMatches
  clearing : ℕ → Stage
  finished : Stage

-- `starts` counts the processes that the launcher has started; the program does not keep it.
pub record Launcher : Type 0 where
  pub config : ModelConfig
  pub cancelled : Bool
  pub stage : Stage
  pub crash_count : ℕ
  pub registered : ℕ
  pub starts : ℕ

unfoldable pub new_launcher : ModelConfig → Launcher
new_launcher c = record {
  config = c;
  cancelled = false;
  stage = entered;
  crash_count = 0;
  registered = 0;
  starts = 0;
}

-- Seconds to wait before restart number `n`.
unfoldable pub restart_delay : ℕ → ℕ
restart_delay n = if ltb 10 n then 10 else n

-- What follows cmd.Wait: stop if the context is done, restart after an error while retries are
-- left, and otherwise clear the state.
unfoldable pub after_exit : ℕ → ℕ → Bool → Launcher → Launcher
after_exit max_retries pid failed l =
    if l.cancelled
    then record l { stage = clearing pid }
    else if failed
    then (let crashes = l.crash_count + 1 in
        if ltb 0 max_retries && leb crashes max_retries
        then record l { crash_count = crashes; stage = restarting pid }
        else record l { crash_count = crashes; stage = clearing pid })
    else record l { stage = clearing pid }
