-- ===== src/Manager/World.antt =====
-- manager/manager.go: the manager, its launchers, the calls of StopModel in progress and the
-- operating system's processes, stepped one critical section at a time in any order. An event that
-- cannot happen in a state leaves it as it is.
use llm_server_manager.Base.{
  Bool, true, false, ◌&&◌, not, Option, none, some, List, [], ◌∷◌, ◌++◌, String, if◌then◌else◌, ℕ,
  ◌+◌, eqb, ltb, length, get_elem?, set, modify, keep, inl, inr,
}
use llm_server_manager.Models.{ModelConfig, starting}
use llm_server_manager.Manager.State.{
  Manager, ManagerError, admit_start, begin_start, begin_stop, clear_if_pid_matches, claim,
  mark_restarting, get_current_server, reload_configs, is_process_alive,
}
use llm_server_manager.Manager.Launcher.{
  Stage, entered, looping, spawning, spawned, claiming, waiting, exited, restarting, sleeping,
  clearing, finished, Launcher, new_launcher, restart_delay, after_exit,
}

-- A call of StopModel that has marked the server, with the PID that it read.
pub data Stopper : Type 0 where
  cancelling killing forgetting : ℕ → Stopper
  returned : Stopper

-- `processes` are those that exist and are not reaped; `signalled` are the process groups that
-- were sent SIGKILL, newest first; `started` are the PIDs that cmd.Start ever returned. `panicked`
-- is set by a nil dereference, which ends the whole program.
pub record World : Type 0 where
  pub manager : Manager
  pub launchers : List Launcher
  pub stoppers : List Stopper
  pub processes : List ℕ
  pub started : List ℕ
  pub signalled : List ℕ
  pub panicked : Bool

unfoldable pub boot : Manager → World
boot m = record {
  manager = m;
  launchers = [];
  stoppers = [];
  processes = [];
  started = [];
  signalled = [];
  panicked = false;
}

-- The environment's part in a launcher's step: what cmd.Start and cmd.Wait return.
pub data Choice : Type 0 where
  proceed start_fails : Choice
  start_returns : ℕ → Choice
  wait_returns : Bool → Choice

pub data Event : Type 0 where
  start : String → ℕ → Event
  stop : String → Event
  poll : Event
  reload : List (String × ModelConfig) → Event
  launch : ℕ → Choice → Event
  stopper : ℕ → Event

-- A context's cancel function; the context of New belongs to no launcher.
unfoldable pub cancel : Option ℕ → List Launcher → List Launcher
cancel none ls = ls
cancel (some i) ls = modify i (λ l. record l { cancelled = true }) ls

-- StartModel: the old context is cancelled and a launcher with a new one is added.
unfoldable pub start_model : (String → Bool) → String → ℕ → World → World × Option ManagerError
start_model missing name now w = elim (admit_start missing w.manager name) [
  | inl e ↦ (w, some e)
  | inr c ↦ (
    record w {
      manager = begin_start w.manager c (length w.launchers) now;
      launchers = cancel w.manager.cancel_func w.launchers ++ new_launcher c ∷ [];
    },
    none,
  )
]

-- StopModel up to its unlock.
unfoldable pub stop_model : String → World → World × Option ManagerError
stop_model name w = elim (begin_stop w.manager name) [
  | inl e ↦ (w, some e)
  | inr (m, pid) ↦ (record w { manager = m; stoppers = w.stoppers ++ cancelling pid ∷ [] }, none)
]

-- SIGKILL to the group of `pid`. Its process stays until it is waited for.
abbrev pub kill_group : ℕ → World → World
kill_group pid w = record w { signalled = pid ∷ w.signalled }

abbrev set_stopper : ℕ → Stopper → World → World
set_stopper i s w = record w { stoppers = set w.stoppers i s }

-- The rest of StopModel: cancel whatever context the manager holds now, kill, clear.
unfoldable pub stopper_step : ℕ → Stopper → World → World
stopper_step i (cancelling pid) w =
    set_stopper i (killing pid) (record w { launchers = cancel w.manager.cancel_func w.launchers })
stopper_step i (killing pid) w =
    set_stopper i (forgetting pid) (if ltb 0 pid then kill_group pid w else w)
stopper_step i (forgetting pid) w =
    set_stopper i returned (record w { manager = clear_if_pid_matches pid w.manager })
stopper_step i returned w = w

abbrev pub set_launcher : ℕ → Launcher → World → World
set_launcher i l w = record w { launchers = set w.launchers i l }

abbrev pub to_stage : ℕ → Launcher → Stage → World → World
to_stage i l s w = set_launcher i (record l { stage = s }) w

-- The first critical section: the server's status is set without a test for nil.
enter : ℕ → Launcher → World → World
enter i l w = elim w.manager.server [
  | none ↦ record w { panicked = true }
  | some s ↦
      to_stage i l looping
        (record w { manager = record w.manager { server = some (record s { status = starting }) } })
]

-- cmd.Start. A PID is positive and not in use.
spawn : ℕ → Launcher → Choice → World → World
spawn i l start_fails w = to_stage i l (clearing l.registered) w
spawn i l (start_returns pid) w =
    if ltb 0 pid && not (is_process_alive w.processes pid)
    then set_launcher i (record l { stage = spawned pid; starts = l.starts + 1 })
        (record w { processes = pid ∷ w.processes; started = pid ∷ w.started })
    else w
spawn i l _ w = w

-- The claim of the server, or the end of an orphan.
take_server : ℕ → Launcher → ℕ → World → World
take_server i l pid w = elim (claim pid l.registered l.crash_count w.manager) [
  | some m ↦
      set_launcher i (record l { stage = waiting pid; registered = pid }) (record w { manager = m })
  | none ↦ to_stage i l finished (kill_group pid w)
]

-- cmd.Wait returns: the process is reaped.
reap : ℕ → Launcher → ℕ → Choice → World → World
reap i l pid (wait_returns failed) w =
    to_stage i l (exited pid failed)
      (record w { processes = keep (λ q. not (eqb q pid)) w.processes })
reap i l pid _ w = w

unfoldable pub launcher_step : ℕ → Launcher → Stage → Choice → World → World
unfolding enter spawn take_server reap
launcher_step i l entered ch w = enter i l w
launcher_step i l looping ch w =
    to_stage i l (if l.cancelled then clearing l.registered else spawning) w
launcher_step i l spawning ch w = spawn i l ch w
launcher_step i l (spawned pid) ch w =
    if l.cancelled
    then to_stage i l (clearing pid) (kill_group pid w)
    else to_stage i l (claiming pid) w
launcher_step i l (claiming pid) ch w = take_server i l pid w
launcher_step i l (waiting pid) ch w = reap i l pid ch w
launcher_step i l (exited pid failed) ch w =
    set_launcher i (after_exit w.manager.max_retries pid failed l) w
launcher_step i l (restarting pid) ch w =
    to_stage i l (sleeping (restart_delay l.crash_count))
      (record w { manager = mark_restarting pid w.manager })
launcher_step i l (sleeping n) ch w = to_stage i l looping w
launcher_step i l (clearing pid) ch w =
    to_stage i l finished (record w { manager = clear_if_pid_matches pid w.manager })
launcher_step i l finished ch w = w

-- One event. After a panic nothing happens any more.
unfoldable pub live_step : (String → Bool) → World → Event → World
live_step missing w (start name now) = (start_model missing name now w).0
live_step missing w (stop name) = (stop_model name w).0
live_step missing w poll = record w { manager = (get_current_server w.processes w.manager).0 }
live_step missing w (reload configs) = record w { manager = reload_configs configs w.manager }
live_step missing w (launch i ch) = elim (get_elem? w.launchers i) [
  | none ↦ w
  | some l ↦ launcher_step i l l.stage ch w
]
live_step missing w (stopper i) = elim (get_elem? w.stoppers i) [
  | none ↦ w
  | some s ↦ stopper_step i s w
]

unfoldable pub step : (String → Bool) → World → Event → World
unfolding live_step
step missing w e = if w.panicked then w else live_step missing w e

unfoldable pub run : (String → Bool) → World → List Event → World
run missing w [] = w
run missing w (e ∷ es) = run missing (step missing w e) es
