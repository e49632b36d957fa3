-- ===== src/Manager/Signals.antt =====
-- manager/manager.go: which process groups are killed, whatever the calls and launchers interleave.
use llm_server_manager.Base.{
  ◌≡◌, inr, Bool, true, some, List, ◌∷◌, String, ℕ, ◌<◌, eqb, any, set, All, All-get_elem?, arith,
  if_cases, option_cases, subst, ltb, ◌&&◌, not, keep,
}
use llm_server_manager.Models.{ModelConfig, RunningServer, starting}
use llm_server_manager.Manager.State.{
  Manager, new, is_process_alive, clear_if_pid_matches, claim, mark_restarting, get_current_server,
  reload_configs,
}
use llm_server_manager.Manager.Launcher.{
  Stage, entered, looping, spawning, spawned, claiming, waiting, exited, restarting, sleeping,
  clearing, finished, Launcher, after_exit, restart_delay,
}
use llm_server_manager.Manager.World.{
  World, boot, Choice, start_fails, start_returns, wait_returns, Event, start, stop, poll, reload,
  launch, stopper, launcher_step, live_step, run,
}
use llm_server_manager.Manager.Cases.{launch_cases, stopper_cases, run_inv}
use llm_server_manager.Manager.Known.{
  Known, ServerKnown, StageKnown, LauncherKnown, StopperKnown, Tracks,
}
use llm_server_manager.Manager.Tracks.{
  start_model-Tracks, stop_model-Tracks, clear-Known, stopper_step-Tracks, Tracks-at, Tracks-signal,
  Tracks-manager, mark_restarting-Known, get_current_server-Known, claim-Known, spawned-Tracks,
  after_exit-Known,
}

abbrev with_status : RunningServer → Manager → Manager
with_status s m = record m { server = some (record s { status = starting }) }

launcher_step-Tracks :
    (i : ℕ) (l : Launcher) (s : Stage) (ch : Choice) (w : World)
    → StageKnown w.started s
    → Known w.started l.registered
    → LauncherKnown w.started l
    → Tracks w
    → Tracks (launcher_step i l s ch w)
unfolding launcher_step
launcher_step-Tracks i l entered ch w o r k t =
    option_cases Tracks w.manager.server
      (λ _. record {
        server = t.server;
        launchers = t.launchers;
        stoppers = t.stoppers;
        signals = t.signals;
      })
      λ s e.
        Tracks-at i (record l { stage = looping }) (record w { manager = with_status s w.manager })
          (tt, r)
          (Tracks-manager (with_status s w.manager) w (subst (ServerKnown w.started) e t.server) t)
launcher_step-Tracks i l looping ch w o r k t =
    if_cases (λ s. Tracks (record w { launchers = set w.launchers i (record l { stage = s }) }))
      l.cancelled (λ _. Tracks-at i (record l { stage = clearing l.registered }) w (r, r) t)
      (λ _. Tracks-at i (record l { stage = spawning }) w (tt, r) t)
launcher_step-Tracks i l spawning start_fails w o r k t =
    Tracks-at i (record l { stage = clearing l.registered }) w (r, r) t
launcher_step-Tracks i l spawning (start_returns pid) w o r k t =
    if_cases Tracks (ltb 0 pid && not (is_process_alive w.processes pid))
      (λ e. spawned-Tracks i pid l w (ground arith) k t) (λ _. t)
launcher_step-Tracks i l spawning _ w o r k t = t
launcher_step-Tracks i l (spawned pid) ch w o r k t =
    if_cases Tracks l.cancelled
      (λ _.
        Tracks-at i (record l { stage = clearing pid }) (record w { signalled = pid ∷ w.signalled })
          (inr o, r) (Tracks-signal pid w o t))
      (λ _. Tracks-at i (record l { stage = claiming pid }) w (o, r) t)
launcher_step-Tracks i l (claiming pid) ch w o r k t =
    option_cases Tracks (claim pid l.registered l.crash_count w.manager)
      (λ _.
        Tracks-at i (record l { stage = finished }) (record w { signalled = pid ∷ w.signalled })
          (tt, r) (Tracks-signal pid w o t))
      λ m e.
        Tracks-at i (record l { stage = waiting pid; registered = pid }) (record w { manager = m })
          (o, inr o)
          (Tracks-manager m w (claim-Known w.started pid l.registered l.crash_count w.manager m o e)
            t)
launcher_step-Tracks i l (waiting pid) (wait_returns failed) w o r k t =
    Tracks-at i (record l { stage = exited pid failed })
      (record w { processes = keep (λ q. not (eqb q pid)) w.processes }) (o, r)
      (record {
        server = t.server;
        launchers = t.launchers;
        stoppers = t.stoppers;
        signals = t.signals;
      })
launcher_step-Tracks i l (waiting pid) _ w o r k t = t
launcher_step-Tracks i l (exited pid failed) ch w o r k t =
    Tracks-at i (after_exit w.manager.max_retries pid failed l) w
      (after_exit-Known w.started w.manager.max_retries pid failed l o k) t
launcher_step-Tracks i l (restarting pid) ch w o r k t =
    Tracks-at i (record l { stage = sleeping (restart_delay l.crash_count) })
      (record w { manager = mark_restarting pid w.manager }) (tt, r)
      (Tracks-manager (mark_restarting pid w.manager) w
        (mark_restarting-Known w.started pid w.manager t.server) t)
launcher_step-Tracks i l (sleeping n) ch w o r k t =
    Tracks-at i (record l { stage = looping }) w (tt, r) t
launcher_step-Tracks i l (clearing pid) ch w o r k t =
    Tracks-at i (record l { stage = finished })
      (record w { manager = clear_if_pid_matches pid w.manager }) (tt, r)
      (Tracks-manager (clear_if_pid_matches pid w.manager) w
        (clear-Known w.started pid w.manager t.server) t)
launcher_step-Tracks i l finished ch w o r k t = t

live_step-Tracks :
    (missing : String → Bool) (w : World) (e : Event) → Tracks w → Tracks (live_step missing w e)
unfolding live_step
live_step-Tracks missing w (start name now) t = start_model-Tracks missing name now w t
live_step-Tracks missing w (stop name) t = stop_model-Tracks name w t
live_step-Tracks missing w poll t =
    Tracks-manager (get_current_server w.processes w.manager).0 w
      (get_current_server-Known w.started w.processes w.manager t.server) t
live_step-Tracks missing w (reload configs) t =
    Tracks-manager (reload_configs configs w.manager) w (unfold reload_configs in t.server) t
live_step-Tracks missing w (launch i ch) t = launch_cases Tracks missing i ch w t λ l e.
    let k = All-get_elem? (LauncherKnown w.started) w.launchers i t.launchers e in
    launcher_step-Tracks i l l.stage ch w k.0 k.1 k t
live_step-Tracks missing w (stopper i) t = stopper_cases Tracks missing i w t λ s e.
    stopper_step-Tracks i s w (All-get_elem? (StopperKnown w.started) w.stoppers i t.stoppers e) t

boot-Tracks :
    (configs : List (String × ModelConfig)) (retries : ℕ) → Tracks (boot (new configs retries))
unfolding boot new
boot-Tracks configs retries = record { server = tt; launchers = tt; stoppers = tt; signals = tt }

-- Whatever calls, polls, reloads, crashes and restarts interleave with the launchers, every process
-- group that was sent SIGKILL is led by a process that some launcher had started by then. It is
-- never group 0, which is the manager's own.
pub run-signals_owned :
    (missing : String → Bool) (configs : List (String × ModelConfig)) (retries : ℕ)
    (es : List Event)
    → let w = run missing (boot (new configs retries)) es in
      All (λ p. (0 < p) × (any (eqb p) w.started ≡ true)) w.signalled
run-signals_owned missing configs retries es =
    (run_inv Tracks missing (live_step-Tracks missing) (boot (new configs retries)) es
      (boot-Tracks configs retries)).signals
