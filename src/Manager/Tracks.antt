-- ===== src/Manager/Tracks.antt =====
-- manager/manager.go: the PIDs that the manager, its launchers and its calls of StopModel hold are
-- known, and what that means for the single operations.
use llm_server_manager.Base.{
  ◌≡◌, refl, inl, inr, Bool, Option, none, some, List, [], ◌∷◌, String, ℕ, ◌<◌, set, All,
  All-append, All-set, All-modify, arith, if_cases, ltb, ◌+◌,
}
use llm_server_manager.Manager.State.{
  Manager, begin_start, begin_stop, clear_if_pid_matches, claim, mark_restarting,
  get_current_server,
}
use llm_server_manager.Manager.Launcher.{spawned, Launcher, new_launcher, after_exit}
use llm_server_manager.Manager.World.{
  World, Stopper, cancelling, killing, forgetting, returned, cancel, start_model, stop_model,
  stopper_step,
}
use llm_server_manager.Manager.Cases.{start_model_cases, stop_model_cases}
use llm_server_manager.Manager.Known.{
  Owned, Known, ServerKnown, LauncherKnown, StopperKnown, Tracks, Known-more, Tracks-more,
}

pub cancel-Known :
    (ps : List ℕ) (c : Option ℕ) (ls : List Launcher)
    → All (LauncherKnown ps) ls
    → All (LauncherKnown ps) (cancel c ls)
unfolding cancel
cancel-Known ps none ls h = h
cancel-Known ps (some i) ls h = All-modify (LauncherKnown ps) i _ ls (λ l k. k) h

pub start_model-Tracks :
    (missing : String → Bool) (name : String) (now : ℕ) (w : World)
    → Tracks w
    → Tracks (start_model missing name now w).0
unfolding begin_start new_launcher
start_model-Tracks missing name now w t = start_model_cases Tracks missing name now w t λ c q.
    record {
      server = inl refl;
      launchers =
          All-append (LauncherKnown w.started) (cancel w.manager.cancel_func w.launchers)
            (new_launcher c ∷ [])
            (cancel-Known w.started w.manager.cancel_func w.launchers t.launchers)
            ((tt, inl refl), tt);
      stoppers = t.stoppers;
      signals = t.signals;
    }

pub begin_stop-Known :
    (ps : List ℕ) (m m' : Manager) (name : String) (pid : ℕ)
    → begin_stop m name ≡ inr (m', pid)
    → ServerKnown ps m.server
    → ServerKnown ps m'.server × Known ps pid
unfolding begin_stop
begin_stop-Known ps m m' name pid e h = ground arith

pub stop_model-Tracks : (name : String) (w : World) → Tracks w → Tracks (stop_model name w).0
stop_model-Tracks name w t = stop_model_cases Tracks name w t λ m pid q.
    let (known, at) = begin_stop-Known w.started w.manager m name pid q t.server in
    record {
      server = known;
      launchers = t.launchers;
      stoppers =
          All-append (StopperKnown w.started) w.stoppers (cancelling pid ∷ []) t.stoppers (at, tt);
      signals = t.signals;
    }

pub clear-Known :
    (ps : List ℕ) (pid : ℕ) (m : Manager)
    → ServerKnown ps m.server
    → ServerKnown ps (clear_if_pid_matches pid m).server
unfolding clear_if_pid_matches
clear-Known ps pid m h = ground arith

pub stopper_step-Tracks :
    (i : ℕ) (s : Stopper) (w : World)
    → StopperKnown w.started s
    → Tracks w
    → Tracks (stopper_step i s w)
unfolding stopper_step
stopper_step-Tracks i (cancelling pid) w k t = record {
  server = t.server;
  launchers = cancel-Known w.started w.manager.cancel_func w.launchers t.launchers;
  stoppers = All-set (StopperKnown w.started) w.stoppers i (killing pid) t.stoppers k;
  signals = t.signals;
}
stopper_step-Tracks i (killing pid) w k t =
    let kept = All-set (StopperKnown w.started) w.stoppers i (forgetting pid) t.stoppers tt in
    if_cases (λ v. Tracks (record v { stoppers = set v.stoppers i (forgetting pid) })) (ltb 0 pid)
      (λ p. record {
        server = t.server;
        launchers = t.launchers;
        stoppers = kept;
        signals = (ground arith, t.signals);
      })
      (λ p. record {
        server = t.server;
        launchers = t.launchers;
        stoppers = kept;
        signals = t.signals;
      })
stopper_step-Tracks i (forgetting pid) w k t = record {
  server = clear-Known w.started pid w.manager t.server;
  launchers = t.launchers;
  stoppers = All-set (StopperKnown w.started) w.stoppers i returned t.stoppers tt;
  signals = t.signals;
}
stopper_step-Tracks i returned w k t = t

-- A launcher that moves to another stage keeps what is known of it.
pub Tracks-at :
    (i : ℕ) (l : Launcher) (w : World)
    → LauncherKnown w.started l
    → Tracks w
    → Tracks (record w { launchers = set w.launchers i l })
Tracks-at i l w k t = record {
  server = t.server;
  launchers = All-set (LauncherKnown w.started) w.launchers i l t.launchers k;
  stoppers = t.stoppers;
  signals = t.signals;
}

pub Tracks-signal :
    (pid : ℕ) (w : World)
    → Owned w.started pid
    → Tracks w
    → Tracks (record w { signalled = pid ∷ w.signalled })
Tracks-signal pid w o t = record {
  server = t.server;
  launchers = t.launchers;
  stoppers = t.stoppers;
  signals = (o, t.signals);
}

-- Another manager whose server's PID is known too.
pub Tracks-manager :
    (m : Manager) (w : World)
    → ServerKnown w.started m.server
    → Tracks w
    → Tracks (record w { manager = m })
Tracks-manager m w k t = record {
  server = k;
  launchers = t.launchers;
  stoppers = t.stoppers;
  signals = t.signals;
}

pub mark_restarting-Known :
    (ps : List ℕ) (pid : ℕ) (m : Manager)
    → ServerKnown ps m.server
    → ServerKnown ps (mark_restarting pid m).server
unfolding mark_restarting
mark_restarting-Known ps pid m h = ground arith

pub get_current_server-Known :
    (ps alive : List ℕ) (m : Manager)
    → ServerKnown ps m.server
    → ServerKnown ps (get_current_server alive m).0.server
unfolding get_current_server
get_current_server-Known ps alive m h = ground arith

pub claim-Known :
    (ps : List ℕ) (pid registered crashes : ℕ) (m m' : Manager)
    → Owned ps pid
    → claim pid registered crashes m ≡ some m'
    → ServerKnown ps m'.server
unfolding claim
claim-Known ps pid registered crashes m m' o e = ground arith

pub spawned-Tracks :
    (i pid : ℕ) (l : Launcher) (w : World)
    → 0 < pid
    → LauncherKnown w.started l
    → Tracks w
    → Tracks (record w {
      launchers = set w.launchers i (record l { stage = spawned pid; starts = l.starts + 1 });
      processes = pid ∷ w.processes;
      started = pid ∷ w.started;
    })
spawned-Tracks i pid l w p k t =
    Tracks-at i (record l { stage = spawned pid; starts = l.starts + 1 })
      (record w { processes = pid ∷ w.processes; started = pid ∷ w.started })
      ((p, ground arith), Known-more pid w.started l.registered k.1) (Tracks-more pid w t)

pub after_exit-Known :
    (ps : List ℕ) (retries pid : ℕ) (failed : Bool) (l : Launcher)
    → Owned ps pid
    → LauncherKnown ps l
    → LauncherKnown ps (after_exit retries pid failed l)
unfolding after_exit
after_exit-Known ps retries pid failed l o k = ground arith
