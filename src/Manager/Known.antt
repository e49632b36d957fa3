-- ===== src/Manager/Known.antt =====
-- manager/manager.go: which PIDs the manager's state, its launchers and its calls may hold, and that
-- they stay so when another process is started.
use llm_server_manager.Base.{
  ◌≡◌, ◌⊎◌, inl, inr, true, Option, none, some, List, ◌∷◌, ℕ, ◌<◌, eqb, any, All, All-mono, arith,
}
use llm_server_manager.Models.{RunningServer}
use llm_server_manager.Manager.Launcher.{
  Stage, spawned, claiming, waiting, exited, restarting, clearing, Launcher,
}
use llm_server_manager.Manager.World.{World, Stopper, cancelling, killing, forgetting, returned}

-- A PID that some launcher's cmd.Start returned.
abbrev pub Owned : List ℕ → ℕ → Type 0
Owned ps p = (0 < p) × (any (eqb p) ps ≡ true)

abbrev pub Known : List ℕ → ℕ → Type 0
Known ps p = (p ≡ 0) ⊎ Owned ps p

abbrev pub ServerKnown : List ℕ → Option RunningServer → Type 0
ServerKnown ps none = Unit
ServerKnown ps (some s) = Known ps s.pid

abbrev pub StageKnown : List ℕ → Stage → Type 0
StageKnown ps (spawned p) = Owned ps p
StageKnown ps (claiming p) = Owned ps p
StageKnown ps (waiting p) = Owned ps p
StageKnown ps (exited p failed) = Owned ps p
StageKnown ps (restarting p) = Owned ps p
StageKnown ps (clearing p) = Known ps p
StageKnown ps _ = Unit

abbrev pub LauncherKnown : List ℕ → Launcher → Type 0
LauncherKnown ps l = StageKnown ps l.stage × Known ps l.registered

abbrev pub StopperKnown : List ℕ → Stopper → Type 0
StopperKnown ps (cancelling p) = Known ps p
StopperKnown ps (killing p) = Known ps p
StopperKnown ps (forgetting p) = Unit
StopperKnown ps returned = Unit

pub record Tracks (w : World) : Type 0 where
  pub server : ServerKnown w.started w.manager.server
  pub launchers : All (LauncherKnown w.started) w.launchers
  pub stoppers : All (StopperKnown w.started) w.stoppers
  pub signals : All (Owned w.started) w.signalled

pub Owned-more : (q : ℕ) (ps : List ℕ) (p : ℕ) → Owned ps p → Owned (q ∷ ps) p
Owned-more q ps p h = ground arith

pub Known-more : (q : ℕ) (ps : List ℕ) (p : ℕ) → Known ps p → Known (q ∷ ps) p
Known-more q ps p (inl e) = inl e
Known-more q ps p (inr h) = inr (Owned-more q ps p h)

pub StageKnown-more : (q : ℕ) (ps : List ℕ) (s : Stage) → StageKnown ps s → StageKnown (q ∷ ps) s
StageKnown-more q ps (spawned p) h = Owned-more q ps p h
StageKnown-more q ps (claiming p) h = Owned-more q ps p h
StageKnown-more q ps (waiting p) h = Owned-more q ps p h
StageKnown-more q ps (exited p failed) h = Owned-more q ps p h
StageKnown-more q ps (restarting p) h = Owned-more q ps p h
StageKnown-more q ps (clearing p) h = Known-more q ps p h
StageKnown-more q ps _ h = tt

pub StopperKnown-more :
    (q : ℕ) (ps : List ℕ) (s : Stopper) → StopperKnown ps s → StopperKnown (q ∷ ps) s
StopperKnown-more q ps (cancelling p) h = Known-more q ps p h
StopperKnown-more q ps (killing p) h = Known-more q ps p h
StopperKnown-more q ps _ h = tt

pub ServerKnown-more :
    (q : ℕ) (ps : List ℕ) (s : Option RunningServer) → ServerKnown ps s → ServerKnown (q ∷ ps) s
ServerKnown-more q ps none h = tt
ServerKnown-more q ps (some s) h = Known-more q ps s.pid h

-- A step may add one PID to `started`.
pub Tracks-more :
    (q : ℕ) (w : World)
    → Tracks w
    → Tracks (record w { started = q ∷ w.started; processes = q ∷ w.processes })
Tracks-more q w t = record {
  server = ServerKnown-more q w.started w.manager.server t.server;
  launchers =
      All-mono w.launchers
        (λ l h. (StageKnown-more q w.started l.stage h.0, Known-more q w.started l.registered h.1))
        t.launchers;
  stoppers = All-mono w.stoppers (StopperKnown-more q w.started) t.stoppers;
  signals = All-mono w.signalled (Owned-more q w.started) t.signals;
}
